-- ===== src/Js/Text/Laws.antt =====
-- Laws of the string methods.
use mathlib.Core.Option
use sse_broadcast_benchmark.Common.{
  ℕ, suc, ◌+◌, ◌≤◌, ◌≡◌, refl, sym, ap, ◌∙◌, ◌↔◌, ◌≢◌, inl, inr, Bool, true, false, ◌||◌, List, [],
  ◌∷◌, ◌++◌, Option, none, some, arith, ◌==◌, ==_refl, Bool-cases, length, take,
}
use sse_broadcast_benchmark.Js.Text.{Text, eq_text, is_prefix, index_of, split, split_words, is}

pub eq_text_iff : (s t : Text) → (eq_text s t ≡ true) ↔ (s ≡ t)
unfolding eq_text
eq_text_iff [] [] = (λ _. refl, λ _. refl)
eq_text_iff [] (b ∷ t) = ground arith
eq_text_iff (a ∷ s) [] = ground arith
eq_text_iff (a ∷ s) (b ∷ t) = ground (arith, eq_text_iff s t)

pub is_iff : (o : Option Text) (t : Text) → (is o t ≡ true) ↔ (o ≡ some t)
unfolding is
is_iff none t = ground arith
is_iff (some s) t = ground (arith, eq_text_iff s t)

pub is_self : (t : Text) → is (some t) t ≡ true
is_self t = (is_iff (some t) t).1 refl

pub is-other : (s t : Text) → s ≢ t → is (some s) t ≡ false
unfolding is
is-other s t h = elim (Bool-cases (eq_text s t)) [
  | inl e ↦ absurd (h ((eq_text_iff s t).0 e))
  | inr e ↦ e
]

pub is_prefix-append : (p t : Text) → is_prefix p (p ++ t) ≡ true
unfolding is_prefix
is_prefix-append [] t = refl
is_prefix-append (a ∷ p) t = rw (==_refl a) (is_prefix-append p t)

-- Whether a text starts with p is settled by as many characters as p has.
is_prefix-extend : (p s t : Text) → length p ≤ length s → is_prefix p (s ++ t) ≡ is_prefix p s
unfolding is_prefix
is_prefix-extend [] s t h = refl
is_prefix-extend (a ∷ p) [] t h = absurd (omega arith)
is_prefix-extend (a ∷ p) (b ∷ s) t h = ground (arith, is_prefix-extend p s t)

is_prefix-length : (p s : Text) → is_prefix p s ≡ true → length p ≤ length s
unfolding is_prefix
is_prefix-length [] s h = omega arith
is_prefix-length (a ∷ p) [] h = ground arith
is_prefix-length (a ∷ p) (b ∷ s) h = ground (arith, is_prefix-length p s)

map-suc-some :
    (o : Option ℕ) (n : ℕ) → Option.map suc o ≡ some n → (m : ℕ) × (o ≡ some m) × (n ≡ suc m)
map-suc-some none n h = ground arith
map-suc-some (some m) n h = (m, refl, ground arith)

pub index_of-le : (p s : Text) (n : ℕ) → index_of p s ≡ some n → n + length p ≤ length s
unfolding index_of
index_of-le p [] n h = ground (arith, is_prefix-length p [])
index_of-le p (c ∷ s) n h = elim (Bool-cases (is_prefix p (c ∷ s))) [
  | inl here ↦ ground (arith, is_prefix-length p (c ∷ s))
  | inr later ↦
      let (m, e, n_eq) = map-suc-some (index_of p s) n (rw later at h) in
      omega (arith, index_of-le p s m e)
]

pub index_of_prefix : (p s : Text) → is_prefix p s ≡ true → index_of p s ≡ some 0
unfolding index_of
index_of_prefix p [] h = rw h
index_of_prefix p (c ∷ s) h = rw h

pub index_of_miss :
    (p : Text) (c : ℕ) (s : Text)
    → is_prefix p (c ∷ s) ≡ false
    → index_of p (c ∷ s) ≡ Option.map suc (index_of p s)
unfolding index_of
index_of_miss p c s h = rw h

is_prefix-extend_true : (p s t : Text) → is_prefix p s ≡ true → is_prefix p (s ++ t) ≡ true
is_prefix-extend_true p s t h = rw (is_prefix-extend p s t (is_prefix-length p s h)) h

-- Text that is added behind does not move the first occurrence.
pub index_of-extend : (p s t : Text) (n : ℕ) → index_of p s ≡ some n → index_of p (s ++ t) ≡ some n
unfolding index_of
index_of-extend p [] t n h = elim (Bool-cases (is_prefix p [])) [
  | inl here ↦ index_of_prefix p t (is_prefix-extend_true p [] t here) ∙ (rw here at h)
  | inr later ↦ ground arith
]
index_of-extend p (c ∷ s) t n h = elim (Bool-cases (is_prefix p (c ∷ s))) [
  | inl here ↦
      index_of_prefix p (c ∷ (s ++ t)) (is_prefix-extend_true p (c ∷ s) t here) ∙ (rw here at h)
  | inr later ↦
      let (m, e, n_eq) = map-suc-some (index_of p s) n (rw later at h) in
      let short : length p ≤ length (c ∷ s) = omega (arith, index_of-le p s m e) in
      let miss : is_prefix p (c ∷ (s ++ t)) ≡ false = is_prefix-extend p (c ∷ s) t short ∙ later in
      index_of_miss p c (s ++ t) miss
      ∙ ap (Option.map suc) (index_of-extend p s t m e)
      ∙ ap some (sym n_eq)
]

-- Where the text occurs, it stands.
pub index_of_append : (p t : Text) → index_of p (p ++ t) ≡ some 0
index_of_append p t = index_of_prefix p (p ++ t) (is_prefix-append p t)

-- The character c stands in the text.
unfoldable pub has : ℕ → Text → Bool
has c [] = false
has c (d ∷ s) = d == c || has c s

pub has-append : (c : ℕ) (s t : Text) → has c (s ++ t) ≡ (has c s || has c t)
unfolding has
has-append c [] t = refl
has-append c (d ∷ s) t = ground (arith, has-append c s t)

is_prefix-has : (c : ℕ) (p s : Text) → has c p ≡ true → has c s ≡ false → is_prefix p s ≡ false
unfolding has is_prefix
is_prefix-has c [] s h k = ground arith
is_prefix-has c (a ∷ p) [] h k = refl
is_prefix-has c (a ∷ p) (b ∷ s) h k = ground (arith, is_prefix-has c p s)

-- A text with a character that another lacks does not occur in it.
pub index_of-has : (c : ℕ) (p s : Text) → has c p ≡ true → has c s ≡ false → index_of p s ≡ none
unfolding index_of
index_of-has c p [] h k = rw (is_prefix-has c p [] h k)
index_of-has c p (d ∷ s) h k =
    rw (is_prefix-has c p (d ∷ s) h k, index_of-has c p s h (unfold has in ground arith))

-- A first word that is not empty comes from a text that is not.
pub split_words-nil : split_words [] ≡ [] ∷ []
unfolding split_words
split_words-nil = refl

pub split-cons : (sep : ℕ) (s : Text) → (w : Text) × (ws : List Text) × (split sep s ≡ w ∷ ws)
unfolding split
split-cons sep [] = ([], [], refl)
split-cons sep (d ∷ s) =
    let (w, ws, e) = split-cons sep s in
    elim (Bool-cases (d == sep)) [
      | inl here ↦ ([], w ∷ ws, rw (here, e))
      | inr other ↦ (d ∷ w, ws, rw (other, e))
    ]

split-only : (a : Text) → has 32 a ≡ false → split 32 a ≡ a ∷ []
unfolding split has
split-only [] h = refl
split-only (c ∷ a) h =
    let other : (c == 32) ≡ false = ground arith in
    let later : has 32 a ≡ false = ground arith in rw (other, split-only a later)

-- A word without the separator, then the separator: the word is the first piece.
pub split-word :
    (sep : ℕ) (w rest : Text)
    → has sep w ≡ false
    → split sep (w ++ (sep ∷ rest)) ≡ w ∷ split sep rest
unfolding split has
split-word sep [] rest h = rw (==_refl sep)
split-word sep (c ∷ w) rest h =
    let other : (c == sep) ≡ false = ground arith in
    let later : has sep w ≡ false = ground arith in rw (other, split-word sep w rest later)

-- The first two words, if the first two separators follow them.
pub split_words-two :
    (a b rest : Text)
    → has 32 a ≡ false
    → has 32 b ≡ false
    → (w : Text) × (split_words (a ++ (32 ∷ (b ++ (32 ∷ rest)))) ≡ a ∷ b ∷ w ∷ [])
unfolding split_words
split_words-two a b rest ha hb =
    let (w, ws, e) = split-cons 32 rest in
    (w, rw (split-word 32 a (b ++ (32 ∷ rest)) ha, split-word 32 b rest hb, e))

-- The first word, if a separator or the end follows it.
pub split_words-first :
    (a rest : Text)
    → has 32 a ≡ false
    → (ws : List Text) × (split_words (a ++ (32 ∷ rest)) ≡ a ∷ ws)
unfolding split_words
split_words-first a rest h = (take 2 (split 32 rest), rw (split-word 32 a rest h))

pub split_words-only : (a : Text) → has 32 a ≡ false → split_words a ≡ a ∷ []
unfolding split_words
split_words-only a h = rw (split-only a h)
