-- ===== src/Js/Regex/Laws.antt =====
-- What the regular expression finds.
use sse_broadcast_benchmark.Common.{
  ℕ, ◌≡◌, refl, ap, ◌∙◌, Bool, Option, none, ◌&&◌, true, false, [], ◌∷◌, ◌++◌, some, arith, ◌==◌,
}
use sse_broadcast_benchmark.Js.Text.{Text, codes}
use sse_broadcast_benchmark.Js.Number.{is_digit}
use sse_broadcast_benchmark.Js.Number.Laws.{all_digits}
use sse_broadcast_benchmark.Js.Regex.{is_space, skip_spaces, digits_to_cr, match_here, match_length}

abbrev is_none {ℓ} : {A : Type ℓ} → Option A → Bool
is_none none = true
is_none (some a) = false

digit-not_cr : (c : ℕ) → is_digit c ≡ true → (c == 13) ≡ false
unfolding is_digit
digit-not_cr c h = ground arith

digit-not_space : (c : ℕ) → is_digit c ≡ true → is_space c ≡ false
unfolding is_digit is_space
digit-not_space c h = ground arith

-- A run of digits before a carriage return is captured whole.
pub digits_to_cr-append :
    (c : ℕ) (ds rest : Text)
    → all_digits (c ∷ ds) ≡ true
    → digits_to_cr ((c ∷ ds) ++ (13 ∷ rest)) ≡ some (c ∷ ds)
unfolding digits_to_cr
digits_to_cr-append c [] rest h = let d : is_digit c ≡ true = ground arith in rw d
digits_to_cr-append c (e ∷ ds) rest h =
    let d : is_digit c ≡ true = ground arith in
    let more : all_digits (e ∷ ds) ≡ true = ground arith in
    let e_digit : is_digit e ≡ true = ground arith in
    rw (d, digit-not_cr e e_digit, digits_to_cr-append e ds rest more)

pub skip_spaces-digit : (c : ℕ) (s : Text) → is_digit c ≡ true → skip_spaces (c ∷ s) ≡ c ∷ s
unfolding skip_spaces
skip_spaces-digit c s h = rw (digit-not_space c h)

-- No match of the regular expression begins in a, when s follows it.
unfoldable pub unmatched : Text → Text → Bool
unfolding match_here
unmatched [] s = true
unmatched (c ∷ a) s = is_none (match_here (c ∷ (a ++ s))) && unmatched a s

pub match_length-unmatched :
    (a s : Text) → unmatched a s ≡ true → match_length (a ++ s) ≡ match_length s
unfolding unmatched match_length
match_length-unmatched [] s h = refl
match_length-unmatched (c ∷ a) s h =
    let rest : unmatched a s ≡ true = ground arith in
    let missed : match_here (c ∷ (a ++ s)) ≡ none = ground arith in
    rw (missed, match_length) (match_length-unmatched a s rest)

match_length_hit :
    (c : ℕ) (s ds : Text) → match_here (c ∷ s) ≡ some ds → match_length (c ∷ s) ≡ some ds
unfolding match_length
match_length_hit c s ds h = ground (arith, h)

abbrev name_tail : Text
name_tail = codes "ontent-Length: "

match_here-header :
    (c : ℕ) (ds rest : Text)
    → all_digits (c ∷ ds) ≡ true
    → match_here (67 ∷ (name_tail ++ ((c ∷ ds) ++ (13 ∷ rest)))) ≡ some (c ∷ ds)
unfolding match_here
match_here-header c ds rest h =
    let d : is_digit c ≡ true = unfold is_digit in ground arith in
    ap digits_to_cr (skip_spaces-digit c (ds ++ (13 ∷ rest)) d) ∙ digits_to_cr-append c ds rest h

-- A header that gives the length, in the usual spelling, is matched where it begins.
pub match_length-header :
    (c : ℕ) (ds rest : Text)
    → all_digits (c ∷ ds) ≡ true
    → match_length (codes "Content-Length: " ++ ((c ∷ ds) ++ (13 ∷ rest))) ≡ some (c ∷ ds)
unfolding codes
match_length-header c ds rest h =
    match_length_hit 67 (name_tail ++ ((c ∷ ds) ++ (13 ∷ rest))) (c ∷ ds)
      (match_here-header c ds rest h)
