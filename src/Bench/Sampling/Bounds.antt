-- ===== src/Bench/Sampling/Bounds.antt =====
-- How many clients measure the delivery time, and which.
use sse_broadcast_benchmark.Common.{
  ap, some, get_elem?, length, length-append, ℕ, zero, suc, ◌+◌, ◌-◌, ◌*◌, ◌/◌, ◌%◌, ◌≤◌, ◌<◌, ◌≡◌,
  refl, sym, ◌∙◌, true, false, List, [], ◌∷◌, ◌++◌, arith, ◌==◌, if◌then◌else◌, Bool-cases, leb,
  subst, inl, inr, ==_iff,
}
use native.Mathlib.Nat.{zero-mod, mul-mod_right, mul-le-mul_left, mul-suc}
use mathlib.Core.Bool.{or-false}
use native.Mathlib.Omega.{div_any}
use sse_broadcast_benchmark.Bench.Sampling.{
  Client, divides, is_sampled, open_from, open_clients, listeners,
}

listeners-append : (xs ys : List Client) → listeners (xs ++ ys) ≡ listeners xs + listeners ys
unfolding listeners
listeners-append [] ys = omega arith
listeners-append (x ∷ xs) ys = let ih = listeners-append xs ys in omega arith

listeners-open_from :
    (n i : ℕ)
    → listeners (open_from n (suc i))
      ≡ listeners (open_from n i) + (if is_sampled n i then 1 else 0)
unfolding listeners open_from
listeners-open_from n i =
    let e = listeners-append (open_from n i) (record { listens = is_sampled n i } ∷ []) in
    omega arith

unsampled : (n i : ℕ) → n < 20 → suc i < n → is_sampled n (suc i) ≡ false
unfolding is_sampled divides
unsampled n i h k = let e : n / 20 ≡ 0 = omega arith in rw e (ground arith)

few : (n i : ℕ) → n < 20 → suc i ≤ n → listeners (open_from n (suc i)) ≡ 1
unfolding listeners open_from is_sampled divides
few n zero h k = refl
few n (suc i) h k =
    let ih = few n i h (omega arith) in
    let e = listeners-open_from n (suc i) in let u = unsampled n i h k in rw (e, u, ih)

divides-multiple : (r c : ℕ) → divides (suc r) (suc r * c) ≡ true
unfolding divides
divides-multiple r c = rw (mul-mod_right (suc r) c)

-- No multiple lies strictly between two that follow each other.
multiple_unique : (r c q p : ℕ) → suc r * c ≡ suc r * q + suc p → suc p < suc r → ⊥
multiple_unique r c q p e h = elim (Bool-cases (leb c q)) [
  | inl b ↦ let k : c ≤ q = grind arith in let m = mul-le-mul_left (suc r) k in omega arith
  | inr b ↦
      let k : suc q ≤ c = grind arith in
      let m = mul-le-mul_left (suc r) k in
      let d : suc r * suc q ≡ suc r * q + suc r = mul-suc (suc r) q in omega arith
]

divides-between : (r c k p : ℕ) → suc r * c ≡ k + suc p → suc p < suc r → divides (suc r) k ≡ false
unfolding divides
divides-between r c k p e h = elim (Bool-cases (k % suc r == 0)) [
  | inl z ↦
      let d = div_any k (suc r) in
      let m : k % suc r ≡ 0 = (==_iff (k % suc r) 0).0 z in
      absurd (multiple_unique r c (k / suc r) p (omega arith) h)
  | inr z ↦ z
]

is_sampled_lem : (n r i : ℕ) → n / 20 ≡ suc r → i < n → is_sampled n i ≡ divides (suc r) i
unfolding is_sampled divides
is_sampled_lem n r zero e h = rw (zero-mod (suc r)) refl
is_sampled_lem n r (suc i) e h =
    let z : (suc i == 0) ≡ false = ground arith in
    let f : (suc i == n) ≡ false = ground arith in rw (e, z, f) (or-false (divides (suc r) (suc i)))

-- Of the first i clients, c listen, and the next multiple of the rate is p further.
abbrev Ahead : ℕ → ℕ → ℕ → ℕ → Type 0
Ahead r c i p = (suc r * c ≡ i + p) × (p < suc r)

multiples_step :
    (n r i p : ℕ)
    → n / 20 ≡ suc r
    → i < n
    → Ahead r (listeners (open_from n i)) i p
    → (p' : ℕ) × Ahead r (listeners (open_from n (suc i))) (suc i) p'
multiples_step n r i zero e h (q, l) =
    let c = listeners (open_from n i) in
    let at : i ≡ suc r * c = omega arith in
    let d = subst (λ x. divides (suc r) x ≡ true) (sym at) (divides-multiple r c) in
    let count : listeners (open_from n (suc i)) ≡ suc c =
      listeners-open_from n i ∙ rw (is_sampled_lem n r i e h, d) (omega arith) in
    (r, (rw count (mul-suc (suc r) c ∙ omega arith), omega arith))
multiples_step n r i (suc p) e h (q, l) =
    let d = divides-between r (listeners (open_from n i)) i p q l in
    let count : listeners (open_from n (suc i)) ≡ listeners (open_from n i) =
      listeners-open_from n i ∙ rw (is_sampled_lem n r i e h, d) (omega arith) in
    (p, (rw count (omega arith), omega arith))

multiples : (n r i : ℕ) → n / 20 ≡ suc r → i ≤ n → (p : ℕ) × Ahead r (listeners (open_from n i)) i p
unfolding listeners open_from
multiples n r zero e h = (0, (omega arith, omega arith))
multiples n r (suc i) e h =
    let (p, ahead) = multiples n r i e (omega arith) in multiples_step n r i p e h ahead

-- From the size of the product to that of the count.
Ahead-bounds : (n r c p : ℕ) → n / 20 ≡ suc r → Ahead r c n p → (20 ≤ c) × (c < 40)
Ahead-bounds n r c p e (q, l) = (
  elim (Bool-cases (leb 20 c)) [
    | inl b ↦ grind arith
    | inr b ↦
        let k : c ≤ 19 = grind arith in let m = mul-le-mul_left (suc r) k in absurd (omega arith)
  ],
  elim (Bool-cases (leb 40 c)) [
    | inr b ↦ grind arith
    | inl b ↦
        let k : 40 ≤ c = grind arith in let m = mul-le-mul_left (suc r) k in absurd (omega arith)
  ],
)

get_elem?-append_left :
    {A : Type 0}
    → (xs ys : List A) (i : ℕ) → i < length xs
    → get_elem? (xs ++ ys) i ≡ get_elem? xs i
get_elem?-append_left [] ys i h = absurd (omega arith)
get_elem?-append_left (x ∷ xs) ys zero h = refl
get_elem?-append_left (x ∷ xs) ys (suc i) h = get_elem?-append_left xs ys i (omega arith)

get_elem?-last :
    {A : Type 0} → (xs : List A) (x : A) → get_elem? (xs ++ x ∷ []) (length xs) ≡ some x
get_elem?-last [] x = refl
get_elem?-last (y ∷ xs) x = get_elem?-last xs x

length-open_from : (n rounds : ℕ) → length (open_from n rounds) ≡ rounds
unfolding open_from
length-open_from n zero = refl
length-open_from n (suc i) =
    let ih = length-open_from n i in
    length-append (open_from n i) (record { listens = is_sampled n i } ∷ []) ∙ omega arith

get_elem?-open_from :
    (n rounds i : ℕ)
    → i < rounds
    → get_elem? (open_from n rounds) i ≡ some (record { listens = is_sampled n i })
unfolding open_from
get_elem?-open_from n zero i h = absurd (omega arith)
get_elem?-open_from n (suc r) i h =
    let size = length-open_from n r in
    let last : List Client = record { listens = is_sampled n r } ∷ [] in
    elim (Bool-cases (i == r)) [
      | inl same ↦
          let e : i ≡ r = (==_iff i r).0 same in
          let at : i ≡ length (open_from n r) = e ∙ sym size in
          ap (get_elem? (open_from n r ++ last)) at
          ∙ get_elem?-last (open_from n r) (record { listens = is_sampled n r })
          ∙ ap (λ j. some (record { listens = is_sampled n j })) (sym e)
      | inr other ↦
          let less : i < r = grind arith in
          get_elem?-append_left (open_from n r) last i (omega arith)
          ∙ get_elem?-open_from n r i less
    ]

few_sampled : (n i : ℕ) → n < 20 → i < n → is_sampled n i ≡ (i == 0)
unfolding is_sampled
few_sampled n zero h k = refl
few_sampled n (suc i) h k = let z : (suc i == 0) ≡ false = ground arith in unsampled n i h k ∙ sym z

divides_rate : (r i rate : ℕ) → rate ≡ suc r → divides (suc r) i ≡ (i % rate == 0)
unfolding divides
divides_rate r i rate e = ap (λ d. i % d == 0) (sym e)

-- For at least one client: of fewer than twenty clients the first one measures the delivery time, and
-- no other does; of twenty or more, those do whose index the twentieth part of their number divides,
-- and these are at least twenty and fewer than forty.
pub sampled_bounds :
    (num_clients : ℕ)
    → 0 < num_clients
    → (num_clients < 20
        → (listeners (open_clients num_clients) ≡ 1)
          × ((i : ℕ)
              → i < num_clients
              → get_elem? (open_clients num_clients) i ≡ some (record { listens = i == 0 })))
      × (20 ≤ num_clients
          → (20 ≤ listeners (open_clients num_clients))
            × (listeners (open_clients num_clients) < 40)
            × ((i : ℕ)
                → i < num_clients
                → get_elem? (open_clients num_clients) i
                  ≡ some (record { listens = i % (num_clients / 20) == 0 })))
unfolding open_clients
sampled_bounds zero h = absurd (omega arith)
sampled_bounds (suc n) h = (
  (λ k. (
    few (suc n) n k (omega arith),
    λ i l.
        get_elem?-open_from (suc n) (suc n) i l
        ∙ ap (λ b. some (record { listens = b })) (few_sampled (suc n) i k l),
  )),
  (λ k.
      let r = suc n / 20 - 1 in
      let e : suc n / 20 ≡ suc r = omega arith in
      let (p, ahead) = multiples (suc n) r (suc n) e (omega arith) in
      let (least, most) = Ahead-bounds (suc n) r (listeners (open_clients (suc n))) p e ahead in
      (
        least,
        most,
        λ i l.
            get_elem?-open_from (suc n) (suc n) i l
            ∙ ap (λ b. some (record { listens = b }))
                (is_sampled_lem (suc n) r i e l ∙ divides_rate r i (suc n / 20) e),
      )),
)
