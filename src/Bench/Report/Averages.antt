-- ===== src/Bench/Report/Averages.antt =====
-- The three statistics of a column of the report.
use sse_broadcast_benchmark.Common.{
  ◌<◌, ◌^◌, ◌==◌, ◌||◌, true, ℕ, suc, ◌+◌, ◌*◌, ◌/◌, ◌≤◌, ◌≡◌, refl, ap, subst, List, [], ◌∷◌, map,
  arith, length, length-map, leb, if◌then◌else◌,
}
use native.Mathlib.Nat.{mul_comm, mul-le-mul_left, suc-mul, le-div_iff_mul-le, div-le_of_le-mul}
use sse_broadcast_benchmark.Common.Int.{pos, ◌+ℤ◌}
use sse_broadcast_benchmark.Bench.Report.{
  finite, total, parse_quotient, quotient, average, largest, smallest, larger, smaller, leb_ℤ,
}

abbrev pub sum : List ℕ → ℕ
sum [] = 0
sum (x ∷ xs) = x + sum xs

total-pos : (xs : List ℕ) → total (map pos xs) ≡ pos (sum xs)
unfolding total ◌+ℤ◌
total-pos [] = refl
total-pos (x ∷ xs) = rw (total-pos xs) (ground arith)

parse_quotient-few : (n count : ℕ) → count ≤ 1000000 → parse_quotient n count ≡ n / count
unfolding parse_quotient
parse_quotient-few n count h =
    let few : (n == 0 || leb count (n * 1000000)) ≡ true = ground arith in
    rw (parse_quotient, few) refl

average-pos :
    (x : ℕ) (xs : List ℕ)
    → suc (length xs) ≤ 1000000
    → average (map pos (x ∷ xs)) ≡ finite (pos ((x + sum xs) / suc (length xs)))
unfolding average quotient
average-pos x xs h =
    rw (total-pos (x ∷ xs), length-map xs pos, parse_quotient-few (x + sum xs) (suc (length xs)) h)
      refl

-- The bounds, and what they say of the sum.
abbrev Bounds : List ℕ → ℕ → ℕ → Type 0
Bounds xs lo hi =
    (smallest (map pos xs) ≡ finite (pos lo))
    × (largest (map pos xs) ≡ finite (pos hi))
    × (length xs * lo ≤ sum xs)
    × (sum xs ≤ length xs * hi)

Bounds-step :
    (x : ℕ) (xs : List ℕ) (lo hi : ℕ)
    → Bounds xs lo hi
    → (lo' : ℕ) × (hi' : ℕ) × Bounds (x ∷ xs) lo' hi'
unfolding smallest largest smaller larger leb_ℤ
Bounds-step x xs lo hi (a, b, c, d) =
    let lo' = if leb x lo then x else lo in
    let hi' = if leb x hi then hi else x in
    let m = mul-le-mul_left {m = lo'} {n = lo} (length xs) (grind arith) in
    let n = mul-le-mul_left {m = hi} {n = hi'} (length xs) (grind arith) in
    let p : lo' ≤ x = grind arith in
    let q : x ≤ hi' = grind arith in
    let u = suc-mul (length xs) lo' in
    let v = suc-mul (length xs) hi' in
    let l : (if leb x lo then pos x else pos lo) ≡ pos lo' = ground arith in
    let h : (if leb x hi then pos hi else pos x) ≡ pos hi' = ground arith in
    (lo', hi', (rw a (ap finite l), rw b (ap finite h), omega arith, omega arith))

bounds : (x : ℕ) (xs : List ℕ) → (lo : ℕ) × (hi : ℕ) × Bounds (x ∷ xs) lo hi
unfolding smallest largest smaller larger
bounds x [] = (x, x, (refl, refl, omega arith, omega arith))
bounds x (y ∷ ys) = let (lo, hi, b) = bounds y ys in Bounds-step x (y ∷ ys) lo hi b

-- For at least one and at most a million samples, none of them negative, whose sum is below 2 ^ 53, the
-- smallest, the average and the largest are numbers, and stand in this order.
pub average-bounds :
    (x : ℕ) (xs : List ℕ)
    → suc (length xs) ≤ 1000000
    → sum (x ∷ xs) < 2 ^ 53
    → (lo : ℕ) × (avg : ℕ) × (hi : ℕ) × (smallest (map pos (x ∷ xs)) ≡ finite (pos lo))
      × (average (map pos (x ∷ xs)) ≡ finite (pos avg))
      × (largest (map pos (x ∷ xs)) ≡ finite (pos hi))
      × (lo ≤ avg)
      × (avg ≤ hi)
average-bounds x xs few exact =
    let (lo, hi, (a, b, c, d)) = bounds x xs in
    (
      lo,
      (x + sum xs) / suc (length xs),
      hi,
      a,
      average-pos x xs few,
      b,
      (le-div_iff_mul-le (omega arith)).1
          (subst (λ z. z ≤ x + sum xs) (mul_comm (suc (length xs)) lo) c),
      div-le_of_le-mul (suc (length xs)) d,
    )
