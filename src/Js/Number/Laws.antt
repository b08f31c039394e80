-- ===== src/Js/Number/Laws.antt =====
-- Laws of decimal numbers.
use sse_broadcast_benchmark.Common.{
  ℕ, zero, suc, ◌+◌, ◌/◌, ◌%◌, ◌<◌, ◌≡◌, refl, ◌∙◌, ap, inl, inr, Bool, true, ◌&&◌, [], ◌∷◌, arith,
  ltb, Bool-cases,
}
use sse_broadcast_benchmark.Js.Text.{Text}
use sse_broadcast_benchmark.Js.Number.{is_digit, show, show_from, parse_digits, value_from}

value_from-show_from :
    (fuel n : ℕ) (acc : Text) → n < fuel → value_from 0 (show_from fuel n acc) ≡ value_from n acc
unfolding value_from show_from
value_from-show_from zero n acc h = absurd (omega arith)
value_from-show_from (suc fuel) n acc h = elim (Bool-cases (ltb n 10)) [
  | inl small ↦ rw small (ap (λ k. value_from k acc) (omega arith))
  | inr large ↦ rw large (
      value_from-show_from fuel (n / 10) ((48 + n % 10) ∷ acc) (ground arith)
      ∙ ap (λ k. value_from k acc) (omega arith))
]

-- The fuel of `show` is enough: what it prints reads back.
pub parse_digits-show : (n : ℕ) → parse_digits (show n) ≡ n
unfolding parse_digits show
parse_digits-show n = value_from-show_from (suc n) n [] (omega arith)

abbrev pub all_digits : Text → Bool
all_digits [] = true
all_digits (c ∷ s) = is_digit c && all_digits s

is_digit-mod : (n : ℕ) → is_digit (48 + n % 10) ≡ true
unfolding is_digit
is_digit-mod n = ground arith

is_digit-small : (n : ℕ) → n < 10 → is_digit (48 + n) ≡ true
unfolding is_digit
is_digit-small n h = ground arith

all_digits-show_from :
    (fuel n : ℕ) (acc : Text) → all_digits acc ≡ true → all_digits (show_from fuel n acc) ≡ true
unfolding show_from
all_digits-show_from zero n acc h = h
all_digits-show_from (suc fuel) n acc h = elim (Bool-cases (ltb n 10)) [
  | inl small ↦ rw small (rw (is_digit-small n (ground arith)) h)
  | inr large ↦
      rw large (all_digits-show_from fuel (n / 10) ((48 + n % 10) ∷ acc) (rw (is_digit-mod n) h))
]

pub all_digits-show : (n : ℕ) → all_digits (show n) ≡ true
unfolding show
all_digits-show n = all_digits-show_from (suc n) n [] refl

show_from-cons :
    (fuel n : ℕ) (acc : Text) → n < fuel → (c : ℕ) × (s : Text) × (show_from fuel n acc ≡ c ∷ s)
unfolding show_from
show_from-cons zero n acc h = absurd (omega arith)
show_from-cons (suc fuel) n acc h = elim (Bool-cases (ltb n 10)) [
  | inl small ↦ (48 + n, acc, rw small)
  | inr large ↦ rw large (show_from-cons fuel (n / 10) ((48 + n % 10) ∷ acc) (ground arith))
]

-- A number has at least one digit.
pub show-cons : (n : ℕ) → (c : ℕ) × (s : Text) × (show n ≡ c ∷ s)
unfolding show
show-cons n = show_from-cons (suc n) n [] (omega arith)
