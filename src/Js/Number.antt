-- ===== src/Js/Number.antt =====
-- Decimal numbers: `'' + n`, `parseInt(s, 10)` of digits, and `s | 0`.
pub mod Laws
use sse_broadcast_benchmark.Common.{
  ℕ, zero, suc, ◌+◌, ◌-◌, ◌*◌, ◌/◌, ◌%◌, ◌^◌, Bool, ◌&&◌, List, [], ◌∷◌, ltb, leb, if◌then◌else◌,
}
use sse_broadcast_benchmark.Common.Int.{ℤ, pos, negsuc}
use sse_broadcast_benchmark.Js.Text.{Text}

unfoldable pub is_digit : ℕ → Bool
is_digit c = leb 48 c && leb c 57

-- The digits of n, put before `acc`.
show_from : ℕ → ℕ → Text → Text
show_from zero n acc = acc
show_from (suc fuel) n acc =
    let rest = show_from fuel (n / 10) ((48 + n % 10) ∷ acc) in
    if ltb n 10 then (48 + n) ∷ acc else rest

-- `'' + n`
unfoldable pub show : ℕ → Text
unfolding show_from
show n = show_from (suc n) n []

-- `'' + n` for a number that may be negative
unfoldable pub show_int : ℤ → Text
unfolding show
show_int (pos n) = show n
show_int (negsuc n) = 45 ∷ show (suc n)

value_from : ℕ → Text → ℕ
value_from acc [] = acc
value_from acc (c ∷ s) = value_from (acc * 10 + (c - 48)) s

-- `parseInt(s, 10)` for a string of digits. A double holds the result exactly below 2^53; a larger
-- one is rounded to a number that is no smaller than 2^53.
unfoldable pub parse_digits : Text → ℕ
unfolding value_from
parse_digits s = value_from 0 s
