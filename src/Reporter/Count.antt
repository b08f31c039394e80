-- ===== src/Reporter/Count.antt =====
-- `getConnectionCount` of stats-reporter/report.js.
pub mod Roundtrip
mod Tests
use sse_broadcast_benchmark.Common.{ℕ, ◌+◌, ◌-◌, ◌%◌, ◌^◌, Option, none, some, ltb, if◌then◌else◌}
use sse_broadcast_benchmark.Common.Int.{ℤ, pos, negsuc, sub_ℕ}
use sse_broadcast_benchmark.Js.Text.{Text}

-- The 32 bits of a number, as an integer with a sign.
unfoldable pub signed : ℕ → ℤ
signed m = if ltb m (2 ^ 31) then pos m else sub_ℕ m (2 ^ 32)

-- `ToInt32`: the remainder by 2 ^ 32, which is never negative, read with a sign.
unfoldable pub to_int32 : ℤ → ℤ
unfolding signed
to_int32 (pos n) = signed (n % 2 ^ 32)
to_int32 (negsuc n) = signed (2 ^ 32 - 1 - n % 2 ^ 32)

-- How JavaScript makes an integer of a text is the parameter `to_number`, with `none` for what is
-- not finite.
module _ (to_number : Text → Option ℤ) where
  -- `body | 0`, also for a body that is undefined
  unfoldable pub or_zero : Option Text → ℤ
  unfolding to_int32
  or_zero none = pos 0
  or_zero (some body) = elim (to_number body) [ none ↦ pos 0 | some n ↦ to_int32 n ]
