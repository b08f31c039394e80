-- ===== src/Bench/Program/Instance.antt =====
-- What bench/bench.js takes from the platform, at its simplest.
use sse_broadcast_benchmark.Common.{ℕ, ◌+◌, ◌/◌, List, [], Option, some, leb, if◌then◌else◌, length}
use sse_broadcast_benchmark.Js.Text.{Text}
use sse_broadcast_benchmark.Js.Number.{show}
use sse_broadcast_benchmark.Bench.Report.{Result}
use sse_broadcast_benchmark.Bench.Report.Loads.{Doubles}

-- JSON that tells an array by its length, and reads only the empty one.
abbrev pub stringify : List Result → Text
stringify results = show (length results)

abbrev pub parse : Text → Option (List Result)
parse t = some []

-- Loads in thousandths, of which the texts show the whole number.
abbrev pub doubles : Doubles ℕ
doubles = record {
  zero = 0;
  infinity = 1000000;
  minus_infinity = 0;
  plus = λ x y. x + y;
  divided_by = λ x n. x / n;
  greater = λ x y. if leb x y then y else x;
  lesser = λ x y. if leb x y then x else y;
  to_fixed = λ digits x. show x;
  show_load = show;
}
