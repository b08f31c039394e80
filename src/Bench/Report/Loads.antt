-- ===== src/Bench/Report/Loads.antt =====
-- The system loads in `printReport`. They are floating point numbers, whose arithmetic is the platform's.
use sse_broadcast_benchmark.Common.{ℕ, List, [], ◌∷◌, length}
use sse_broadcast_benchmark.Js.Text.{Text}

-- What the code asks of floating point numbers.
pub record Doubles (Load : Type 0) : Type 0 where
  pub zero : Load
  pub infinity : Load
  pub minus_infinity : Load
  pub plus : Load → Load → Load
  pub divided_by : Load → ℕ → Load
  pub greater : Load → Load → Load
  pub lesser : Load → Load → Load
  pub to_fixed : ℕ → Load → Text
  pub show_load : Load → Text

module _ {Load : Type 0} (d : Doubles Load) where
  -- `sysLoad.forEach(function(load) { loadAvg += load; })`
  unfoldable pub load_total : Load → List Load → Load
  load_total acc [] = acc
  load_total acc (x ∷ xs) = load_total (d.plus acc x) xs

  -- `Math.max.apply(null, sysLoad)`
  unfoldable pub greatest : List Load → Load
  greatest [] = d.minus_infinity
  greatest (x ∷ xs) = d.greater x (greatest xs)

  -- `Math.min.apply(null, sysLoad)`
  unfoldable pub least : List Load → Load
  least [] = d.infinity
  least (x ∷ xs) = d.lesser x (least xs)

  -- `avgSysLoad`, `maxSysLoad` and `minSysLoad`
  unfoldable pub load_texts : List Load → Text × Text × Text
  unfolding load_total greatest least
  load_texts samples = (
    d.to_fixed 3 (d.divided_by (load_total d.zero samples) (length samples)),
    d.show_load (greatest samples),
    d.show_load (d.greater d.zero (least samples)),
  )
