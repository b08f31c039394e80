-- ===== src/Bench/Report.antt =====
-- `printReport` of bench/bench.js: the statistics, the file of results and the table. Sums are as the
-- source has them below 2 ^ 53, which a double holds exactly.
pub mod Loads
pub mod Averages
pub mod Saved
use sse_broadcast_benchmark.Common.{
  ℕ, zero, suc, ◌+◌, ◌*◌, ◌/◌, ◌==◌, ◌||◌, Bool, true, false, ◌&&◌, not, List, [], ◌∷◌, ◌++◌, map,
  Option, none, some, if◌then◌else◌, leb, length,
}
use sse_broadcast_benchmark.Common.Int.{ℤ, pos, negsuc, ◌+ℤ◌, sub_ℕ}
use sse_broadcast_benchmark.Js.Text.{Text, codes, is_falsy}
use sse_broadcast_benchmark.Js.Number.{show, show_int}

-- The numbers that occur.
pub data Number : Type 0 where
  finite : ℤ → Number
  nan infinity minus_infinity : Number

abbrev pub show_number : Number → Text
show_number (finite z) = show_int z
show_number nan = codes "NaN"
show_number infinity = codes "Infinity"
show_number minus_infinity = codes "-Infinity"

-- `forEach` with `+=`
unfoldable pub total : List ℤ → ℤ
total [] = pos 0
total (x ∷ xs) = x +ℤ total xs

-- The first digit of n / count that is not 0, in so many rounds: `count` are enough for n > 0, since n
-- is below `count` and grows tenfold with each.
unfoldable pub first_digit : ℕ → ℕ → ℕ → ℕ
first_digit zero n count = 0
first_digit (suc rounds) n count =
    let rest = first_digit rounds (n * 10) count in if leb count n then n / count else rest

-- `parseInt(n / count, 10)`: a quotient below 10 ^ -6 is printed with an exponent, so that `parseInt`
-- reads its first digit; otherwise it reads the digits before the point.
unfoldable pub parse_quotient : ℕ → ℕ → ℕ
unfolding first_digit
parse_quotient n count =
    if n == 0 || leb count (n * 1000000) then n / count else first_digit count n count

-- `parseInt(sum / count, 10)`
unfoldable pub quotient : ℤ → ℕ → Number
unfolding parse_quotient
quotient sum zero = nan
quotient (pos n) (suc count) = finite (pos (parse_quotient n (suc count)))
quotient (negsuc n) (suc count) = finite (sub_ℕ 0 (parse_quotient (suc n) (suc count)))

unfoldable pub average : List ℤ → Number
unfolding total quotient
average xs = quotient (total xs) (length xs)

unfoldable pub leb_ℤ : ℤ → ℤ → Bool
leb_ℤ (pos m) (pos n) = leb m n
leb_ℤ (pos m) (negsuc n) = false
leb_ℤ (negsuc m) (pos n) = true
leb_ℤ (negsuc m) (negsuc n) = leb n m

unfoldable pub larger : ℤ → Number → Number
unfolding leb_ℤ
larger x (finite y) = finite (if leb_ℤ x y then y else x)
larger x minus_infinity = finite x
larger x infinity = infinity
larger x nan = nan

unfoldable pub smaller : ℤ → Number → Number
unfolding leb_ℤ
smaller x (finite y) = finite (if leb_ℤ x y then x else y)
smaller x infinity = finite x
smaller x minus_infinity = minus_infinity
smaller x nan = nan

-- `Math.max.apply(null, xs)`
unfoldable pub largest : List ℤ → Number
unfolding larger
largest [] = minus_infinity
largest (x ∷ xs) = larger x (largest xs)

-- `Math.min.apply(null, xs)`
unfoldable pub smallest : List ℤ → Number
unfolding smaller
smallest [] = infinity
smallest (x ∷ xs) = smaller x (smallest xs)

-- A number, or the empty text.
pub data Cell : Type 0 where
  number : Number → Cell
  blank : Cell

pub record Result : Type 0 where
  pub profile : Text
  pub timestamp : Text
  pub duration : Text
  pub avg_response : Text
  pub max_response : Text
  pub min_response : Text
  pub avg_delivery : Text
  pub max_delivery : Text
  pub min_delivery : Text
  pub avg_memory : Cell
  pub max_memory : Cell
  pub min_memory : Cell
  pub avg_sys_load : Text
  pub max_sys_load : Text
  pub min_sys_load : Text
  pub errors : ℕ

-- What a run has measured, and the options that its result holds.
pub record Measured : Type 0 where
  pub profile_name : Text
  pub now : Text
  pub bench_duration : Text
  pub response_times : List ℤ
  pub push_diff_times : List ℤ
  pub mem_usage : List ℤ
  pub loads : Text × Text × Text
  pub num_errors : ℕ
  pub is_local : Bool

abbrev pub ms : Number → Text
ms n = show_number n ++ codes "ms"

-- `isLocal ? n : ''`
abbrev pub if_local : Bool → Number → Cell
if_local is_local n = if is_local then number n else blank

abbrev pub text_if_local : Bool → Text → Text
text_if_local is_local t = if is_local then t else []

unfoldable pub result : Measured → Result
unfolding average largest smallest larger
result m = record {
  profile = m.profile_name;
  timestamp = m.now;
  duration = m.bench_duration ++ codes "s";
  avg_response = ms (average m.response_times);
  max_response = ms (largest m.response_times);
  min_response = ms (smallest m.response_times);
  avg_delivery = ms (average m.push_diff_times);
  max_delivery = ms (largest m.push_diff_times);
  min_delivery = ms (larger (pos 0) (smallest m.push_diff_times));
  avg_memory = if_local m.is_local (average m.mem_usage);
  max_memory = if_local m.is_local (largest m.mem_usage);
  min_memory = if_local m.is_local (larger (pos 0) (smallest m.mem_usage));
  avg_sys_load = text_if_local m.is_local m.loads.0;
  max_sys_load = text_if_local m.is_local m.loads.1;
  min_sys_load = text_if_local m.is_local m.loads.2;
  errors = m.num_errors;
}

-- `results[newIndex - 1].profile += ' (current)'`
unfoldable pub mark : Result → Result
mark r = record r { profile = r.profile ++ codes " (current)" }

-- `result.avgMemory ? humanize.filesize(result.avgMemory) : ''`
unfoldable pub memory_text : (Number → Text) → Cell → Text
memory_text filesize blank = []
memory_text filesize (number (finite (pos zero))) = []
memory_text filesize (number nan) = []
memory_text filesize (number n) = filesize n

-- A row of the table.
unfoldable pub row : (Number → Text) → Bool → Result → List Text
unfolding memory_text
row filesize skip_sys_stats r =
    (r.profile
      ∷ r.timestamp
      ∷ r.duration
      ∷ r.avg_response
      ∷ r.max_response
      ∷ r.min_response
      ∷ r.avg_delivery
      ∷ r.max_delivery
      ∷ r.min_delivery
      ∷ show r.errors
      ∷ [])
    ++ (if skip_sys_stats then [] else r.avg_sys_load ∷ memory_text filesize r.avg_memory ∷ [])

-- The results that the file holds, if it exists and is read; `parse` fails where `JSON.parse` throws
-- or returns a falsy value.
unfoldable pub stored : (Text → Option (List Result)) → Bool → Option Text → List Result
stored parse reset none = elim (parse (codes "[]")) [ none ↦ [] | some results ↦ results ]
stored parse reset (some data_text) = elim (parse (if reset then codes "[]" else data_text)) [
  | none ↦ []
  | some results ↦ results
]

-- The file and the results that are shown; `none` for `printReport(true)`.
unfoldable pub print_report :
    (Text → Option (List Result))
    → (List Result → Text)
    → Bool
    → Option Measured
    → Option Text
    → Option Text × List Result
unfolding stored result mark
print_report parse stringify reset none file = (file, stored parse reset file)
print_report parse stringify reset (some m) file =
    let results = stored parse reset file in
    (some (stringify (results ++ result m ∷ [])), results ++ mark (result m) ∷ [])

-- The rows of the table that is printed.
unfoldable pub table : (Number → Text) → Bool → List Result → List (List Text)
unfolding row
table filesize skip_sys_stats results = map (row filesize skip_sys_stats) results
