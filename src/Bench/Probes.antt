-- ===== src/Bench/Probes.antt =====
-- `getResponseTime` of bench/bench.js, and when the benchmark ends.
pub mod Ends
use sse_broadcast_benchmark.Common.{
  ℕ, suc, ◌+◌, ◌*◌, ◌/◌, ◌<◌, ◌≡◌, ◌≢◌, refl, ◌∙◌, sym, ap, subst, Bool, true, false, ◌&&◌, not,
  List, [], ◌∷◌, ◌++◌, arith, ◌==◌, if◌then◌else◌, length, leb, Bool-cases, inl, inr, ==_iff,
  ==_refl, ==_of_ne,
}
use mathlib.Core.Bool.{and-false}
use native.Mathlib.Nat.{mul-div_cancel}

-- `responseTimes`, `printingReport`, `numErrors`, whether the two timers are set, and how often
-- `printReport` has been called.
pub record Run : Type 0 where
  pub response_times : List ℕ
  pub printing_report : Bool
  pub num_errors : ℕ
  pub timers : Bool
  pub reports : ℕ

abbrev pub begun : Run
begun = record {
  response_times = [];
  printing_report = false;
  num_errors = 0;
  timers = true;
  reports = 0;
}

-- `count === duration / interval`; a quotient that is no integer equals no count.
unfoldable pub is_last : ℕ → ℕ → ℕ → Bool
is_last duration interval count = not (interval == 0) && count * interval == duration

-- `printReport`, as far as it concerns the probes.
unfoldable pub print : Run → Run
print s = record s { printing_report = true; timers = false; reports = s.reports + 1 }

-- The answer to a probe.
unfoldable pub on_response : ℕ → ℕ → ℕ → Run → Run
unfolding is_last print
on_response duration interval elapsed s =
    let pushed = record s { response_times = s.response_times ++ elapsed ∷ [] } in
    if not s.printing_report && is_last duration interval (length pushed.response_times)
    then print pushed
    else pushed

unfoldable pub on_probe_error : Run → Run
on_probe_error s = record s { num_errors = s.num_errors + 1 }

-- How a probe ends: by an answer, after so many milliseconds, or by an error.
pub data Probe : Type 0 where
  answered : ℕ → Probe
  failed : Probe

unfoldable pub run_probes : ℕ → ℕ → List Probe → Run → Run
unfolding on_response on_probe_error
run_probes duration interval [] s = s
run_probes duration interval (answered elapsed ∷ probes) s =
    run_probes duration interval probes (on_response duration interval elapsed s)
run_probes duration interval (failed ∷ probes) s =
    run_probes duration interval probes (on_probe_error s)

unfoldable pub answers : List Probe → ℕ
answers [] = 0
answers (answered elapsed ∷ probes) = suc (answers probes)
answers (failed ∷ probes) = answers probes

unfoldable pub errors : List Probe → ℕ
errors [] = 0
errors (answered elapsed ∷ probes) = errors probes
errors (failed ∷ probes) = suc (errors probes)
