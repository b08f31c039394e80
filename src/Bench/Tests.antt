-- ===== src/Bench/Tests.antt =====
-- The theorems on bench/bench.js at concrete inputs.
use sse_broadcast_benchmark.Common.{
  get_elem?, ◌==◌, ◌%◌, ◌/◌, ℕ, ◌*◌, ◌≤◌, ◌<◌, ◌≡◌, ◌≢◌, refl, Bool, not, List, [], ◌∷◌, Option,
  none, some, true, false, arith, if◌then◌else◌, leb, length,
}
use sse_broadcast_benchmark.Bench.Sampling.{open_clients, is_sampled, listeners}
use sse_broadcast_benchmark.Bench.Sampling.Bounds.{sampled_bounds}
use sse_broadcast_benchmark.Bench.Probes.{
  Probe, answered, failed, begun, run_probes, answers, errors,
}
use sse_broadcast_benchmark.Bench.Probes.Ends.{run_probes-multiple, run_probes-endless}
use sse_broadcast_benchmark.Common.Int.{pos, negsuc}
use sse_broadcast_benchmark.Js.Text.{Text, codes, eq_text}
use sse_broadcast_benchmark.Bench.Report.{Result, Measured, result, print_report}
use sse_broadcast_benchmark.Bench.Report.Saved.{run_all, kept, print_report-run_all}
use sse_broadcast_benchmark.Bench.Report.Averages.{average-bounds}
use sse_broadcast_benchmark.Bench.Report.{average, smallest, largest, finite, quotient}

-- Thirty-nine clients, all of which listen.
thirty_nine : listeners (open_clients 39) ≡ 39
unfolding open_clients listeners is_sampled
thirty_nine = refl

sampled_bounds_example :
    (39 < 20
      → (listeners (open_clients 39) ≡ 1)
        × ((i : ℕ) → i < 39 → get_elem? (open_clients 39) i ≡ some (record { listens = i == 0 })))
    × (20 ≤ 39
        → (20 ≤ listeners (open_clients 39))
          × (listeners (open_clients 39) < 40)
          × ((i : ℕ)
              → i < 39
              → get_elem? (open_clients 39) i ≡ some (record { listens = i % (39 / 20) == 0 })))
sampled_bounds_example = sampled_bounds 39 (omega arith)

-- A benchmark of one second, with a probe each half second.
abbrev three_probes : List Probe
three_probes = answered 12 ∷ failed ∷ answered 15 ∷ []

run_probes-multiple_example :
    let final = run_probes (2 * 500) 500 three_probes begun in
    (final.reports ≡ (if leb 2 (answers three_probes) then 1 else 0))
    × (final.timers ≡ not (leb 2 (answers three_probes)))
    × (length final.response_times ≡ answers three_probes)
    × (final.num_errors ≡ errors three_probes)
run_probes-multiple_example = run_probes-multiple 2 499 (omega arith) three_probes

one_report : (run_probes 1000 500 three_probes begun).reports ≡ 1
unfolding run_probes
one_report = refl

-- Thirty seconds, with a probe each 700 milliseconds.
no_multiple : (n : ℕ) → n * 700 ≢ 30000
no_multiple n e = omega arith

run_probes-endless_example :
    ((run_probes 30000 700 three_probes begun).reports ≡ 0)
    × ((run_probes 30000 700 three_probes begun).timers ≡ true)
run_probes-endless_example = run_probes-endless 30000 700 no_multiple three_probes

-- Two runs from the same machine, the first of which starts the file anew.
abbrev first_run : Measured
first_run = record {
  profile_name = codes "node";
  now = codes "2014-08-30 12:00:00";
  bench_duration = codes "30";
  response_times = pos 12 ∷ pos 15 ∷ [];
  push_diff_times = negsuc 0 ∷ pos 7 ∷ [];
  mem_usage = pos 4096 ∷ [];
  loads = (codes "0.100", codes "0.1", codes "0.1");
  num_errors = 0;
  is_local = true;
}

abbrev second_run : Measured
second_run = record first_run { profile_name = codes "go"; response_times = []; num_errors = 2 }

abbrev two_runs : List (Bool × Measured)
two_runs = (true, first_run) ∷ (false, second_run) ∷ []

-- JSON for the arrays that the two runs write: each is told by its length.
stringify : List Result → Text
stringify [] = codes "[]"
stringify (r ∷ []) = codes "1"
stringify (r ∷ s ∷ rs) = codes "2"

parse : Text → Option (List Result)
parse t =
    if eq_text t (codes "[]")
    then some []
    else if eq_text t (codes "1")
    then some (result first_run ∷ [])
    else if eq_text t (codes "2")
    then some (result first_run ∷ result second_run ∷ [])
    else none

print_report-run_all_example :
    let after = run_all parse stringify two_runs none in
    print_report parse stringify false none after
    ≡ (after, result first_run ∷ result second_run ∷ [])
unfolding parse eq_text codes stringify kept
print_report-run_all_example =
    print_report-run_all parse stringify two_runs none refl (refl, (refl, tt))

average-bounds_example :
    let samples = pos 12 ∷ pos 15 ∷ pos 4 ∷ [] in
    (lo : ℕ) × (avg : ℕ) × (hi : ℕ) × (smallest samples ≡ finite (pos lo))
    × (average samples ≡ finite (pos avg))
    × (largest samples ≡ finite (pos hi))
    × (lo ≤ avg)
    × (avg ≤ hi)
average-bounds_example = average-bounds 12 (15 ∷ 4 ∷ []) (omega arith) (omega arith)

-- A millisecond in two million answers is read as four.
one_in_two_million : quotient (pos 1) 2000001 ≡ finite (pos 4)
unfolding quotient
one_in_two_million = refl
