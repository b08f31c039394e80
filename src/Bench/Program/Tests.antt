-- ===== src/Bench/Program/Tests.antt =====
-- The theorems on bench/bench.js as a whole at concrete inputs.
use sse_broadcast_benchmark.Common.{ℕ, ◌≡◌, refl, false, true, List, [], ◌∷◌, none, some, arith}
use sse_broadcast_benchmark.Common.Int.{pos}
use sse_broadcast_benchmark.Js.Text.{Text, codes, show_text, eq_text}
use sse_broadcast_benchmark.Bench.Report.Loads.{load_texts}
use sse_broadcast_benchmark.Bench.Report.{Measured, print_report}
use sse_broadcast_benchmark.Bench.Program.{
  Options, Event, probe_answered, probe_failed, client_failed, message, sample, fresh_program,
  run_events, is_local,
}
use sse_broadcast_benchmark.Bench.Program.Instance.{stringify, parse, doubles}
use sse_broadcast_benchmark.Bench.Program.Observed.{collect, until, last_now}
use sse_broadcast_benchmark.Bench.Program.Ends.{run_events-print_report, run_events_unwritten}

-- A second, with a probe each half second.
abbrev one_second : Options
one_second = record {
  host = codes "localhost";
  num_clients = 30;
  probe_interval = 500;
  bench_duration = 1000;
  duration_text = codes "1";
  reset = false;
  only_results = false;
  profile_name = some (codes "node");
}

abbrev now : Text
now = codes "2014-08-30 12:00:00"

abbrev a_second : List (Event ℕ)
a_second =
    sample 1 8192 4096
    ∷ message 1007 1000
    ∷ probe_answered 12 now
    ∷ client_failed
    ∷ probe_failed
    ∷ probe_answered 15 now
    ∷ probe_answered 9 now
    ∷ []

-- What is to be seen until the second answer.
abbrev seen : Measured
seen = record {
  profile_name = codes "node";
  now = now;
  bench_duration = codes "1";
  response_times = pos 12 ∷ pos 15 ∷ [];
  push_diff_times = pos 7 ∷ [];
  mem_usage = pos 4096 ∷ [];
  loads = load_texts doubles (1 ∷ []);
  num_errors = 2;
  is_local = true;
}

run_events-print_report_example :
    let s = run_events parse stringify doubles one_second a_second (fresh_program none) in
    let printed = print_report parse stringify false (some seen) none in
    (s.file ≡ printed.0) × (s.shown ≡ printed.1 ∷ [])
unfolding collect until last_now show_text is_local eq_text codes
run_events-print_report_example =
    run_events-print_report parse stringify doubles one_second none 2 499 refl refl (omega arith)
      a_second (omega arith)

abbrev half_a_second : List (Event ℕ)
half_a_second = sample 1 8192 4096 ∷ probe_failed ∷ probe_answered 12 now ∷ message 1007 1000 ∷ []

run_events_unwritten_example :
    let s = run_events parse stringify doubles one_second half_a_second (fresh_program none) in
    (s.file ≡ none) × (s.shown ≡ [])
unfolding collect
run_events_unwritten_example =
    run_events_unwritten parse stringify doubles one_second none 2 499 refl refl (omega arith)
      half_a_second (omega arith)
