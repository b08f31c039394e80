-- ===== src/Bench/Program.antt =====
-- bench/bench.js as a whole: its start, the handlers of its clients, probes and timers, and the report
-- at its end. A sample of the system load is a `Load`.
pub mod Observed
pub mod Steps
pub mod Ends
pub mod Instance
mod Tests
use sse_broadcast_benchmark.Common.{
  ℕ, suc, ◌+◌, ◌*◌, ◌≡◌, Bool, true, false, ◌&&◌, ◌||◌, not, List, [], ◌∷◌, ◌++◌, map, Option, none,
  some, if◌then◌else◌, length,
}
use sse_broadcast_benchmark.Common.Int.{ℤ, pos, sub_ℕ}
use sse_broadcast_benchmark.Js.Text.{Text, codes, eq_text, is_falsy, show_text}
use sse_broadcast_benchmark.Bench.Sampling.{Client, open_clients}
use sse_broadcast_benchmark.Bench.Probes.{Run, begun, is_last, on_response, on_probe_error}
use sse_broadcast_benchmark.Bench.Report.Loads.{Doubles, load_texts}
use sse_broadcast_benchmark.Bench.Report.{Result, Measured, print_report}

-- The options that the program reads; times are milliseconds.
pub record Options : Type 0 where
  pub host : Text
  pub num_clients : ℕ
  pub probe_interval : ℕ
  pub bench_duration : ℕ
  pub duration_text : Text
  pub reset : Bool
  pub only_results : Bool
  pub profile_name : Option Text

-- `['localhost', '127.0.0.1'].indexOf(args.host) !== -1`
unfoldable pub is_local : Options → Bool
is_local args = eq_text args.host (codes "localhost") || eq_text args.host (codes "127.0.0.1")

-- The start: only the results are shown, the profile's name is missing, which is the exit status 1,
-- or the benchmark runs, with its clients.
pub data Started : Type 0 where
  shows_results : Started
  exits : ℕ → Started
  runs : List Client → Started

unfoldable pub start_bench : Options → Started
unfolding open_clients
start_bench args =
    if args.only_results
    then shows_results
    else if is_falsy args.profile_name
    then exits 1
    else runs (open_clients args.num_clients)

-- What happens to the program: a probe is answered, at a time with this text, or fails; a client
-- fails; a client that listens receives a message with a time; the timer takes a sample of the system.
pub data Event (Load : Type 0) : Type 0 where
  probe_answered : ℕ → Text → Event Load
  probe_failed client_failed : Event Load
  message : ℕ → ℕ → Event Load
  sample : Load → ℕ → ℕ → Event Load

-- The variables of the program, whether its clients are closed, the file of results, and the results
-- of the tables that were printed.
pub record Program (Load : Type 0) : Type 0 where
  pub run : Run
  pub sys_load : List Load
  pub mem_usage : List ℤ
  pub push_diff_times : List ℤ
  pub closed : Bool
  pub file : Option Text
  pub shown : List (List Result)

abbrev pub fresh_program : {Load : Type 0} → Option Text → Program Load
fresh_program file = record {
  run = begun;
  sys_load = [];
  mem_usage = [];
  push_diff_times = [];
  closed = false;
  file = file;
  shown = [];
}

-- `onMsgReceived`
unfoldable pub on_msg_received : {Load : Type 0} → ℕ → ℕ → Program Load → Program Load
on_msg_received now sent_at s = record s {
  push_diff_times = s.push_diff_times ++ sub_ℕ now sent_at ∷ [];
}

-- `getSystemLoad`
unfoldable pub get_system_load : {Load : Type 0} → Load → ℕ → ℕ → Program Load → Program Load
get_system_load load total_mem free_mem s = record s {
  sys_load = s.sys_load ++ load ∷ [];
  mem_usage = s.mem_usage ++ sub_ℕ total_mem free_mem ∷ [];
}

-- How JSON is read and written, and the arithmetic of the loads.
module _ {Load : Type 0} (parse : Text → Option (List Result)) (stringify : List Result → Text)
    (doubles : Doubles Load) (args : Options) where
  abbrev pub measure : Text → Program Load → Measured
  measure now s = record {
    profile_name = show_text args.profile_name;
    now = now;
    bench_duration = args.duration_text;
    response_times = map pos s.run.response_times;
    push_diff_times = s.push_diff_times;
    mem_usage = s.mem_usage;
    loads = load_texts doubles s.sys_load;
    num_errors = s.run.num_errors;
    is_local = is_local args;
  }

  -- `printReport`
  unfoldable pub write_report : Text → Program Load → Program Load
  write_report now s =
      let printed = print_report parse stringify args.reset (some (measure now s)) s.file in
      record s { closed = true; file = printed.0; shown = s.shown ++ printed.1 ∷ [] }

  -- The answer to a probe in `getResponseTime`.
  unfoldable pub on_answer : ℕ → Text → Program Load → Program Load
  unfolding write_report
  on_answer elapsed now s =
      let s' = record s {
        run = on_response args.bench_duration args.probe_interval elapsed s.run;
      } in
      if not s.run.printing_report
        && is_last args.bench_duration args.probe_interval (suc (length s.run.response_times))
      then write_report now s'
      else s'

  -- A closed client does nothing any more, and neither does a timer that is cleared.
  unfoldable pub step : Event Load → Program Load → Program Load
  unfolding on_answer on_msg_received get_system_load
  step (probe_answered elapsed now) s = on_answer elapsed now s
  step probe_failed s = record s { run = on_probe_error s.run }
  step client_failed s = if s.closed then s else record s { run = on_probe_error s.run }
  step (message now sent_at) s = if s.closed then s else on_msg_received now sent_at s
  step (sample load total_mem free_mem) s =
      if s.run.timers then get_system_load load total_mem free_mem s else s

  unfoldable pub run_events : List (Event Load) → Program Load → Program Load
  unfolding step
  run_events [] s = s
  run_events (e ∷ es) s = run_events es (step e s)
