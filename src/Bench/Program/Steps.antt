-- ===== src/Bench/Program/Steps.antt =====
-- What each event does before and after the end of the benchmark.
use sse_broadcast_benchmark.Common.{
  ℕ, suc, ◌≡◌, refl, Bool, true, false, List, [], ◌∷◌, ◌++◌, map, Option, some, arith,
  if◌then◌else◌, length, length-append, append-nil,
}
use sse_broadcast_benchmark.Common.Int.{pos}
use sse_broadcast_benchmark.Js.Text.{Text}
use sse_broadcast_benchmark.Bench.Probes.{Run, is_last, on_response, on_probe_error, print}
use sse_broadcast_benchmark.Bench.Report.Loads.{Doubles}
use sse_broadcast_benchmark.Bench.Report.{Result, print_report}
use sse_broadcast_benchmark.Bench.Program.{
  Options, Event, probe_answered, probe_failed, client_failed, message, sample, Program, measure,
  write_report, on_answer, step, run_events, on_msg_received, get_system_load,
}
use sse_broadcast_benchmark.Bench.Program.Observed.{
  collect, collect_snoc, response_time, delivery_time, load_sample, mem_sample, failure, times,
  last_now-append, observed,
}

module _ {Load : Type 0} (file : Option Text) where
  -- The program after some events, none of which has ended the benchmark.
  abbrev pub open_after : List (Event Load) → Program Load
  open_after past = record {
    run = record {
      response_times = times past;
      printing_report = false;
      num_errors = length (collect failure past);
      timers = true;
      reports = 0;
    };
    sys_load = collect load_sample past;
    mem_usage = collect mem_sample past;
    push_diff_times = collect delivery_time past;
    closed = false;
    file = file;
    shown = [];
  }

  snoc :
      (past : List (Event Load)) (e : Event Load)
      → open_after (past ++ e ∷ []) ≡ record {
        run = record {
          response_times = times past ++ response_time e;
          printing_report = false;
          num_errors = length (collect failure past ++ failure e);
          timers = true;
          reports = 0;
        };
        sys_load = collect load_sample past ++ load_sample e;
        mem_usage = collect mem_sample past ++ mem_sample e;
        push_diff_times = collect delivery_time past ++ delivery_time e;
        closed = false;
        file = file;
        shown = [];
      }
  snoc past e =
      rw
        (
          collect_snoc response_time past e,
          collect_snoc failure past e,
          collect_snoc load_sample past e,
          collect_snoc mem_sample past e,
          collect_snoc delivery_time past e,
        )
        refl

module _ {Load : Type 0} (parse : Text → Option (List Result)) (stringify : List Result → Text)
    (doubles : Doubles Load) (args : Options) (file : Option Text) where
  -- An event that is no answer.
  pub step_other :
      (past : List (Event Load)) (e : Event Load)
      → response_time e ≡ []
      → step parse stringify doubles args e (open_after file past)
        ≡ open_after file (past ++ e ∷ [])
  unfolding step on_msg_received get_system_load on_probe_error
  step_other past (probe_answered elapsed now) h = cc h
  step_other past probe_failed h =
      rw
        (
          snoc file past probe_failed,
          length-append (collect failure past) (probe_failed ∷ []),
          append-nil (times past),
          append-nil (collect load_sample past),
          append-nil (collect mem_sample past),
          append-nil (collect delivery_time past),
        )
        refl
  step_other past client_failed h =
      rw
        (
          snoc file past client_failed,
          length-append (collect failure past) (client_failed ∷ []),
          append-nil (times past),
          append-nil (collect load_sample past),
          append-nil (collect mem_sample past),
          append-nil (collect delivery_time past),
        )
        refl
  step_other past (message now sent_at) h =
      rw
        (
          snoc file past (message now sent_at),
          on_msg_received,
          append-nil (collect failure past),
          append-nil (times past),
          append-nil (collect load_sample past),
          append-nil (collect mem_sample past),
        )
        refl
  step_other past (sample load total_mem free_mem) h =
      rw
        (
          snoc file past (sample load total_mem free_mem),
          get_system_load,
          append-nil (collect failure past),
          append-nil (times past),
          append-nil (collect delivery_time past),
        )
        refl

  -- An answer that is not the last.
  pub on_answer_other :
      (past : List (Event Load)) (elapsed : ℕ) (now : Text)
      → is_last args.bench_duration args.probe_interval (suc (length (times past))) ≡ false
      → on_answer parse stringify doubles args elapsed now (open_after file past)
        ≡ open_after file (past ++ probe_answered elapsed now ∷ [])
  unfolding on_answer on_response
  on_answer_other past elapsed now other =
      let size : length (times past ++ elapsed ∷ []) ≡ suc (length (times past)) =
        omega (arith, length-append (times past) (elapsed ∷ [])) in
      rw
        (
          snoc file past (probe_answered elapsed now),
          on_answer,
          on_response,
          size,
          other,
          append-nil (collect failure past),
          append-nil (collect load_sample past),
          append-nil (collect mem_sample past),
          append-nil (collect delivery_time past),
        )
        refl

  observed_snoc :
      (past : List (Event Load)) (elapsed : ℕ) (now : Text)
      → observed doubles args (past ++ probe_answered elapsed now ∷ [])
        ≡ record (observed doubles args past) {
          now = now;
          response_times = map pos (times past ++ elapsed ∷ []);
        }
  observed_snoc past elapsed now =
      let e : Event Load = probe_answered elapsed now in
      rw
        (
          last_now-append [] past elapsed now,
          collect_snoc response_time past e,
          collect_snoc failure past e,
          collect_snoc load_sample past e,
          collect_snoc mem_sample past e,
          collect_snoc delivery_time past e,
          append-nil (collect failure past),
          append-nil (collect load_sample past),
          append-nil (collect mem_sample past),
          append-nil (collect delivery_time past),
        )
        refl

  abbrev pub Reports : List (Event Load) → Program Load → Type 0
  Reports past s =
      (s.run.printing_report ≡ true)
      × (s.file
          ≡ (print_report parse stringify args.reset (some (observed doubles args past)) file).0)
      × (s.shown
          ≡ (print_report parse stringify args.reset (some (observed doubles args past)) file).1
            ∷ [])

  pub on_answer_last :
      (past : List (Event Load)) (elapsed : ℕ) (now : Text)
      → is_last args.bench_duration args.probe_interval (suc (length (times past))) ≡ true
      → Reports
          (past ++ probe_answered elapsed now ∷ [])
          (on_answer parse stringify doubles args elapsed now (open_after file past))
  unfolding on_answer on_response write_report print
  on_answer_last past elapsed now last =
      let size : length (times past ++ elapsed ∷ []) ≡ suc (length (times past)) =
        omega (arith, length-append (times past) (elapsed ∷ [])) in
      let run : Run =
        print (record (open_after file past).run { response_times = times past ++ elapsed ∷ [] }) in
      let e : on_answer parse stringify doubles args elapsed now (open_after file past)
          ≡ write_report parse stringify doubles args now
              (record (open_after file past) { run = run }) =
        rw (on_answer, on_response, size, last) refl in
      let seen : observed doubles args (past ++ probe_answered elapsed now ∷ [])
          ≡ measure parse stringify doubles args now (record (open_after file past) { run = run }) =
        rw (observed_snoc past elapsed now) refl in
      rw (e, seen) (refl, refl, refl)

  on_answer_printing :
      (elapsed : ℕ) (now : Text) (s : Program Load)
      → s.run.printing_report ≡ true
      → on_answer parse stringify doubles args elapsed now s
        ≡ record s { run = record s.run { response_times = s.run.response_times ++ elapsed ∷ [] } }
  unfolding on_answer on_response
  on_answer_printing elapsed now s h = rw (on_answer, on_response, h) refl

  either :
      (past : List (Event Load)) (b : Bool) (s t : Program Load)
      → Reports past s
      → Reports past t
      → Reports past (if b then s else t)
  either past true s t p q = p
  either past false s t p q = q

  -- Once the report is being printed, its results stay.
  step_printing :
      (past : List (Event Load)) (e : Event Load) (s : Program Load)
      → Reports past s
      → Reports past (step parse stringify doubles args e s)
  unfolding step on_msg_received get_system_load on_probe_error
  step_printing past (probe_answered elapsed now) s (p, f, g) =
      rw (on_answer_printing elapsed now s p) (p, f, g)
  step_printing past probe_failed s h = h
  step_printing past client_failed s h =
      either past s.closed s (record s { run = on_probe_error s.run }) h h
  step_printing past (message now sent_at) s h =
      either past s.closed s (on_msg_received now sent_at s) h h
  step_printing past (sample load total_mem free_mem) s h =
      either past s.run.timers (get_system_load load total_mem free_mem s) s h h

  pub run_printing :
      (past es : List (Event Load)) (s : Program Load)
      → Reports past s
      → Reports past (run_events parse stringify doubles args es s)
  unfolding run_events
  run_printing past [] s h = h
  run_printing past (e ∷ es) s h =
      run_printing past es (step parse stringify doubles args e s) (step_printing past e s h)
