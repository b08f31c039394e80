-- ===== src/Bench/Program/Ends.antt =====
-- The benchmark writes its report once, of what it has seen until the answer that ends it.
use sse_broadcast_benchmark.Common.{
  ℕ, zero, suc, ◌+◌, ◌-◌, ◌*◌, ◌≤◌, ◌<◌, ◌≡◌, refl, sym, ap, subst, ◌∙◌, List, [], ◌∷◌, ◌++◌,
  Option, some, arith, ◌==◌, length, length-append, append-nil, append_assoc, ==_refl, ==_of_ne,
}
use sse_broadcast_benchmark.Js.Text.{Text}
use sse_broadcast_benchmark.Bench.Probes.{is_last}
use sse_broadcast_benchmark.Bench.Probes.Ends.{is_last-multiple}
use sse_broadcast_benchmark.Bench.Report.Loads.{Doubles}
use sse_broadcast_benchmark.Bench.Report.{Result, print_report}
use sse_broadcast_benchmark.Bench.Program.{
  Options, Event, probe_answered, probe_failed, client_failed, message, sample, Program,
  fresh_program, step, run_events,
}
use sse_broadcast_benchmark.Bench.Program.Observed.{
  collect, collect_snoc, response_time, times, until, observed,
}
use sse_broadcast_benchmark.Bench.Program.Steps.{
  open_after, step_other, on_answer_other, on_answer_last, run_printing, Reports,
}

module _ {Load : Type 0} (parse : Text → Option (List Result)) (stringify : List Result → Text)
    (doubles : Doubles Load) (args : Options) (file : Option Text) where
  -- What the program comes to: so many answers end it, and so many have come.
  abbrev Outcome : ℕ → ℕ → List (Event Load) → Program Load → Type 0
  Outcome left came seen s =
      (left ≤ came → Reports parse stringify doubles args file seen s)
      × (came < left → (s.file ≡ file) × (s.shown ≡ []))

  module _ (k r : ℕ) (duration : args.bench_duration ≡ k * suc r)
      (interval : args.probe_interval ≡ suc r) where
    is_last_at : (n : ℕ) → is_last args.bench_duration args.probe_interval n ≡ (n == k)
    is_last_at n = rw (duration, interval) (is_last-multiple k r n)

    abbrev run : List (Event Load) → Program Load → Program Load
    run es s = run_events parse stringify doubles args es s

    -- The events go on after one that has not ended the benchmark.
    Outcome-next :
        (past : List (Event Load)) (e : Event Load) (es seen : List (Event Load)) (left came : ℕ)
        → step parse stringify doubles args e (open_after file past)
          ≡ open_after file (past ++ e ∷ [])
        → Outcome left came ((past ++ e ∷ []) ++ seen) (run es (open_after file (past ++ e ∷ [])))
        → Outcome left came
            (past ++ e ∷ seen)
            (run es (step parse stringify doubles args e (open_after file past)))
    Outcome-next past e es seen left came same h =
        subst (λ t. Outcome left came (past ++ e ∷ seen) (run es t)) (sym same)
          (subst (λ l. Outcome left came l (run es (open_after file (past ++ e ∷ []))))
            (append_assoc past (e ∷ []) seen) h)

    length-times_other :
        (past : List (Event Load)) (e : Event Load) (left : ℕ)
        → response_time e ≡ []
        → length (times past) + suc left ≡ k
        → length (times (past ++ e ∷ [])) + suc left ≡ k
    length-times_other past e left none h =
        ap (λ l. length l + suc left)
          (collect_snoc response_time past e
            ∙ ap (λ l. times past ++ l) none
            ∙ append-nil (times past))
        ∙ h

    run_events_open :
        (es past : List (Event Load)) (left : ℕ)
        → length (times past) + suc left ≡ k
        → Outcome
            (suc left)
            (length (times es))
            (past ++ until (suc left) es)
            (run es (open_after file past))
    unfolding run_events step collect until
    run_events_open [] past left h = (λ l. absurd (omega arith), λ l. (refl, refl))
    run_events_open (probe_answered elapsed now ∷ es) past zero h =
        let now_k : suc (length (times past)) ≡ k = omega arith in
        let last = is_last_at (suc (length (times past))) ∙ ap (λ n. n == k) now_k ∙ ==_refl k in
        (
          λ l.
              run_printing parse stringify doubles args file
                (past ++ probe_answered elapsed now ∷ []) es _
                (on_answer_last parse stringify doubles args file past elapsed now last),
          λ l. absurd (omega arith),
        )
    run_events_open (probe_answered elapsed now ∷ es) past (suc left) h =
        let size : length (times (past ++ probe_answered elapsed now ∷ []))
            ≡ suc (length (times past)) =
          omega (
            arith,
            ap length (collect_snoc response_time past (probe_answered elapsed now)),
            length-append (times past) (elapsed ∷ []),
          ) in
        let other =
          is_last_at (suc (length (times past)))
          ∙ ==_of_ne (suc (length (times past))) k (λ e. omega arith) in
        let (reports, nothing) =
          Outcome-next past (probe_answered elapsed now) es (until (suc left) es) (suc left)
            (length (times es))
            (on_answer_other parse stringify doubles args file past elapsed now other)
            (run_events_open es (past ++ probe_answered elapsed now ∷ []) left (omega arith)) in
        (λ l. reports (omega arith), λ l. nothing (omega arith))
    run_events_open (probe_failed ∷ es) past left h =
        Outcome-next past probe_failed es (until (suc left) es) (suc left) (length (times es))
          (step_other parse stringify doubles args file past probe_failed refl)
          (run_events_open es (past ++ probe_failed ∷ []) left
            (length-times_other past probe_failed left refl h))
    run_events_open (client_failed ∷ es) past left h =
        Outcome-next past client_failed es (until (suc left) es) (suc left) (length (times es))
          (step_other parse stringify doubles args file past client_failed refl)
          (run_events_open es (past ++ client_failed ∷ []) left
            (length-times_other past client_failed left refl h))
    run_events_open (message now sent_at ∷ es) past left h =
        let e : Event Load = message now sent_at in
        Outcome-next past e es (until (suc left) es) (suc left) (length (times es))
          (step_other parse stringify doubles args file past e refl)
          (run_events_open es (past ++ e ∷ []) left (length-times_other past e left refl h))
    run_events_open (sample load total_mem free_mem ∷ es) past left h =
        let e : Event Load = sample load total_mem free_mem in
        Outcome-next past e es (until (suc left) es) (suc left) (length (times es))
          (step_other parse stringify doubles args file past e refl)
          (run_events_open es (past ++ e ∷ []) left (length-times_other past e left refl h))

    run_events_begun :
        0 < k
        → (es : List (Event Load))
        → Outcome k (length (times es)) (until k es) (run es (fresh_program file))
    unfolding collect
    run_events_begun h es =
        let e : suc (k - 1) ≡ k = omega arith in
        let none : length (times {Load = Load} []) + suc (k - 1) ≡ k = omega arith in
        subst (λ n. Outcome n (length (times es)) (until n es) (run es (fresh_program file))) e
          (run_events_open es [] (k - 1) none)

    -- If the interval divides the duration, k times and at least once, and k probes or more are
    -- answered, then the file of results and the one table that is printed are those of `printReport`
    -- for what the events until the k-th answer come to: its time, the response times, the delivery
    -- times, the samples of load and memory, and how many probes and clients have failed. What happens
    -- afterwards changes neither.
    pub run_events-print_report :
        0 < k
        → (es : List (Event Load)) → k ≤ length (times es)
        → let s = run_events parse stringify doubles args es (fresh_program file) in
          let printed =
            print_report parse stringify args.reset
              (some (observed doubles args (until k es)))
              file in
          (s.file ≡ printed.0) × (s.shown ≡ printed.1 ∷ [])
    run_events-print_report h es enough =
        let (_, written, shown) = (run_events_begun h es).0 enough in (written, shown)

    -- If the interval divides the duration, k times and at least once, and fewer than k probes are
    -- answered, then whatever else happens to the program, its file of results stays as it is and
    -- nothing is printed.
    pub run_events_unwritten :
        0 < k
        → (es : List (Event Load)) → length (times es) < k
        → let s = run_events parse stringify doubles args es (fresh_program file) in
          (s.file ≡ file) × (s.shown ≡ [])
    run_events_unwritten h es = (run_events_begun h es).1
