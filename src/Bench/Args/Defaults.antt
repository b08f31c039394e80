-- ===== src/Bench/Args/Defaults.antt =====
-- The benchmark with its default options: what bench/args.js and bench/bench.js do together.
use sse_broadcast_benchmark.Common.{
  ℕ, ◌≤◌, ◌≡◌, ◌≢◌, refl, false, List, [], ◌∷◌, Option, some, arith, length,
}
use sse_broadcast_benchmark.Common.Int.{ℤ}
use sse_broadcast_benchmark.Js.Text.{Text, codes, eq_text, is_falsy}
use sse_broadcast_benchmark.Js.Number.{show}
use sse_broadcast_benchmark.Js.Argparse.{Value, ParseArgs, defaults, given}
use sse_broadcast_benchmark.Bench.Report.Loads.{Doubles}
use sse_broadcast_benchmark.Bench.Report.{Result, print_report}
use sse_broadcast_benchmark.Bench.Program.{
  Options, Event, start_bench, runs, fresh_program, run_events,
}
use sse_broadcast_benchmark.Bench.Sampling.{open_clients}
use sse_broadcast_benchmark.Bench.Program.Observed.{times, until, observed}
use sse_broadcast_benchmark.Bench.Program.Ends.{run_events-print_report}
use sse_broadcast_benchmark.Bench.Args.{bench_args, options_of}

-- What is documented of argparse for a command line with one option, whose text begins with no dash.
abbrev pub ReadsProfileName : ParseArgs → Type 0
ReadsProfileName parse_args =
    (c : ℕ) (cs : Text)
    → c ≢ 45
    → parse_args bench_args (codes "--profile-name" ∷ (c ∷ cs) ∷ [])
      ≡ some (given bench_args ((codes "profileName", c ∷ cs) ∷ []))

abbrev pub default_options : Text → Options
default_options name = record {
  host = codes "localhost";
  num_clients = 3000;
  probe_interval = 500;
  bench_duration = 30000;
  duration_text = show 30;
  reset = false;
  only_results = false;
  profile_name = some name;
}

options_of-given :
    (to_number : Text → Option ℤ) (name : Text)
    → options_of to_number (given bench_args ((codes "profileName", name) ∷ []))
      ≡ some (default_options name)
unfolding options_of bench_args defaults eq_text codes
options_of-given to_number name = refl

module _ {Load : Type 0} (parse_args : ParseArgs) (to_number : Text → Option ℤ)
    (parse : Text → Option (List Result)) (stringify : List Result → Text)
    (doubles : Doubles Load) where
  -- If argparse reads a command line with one option as documented: with `--profile-name` and a name
  -- that begins with no dash as its only option, the benchmark runs, with 3000 clients, and if 60
  -- probes or more are answered, the file of results and the one table that is printed are those of
  -- `printReport` for that name and the events until the 60th answer, whatever happens afterwards.
  pub options_of-ends :
      ReadsProfileName parse_args
      → (c : ℕ) (cs : Text) → c ≢ 45
      → (file : Option Text) → (es : List (Event Load)) → 60 ≤ length (times es)
      → (values : Text → Value) × (args : Options) × (parse_args bench_args
            (codes "--profile-name" ∷ (c ∷ cs) ∷ [])
          ≡ some values)
        × (options_of to_number values ≡ some args)
        × (start_bench args ≡ runs (open_clients 3000))
        × (args.profile_name ≡ some (c ∷ cs))
        × (let s = run_events parse stringify doubles args es (fresh_program file) in
            let printed =
              print_report parse stringify false
                (some (observed doubles args (until 60 es)))
                file in
            (s.file ≡ printed.0) × (s.shown ≡ printed.1 ∷ []))
  unfolding start_bench is_falsy
  options_of-ends reads c cs no_dash file es enough =
      let args = default_options (c ∷ cs) in
      (
        given bench_args ((codes "profileName", c ∷ cs) ∷ []),
        args,
        reads c cs no_dash,
        options_of-given to_number (c ∷ cs),
        refl,
        refl,
        run_events-print_report parse stringify doubles args file 60 499 refl refl (omega arith) es
            enough,
      )
