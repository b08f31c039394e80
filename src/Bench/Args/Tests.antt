-- ===== src/Bench/Args/Tests.antt =====
-- The benchmark with its default options, and a parser that reads a single option.
use sse_broadcast_benchmark.Common.{
  ℕ, zero, suc, ◌≡◌, refl, false, List, [], ◌∷◌, Option, none, some, arith, length,
}
use sse_broadcast_benchmark.Common.Int.{ℤ}
use sse_broadcast_benchmark.Js.Text.{Text, codes}
use sse_broadcast_benchmark.Js.Argparse.{Value, ParseArgs, given}
use sse_broadcast_benchmark.Bench.Report.{print_report}
use sse_broadcast_benchmark.Bench.Sampling.{open_clients}
use sse_broadcast_benchmark.Bench.Program.{
  Options, Event, probe_answered, fresh_program, run_events, start_bench, runs,
}
use sse_broadcast_benchmark.Bench.Program.Observed.{times, until, observed, collect}
use sse_broadcast_benchmark.Bench.Program.Instance.{stringify, parse, doubles}
use sse_broadcast_benchmark.Bench.Args.{bench_args, options_of}
use sse_broadcast_benchmark.Bench.Args.Defaults.{options_of-ends}

abbrev parse_args : ParseArgs
parse_args table (option ∷ value ∷ []) = some (given table ((codes "profileName", value) ∷ []))
parse_args table _ = none

abbrev to_number : Text → Option ℤ
to_number t = none

-- So many probes, each of which takes as many milliseconds as there are probes after it.
abbrev probes : ℕ → List (Event ℕ)
probes zero = []
probes (suc n) = probe_answered n (codes "2014-08-30 12:00:00") ∷ probes n

length-probes : (n : ℕ) → length (times (probes n)) ≡ n
unfolding collect
length-probes zero = refl
length-probes (suc n) = let ih = length-probes n in omega arith

options_of-ends_example :
    (values : Text → Value) × (args : Options) × (parse_args bench_args
        (codes "--profile-name" ∷ (110 ∷ codes "ode") ∷ [])
      ≡ some values)
    × (options_of to_number values ≡ some args)
    × (start_bench args ≡ runs (open_clients 3000))
    × (args.profile_name ≡ some (codes "node"))
    × (let s = run_events parse stringify doubles args (probes 61) (fresh_program none) in
        let printed =
          print_report parse stringify false
            (some (observed doubles args (until 60 (probes 61))))
            none in
        (s.file ≡ printed.0) × (s.shown ≡ printed.1 ∷ []))
unfolding codes
options_of-ends_example =
    options_of-ends parse_args to_number parse stringify doubles (λ c cs _. refl) 110 (codes "ode")
      (λ e. omega arith) none (probes 61) (omega (arith, length-probes 61))
