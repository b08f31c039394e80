-- ===== src/Reporter/Args/Defaults.antt =====
-- The reporter with a name and an endpoint: what stats-reporter/args.js, stats-reporter/report.js and
-- the server of node.js do together.
use sse_broadcast_benchmark.Common.{
  ap, ◌∙◌, ℕ, ◌≡◌, ◌≢◌, refl, Bool, [], ◌∷◌, ◌++◌, none, some, if◌then◌else◌, arith,
}
use sse_broadcast_benchmark.Common.Int.{pos}
use sse_broadcast_benchmark.Js.Text.{Text, codes, eq_text, is_falsy, show_text}
use sse_broadcast_benchmark.Js.Number.{show, show_int}
use sse_broadcast_benchmark.Js.Argparse.{Value, ParseArgs, defaults, given}
use sse_broadcast_benchmark.Reporter.Start.{
  Options, exits, spawns, imp_file, no_pid, command, watch_or_spawn, start_report,
}
use sse_broadcast_benchmark.Reporter.Start.Boot.{start_server, start_server_lem, boots}
use sse_broadcast_benchmark.Reporter.Args.{reporter_args, options_of}
use sse_broadcast_benchmark.Server.Args.{listens}

-- What is documented of argparse for a command line with two options, whose texts begin with no dash.
abbrev pub ReadsImplementation : ParseArgs → Type 0
ReadsImplementation parse_args =
    (c : ℕ) (cs : Text) (d : ℕ) (ds : Text)
    → c ≢ 45
    → d ≢ 45
    → parse_args reporter_args
        (codes "--implementation" ∷ (c ∷ cs) ∷ codes "--endpoint" ∷ (d ∷ ds) ∷ [])
      ≡ some
          (given reporter_args ((codes "implementation", c ∷ cs) ∷ (codes "endpoint", d ∷ ds) ∷ []))

abbrev pub default_options : Text → Options
default_options name = record {
  pid = none;
  implementation = some name;
  cmd = none;
  port = pos 1942;
}

options_of-given :
    (name endpoint : Text)
    → options_of
        (given reporter_args ((codes "implementation", name) ∷ (codes "endpoint", endpoint) ∷ []))
      ≡ some (default_options name)
unfolding options_of reporter_args defaults eq_text codes
options_of-given name endpoint = refl

start_report-default :
    (exists_sync : Text → Bool) (dirname : Text) (c : ℕ) (cs : Text)
    → let args = default_options (c ∷ cs) in
      start_report exists_sync dirname args ≡ (
        if exists_sync (imp_file dirname args)
        then spawns (imp_file dirname args) (codes "--port" ∷ codes "1942" ∷ [])
        else exits 2)
unfolding start_report watch_or_spawn command is_falsy show_int show no_pid codes
start_report-default exists_sync dirname c cs = grind arith

module _ (parse_args : ParseArgs) (exists_sync : Text → Bool) (dirname cwd : Text) where
  -- If argparse reads a command line with two options as documented: with `--implementation` and
  -- `--endpoint` as its only options, neither text beginning with a dash, the reporter spawns the
  -- file of that implementation with the port 1942, or exits with 2 if there is no such file. If the
  -- file is the script of node.js, and the working directory of the reporter holds the server.js of
  -- node.js, the server listens, and at this port; if it holds no server.js, no server is started.
  pub options_of-start_server :
      ReadsImplementation parse_args
      → (c : ℕ) (cs : Text) (d : ℕ) (ds : Text) → c ≢ 45
      → d ≢ 45
      → (num_cpus : ℕ) (is_master : Bool)
      → let file = dirname ++ (codes "/../" ++ ((c ∷ cs) ++ codes "/server")) in
        let argv = codes "--port" ∷ codes "1942" ∷ [] in
        (values : Text → Value) × (args : Options) × (parse_args reporter_args
            (codes "--implementation" ∷ (c ∷ cs) ∷ codes "--endpoint" ∷ (d ∷ ds) ∷ [])
          ≡ some values)
        × (options_of values ≡ some args)
        × (start_report exists_sync dirname args
            ≡ (if exists_sync file then spawns file argv else exits 2))
        × (start_server exists_sync cwd num_cpus is_master file argv ≡ (
            if exists_sync (cwd ++ codes "/server.js")
            then some (listens (codes "1942"))
            else none))
  unfolding imp_file show_text show_int show codes
  options_of-start_server reads c cs d ds no_dash no_dash' num_cpus is_master =
      let file = dirname ++ (codes "/../" ++ ((c ∷ cs) ++ codes "/server")) in
      let argv = codes "--port" ∷ codes "1942" ∷ [] in
      (
        given reporter_args ((codes "implementation", c ∷ cs) ∷ (codes "endpoint", d ∷ ds) ∷ []),
        default_options (c ∷ cs),
        reads c cs d ds no_dash no_dash',
        options_of-given (c ∷ cs) (d ∷ ds),
        start_report-default exists_sync dirname c cs,
        start_server_lem exists_sync cwd num_cpus is_master file argv
            ∙ ap (λ b. if exists_sync (cwd ++ codes "/server.js") then some b else none)
                (boots num_cpus is_master dirname (default_options (c ∷ cs))),
      )
