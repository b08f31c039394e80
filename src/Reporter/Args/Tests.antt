-- ===== src/Reporter/Args/Tests.antt =====
-- The theorems on the start of the reporter with its server, and a parser that reads two options.
use sse_broadcast_benchmark.Common.{◌≡◌, refl, Bool, true, [], ◌∷◌, none, some, arith}
use sse_broadcast_benchmark.Common.Int.{pos}
use sse_broadcast_benchmark.Js.Text.{eq_text, Text, codes, is_falsy, show_text}
use sse_broadcast_benchmark.Js.Number.{show_int}
use sse_broadcast_benchmark.Js.Argparse.{Value, ParseArgs, given}
use sse_broadcast_benchmark.Reporter.Start.{
  Options, spawns, start_report, imp_file, command, watch_or_spawn,
}
use sse_broadcast_benchmark.Reporter.Start.Boot.{start_server, start_report-start_server}
use sse_broadcast_benchmark.Reporter.Args.{reporter_args, options_of}
use sse_broadcast_benchmark.Reporter.Args.Defaults.{options_of-start_server}
use sse_broadcast_benchmark.Server.Args.{listens}

abbrev parse_args : ParseArgs
parse_args table (a ∷ v ∷ b ∷ w ∷ []) =
    some (given table ((codes "implementation", v) ∷ (codes "endpoint", w) ∷ []))
parse_args table _ = none

abbrev all_exist : Text → Bool
all_exist path = true

abbrev server_file : Text
server_file = codes "/srv/stats-reporter/../node.js/server"

options_of-start_server_example :
    (values : Text → Value) × (args : Options) × (parse_args reporter_args (
        codes "--implementation"
        ∷ codes "node.js"
        ∷ codes "--endpoint"
        ∷ codes "http://localhost/stats"
        ∷ [])
      ≡ some values)
    × (options_of values ≡ some args)
    × (start_report all_exist (codes "/srv/stats-reporter") args
        ≡ spawns server_file (codes "--port" ∷ codes "1942" ∷ []))
    × (start_server all_exist
          (codes "/srv/node.js")
          4
          true
          server_file
          (codes "--port" ∷ codes "1942" ∷ [])
        ≡ some (listens (codes "1942")))
unfolding codes
options_of-start_server_example =
    options_of-start_server parse_args all_exist (codes "/srv/stats-reporter")
      (codes "/srv/node.js") (λ c cs d ds _ _. refl) 110 (codes "ode.js") 104
      (codes "ttp://localhost/stats") (λ e. omega arith) (λ e. omega arith) 4 true

abbrev on_port_80 : Options
on_port_80 = record {
  pid = none;
  implementation = some (codes "node.js");
  cmd = none;
  port = pos 80;
}

-- Files of which the working directory of the reporter has none.
abbrev only_server : Text → Bool
only_server path = eq_text path server_file

start_report-start_server_example :
    (server_file ≡ imp_file (codes "/srv/stats-reporter") on_port_80)
    × (start_server only_server
          (codes "/srv/stats-reporter")
          4
          true
          server_file
          (codes "--port" ∷ codes "80" ∷ [])
        ≡ none)
unfolding start_report watch_or_spawn command imp_file codes is_falsy show_text show_int eq_text
start_report-start_server_example =
    start_report-start_server only_server (codes "/srv/stats-reporter") on_port_80 server_file
      (codes "--port" ∷ codes "80" ∷ []) refl refl (codes "/srv/stats-reporter") 4 true
