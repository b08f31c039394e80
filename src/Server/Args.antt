-- ===== src/Server/Args.antt =====
-- `getArgs` and the start of node.js/server.js. The arguments begin at `process.argv[2]`.
pub mod Options
use sse_broadcast_benchmark.Common.{
  ℕ, zero, suc, ◌+◌, Bool, true, false, ◌&&◌, List, [], ◌∷◌, Option, none, some, if◌then◌else◌,
}
use sse_broadcast_benchmark.Js.Text.{Text, codes, eq_text}

-- `port` is undefined if it is not given, or if nothing follows the option.
pub record Args : Type 0 where
  pub port : Option Text
  pub cluster : Bool

abbrev pub no_args : Args
no_args = record { port = none; cluster = false }

-- The arguments, or the end of the program after the help, with the exit status 0.
pub data ArgsResult : Type 0 where
  parsed : Args → ArgsResult
  helped : ArgsResult

-- The loop: `--port` takes the argument that follows it.
args_from : Args → List Text → ArgsResult
args_from args [] = parsed args
args_from args (arg ∷ []) =
    if eq_text arg (codes "--port")
    then parsed (record args { port = none })
    else if eq_text arg (codes "--cluster")
    then parsed (record args { cluster = true })
    else if eq_text arg (codes "--help")
    then helped
    else parsed args
args_from args (arg ∷ next ∷ argv) =
    let with_port = args_from (record args { port = some next }) argv in
    let with_cluster = args_from (record args { cluster = true }) (next ∷ argv) in
    let without = args_from args (next ∷ argv) in
    if eq_text arg (codes "--port")
    then with_port
    else if eq_text arg (codes "--cluster")
    then with_cluster
    else if eq_text arg (codes "--help")
    then helped
    else without

unfoldable pub get_args : List Text → ArgsResult
unfolding args_from
get_args argv = args_from no_args argv

abbrev pub default_port : Text
default_port = codes "1942"

-- `port || 1942`
or_default : Option Text → Text
or_default none = default_port
or_default (some []) = default_port
or_default (some (c ∷ port)) = c ∷ port

unfoldable pub port_of : Args → Text
unfolding or_default
port_of args = or_default args.port

-- What a process does after the start: it exits, forks so many workers, or listens.
pub data Start : Type 0 where
  exits : Start
  forks : ℕ → Start
  listens : Text → Start

-- How often `for (var i = 0; i < numCPUs; i++)` forks, in so many rounds.
unfoldable pub fork_rounds : ℕ → ℕ
fork_rounds zero = 0
fork_rounds (suc i) = fork_rounds i + 1

unfoldable pub boot_process : ℕ → Bool → List Text → Start
unfolding get_args port_of fork_rounds
boot_process num_cpus is_master argv = elim (get_args argv) [
  | helped ↦ exits
  | parsed args ↦
      if args.cluster && is_master then forks (fork_rounds num_cpus) else listens (port_of args)
]
