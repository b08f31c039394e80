-- ===== src/Reporter/Start.antt =====
-- The start of stats-reporter/report.js: what it watches, or how it ends.
pub mod Command
pub mod Boot
use sse_broadcast_benchmark.Common.{
  ℕ, zero, Bool, true, false, ◌&&◌, not, List, [], ◌∷◌, ◌++◌, Option, none, some, if◌then◌else◌,
}
use sse_broadcast_benchmark.Common.Int.{ℤ, pos}
use sse_broadcast_benchmark.Js.Text.{Text, codes, split, is_falsy, show_text}
use sse_broadcast_benchmark.Js.Number.{show_int}

-- The options that the start reads.
pub record Options : Type 0 where
  pub pid : Option ℤ
  pub implementation : Option Text
  pub cmd : Option Text
  pub port : ℤ

-- The process ends with an exit status, watches a process, or spawns one and watches it.
pub data Started : Type 0 where
  exits : ℕ → Started
  watches : ℤ → Started
  spawns : Text → List Text → Started

-- The file of the implementation, `__dirname + '/../' + args.implementation + '/server'`.
unfoldable pub imp_file : Text → Options → Text
imp_file dirname args =
    dirname ++ (codes "/../" ++ (show_text args.implementation ++ codes "/server"))

-- `!args.pid`
unfoldable pub no_pid : Option ℤ → Bool
no_pid none = true
no_pid (some (pos zero)) = true
no_pid (some n) = false

-- `cmd` and `cmdArgs`: a split text has at least one piece.
unfoldable pub command : Text → Options → Text × List Text
unfolding imp_file
command dirname args =
    if is_falsy args.cmd
    then (imp_file dirname args, codes "--port" ∷ show_int args.port ∷ [])
    else elim (split 32 (show_text args.cmd)) [ [] ↦ ([], []) | c ∷ cs ↦ (c, cs) ]

-- `args.pid`, where it is given
abbrev pub pid_of : Option ℤ → ℤ
pid_of none = pos 0
pid_of (some n) = n

-- `if (!args.pid) spawn(cmd, cmdArgs)`
unfoldable pub watch_or_spawn : Text → Options → Started
unfolding no_pid command
watch_or_spawn dirname args =
    let run = command dirname args in
    if no_pid args.pid then spawns run.0 run.1 else watches (pid_of args.pid)

-- `exists_sync` is the file system's.
unfoldable pub start_report : (Text → Bool) → Text → Options → Started
unfolding watch_or_spawn no_pid imp_file
start_report exists_sync dirname args =
    if no_pid args.pid && (is_falsy args.implementation && is_falsy args.cmd)
    then exits 1
    else if not (is_falsy args.implementation) && not (exists_sync (imp_file dirname args))
    then exits 2
    else watch_or_spawn dirname args
