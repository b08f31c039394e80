-- ===== src/Reporter/Start/Boot.antt =====
-- The server that the reporter spawns: stats-reporter/report.js, node.js/server and node.js/server.js
-- together.
use sse_broadcast_benchmark.Common.{
  ℕ, ◌≤◌, ◌<◌, ◌≡◌, refl, ◌∙◌, sym, ap, Bool, true, false, List, [], ◌∷◌, ◌++◌, arith, length,
  length-append, inl, inr, Bool-cases, some, none, Option, if◌then◌else◌,
}
use sse_broadcast_benchmark.Common.Int.{ℤ, pos, negsuc}
use sse_broadcast_benchmark.Js.Text.{Text, codes, eq_text, is_falsy, show_text}
use sse_broadcast_benchmark.Js.Text.Laws.{eq_text_iff}
use sse_broadcast_benchmark.Js.Number.{show_int}
use sse_broadcast_benchmark.Js.Number.Laws.{show-cons}
use sse_broadcast_benchmark.Reporter.Start.{
  Options, spawns, imp_file, command, watch_or_spawn, start_report,
}
use sse_broadcast_benchmark.Server.Args.{
  Start, Args, parsed, listens, get_args, port_of, boot_process,
}
use sse_broadcast_benchmark.Server.Args.Options.{port, other, IsUnknown, get_args-render}

-- The script `./server.js "$0" "$@"`, which a process in the directory `cwd` starts by a path with some
-- arguments: the arguments of the server.js of this directory, if there is one.
unfoldable pub server_script : (Text → Bool) → Text → Text → List Text → Option (List Text)
server_script exists_sync cwd path argv =
    if exists_sync (cwd ++ codes "/server.js") then some (path ∷ argv) else none

-- What the script comes to, where the directory has no other server.js than that of node.js.
unfoldable pub start_server : (Text → Bool) → Text → ℕ → Bool → Text → List Text → Option Start
unfolding server_script
start_server exists_sync cwd num_cpus is_master path argv =
    elim (server_script exists_sync cwd path argv) [
      | none ↦ none
      | some args ↦ some (boot_process num_cpus is_master args)
    ]

-- A text that is longer than a literal is not the literal.
eq_text_longer : (s t : Text) → length t < length s → eq_text s t ≡ false
eq_text_longer s t h = elim (Bool-cases (eq_text s t)) [
  | inl e ↦ let same = ap length ((eq_text_iff s t).0 e) in absurd (omega arith)
  | inr e ↦ e
]

length-imp_file : (dirname : Text) (args : Options) → 11 ≤ length (imp_file dirname args)
unfolding imp_file codes
length-imp_file dirname args =
    let name = show_text args.implementation in
    omega (
      arith,
      length-append dirname (codes "/../" ++ (name ++ codes "/server")),
      length-append name (codes "/server"),
    )

imp_file-IsUnknown : (dirname : Text) (args : Options) → IsUnknown (imp_file dirname args)
unfolding codes
imp_file-IsUnknown dirname args =
    let long = length-imp_file dirname args in
    (
      eq_text_longer (imp_file dirname args) (codes "--port") (omega arith),
      eq_text_longer (imp_file dirname args) (codes "--cluster") (omega arith),
      eq_text_longer (imp_file dirname args) (codes "--help") (omega arith),
    )

port_of_int : (n : ℤ) → port_of (record { port = some (show_int n); cluster = false }) ≡ show_int n
unfolding port_of show_int
port_of_int (pos n) = let (c, s, e) = show-cons n in rw e refl
port_of_int (negsuc n) = refl

boot_process-parsed :
    (num_cpus : ℕ) (is_master : Bool) (argv : List Text) (args : Args)
    → get_args argv ≡ parsed args
    → args.cluster ≡ false
    → boot_process num_cpus is_master argv ≡ listens (port_of args)
unfolding boot_process
boot_process-parsed num_cpus is_master argv args h g = rw (boot_process, h, g) refl

pub boots :
    (num_cpus : ℕ) (is_master : Bool) (dirname : Text) (args : Options)
    → boot_process num_cpus is_master
        (imp_file dirname args ∷ codes "--port" ∷ show_int args.port ∷ [])
      ≡ listens (show_int args.port)
boots num_cpus is_master dirname args =
    boot_process-parsed num_cpus is_master _ _
      (get_args-render (other (imp_file dirname args) ∷ port (show_int args.port) ∷ [])
        (imp_file-IsUnknown dirname args, tt))
      refl
    ∙ ap listens (port_of_int args.port)

-- What is spawned is the command.
spawns-command :
    (exists_sync : Text → Bool) (dirname : Text) (args : Options) (path : Text) (argv : List Text)
    → start_report exists_sync dirname args ≡ spawns path argv
    → (command dirname args) ≡ (path, argv)
unfolding start_report watch_or_spawn
spawns-command exists_sync dirname args path argv h = grind arith

pub start_server_lem :
    (exists_sync : Text → Bool) (cwd : Text) (num_cpus : ℕ) (is_master : Bool) (path : Text)
    (argv : List Text)
    → start_server exists_sync cwd num_cpus is_master path argv ≡ (
        if exists_sync (cwd ++ codes "/server.js")
        then some (boot_process num_cpus is_master (path ∷ argv))
        else none)
unfolding start_server server_script
start_server_lem exists_sync cwd num_cpus is_master path argv =
    elim (Bool-cases (exists_sync (cwd ++ codes "/server.js"))) [
      | inl there ↦ rw (start_server, server_script, there) refl
      | inr missing ↦ rw (start_server, server_script, missing) refl
    ]

-- If the reporter spawns a process and was given no command, then it spawns the file of the
-- implementation. If this is the script of node.js, and the working directory of the reporter holds
-- the server.js of node.js, the server listens, and at the port that the reporter was given; if it
-- holds no server.js, no server is started.
pub start_report-start_server :
    (exists_sync : Text → Bool) (dirname : Text) (args : Options) (path : Text) (argv : List Text)
    → start_report exists_sync dirname args ≡ spawns path argv
    → is_falsy args.cmd ≡ true
    → (cwd : Text) (num_cpus : ℕ) (is_master : Bool)
    → (path ≡ imp_file dirname args)
      × (start_server exists_sync cwd num_cpus is_master path argv ≡ (
          if exists_sync (cwd ++ codes "/server.js")
          then some (listens (show_int args.port))
          else none))
unfolding command
start_report-start_server exists_sync dirname args path argv started no_cmd cwd num_cpus is_master =
    let e = spawns-command exists_sync dirname args path argv started in
    let file : path ≡ imp_file dirname args = ap (λ p. p.0) (sym e) ∙ rw no_cmd refl in
    let options : argv ≡ codes "--port" ∷ show_int args.port ∷ [] =
      ap (λ p. p.1) (sym e) ∙ rw no_cmd refl in
    let booted : boot_process num_cpus is_master (path ∷ argv) ≡ listens (show_int args.port) =
      rw (file, options) (boots num_cpus is_master dirname args) in
    (
      file,
      start_server_lem exists_sync cwd num_cpus is_master path argv
          ∙ ap (λ b. if exists_sync (cwd ++ codes "/server.js") then some b else none) booted,
    )
