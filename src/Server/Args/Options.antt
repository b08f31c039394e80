-- ===== src/Server/Args/Options.antt =====
-- `getArgs` reads the options that a command line is made of.
use sse_broadcast_benchmark.Common.{
  ◌≡◌, refl, ◌∙◌, Bool, true, false, ◌||◌, List, [], ◌∷◌, Option, none, some, if◌then◌else◌,
}
use sse_broadcast_benchmark.Js.Text.{Text, codes, eq_text}
use sse_broadcast_benchmark.Server.Args.{
  Args, no_args, ArgsResult, parsed, helped, args_from, get_args,
}

-- An option of a command line; `other` is an argument that is none of the three.
pub data Choice : Type 0 where
  port : Text → Choice
  cluster help : Choice
  other : Text → Choice

-- The command line of some options.
abbrev pub render : List Choice → List Text
render [] = []
render (port p ∷ choices) = codes "--port" ∷ p ∷ render choices
render (cluster ∷ choices) = codes "--cluster" ∷ render choices
render (help ∷ choices) = codes "--help" ∷ render choices
render (other word ∷ choices) = word ∷ render choices

abbrev pub IsUnknown : Text → Type 0
IsUnknown word =
    (eq_text word (codes "--port") ≡ false)
    × (eq_text word (codes "--cluster") ≡ false)
    × (eq_text word (codes "--help") ≡ false)

abbrev pub IsPlain : List Choice → Type 0
IsPlain [] = Unit
IsPlain (other word ∷ choices) = IsUnknown word × IsPlain choices
IsPlain (_ ∷ choices) = IsPlain choices

abbrev pub wants_help : List Choice → Bool
wants_help [] = false
wants_help (help ∷ choices) = true
wants_help (_ ∷ choices) = wants_help choices

abbrev pub wants_cluster : List Choice → Bool
wants_cluster [] = false
wants_cluster (cluster ∷ choices) = true
wants_cluster (_ ∷ choices) = wants_cluster choices

-- The last port, or the one before the options.
abbrev pub last_port : Option Text → List Choice → Option Text
last_port before [] = before
last_port before (port p ∷ choices) = last_port (some p) choices
last_port before (_ ∷ choices) = last_port before choices

args_from_cluster :
    (args : Args) (argv : List Text)
    → args_from args (codes "--cluster" ∷ argv) ≡ args_from (record args { cluster = true }) argv
unfolding args_from eq_text codes
args_from_cluster args [] = refl
args_from_cluster args (next ∷ argv) = refl

args_from_help : (args : Args) (argv : List Text) → args_from args (codes "--help" ∷ argv) ≡ helped
unfolding args_from eq_text codes
args_from_help args [] = refl
args_from_help args (next ∷ argv) = refl

args_from_port :
    (args : Args) (p : Text) (argv : List Text)
    → args_from args (codes "--port" ∷ p ∷ argv) ≡ args_from (record args { port = some p }) argv
unfolding args_from eq_text codes
args_from_port args p argv = refl

args_from_other :
    (args : Args) (word : Text) (argv : List Text)
    → IsUnknown word
    → args_from args (word ∷ argv) ≡ args_from args argv
unfolding args_from
args_from_other args word [] (a, b, c) = rw (a, b, c)
args_from_other args word (next ∷ argv) (a, b, c) = rw (a, b, c)

abbrev described : Args → List Choice → ArgsResult
described args choices =
    if wants_help choices
    then helped
    else parsed (record {
      port = last_port args.port choices;
      cluster = args.cluster || wants_cluster choices;
    })

or-true : (b : Bool) → (b || true) ≡ true
or-true true = refl
or-true false = refl

or-false : (b : Bool) → (b || false) ≡ b
or-false true = refl
or-false false = refl

args_from-render :
    (args : Args) (choices : List Choice)
    → IsPlain choices
    → args_from args (render choices) ≡ described args choices
args_from-render args [] h = unfold args_from in rw (or-false args.cluster)
args_from-render args (port p ∷ choices) h =
    args_from_port args p (render choices)
    ∙ args_from-render (record args { port = some p }) choices h
args_from-render args (cluster ∷ choices) h =
    args_from_cluster args (render choices)
    ∙ args_from-render (record args { cluster = true }) choices h
    ∙ rw (or-true args.cluster)
args_from-render args (help ∷ choices) h = args_from_help args (render choices)
args_from-render args (other word ∷ choices) (unknown, h) =
    args_from_other args word (render choices) unknown ∙ args_from-render args choices h

-- On the command line of some options, with other arguments among them, `getArgs` shows the help if
-- one of them asks for it, and otherwise returns the last port, if any, and whether one of them is
-- `--cluster`.
pub get_args-render :
    (choices : List Choice)
    → IsPlain choices
    → get_args (render choices) ≡ (
        if wants_help choices
        then helped
        else parsed (record { port = last_port none choices; cluster = wants_cluster choices }))
unfolding get_args
get_args-render choices h = args_from-render no_args choices h
