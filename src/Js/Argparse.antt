-- ===== src/Js/Argparse.antt =====
-- The tables that bench/args.js and stats-reporter/args.js give to the third-party parser argparse. The
-- parser itself is a parameter of those who use it.
use sse_broadcast_benchmark.Common.{Bool, false, List, [], ◌∷◌, Option, if◌then◌else◌}
use sse_broadcast_benchmark.Common.Int.{ℤ}
use sse_broadcast_benchmark.Js.Text.{Text, eq_text}

-- The value of an option; `nothing` is null.
pub data Value : Type 0 where
  nothing : Value
  int : ℤ → Value
  text : Text → Value
  flag : Bool → Value

-- What an option reads: a text, an integer (`type: 'int'`), or nothing (`action: 'storeTrue'`).
pub data Reads : Type 0 where
  reads_text reads_int store_true : Reads

-- A call of `addArgument`, but for its help.
pub record Argument : Type 0 where
  pub name : Text
  pub dest : Text
  pub default_value : Value
  pub reads : Reads
  pub required : Bool

-- The values of the options of a command line by their `dest`, or the end of the program.
abbrev pub ParseArgs : Type 0
ParseArgs = List Argument → List Text → Option (Text → Value)

-- What is documented of an option that is not given: its default, or false for `storeTrue`.
unfoldable pub default_of : Argument → Value
default_of a = elim a.reads [
  | reads_text ↦ a.default_value
  | reads_int ↦ a.default_value
  | store_true ↦ flag false
]

unfoldable pub defaults : List Argument → Text → Value
unfolding default_of
defaults [] dest = nothing
defaults (a ∷ table) dest = if eq_text a.dest dest then default_of a else defaults table dest

-- The values when some options are given, with a text each.
abbrev pub given : List Argument → List (Text × Text) → Text → Value
given table [] d = defaults table d
given table ((dest, value) ∷ values) d = if eq_text d dest then text value else given table values d
