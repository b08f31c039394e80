-- ===== src/Js/Regex.antt =====
-- The regular expression /content-length:\s*(\d+)\r/i of node.js/server.js. The classes \s and \d
-- are disjoint, and \r is no digit, so that the greedy match is the only one at a position.
pub mod Laws
use sse_broadcast_benchmark.Common.{
  ℕ, ◌+◌, Bool, true, false, ◌&&◌, ◌||◌, List, [], ◌∷◌, Option, none, some, ◌==◌, leb,
  if◌then◌else◌,
}
use sse_broadcast_benchmark.Js.Text.{Text, codes}
use sse_broadcast_benchmark.Js.Number.{is_digit}

-- The class \s: white space and line ends.
unfoldable pub is_space : ℕ → Bool
is_space c =
    leb 9 c && leb c 13
    || c == 32
    || c == 160
    || c == 5760
    || leb 8192 c && leb c 8202
    || c == 8232
    || c == 8233
    || c == 8239
    || c == 8287
    || c == 12288
    || c == 65279

-- Without the flag u, no character beyond ASCII matches an ASCII letter under the flag i.
unfoldable pub lower : ℕ → ℕ
lower c = if leb 65 c && leb c 90 then c + 32 else c

-- What follows the literal at the start of the text, in any case.
unfoldable pub after_name : Text → Text → Option Text
unfolding lower
after_name [] s = some s
after_name (p ∷ ps) [] = none
after_name (p ∷ ps) (c ∷ s) = if lower c == p then after_name ps s else none

unfoldable pub skip_spaces : Text → Text
unfolding is_space
skip_spaces [] = []
skip_spaces (c ∷ s) = if is_space c then skip_spaces s else c ∷ s

-- `(\d+)\r`: the digits at the start, if a carriage return follows.
unfoldable pub digits_to_cr : Text → Option Text
unfolding is_digit
digits_to_cr [] = none
digits_to_cr (c ∷ []) = none
digits_to_cr (c ∷ d ∷ s) =
    let more = digits_to_cr (d ∷ s) in
    if is_digit c
    then if d == 13 then some (c ∷ []) else elim more [ none ↦ none | some ds ↦ some (c ∷ ds) ]
    else none

-- A match that begins at the start of the text: the captured digits.
unfoldable pub match_here : Text → Option Text
unfolding after_name skip_spaces digits_to_cr codes
match_here s = elim (after_name (codes "content-length:") s) [
  | none ↦ none
  | some rest ↦ digits_to_cr (skip_spaces rest)
]

-- The leftmost match.
unfoldable pub match_length : Text → Option Text
unfolding match_here
match_length [] = none
match_length (c ∷ s) =
    let later = match_length s in
    elim (match_here (c ∷ s)) [ none ↦ later | some digits ↦ some digits ]
