-- ===== src/Js/Text.antt =====
-- JavaScript strings, as lists of UTF-16 code units, with the methods that the sources call.
pub mod Laws
pub mod Search
use Prim.Native.Char.{code}
use Prim.Native.String.{String}
use mathlib.Core.Option
use sse_broadcast_benchmark.Common.{
  ℕ, zero, suc, ◌-◌, Bool, true, false, ◌&&◌, List, [], ◌∷◌, Option, none, some, ◌==◌, take, drop,
  length, if◌then◌else◌, get_elem?,
}
use sse_broadcast_benchmark.Common.Int.{ℤ, pos, negsuc}

abbrev pub Text : Type 0
Text = List ℕ

-- A literal of the source. Its characters are ASCII, so that code points are code units.
unfoldable pub codes : String → Text
codes String.[] = []
codes (String.◌∷◌ c s) = code c ∷ codes s

-- `a === b`
unfoldable pub eq_text : Text → Text → Bool
eq_text [] [] = true
eq_text (a ∷ s) (b ∷ t) = a == b && eq_text s t
eq_text _ _ = false

unfoldable pub is_prefix : Text → Text → Bool
is_prefix [] s = true
is_prefix (a ∷ p) [] = false
is_prefix (a ∷ p) (b ∷ s) = a == b && is_prefix p s

-- `s.indexOf(p)`, with `none` for -1
unfoldable pub index_of : Text → Text → Option ℕ
unfolding is_prefix
index_of p [] = if is_prefix p [] then some 0 else none
index_of p (c ∷ s) = if is_prefix p (c ∷ s) then some 0 else Option.map suc (index_of p s)

-- `s.slice(0, e)`: a negative end counts from the end of the string.
unfoldable pub slice_to : Text → ℤ → Text
slice_to s (pos n) = take n s
slice_to s (negsuc n) = take (length s - suc n) s

cons_head : ℕ → List Text → List Text
cons_head c [] = (c ∷ []) ∷ []
cons_head c (piece ∷ pieces) = (c ∷ piece) ∷ pieces

-- `s.split(sep)`, for a separator of one code unit
unfoldable pub split : ℕ → Text → List Text
unfolding cons_head
split sep [] = [] ∷ []
split sep (c ∷ s) = let rest = split sep s in if c == sep then [] ∷ rest else cons_head c rest

-- `s.split(' ', 3)`
unfoldable pub split_words : Text → List Text
unfolding split
split_words s = take 3 (split 32 s)

-- `!s`, for a string or undefined
unfoldable pub is_falsy : Option Text → Bool
is_falsy none = true
is_falsy (some []) = true
is_falsy (some (c ∷ s)) = false

-- `s === literal`, for a string or undefined
unfoldable pub is : Option Text → Text → Bool
is none literal = false
is (some s) literal = eq_text s literal

-- The UTF-16 units that a JavaScript string prints for undefined: `'' + undefined`.
unfoldable pub show_text : Option Text → Text
unfolding codes
show_text none = codes "undefined"
show_text (some s) = s
