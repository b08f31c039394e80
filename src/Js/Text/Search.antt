-- ===== src/Js/Text/Search.antt =====
-- Where the first occurrence of a text is, and which words a text begins with.
use mathlib.Core.Option
use sse_broadcast_benchmark.Common.{
  ℕ, suc, ◌≡◌, refl, ap, ◌∙◌, Bool, true, false, ◌&&◌, not, [], ◌∷◌, ◌++◌, some, arith, ◌==◌,
  length, append_assoc,
}
use sse_broadcast_benchmark.Js.Text.{Text, is_prefix, index_of}
use sse_broadcast_benchmark.Js.Text.Laws.{has, index_of_prefix, index_of_miss, is_prefix-append}

-- No occurrence of p begins in a, when s follows it.
unfoldable pub clear : Text → Text → Text → Bool
unfolding is_prefix
clear p [] s = true
clear p (c ∷ a) s = not (is_prefix p (c ∷ (a ++ s))) && clear p a s

pub index_of-clear :
    (p a s : Text) → clear p a (p ++ s) ≡ true → index_of p (a ++ (p ++ s)) ≡ some (length a)
unfolding clear
index_of-clear p [] s h = index_of_prefix p (p ++ s) (is_prefix-append p s)
index_of-clear p (c ∷ a) s h =
    let miss : is_prefix p (c ∷ (a ++ (p ++ s))) ≡ false = ground arith in
    let rest : clear p a (p ++ s) ≡ true = ground arith in
    index_of_miss p c (a ++ (p ++ s)) miss ∙ ap (Option.map suc) (index_of-clear p a s rest)

pub clear-append : (p a b s : Text) → clear p (a ++ b) s ≡ (clear p a (b ++ s) && clear p b s)
unfolding clear
clear-append p [] b s = refl
clear-append p (c ∷ a) b s = rw (append_assoc a b s, clear-append p a b s) (ground arith)

-- A text without the first character of p holds no occurrence of p.
pub clear-has : (c : ℕ) (p a s : Text) → has c a ≡ false → clear (c ∷ p) a s ≡ true
unfolding clear has is_prefix
clear-has c p [] s h = refl
clear-has c p (d ∷ a) s h =
    let other : (c == d) ≡ false = ground arith in
    let rest : has c a ≡ false = ground arith in rw (other, clear-has c p a s rest)
