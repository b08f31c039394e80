-- ===== src/Server/Post/Framing.antt =====
-- When the buffer of a POST request holds a complete request, and that it does so only once.
use sse_broadcast_benchmark.Common.{
  ℕ, ◌+◌, ◌≤◌, ◌<◌, ◌≡◌, ◌≢◌, sym, ap, ◌∙◌, inl, inr, [], ◌++◌, Option, none, some, arith, ==_of_ne,
  ==_iff, get_elem?, Option-cases, length, take, drop, length-append, take-append_le,
  drop-append_le, length-pos,
}
use sse_broadcast_benchmark.Js.Text.{Text, index_of, split_words}
use sse_broadcast_benchmark.Js.Text.Laws.{index_of-le, index_of-extend}
use sse_broadcast_benchmark.Js.Number.{parse_digits}
use sse_broadcast_benchmark.Js.Regex.{match_length}
use sse_broadcast_benchmark.Server.Post.{
  wait, no_length, complete, blank_line, check_length, post_verdict,
}

-- The blank line stands at the index `at`, and the headers before it give a length.
abbrev pub Framed : Text → ℕ → Text → Type 0
Framed buffer at digits =
    (index_of blank_line buffer ≡ some at) × (match_length (take (at + 4) buffer) ≡ some digits)

-- The body has at least the length that the headers give.
abbrev pub Past : Text → Type 0
Past buffer =
    (at : ℕ) × (digits : Text) × (Framed buffer at digits
      × (parse_digits digits ≤ length (drop (at + 4) buffer)))

-- The headers are complete, and give no length.
abbrev pub NoLength : Text → Type 0
NoLength buffer =
    (at : ℕ) × ((index_of blank_line buffer ≡ some at)
      × (match_length (take (at + 4) buffer) ≡ none))

module _ (buffer more : Text) (at : ℕ) (found : index_of blank_line buffer ≡ some at) where
  headers_inside : at + 4 ≤ length buffer
  headers_inside = omega (arith, index_of-le blank_line buffer at found)

  take-extend : take (at + 4) (buffer ++ more) ≡ take (at + 4) buffer
  take-extend = take-append_le (at + 4) buffer more headers_inside

  drop-extend : drop (at + 4) (buffer ++ more) ≡ drop (at + 4) buffer ++ more
  drop-extend = drop-append_le (at + 4) buffer more headers_inside

  found-extend : index_of blank_line (buffer ++ more) ≡ some at
  found-extend = index_of-extend blank_line buffer more at found

pub post_verdict_found :
    (buffer : Text) (at : ℕ)
    → index_of blank_line buffer ≡ some at
    → post_verdict buffer ≡ check_length (take (at + 4) buffer) (drop (at + 4) buffer)
unfolding post_verdict
post_verdict_found buffer at h = rw (h, post_verdict)

check_length-length :
    (headers rest digits : Text)
    → match_length headers ≡ some digits
    → length rest ≢ parse_digits digits
    → check_length headers rest ≡ wait
unfolding check_length
check_length-length headers rest digits h k = rw (h, ==_of_ne _ _ k, check_length)

check_length-complete :
    (headers rest : Text) {m p : Option Text} {b : Text}
    → check_length headers rest ≡ complete m p b
    → (digits : Text) × ((match_length headers ≡ some digits) × (length rest ≡ parse_digits digits))
unfolding check_length
check_length-complete headers rest h = elim (Option-cases (match_length headers)) [
  | inl e ↦ ground arith
  | inr (digits, e) ↦ (digits, (e, ground arith))
]

check_length-no_length :
    (headers rest : Text) → check_length headers rest ≡ no_length → match_length headers ≡ none
unfolding check_length
check_length-no_length headers rest h = ground arith

pub Past-complete :
    (buffer : Text) {m p : Option Text} {b : Text}
    → post_verdict buffer ≡ complete m p b
    → Past buffer
unfolding post_verdict
Past-complete buffer h = elim (Option-cases (index_of blank_line buffer)) [
  | inl e ↦ ground arith
  | inr (at, e) ↦
      let (digits, (d, l)) =
        check_length-complete (take (at + 4) buffer) (drop (at + 4) buffer)
          (sym (post_verdict_found buffer at e) ∙ h) in
      (at, digits, ((e, d), omega arith))
]

pub NoLength-no_length : (buffer : Text) → post_verdict buffer ≡ no_length → NoLength buffer
unfolding post_verdict
NoLength-no_length buffer h = elim (Option-cases (index_of blank_line buffer)) [
  | inl e ↦ ground arith
  | inr (at, e) ↦ (
    at,
    (
      e,
      check_length-no_length (take (at + 4) buffer) (drop (at + 4) buffer)
          (sym (post_verdict_found buffer at e) ∙ h),
    ),
  )
]

-- With more text behind it, such a buffer stays as it is and is never complete again.
pub Past-extend :
    (buffer more : Text)
    → Past buffer
    → more ≢ []
    → Past (buffer ++ more) × (post_verdict (buffer ++ more) ≡ wait)
Past-extend buffer more (at, digits, ((found, given), enough)) h =
    let found' = found-extend buffer more at found in
    let given' : match_length (take (at + 4) (buffer ++ more)) ≡ some digits =
      ap match_length (take-extend buffer more at found) ∙ given in
    let longer : parse_digits digits < length (drop (at + 4) (buffer ++ more)) = omega (
      arith,
      ap length (drop-extend buffer more at found),
      length-append (drop (at + 4) buffer) more,
      length-pos more h,
    ) in
    (
      (at, digits, ((found', given'), omega arith)),
      post_verdict_found (buffer ++ more) at found'
          ∙ check_length-length _ _ digits given' (omega arith),
    )

pub NoLength-extend :
    (buffer more : Text)
    → NoLength buffer
    → NoLength (buffer ++ more) × (post_verdict (buffer ++ more) ≡ no_length)
unfolding check_length
NoLength-extend buffer more (at, (found, missing)) =
    let found' = found-extend buffer more at found in
    let missing' : match_length (take (at + 4) (buffer ++ more)) ≡ none =
      ap match_length (take-extend buffer more at found) ∙ missing in
    (
      (at, (found', missing')),
      post_verdict_found (buffer ++ more) at found' ∙ rw (missing', check_length),
    )

-- A body of exactly the given length completes the request.
pub check_length-exact :
    (headers rest digits : Text)
    → match_length headers ≡ some digits
    → length rest ≡ parse_digits digits
    → check_length headers rest
      ≡ complete (get_elem? (split_words headers) 0) (get_elem? (split_words headers) 1) rest
unfolding check_length
check_length-exact headers rest digits h k = rw (h, (==_iff _ _).1 k, check_length)
