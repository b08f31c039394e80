-- ===== src/Server/Post.antt =====
-- `handlePostRequest` of node.js/server.js.
pub mod Framing
use sse_broadcast_benchmark.Common.{
  ℕ, ◌+◌, ◌-◌, [], ◌∷◌, Option, none, some, ◌==◌, length, take, drop, get_elem?, if◌then◌else◌,
}
use sse_broadcast_benchmark.Js.Text.{Text, index_of, split_words}
use sse_broadcast_benchmark.Js.Number.{parse_digits}
use sse_broadcast_benchmark.Js.Regex.{match_length}
use sse_broadcast_benchmark.Server.State.{Server, destroy, call}
use sse_broadcast_benchmark.Server.Response.{connection_close, write_head}
use sse_broadcast_benchmark.Server.Dispatch.{handle_request}

-- What the function finds in the buffer: an incomplete request, one that has no length, or the
-- method, the path and the body of a complete one.
pub data Verdict : Type 0 where
  wait no_length : Verdict
  complete : Option Text → Option Text → Text → Verdict

abbrev pub blank_line : Text
blank_line = 13 ∷ 10 ∷ 13 ∷ 10 ∷ []

-- The test of the length, with the headers and the body that it is about.
unfoldable pub check_length : Text → Text → Verdict
check_length headers rest = elim (match_length headers) [
  | none ↦ no_length
  | some digits ↦
      let parts = split_words headers in
      if length rest == parse_digits digits
      then complete (get_elem? parts 0) (get_elem? parts 1) rest
      else wait
]

-- `none` is the index -1, for which `bodyOffset` is 3.
unfoldable pub post_verdict : Text → Verdict
unfolding check_length
post_verdict buffer = elim (index_of blank_line buffer) [
  | none ↦ wait
  | some at ↦ check_length (take (at + 4) buffer) (drop (at + 4) buffer)
]

unfoldable pub obey : Verdict → ℕ → Server → Server
obey wait c s = s
obey no_length c s = call (destroy c) (write_head c 411 (connection_close ∷ []) s)
obey (complete method path body) c s = handle_request method path (some body) c s

unfoldable pub handle_post_request : Text → ℕ → Server → Server
unfolding obey
handle_post_request buffer c s = obey (post_verdict buffer) c s
