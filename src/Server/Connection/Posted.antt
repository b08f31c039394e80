-- ===== src/Server/Connection/Posted.antt =====
-- What a POST request is, and that the server handles it as this.
use sse_broadcast_benchmark.Common.{
  ℕ, ◌+◌, ◌≡◌, ◌≢◌, refl, sym, ap, ◌∙◌, true, false, List, [], ◌∷◌, ◌++◌, some, arith, All, length,
  take, drop, length-append, take-append, drop-append, append_assoc, get_elem?,
}
use mathlib.Core.Path.{ap₂}
use sse_broadcast_benchmark.Js.Text.{Text, codes, index_of, split_words}
use sse_broadcast_benchmark.Js.Text.Laws.{has, split_words-two}
use sse_broadcast_benchmark.Js.Number.{parse_digits}
use sse_broadcast_benchmark.Js.Regex.{match_length}
use sse_broadcast_benchmark.Server.State.{Server}
use sse_broadcast_benchmark.Server.Post.{complete, blank_line, post_verdict, check_length}
use sse_broadcast_benchmark.Server.Post.Framing.{post_verdict_found, check_length-exact}
use sse_broadcast_benchmark.Server.Dispatch.{handle_request}
use sse_broadcast_benchmark.Server.Connection.{fresh}
use sse_broadcast_benchmark.Server.Connection.Phases.{IsDecoder}
use sse_broadcast_benchmark.Server.Connection.Once.{serve}
use sse_broadcast_benchmark.Server.Connection.Chunks.{joined, serve-complete}

-- The text is a POST of the body at the path: a head that begins with the word POST, the path and a
-- further word, and whose Content-Length gives the length of the body; the first blank line; the body.
pub record IsPost (text path body : Text) : Type 0 where
  pub head : Text
  pub rest : Text
  pub digits : Text
  pub parts : text ≡ head ++ (blank_line ++ body)
  pub words : head ≡ codes "POST " ++ (path ++ (32 ∷ rest))
  pub one_word : has 32 path ≡ false
  pub first_blank : index_of blank_line text ≡ some (length head)
  pub content_length : match_length (head ++ blank_line) ≡ some digits
  pub counted : length body ≡ parse_digits digits

module _ (text path body : Text) (post : IsPost text path body) where
  at_body : text ≡ (post.head ++ blank_line) ++ body
  at_body = post.parts ∙ sym (append_assoc post.head blank_line body)

  behind : length post.head + 4 ≡ length (post.head ++ blank_line)
  behind = omega (arith, length-append post.head blank_line)

  head_taken : take (length post.head + 4) text ≡ post.head ++ blank_line
  head_taken = ap₂ take behind at_body ∙ take-append (post.head ++ blank_line) body

  body_dropped : drop (length post.head + 4) text ≡ body
  body_dropped = ap₂ drop behind at_body ∙ drop-append (post.head ++ blank_line) body

  post_words : (w : Text) × (split_words (post.head ++ blank_line) ≡ codes "POST" ∷ path ∷ w ∷ [])
  unfolding codes
  post_words =
      let (w, e) =
        split_words-two (codes "POST") path (post.rest ++ blank_line) (unfold has in refl)
          post.one_word in
      (
        w,
        ap split_words (
              ap (λ h. h ++ blank_line) post.words
              ∙ append_assoc (codes "POST ") (path ++ (32 ∷ post.rest)) blank_line
              ∙ ap (λ t. codes "POST " ++ t) (append_assoc path (32 ∷ post.rest) blank_line))
            ∙ e,
      )

  post_verdict-IsPost : post_verdict text ≡ complete (some (codes "POST")) (some path) body
  post_verdict-IsPost =
      let (w, words) = post_words in
      post_verdict_found text (length post.head) post.first_blank
      ∙ ap₂ check_length head_taken body_dropped
      ∙ check_length-exact (post.head ++ blank_line) body post.digits post.content_length
          post.counted
      ∙ ap (λ ws. complete (get_elem? ws 0) (get_elem? ws 1) body) words

-- A POST request whose first chunk holds the request line is handled when all of it has arrived, with
-- the method POST, the path that stands between its first two spaces, and the body behind its first
-- blank line, whatever the chunks that bring the rest, if its Content-Length is the number of the code
-- units of its body.
pub serve_post :
    (decode : List ℕ → Text)
    → IsDecoder decode
    → (bytes : List ℕ) (chunks : List (List ℕ)) (c : ℕ) (s : Server) (path body : Text)
    → has 10 bytes ≡ true
    → All (λ chunk. chunk ≢ []) chunks
    → IsPost (joined decode ((codes "POST " ++ bytes) ∷ chunks)) path body
    → (serve decode ((codes "POST " ++ bytes) ∷ chunks) fresh c s).1
      ≡ handle_request (some (codes "POST")) (some path) (some body) c s
serve_post decode decoder bytes chunks c s path body feed h post =
    serve-complete decode decoder bytes chunks c s (some (codes "POST")) (some path) body feed h
      (post_verdict-IsPost (joined decode ((codes "POST " ++ bytes) ∷ chunks)) path body post)
