-- ===== src/Server/Hub/Outcome.antt =====
-- What a request does to the log and to the table: an answer, a message to all with an answer, or a
-- new stream.
use sse_broadcast_benchmark.Common.{
  ℕ, ◌≡◌, refl, ◌⊎◌, true, ◌||◌, inl, inr, List, [], ◌∷◌, ◌++◌, Option, append_assoc,
}
use sse_broadcast_benchmark.Js.Text.{Text, codes, is_falsy}
use sse_broadcast_benchmark.Js.Number.{show_int}
use sse_broadcast_benchmark.Server.State.{Server, Effect, destroy}
use sse_broadcast_benchmark.Server.Response.{
  any_origin, connection_close, plain_text, count_headers,
}
use sse_broadcast_benchmark.Server.Response.Bytes.{closing, head_calls, write_head_lem}
use sse_broadcast_benchmark.Server.Dispatch.{handle_request}
use sse_broadcast_benchmark.Server.Dispatch.Routes.{SameTable}
use sse_broadcast_benchmark.Server.Connection.Phases.{refuse}
use sse_broadcast_benchmark.Server.Dispatch.Replies.{
  Streams, Closes, AsksBroadcast, AsksAt, Replied, messages_of, handle_request-Replied,
}
use sse_broadcast_benchmark.Server.Hub.Streams.{OnlyTo, closing-OnlyTo, refuse-OnlyTo}

abbrev pub Answers : ℕ → Server → Server → Type 0
Answers c s t = (es : List Effect) × OnlyTo c es × (t.log ≡ s.log ++ es) × SameTable s t

abbrev pub Publishes : Option Text → ℕ → Server → Server → Type 0
Publishes body c s t =
    (es : List Effect) × OnlyTo c es × (t.log ≡ s.log ++ (messages_of body s ++ es)) × SameTable s t

-- What a request does, and which requests do it.
abbrev pub Outcome : Option Text → Option Text → Option Text → ℕ → Server → Server → Type 0
Outcome method path body c s t =
    ((¬ AsksBroadcast method path) × (¬ AsksAt (codes "/sse") method path) × Answers c s t)
    ⊎ (AsksBroadcast method path × Publishes body c s t)
    ⊎ (AsksAt (codes "/sse") method path × Streams c s t)

Closes-Answers :
    (c code : ℕ) (headers : List (Text × Text)) (texts : List Text) (s t : Server)
    → Closes [] code headers texts c s t
    → Answers c s t
Closes-Answers c code headers texts s t (e, same) =
    (closing c code headers texts, closing-OnlyTo c code headers texts, e, same)

falsy-other :
    (method path : Option Text)
    → (is_falsy method || is_falsy path) ≡ true
    → (¬ AsksBroadcast method path) × (¬ AsksAt (codes "/sse") method path)
unfolding is_falsy codes
falsy-other method path h =
    (λ (m, p). let h' = rw (m, p) at h in cc h', λ ((a, b), _, _). let h' = rw (a, b) at h in cc h')

Outcome-Replied :
    (method path body : Option Text) (c : ℕ) (s t : Server)
    → Replied method path body c s t
    → Outcome method path body c s t
Outcome-Replied method path body c s t (inl (e, closes)) =
    let (none, never) = falsy-other method path e in
    inl (none, never, Closes-Answers c 400 (plain_text ∷ connection_close ∷ []) [] s t closes)
Outcome-Replied method path body c s t (inr (inl ((whole, e), closes))) = inl (
  λ (m, p). unfold codes in cc (e, m),
  λ (_, other, p). other e,
  Closes-Answers c 204 (any_origin ∷ connection_close ∷ []) [] s t closes,
)
Outcome-Replied method path body c s t (inr (inr (inl (asks, (e, same))))) = inr (
    inl (
      asks,
      (
        closing c 202 (connection_close ∷ []) [],
        closing-OnlyTo c 202 (connection_close ∷ []) [],
        e,
        same,
      ),
    ))
Outcome-Replied method path body c s t (inr (inr (inr (inl ((whole, other, e), closes))))) = inl (
  λ (m, p). unfold codes in cc (e, p),
  λ (_, _, p). unfold codes in cc (e, p),
  Closes-Answers c 200 count_headers (show_int s.num_clients ∷ []) s t closes,
)
Outcome-Replied method path body c s t (inr (inr (inr (inr (inl (asks, streams)))))) =
    inr (inr (asks, streams))
Outcome-Replied method path body c s t
      (inr (inr (inr (inr (inr ((_, _, none, _, never), closes)))))) =
    inl (
      none,
      λ (_, _, p). never p,
      Closes-Answers c 404 (plain_text ∷ connection_close ∷ []) (codes "File not found" ∷ []) s t
          closes,
    )

pub handle_request-Outcome :
    (method path body : Option Text) (c : ℕ) (s : Server)
    → Outcome method path body c s (handle_request method path body c s)
handle_request-Outcome method path body c s =
    Outcome-Replied method path body c s (handle_request method path body c s)
      (handle_request-Replied method path body c s)

pub refuse-Answers : (c : ℕ) (s : Server) → Answers c s (refuse c s)
refuse-Answers c s = rw (write_head_lem c 411 (connection_close ∷ []) s) (
  head_calls c 411 (connection_close ∷ []) ++ destroy c ∷ [],
  refuse-OnlyTo c 411 (connection_close ∷ []),
  append_assoc s.log (head_calls c 411 (connection_close ∷ [])) (destroy c ∷ []),
  (refl, refl, refl),
)
