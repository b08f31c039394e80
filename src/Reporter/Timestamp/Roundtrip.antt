-- ===== src/Reporter/Timestamp/Roundtrip.antt =====
-- A timestamp that stats-reporter/report.js sends reaches every client of node.js/server.js.
use sse_broadcast_benchmark.Common.{
  ℕ, ◌≡◌, ◌≢◌, ap, ◌∙◌, true, List, [], ◌∷◌, ◌++◌, map, reverse, some, All,
}
use sse_broadcast_benchmark.Js.Text.{Text, codes}
use sse_broadcast_benchmark.Js.Text.Laws.{has}
use sse_broadcast_benchmark.Js.Number.{show}
use sse_broadcast_benchmark.Server.State.{Server, write}
use sse_broadcast_benchmark.Server.Response.{connection_close}
use sse_broadcast_benchmark.Server.Response.Bytes.{closing}
use sse_broadcast_benchmark.Server.Log.{append_log}
use sse_broadcast_benchmark.Server.Clients.{frame}
use sse_broadcast_benchmark.Server.Clients.Delivery.{live}
use sse_broadcast_benchmark.Server.Dispatch.Routes.{handle_request_broadcast}
use sse_broadcast_benchmark.Server.Post.{post_verdict}
use sse_broadcast_benchmark.Server.Connection.{fresh}
use sse_broadcast_benchmark.Server.Connection.Phases.{IsDecoder}
use sse_broadcast_benchmark.Server.Connection.Once.{serve}
use sse_broadcast_benchmark.Server.Connection.Chunks.{joined, serve-complete}
use sse_broadcast_benchmark.Reporter.Timestamp.{timestamp_request}
use sse_broadcast_benchmark.Reporter.Timestamp.Request.{post_verdict-broadcast_request}

module _ (decode : List ℕ → Text) (decoder : IsDecoder decode) where
  -- However the request for a timestamp is cut into chunks, if its first chunk holds the request
  -- line, the server writes the timestamp to every socket in the table, the newest first, then
  -- answers with the status 202, and changes nothing else.
  pub serve-timestamp_request :
      (now : ℕ) (bytes : List ℕ) (chunks : List (List ℕ)) (c : ℕ) (s : Server)
      → has 10 bytes ≡ true
      → All (λ chunk. chunk ≢ []) chunks
      → joined decode ((codes "POST " ++ bytes) ∷ chunks) ≡ timestamp_request now
      → (serve decode ((codes "POST " ++ bytes) ∷ chunks) fresh c s).1
        ≡ append_log s (
            map (λ d. write d (frame (some (show now)))) (reverse (live s.clients))
            ++ closing c 202 (connection_close ∷ []) [])
  unfolding timestamp_request
  serve-timestamp_request now bytes chunks c s feed h text =
      serve-complete decode decoder bytes chunks c s (some (codes "POST"))
        (some (codes "/broadcast")) (show now) feed h
        (ap post_verdict text ∙ post_verdict-broadcast_request (show now))
      ∙ handle_request_broadcast (some (show now)) c s
