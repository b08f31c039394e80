-- ===== src/Server/Hub.antt =====
-- What the server of node.js/server.js promises to its subscribers, without its table, its sockets and
-- its requests: who subscribes, and which messages each has been sent since.
pub mod Streams
pub mod Outcome
pub mod Sim
pub mod Step
pub mod Chunk
pub mod Refines
mod Tests
use sse_broadcast_benchmark.Common.{
  ℕ, ◌≡◌, Bool, true, false, List, [], ◌∷◌, ◌++◌, Option, ◌==◌, if◌then◌else◌,
}
use sse_broadcast_benchmark.Js.Text.{Text}
use sse_broadcast_benchmark.Server.Response.{status_line, header_line, crlf}
use sse_broadcast_benchmark.Server.Clients.{stream_headers, greeting, frame}

-- A message is the body of a broadcast.
pub record Hub : Type 0 where
  pub member : ℕ → Bool
  pub sent : ℕ → List (Option Text)

abbrev pub no_members : Hub
no_members = record { member = λ c. false; sent = λ c. [] }

abbrev pub join : ℕ → Hub → Hub
join c h = record {
  member = λ d. if d == c then true else h.member d;
  sent = λ d. if d == c then [] else h.sent d;
}

abbrev pub leave : ℕ → Hub → Hub
leave c h = record h { member = λ d. if d == c then false else h.member d }

-- Every member is sent the message.
abbrev pub publish : Option Text → Hub → Hub
publish body h = record h { sent = λ d. if h.member d then h.sent d ++ body ∷ [] else h.sent d }

abbrev pub header_lines : List (Text × Text) → Text
header_lines [] = []
header_lines (header ∷ headers) = header_line header ++ header_lines headers

-- The head of the stream and the greeting.
abbrev pub opening : Text
opening = status_line 200 ++ (header_lines stream_headers ++ (crlf ++ greeting))

abbrev pub frames : List (Option Text) → Text
frames [] = []
frames (body ∷ bodies) = frame body ++ frames bodies

-- All that a member's socket has been written.
abbrev pub stream_text : List (Option Text) → Text
stream_text bodies = opening ++ frames bodies
