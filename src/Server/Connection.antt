-- ===== src/Server/Connection.antt =====
-- The connection handler of node.js/server.js, with its closure `parseData`. How a Buffer of bytes
-- becomes a string is the platform's: the parameter `decode`.
pub mod Phases
pub mod Once
pub mod Chunks
pub mod Posted
pub mod Line
pub mod Short
pub mod Plain
use sse_broadcast_benchmark.Common.{
  ℕ, ◌+◌, Bool, true, false, List, [], ◌∷◌, ◌++◌, Option, none, some, ◌==◌, get_elem?,
  if◌then◌else◌,
}
use sse_broadcast_benchmark.Common.Int.{sub_ℕ}
use sse_broadcast_benchmark.Js.Text.{Text, codes, slice_to, split_words, is_falsy, is}
use sse_broadcast_benchmark.Server.State.{Server}
use sse_broadcast_benchmark.Server.Dispatch.{handle_request}
use sse_broadcast_benchmark.Server.Post.{handle_post_request}

-- The variables of the closure; `reading` tells whether it still listens for the event 'data'.
pub record Parser : Type 0 where
  pub buffer : Text
  pub header : Option Text
  pub reading : Bool

abbrev pub fresh : Parser
fresh = record { buffer = []; header = none; reading = true }

-- How the loop over the chunk ends: at a first line that is no POST, with its method and path, or
-- at the end of the chunk, with the header so far.
pub data Scan : Type 0 where
  stopped : Text → Option Text → Option Text → Scan
  scanned : Option Text → Scan

-- The loop from the index i on; the list holds the bytes of the chunk from there.
unfoldable pub scan : Text → List ℕ → ℕ → Option Text → Scan
scan buffer [] i header = scanned header
scan buffer (byte ∷ bytes) i header =
    let line = slice_to buffer (sub_ℕ i 1) in
    let parts = split_words line in
    let go_on = scan buffer bytes (i + 1) header in
    let go_on_post = scan buffer bytes (i + 1) (some line) in
    if byte == 10
    then if is (get_elem? parts 0) (codes "POST")
      then go_on_post
      else stopped line (get_elem? parts 0) (get_elem? parts 1)
    else go_on

-- The variable `body` of the source is never assigned: `none`.
unfoldable pub after_scan : Scan → Parser → ℕ → Server → Parser × Server
after_scan (stopped line method path) p c s =
    (record p { header = some line; reading = false }, handle_request method path none c s)
after_scan (scanned header) p c s = (record p { header = header }, handle_post_request p.buffer c s)

module _ (decode : List ℕ → Text) where
  unfoldable pub parse_data : List ℕ → Parser → ℕ → Server → Parser × Server
  unfolding after_scan
  parse_data chunk p c s =
      let p' = record p { buffer = p.buffer ++ decode chunk } in
      if is_falsy p.header
      then after_scan (scan p'.buffer chunk 0 p.header) p' c s
      else (p', handle_post_request p'.buffer c s)

  -- The event 'data' of a connection.
  unfoldable pub on_data : List ℕ → Parser → ℕ → Server → Parser × Server
  on_data chunk p c s = if p.reading then parse_data chunk p c s else (p, s)
