-- ===== src/Server/Clients.antt =====
-- The table of SSE clients of node.js/server.js: `initSseClient`, its closure `removeClient`, and
-- `broadcast`.
pub mod Delivery
pub mod Count
use sse_broadcast_benchmark.Common.{
  ℕ, zero, suc, List, [], ◌∷◌, ◌++◌, Option, none, some, ◌==◌, length, get_elem?, set,
  if◌then◌else◌,
}
use sse_broadcast_benchmark.Common.Int.{pos, ◌+ℤ◌, ◌-ℤ◌}
use sse_broadcast_benchmark.Js.Text.{Text, codes, show_text}
use sse_broadcast_benchmark.Server.State.{Server, write, set_timeout, set_no_delay, call}
use sse_broadcast_benchmark.Server.Response.{write_head, any_origin, no_cache}

abbrev pub stream_headers : List (Text × Text)
stream_headers =
    (codes "Content-Type", codes "text/event-stream")
    ∷ no_cache
    ∷ any_origin
    ∷ (codes "Connection", codes "keep-alive")
    ∷ []

abbrev pub greeting : Text
greeting = codes ":ok" ++ (10 ∷ 10 ∷ [])

-- `push` returns the new length, so that the index is the old one.
register : ℕ → Server → Server
register res s = record s {
  clients = s.clients ++ some res ∷ [];
  num_clients = s.num_clients +ℤ pos 1;
  on_end = s.on_end ++ (res, length s.clients) ∷ [];
}

unfoldable pub init_sse_client : ℕ → Server → Server
unfolding register
init_sse_client res s =
    let s' = call (set_no_delay res) (call (set_timeout res) s) in
    register res (call (write res greeting) (write_head res 200 stream_headers s'))

unfoldable pub remove_client : ℕ → Server → Server
remove_client index s = record s {
  clients = set s.clients index none;
  num_clients = s.num_clients -ℤ pos 1;
}

-- The listeners that a socket runs when its peer has ended.
unfoldable pub run_on_end : ℕ → List (ℕ × ℕ) → Server → Server
run_on_end c [] s = s
run_on_end c ((d, index) ∷ listeners) s =
    run_on_end c listeners (if d == c then remove_client index s else s)

unfoldable pub end_socket : ℕ → Server → Server
unfolding run_on_end
end_socket c s = run_on_end c s.on_end s

-- `'data: ' + data + '\n\n'`
unfoldable pub frame : Option Text → Text
unfolding codes show_text
frame body = codes "data: " ++ (show_text body ++ (10 ∷ 10 ∷ []))

-- One round of the loop: `clients[i]` is a socket, null, or undefined past the end.
write_slot : Option (Option ℕ) → Text → Server → Server
write_slot (some (some c)) line s = call (write c line) s
write_slot _ line s = s

-- The loop, from the index i - 1 down to 0.
broadcast_from : ℕ → Text → Server → Server
broadcast_from zero line s = s
broadcast_from (suc i) line s = broadcast_from i line (write_slot (get_elem? s.clients i) line s)

unfoldable pub broadcast : Option Text → Server → Server
unfolding broadcast_from write_slot
broadcast body s = broadcast_from (length s.clients) (frame body) s
