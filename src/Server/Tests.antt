-- ===== src/Server/Tests.antt =====
-- Runs of the server model of node.js/server.js, and its theorems at concrete inputs.
use sse_broadcast_benchmark.Common.{
  ℕ, ◌≡◌, refl, true, false, List, [], ◌∷◌, ◌++◌, none, some, arith, ◌≤◌, length, if◌then◌else◌,
}
use sse_broadcast_benchmark.Common.Int.{pos}
use sse_broadcast_benchmark.Js.Text.{codes, index_of, is_falsy, is, eq_text, split_words, slice_to}
use sse_broadcast_benchmark.Js.Number.{parse_digits}
use sse_broadcast_benchmark.Js.Regex.{match_length}
use sse_broadcast_benchmark.Js.Text.Laws.{has}
use sse_broadcast_benchmark.Server.State.{Server, start, write}
use sse_broadcast_benchmark.Server.Log.{append_log}
use sse_broadcast_benchmark.Server.Response.{write_head, write_client_error}
use sse_broadcast_benchmark.Server.Clients.{frame, init_sse_client, broadcast}
use sse_broadcast_benchmark.Server.Clients.Delivery.{live, broadcast_lem}
use sse_broadcast_benchmark.Server.Clients.Count.{uses}
use sse_broadcast_benchmark.Server.Dispatch.{handle_request}
use sse_broadcast_benchmark.Server.Post.{post_verdict}
use sse_broadcast_benchmark.Server.Connection.{fresh, scan, parse_data, on_data}
use sse_broadcast_benchmark.Server.Connection.Once.{serve, Answer, serve_once}
use sse_broadcast_benchmark.Server.Connection.Chunks.{joined}
use sse_broadcast_benchmark.Server.Connection.Posted.{IsPost, serve_post}
use sse_broadcast_benchmark.Server.Connection.Line.{serve_line, serve_split_line}
use sse_broadcast_benchmark.Server.Connection.Short.{serve_short}
use sse_broadcast_benchmark.Server.Dispatch.Replies.{Replied, handle_request-Replied}
use sse_broadcast_benchmark.Server.Args.{get_args, parsed}
use sse_broadcast_benchmark.Server.Args.Options.{port, cluster, other, render, get_args-render}
use sse_broadcast_benchmark.Server.World.{
  World, Conn, boot, connect, receive, deliver, Reach, here, next,
}
use sse_broadcast_benchmark.Server.World.Invariant.{ended_of}
use sse_broadcast_benchmark.Server.World.Population.{count, num_clients-live, live_once}
use sse_broadcast_benchmark.Server.Connection.Plain.{plain, plain-IsDecoder}

abbrev pub get_sse : List ℕ
get_sse = codes "GET /sse HTTP/1.1" ++ (13 ∷ 10 ∷ 13 ∷ 10 ∷ [])

abbrev pub connected : World
connected = deliver plain (connect 7) boot

abbrev pub streaming : World
streaming = deliver plain (receive 7 get_sse) connected

abbrev seven : Conn
seven = record { parser = fresh; ended = false }

connected_seven : connected.conns 7 ≡ some seven
unfolding deliver
connected_seven = refl

pub streaming-Reach : Reach plain streaming
streaming-Reach =
    next (receive 7 get_sse) (next (connect 7) here refl)
      ((seven, (connected_seven, refl)), λ e. unfold codes in cc e)

num_clients-live_example :
    streaming.server.num_clients ≡ pos (length (live streaming.server.clients))
num_clients-live_example = num_clients-live plain plain-IsDecoder streaming streaming-Reach

live_once_example :
    (count 7 (live streaming.server.clients)
      ≡ (if ended_of streaming.conns 7 then 0 else uses 7 streaming.server.on_end))
    × (uses 7 streaming.server.on_end ≤ 1)
live_once_example = live_once plain plain-IsDecoder streaming streaming-Reach 7

-- The client of the run is in the table.
streaming_clients : streaming.server.clients ≡ some 7 ∷ []
unfolding deliver on_data parse_data scan handle_request init_sse_client is_falsy is eq_text
    split_words slice_to write_head codes
streaming_clients = refl

-- A message with the body "hi" to the client, and the answer.
abbrev post_head : List ℕ
post_head = codes "/broadcast HTTP/1.1" ++ (13 ∷ 10 ∷ codes "Content-Length: 2") ++ (13 ∷ 10 ∷ [])

abbrev post_tail : List (List ℕ)
post_tail = (13 ∷ 10 ∷ codes "h") ∷ codes "i" ∷ []

abbrev table : Server
table = record start { clients = none ∷ some 3 ∷ some 5 ∷ []; num_clients = pos 2 }

broadcast_lem_example :
    broadcast (some (codes "hi")) table
    ≡ append_log table
        (write 5 (frame (some (codes "hi"))) ∷ write 3 (frame (some (codes "hi"))) ∷ [])
broadcast_lem_example = broadcast_lem (some (codes "hi")) table

serve_once_example :
    Answer 9 table (serve plain ((codes "POST " ++ post_head) ∷ post_tail) fresh 9 table).1
serve_once_example =
    serve_once plain plain-IsDecoder ((codes "POST " ++ post_head) ∷ post_tail) 9 table
      ((λ e. unfold codes in cc e), ((λ e. cc e), ((λ e. unfold codes in cc e), tt)))

hi_posted :
    IsPost
      (joined plain ((codes "POST " ++ post_head) ∷ post_tail))
      (codes "/broadcast")
      (codes "hi")
unfolding index_of match_length codes parse_digits has
hi_posted = record {
  head = codes "POST /broadcast HTTP/1.1" ++ (13 ∷ 10 ∷ codes "Content-Length: 2");
  rest = codes "HTTP/1.1" ++ (13 ∷ 10 ∷ codes "Content-Length: 2");
  digits = codes "2";
  parts = refl;
  words = refl;
  one_word = refl;
  first_blank = refl;
  content_length = refl;
  counted = refl;
}

serve_post_example :
    (serve plain ((codes "POST " ++ post_head) ∷ post_tail) fresh 9 table).1
    ≡ handle_request (some (codes "POST")) (some (codes "/broadcast")) (some (codes "hi")) 9 table
unfolding codes has
serve_post_example =
    serve_post plain plain-IsDecoder post_head post_tail 9 table (codes "/broadcast") (codes "hi")
      refl ((λ e. cc e), ((λ e. cc e), tt)) hi_posted

serve_line_example :
    (serve plain (get_sse ∷ []) fresh 9 table).1
    ≡ handle_request (some (codes "GET")) (some (codes "/sse")) none 9 table
unfolding codes has
serve_line_example =
    serve_line plain plain-IsDecoder (codes "GET") (codes "/sse") (codes "HTTP/1.1") (13 ∷ 10 ∷ [])
      [] 9 table refl refl refl refl (λ e. cc e) tt

serve_split_line_example :
    (serve plain (codes "GET /sse HTTP/1.1" ∷ (13 ∷ 10 ∷ 13 ∷ 10 ∷ []) ∷ []) fresh 9 table).1
    ≡ write_client_error 9 table
unfolding codes has
serve_split_line_example =
    serve_split_line plain plain-IsDecoder (codes "GET /sse HTTP/1.1") (13 ∷ 10 ∷ []) [] 9 table
      refl tt

get_args-render_example :
    get_args (render (port (codes "80") ∷ other (codes "-v") ∷ cluster ∷ []))
    ≡ parsed (record { port = some (codes "80"); cluster = true })
unfolding codes eq_text
get_args-render_example =
    get_args-render (port (codes "80") ∷ other (codes "-v") ∷ cluster ∷ []) ((refl, refl, refl), tt)

handle_request-Replied_example :
    let t = handle_request (some (codes "GET")) (some (codes "/sse")) none 9 table in
    Replied (some (codes "GET")) (some (codes "/sse")) none 9 table t
handle_request-Replied_example =
    handle_request-Replied (some (codes "GET")) (some (codes "/sse")) none 9 table

-- Two characters where the header says three bytes.
abbrev short_head : List ℕ
short_head = codes "/broadcast HTTP/1.1" ++ (13 ∷ 10 ∷ codes "Content-Length: 3") ++ (13 ∷ 10 ∷ [])

serve_short_example :
    (serve plain ((codes "POST " ++ short_head) ∷ post_tail) fresh 9 table).1 ≡ table
unfolding post_verdict index_of match_length codes parse_digits has
serve_short_example =
    serve_short plain plain-IsDecoder short_head post_tail 9 table 43 (codes "3") refl
      ((refl, refl), omega arith)
