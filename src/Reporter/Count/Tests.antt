-- ===== src/Reporter/Count/Tests.antt =====
-- The number of connections that the reporter reads, at a concrete state of the server.
use sse_broadcast_benchmark.Common.{
  ltb, ◌^◌, ◌&&◌, true, ℕ, ◌≡◌, refl, false, length, List, [], ◌∷◌, ◌++◌, Option, none, some, arith,
  if◌then◌else◌,
}
use sse_broadcast_benchmark.Common.Int.{ℤ, pos}
use sse_broadcast_benchmark.Js.Text.{Text, codes, is_falsy, is, eq_text, split_words, slice_to}
use sse_broadcast_benchmark.Js.Number.{parse_digits}
use sse_broadcast_benchmark.Js.Number.Laws.{all_digits, all_digits-show, parse_digits-show}
use sse_broadcast_benchmark.Server.Response.{count_headers, write_connection_count, write_head}
use sse_broadcast_benchmark.Server.Response.Bytes.{closing}
use sse_broadcast_benchmark.Server.Clients.{init_sse_client}
use sse_broadcast_benchmark.Server.Clients.Delivery.{live}
use sse_broadcast_benchmark.Server.Dispatch.{handle_request}
use sse_broadcast_benchmark.Server.Connection.{fresh, scan, parse_data, on_data}
use sse_broadcast_benchmark.Server.World.{
  World, Conn, boot, connect, receive, deliver, Reach, here, next,
}
use sse_broadcast_benchmark.Reporter.Count.{or_zero}
use sse_broadcast_benchmark.Reporter.Count.Roundtrip.{ReadsDigits, or_zero-write_connection_count}
use sse_broadcast_benchmark.Server.Connection.Plain.{plain, plain-IsDecoder}

abbrev get_sse : List ℕ
get_sse = codes "GET /sse HTTP/1.1" ++ (13 ∷ 10 ∷ 13 ∷ 10 ∷ [])

-- A server with one client.
abbrev streaming : World
streaming = deliver plain (receive 7 get_sse) (deliver plain (connect 7) boot)

abbrev unread : Conn
unread = record { parser = fresh; ended = false }

seven_unread : (deliver plain (connect 7) boot).conns 7 ≡ some unread
unfolding deliver
seven_unread = refl

streaming-Reach : Reach plain streaming
streaming-Reach =
    next (receive 7 get_sse) (next (connect 7) here refl)
      ((unread, (seven_unread, refl)), λ e. unfold codes in cc e)

to_number : Text → Option ℤ
to_number t =
    if all_digits t && ltb (parse_digits t) (2 ^ 53) then some (pos (parse_digits t)) else none

to_number-ReadsDigits : ReadsDigits to_number
unfolding to_number
to_number-ReadsDigits n h =
    let small : ltb n (2 ^ 53) ≡ true = ground arith in
    rw (all_digits-show n, parse_digits-show n, small) refl

one_live : length (live streaming.server.clients) ≡ 1
unfolding deliver on_data parse_data scan handle_request init_sse_client is_falsy is eq_text
    split_words slice_to write_head codes
one_live = refl

or_zero-write_connection_count_example :
    (body : Text) × ((write_connection_count 9 streaming.server).log
      ≡ streaming.server.log ++ closing 9 200 count_headers (body ∷ []))
    × (or_zero to_number (some body) ≡ pos (length (live streaming.server.clients)))
or_zero-write_connection_count_example =
    or_zero-write_connection_count plain plain-IsDecoder to_number to_number-ReadsDigits streaming
      streaming-Reach 9 (rw one_live (omega arith))
