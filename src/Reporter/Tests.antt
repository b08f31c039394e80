-- ===== src/Reporter/Tests.antt =====
-- The theorems on stats-reporter/report.js at concrete inputs.
use sse_broadcast_benchmark.Common.{
  ℕ, ◌≡◌, refl, Bool, false, ◌*◌, ◌^◌, length, List, [], ◌∷◌, ◌++◌, ◌+◌, none, some, if◌then◌else◌,
}
use sse_broadcast_benchmark.Common.Int.{pos}
use sse_broadcast_benchmark.Js.Text.{Text, codes, is_falsy, split, show_text}
use sse_broadcast_benchmark.Js.Text.Laws.{has}
use sse_broadcast_benchmark.Js.Number.{show}
use sse_broadcast_benchmark.Server.State.{Server, start, write}
use sse_broadcast_benchmark.Server.Response.{connection_close}
use sse_broadcast_benchmark.Server.Response.Bytes.{closing}
use sse_broadcast_benchmark.Server.Log.{append_log}
use sse_broadcast_benchmark.Server.Clients.{frame}
use sse_broadcast_benchmark.Server.Connection.{fresh}
use sse_broadcast_benchmark.Server.Connection.Once.{serve}
use sse_broadcast_benchmark.Reporter.Timestamp.{newline, timestamp_request}
use sse_broadcast_benchmark.Reporter.Timestamp.Roundtrip.{serve-timestamp_request}
use sse_broadcast_benchmark.Reporter.Delivery.{
  Timing, idle, get_delivery_timing, on_open, on_error, on_message, on_timer,
}
use sse_broadcast_benchmark.Reporter.Delivery.Callbacks.{
  History, begin, next, fetch, opens, fires, receives, fails, IsAscending, callbacks_once, happens,
}
use sse_broadcast_benchmark.Reporter.Start.{Options, spawns, start_report}
use sse_broadcast_benchmark.Reporter.Start.Command.{Justified, start_report-Justified}
use sse_broadcast_benchmark.Reporter.Delivery.Timers.{
  fire, receive, pending, rounds, pending-rounds,
}
use sse_broadcast_benchmark.Server.Connection.Plain.{plain, plain-IsDecoder}

-- The request for the time 42, but for its first word, in two chunks.
abbrev first_bytes : List ℕ
first_bytes =
    codes "/broadcast HTTP/1.1"
    ++ (newline ++ (codes "Host: 127.0.0.1" ++ (newline ++ codes "Content-")))

abbrev last_bytes : List ℕ
last_bytes =
    codes "Type: text/plain"
    ++ (newline ++ (codes "Content-Length: 2" ++ (newline ++ (newline ++ codes "42"))))

abbrev two_clients : Server
two_clients = record start { clients = some 3 ∷ none ∷ some 5 ∷ []; num_clients = pos 2 }

serve-timestamp_request_example :
    (serve plain ((codes "POST " ++ first_bytes) ∷ last_bytes ∷ []) fresh 9 two_clients).1
    ≡ append_log two_clients (
        write 5 (frame (some (show 42)))
        ∷ write 3 (frame (some (show 42)))
        ∷ closing 9 202 (connection_close ∷ []) [])
unfolding timestamp_request codes has
serve-timestamp_request_example =
    serve-timestamp_request plain plain-IsDecoder 42 first_bytes (last_bytes ∷ []) 9 two_clients
      refl ((λ e. cc e), tt) refl

-- Two calls, of which the second one's callback replaces the first one's; the timestamp arrives 7 ms
-- after it was sent; a third call, whose stream then fails.
abbrev after_failure : Timing
after_failure = happens 3 fails (
    happens 2 fetch (
      happens 2 (receives 1007 1000)
        (happens 2 (fires 0) (happens 2 opens (happens 1 fetch (happens 0 fetch idle))))))

after_failure-History : History 3 after_failure
unfolding happens get_delivery_timing on_open on_message on_timer
after_failure-History =
    next fails
      (next fetch
        (next (receives 1007 1000)
          (next (fires 0) (next opens (next fetch (next fetch begin tt) tt) refl) tt) refl)
        tt)
      refl

called_once : after_failure.calls ≡ (1, pos 7) ∷ []
unfolding happens on_error get_delivery_timing on_message on_timer on_open
called_once = refl

callbacks_once_example :
    IsAscending after_failure.calls
    × (after_failure.opened ≡ after_failure.closed + (if after_failure.running then 1 else 0))
callbacks_once_example = callbacks_once 3 after_failure after_failure-History

abbrev with_command : Options
with_command = record {
  pid = none;
  implementation = none;
  cmd = some (codes "go run server.go");
  port = pos 1942;
}

no_file : Text → Bool
no_file path = false

three_words :
    start_report no_file (codes "/app") with_command
    ≡ spawns (codes "go") (codes "run" ∷ codes "server.go" ∷ [])
unfolding start_report codes is_falsy split show_text
three_words = refl

start_report-Justified_example :
    Justified no_file (codes "/app") with_command (start_report no_file (codes "/app") with_command)
start_report-Justified_example = start_report-Justified no_file (codes "/app") with_command

-- Two reporters whose streams have opened: a timer each.
abbrev two_reporters : List Timing
two_reporters = happens 1 opens (happens 0 fetch idle) ∷ happens 1 opens (happens 0 fetch idle) ∷ []

pending-rounds_example :
    pending (rounds 3 1007 1000 two_reporters) ≡ length two_reporters ^ 3 * pending two_reporters
unfolding happens get_delivery_timing on_open
pending-rounds_example = pending-rounds 3 1007 1000 two_reporters (refl, (refl, tt))

sixteen_timers : pending (rounds 3 1007 1000 two_reporters) ≡ 16
unfolding pending rounds happens get_delivery_timing on_open receive on_message fire on_timer
sixteen_timers = refl
