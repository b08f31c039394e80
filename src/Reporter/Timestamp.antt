-- ===== src/Reporter/Timestamp.antt =====
-- `sendTimestampBroadcast` of stats-reporter/report.js: what it writes to the server.
pub mod Request
pub mod Roundtrip
use sse_broadcast_benchmark.Common.{ℕ, [], ◌∷◌, ◌++◌, length}
use sse_broadcast_benchmark.Js.Text.{Text, codes}
use sse_broadcast_benchmark.Js.Number.{show}

-- The variable `ip`.
abbrev pub ip : Text
ip = codes "127.0.0.1"

abbrev pub newline : Text
newline = 13 ∷ 10 ∷ []

-- The argument of `client.write`, for a payload.
unfoldable pub broadcast_request : Text → Text
unfolding codes show
broadcast_request payload =
    codes "POST /broadcast HTTP/1.1"
    ++ (newline
        ++ (codes "Host: "
            ++ (ip
                ++ (newline
                    ++ (codes "Content-Type: text/plain"
                        ++ (newline
                            ++ (codes "Content-Length: "
                                ++ (show (length payload)
                                    ++ (newline ++ (newline ++ payload))))))))))

-- `'' + Date.now()` is the payload.
unfoldable pub timestamp_request : ℕ → Text
unfolding broadcast_request
timestamp_request now = broadcast_request (show now)
