-- ===== src/Server/Response.antt =====
-- The functions of node.js/server.js that write a response.
pub mod Bytes
use sse_broadcast_benchmark.Common.{ℕ, List, [], ◌∷◌, ◌++◌, ◌==◌, if◌then◌else◌}
use sse_broadcast_benchmark.Js.Text.{Text, codes}
use sse_broadcast_benchmark.Js.Number.{show, show_int}
use sse_broadcast_benchmark.Server.State.{Server, write, end, call}

abbrev pub crlf : Text
crlf = 13 ∷ 10 ∷ []

-- `statusCodes[code]`, as it is printed
unfoldable pub status_text : ℕ → Text
unfolding codes
status_text code =
    if code == 200
    then codes "OK"
    else if code == 202
    then codes "Accepted"
    else if code == 204
    then codes "No Content"
    else if code == 404
    then codes "File not found"
    else if code == 400
    then codes "Client error"
    else if code == 411
    then codes "Length required"
    else codes "undefined"

unfoldable pub status_line : ℕ → Text
unfolding codes show status_text
status_line code = codes "HTTP/1.1 " ++ (show code ++ (32 ∷ (status_text code ++ crlf)))

unfoldable pub header_line : Text × Text → Text
header_line (name, value) = name ++ (58 ∷ 32 ∷ (value ++ crlf))

write_headers : ℕ → List (Text × Text) → Server → Server
write_headers c [] s = s
write_headers c (header ∷ headers) s =
    write_headers c headers (call (write c (header_line header)) s)

unfoldable pub write_head : ℕ → ℕ → List (Text × Text) → Server → Server
unfolding write_headers
write_head c code headers s =
    call (write c crlf) (write_headers c headers (call (write c (status_line code)) s))

abbrev pub connection_close : Text × Text
connection_close = (codes "Connection", codes "close")

abbrev pub any_origin : Text × Text
any_origin = (codes "Access-Control-Allow-Origin", codes "*")

abbrev pub no_cache : Text × Text
no_cache = (codes "Cache-Control", codes "no-cache")

abbrev pub plain_text : Text × Text
plain_text = (codes "Content-Type", codes "text/plain")

abbrev pub count_headers : List (Text × Text)
count_headers = plain_text ∷ no_cache ∷ any_origin ∷ connection_close ∷ []

unfoldable pub write_connection_count : ℕ → Server → Server
write_connection_count res s =
    let s' = write_head res 200 count_headers s in
    call (end res) (call (write res (show_int s.num_clients)) s')

unfoldable pub write_cors_options : ℕ → Server → Server
write_cors_options res s =
    call (end res) (write_head res 204 (any_origin ∷ connection_close ∷ []) s)

unfoldable pub write_client_error : ℕ → Server → Server
write_client_error res s =
    call (end res) (write_head res 400 (plain_text ∷ connection_close ∷ []) s)

unfoldable pub write_404 : ℕ → Server → Server
write_404 res s = call (end res) (
    call (write res (codes "File not found"))
      (write_head res 404 (plain_text ∷ connection_close ∷ []) s))
