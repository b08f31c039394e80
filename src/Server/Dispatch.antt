-- ===== src/Server/Dispatch.antt =====
-- `handleRequest` of node.js/server.js.
pub mod Routes
pub mod Replies
use sse_broadcast_benchmark.Common.{ℕ, [], ◌∷◌, ◌&&◌, ◌||◌, Option, if◌then◌else◌}
use sse_broadcast_benchmark.Js.Text.{Text, codes, is_falsy, is}
use sse_broadcast_benchmark.Server.State.{Server, end, call}
use sse_broadcast_benchmark.Server.Response.{
  connection_close, write_head, write_connection_count, write_cors_options, write_client_error,
  write_404,
}
use sse_broadcast_benchmark.Server.Clients.{init_sse_client, broadcast}

unfoldable pub handle_request : Option Text → Option Text → Option Text → ℕ → Server → Server
handle_request method path body res s =
    if is_falsy method || is_falsy path
    then write_client_error res s
    else if is method (codes "OPTIONS")
    then write_cors_options res s
    else if is method (codes "POST") && is path (codes "/broadcast")
    then call (end res) (write_head res 202 (connection_close ∷ []) (broadcast body s))
    else if is path (codes "/connections")
    then write_connection_count res s
    else if is path (codes "/sse")
    then init_sse_client res s
    else write_404 res s
