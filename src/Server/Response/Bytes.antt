-- ===== src/Server/Response/Bytes.antt =====
-- The responses as calls on the socket, and as bytes.
use sse_broadcast_benchmark.Common.{
  ℕ, ◌≡◌, sym, ap, ◌∙◌, List, [], ◌∷◌, ◌++◌, map, append_assoc, append-nil,
}
use sse_broadcast_benchmark.Js.Text.{Text, codes}
use sse_broadcast_benchmark.Js.Number.{show_int}
use sse_broadcast_benchmark.Server.State.{Server, Effect, write, end, call}
use sse_broadcast_benchmark.Server.Log.{append_log, append_log-append}
use sse_broadcast_benchmark.Server.Response.{
  crlf, status_line, header_line, write_headers, write_head, count_headers, any_origin,
  connection_close, plain_text, write_connection_count, write_cors_options, write_client_error,
  write_404,
}

abbrev pub head_calls : ℕ → ℕ → List (Text × Text) → List Effect
head_calls c code headers =
    write c (status_line code) ∷ (map (λ h. write c (header_line h)) headers ++ write c crlf ∷ [])

write_headers_lem :
    (c : ℕ) (headers : List (Text × Text)) (s : Server)
    → write_headers c headers s ≡ append_log s (map (λ h. write c (header_line h)) headers)
unfolding write_headers
write_headers_lem c [] s = ap (λ l. record s { log = l }) (sym (append-nil s.log))
write_headers_lem c (h ∷ hs) s =
    write_headers_lem c hs (call (write c (header_line h)) s) ∙ append_log-append s _ _

pub write_head_lem :
    (c code : ℕ) (headers : List (Text × Text)) (s : Server)
    → write_head c code headers s ≡ append_log s (head_calls c code headers)
unfolding write_head
write_head_lem c code headers s =
    rw (write_headers_lem c headers (call (write c (status_line code)) s))
      (ap (λ l. record s { log = l }) (simp append_assoc))

-- A whole response: the head, the text, and the end of the stream.
abbrev pub closing : ℕ → ℕ → List (Text × Text) → List Text → List Effect
closing c code headers texts = head_calls c code headers ++ (map (write c) texts ++ end c ∷ [])

pub write_connection_count_lem :
    (c : ℕ) (s : Server)
    → write_connection_count c s
      ≡ append_log s (closing c 200 count_headers (show_int s.num_clients ∷ []))
unfolding write_connection_count
write_connection_count_lem c s =
    rw (write_head_lem c 200 count_headers s) (ap (λ l. record s { log = l }) (simp append_assoc))

pub write_cors_options_lem :
    (c : ℕ) (s : Server)
    → write_cors_options c s ≡ append_log s (closing c 204 (any_origin ∷ connection_close ∷ []) [])
unfolding write_cors_options
write_cors_options_lem c s =
    rw (write_head_lem c 204 (any_origin ∷ connection_close ∷ []) s)
      (ap (λ l. record s { log = l }) (simp append_assoc))

pub write_client_error_lem :
    (c : ℕ) (s : Server)
    → write_client_error c s ≡ append_log s (closing c 400 (plain_text ∷ connection_close ∷ []) [])
unfolding write_client_error
write_client_error_lem c s =
    rw (write_head_lem c 400 (plain_text ∷ connection_close ∷ []) s)
      (ap (λ l. record s { log = l }) (simp append_assoc))

pub write_404_lem :
    (c : ℕ) (s : Server)
    → write_404 c s
      ≡ append_log s
          (closing c 404 (plain_text ∷ connection_close ∷ []) (codes "File not found" ∷ []))
unfolding write_404
write_404_lem c s =
    rw (write_head_lem c 404 (plain_text ∷ connection_close ∷ []) s)
      (ap (λ l. record s { log = l }) (simp append_assoc))
