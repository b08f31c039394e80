-- ===== src/Server/Log.antt =====
-- The log of what is asked of the sockets: how it grows, and what a socket has been sent.
use sse_broadcast_benchmark.Common.{
  ℕ, ◌≡◌, ap, List, [], ◌∷◌, ◌++◌, ◌==◌, append_assoc, append-nil, if◌then◌else◌,
}
use sse_broadcast_benchmark.Js.Text.{Text}
use sse_broadcast_benchmark.Server.State.{Server, Effect, write}

-- A state with more calls behind its log.
abbrev pub append_log : Server → List Effect → Server
append_log s es = record s { log = s.log ++ es }

pub append_log-append :
    (s : Server) (es fs : List Effect) → append_log (append_log s es) fs ≡ append_log s (es ++ fs)
append_log-append s es fs = ap (λ l. record s { log = l }) (append_assoc s.log es fs)

pub append_log-nil : (s : Server) → append_log s [] ≡ s
append_log-nil s = ap (λ l. record s { log = l }) (append-nil s.log)

-- All that a socket has been sent, in order.
unfoldable pub received : ℕ → List Effect → Text
received c [] = []
received c (write d t ∷ es) = if d == c then t ++ received c es else received c es
received c (_ ∷ es) = received c es
