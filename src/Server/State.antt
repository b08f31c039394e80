-- ===== src/Server/State.antt =====
-- The variables `clients` and `numClients` of node.js/server.js, the listeners that it registers for
-- the event 'end', and what it asks of its sockets, oldest first. A socket is a number.
use sse_broadcast_benchmark.Common.{ℕ, List, [], ◌∷◌, ◌++◌, Option}
use sse_broadcast_benchmark.Common.Int.{ℤ, pos}
use sse_broadcast_benchmark.Js.Text.{Text}

pub data Effect : Type 0 where
  write : ℕ → Text → Effect
  end destroy set_timeout set_no_delay : ℕ → Effect

-- `on_end` pairs a socket with the index that its closure `removeClient` has captured.
pub record Server : Type 0 where
  pub clients : List (Option ℕ)
  pub num_clients : ℤ
  pub on_end : List (ℕ × ℕ)
  pub log : List Effect

abbrev pub start : Server
start = record { clients = []; num_clients = pos 0; on_end = []; log = [] }

-- A call of a socket's method.
abbrev pub call : Effect → Server → Server
call e s = record s { log = s.log ++ e ∷ [] }
