-- ===== src/Server/World.antt =====
-- The program of node.js/server.js under its event loop: connections are accepted, send chunks, and
-- end, in any order. The code listens to no `error` of a socket: one ends the process, and no state of
-- the program comes after it.
pub mod Invariant
pub mod Steps
pub mod Reachable
pub mod Population
use sse_broadcast_benchmark.Common.{
  ℕ, ◌≡◌, ◌≢◌, Bool, true, false, List, [], Option, none, some, ◌==◌, if◌then◌else◌,
}
use sse_broadcast_benchmark.Js.Text.{Text}
use sse_broadcast_benchmark.Server.State.{Server, start}
use sse_broadcast_benchmark.Server.Clients.{end_socket}
use sse_broadcast_benchmark.Server.Connection.{Parser, fresh, on_data}

-- A connection: the closure that reads it, and whether its peer has ended it.
pub record Conn : Type 0 where
  pub parser : Parser
  pub ended : Bool

pub record World : Type 0 where
  pub server : Server
  pub conns : ℕ → Option Conn

abbrev pub update : ℕ → Conn → (ℕ → Option Conn) → ℕ → Option Conn
update c conn conns d = if d == c then some conn else conns d

abbrev pub boot : World
boot = record { server = start; conns = λ c. none }

pub data Event : Type 0 where
  connect : ℕ → Event
  receive : ℕ → List ℕ → Event
  hang_up : ℕ → Event

module _ (decode : List ℕ → Text) where
  -- What the handlers do with an event. An event of a socket that is not there does nothing.
  unfoldable pub deliver : Event → World → World
  deliver (connect c) w = record w {
    conns = update c (record { parser = fresh; ended = false }) w.conns;
  }
  deliver (receive c chunk) w = elim (w.conns c) [
    | none ↦ w
    | some conn ↦
        let (p, s) = on_data decode chunk conn.parser c w.server in
        record { server = s; conns = update c (record conn { parser = p }) w.conns }
  ]
  deliver (hang_up c) w = elim (w.conns c) [
    | none ↦ w
    | some conn ↦ record {
      server = end_socket c w.server;
      conns = update c (record conn { ended = true }) w.conns;
    }
  ]

  -- The socket c is connected and has not ended.
  abbrev pub IsConnected : World → ℕ → Type 0
  IsConnected w c = (conn : Conn) × ((w.conns c ≡ some conn) × (conn.ended ≡ false))

  -- What the platform delivers: a socket connects once, sends chunks of at least one byte until it
  -- ends, and ends once.
  abbrev pub IsAllowed : Event → World → Type 0
  IsAllowed (connect c) w = w.conns c ≡ none
  IsAllowed (receive c chunk) w = IsConnected w c × (chunk ≢ [])
  IsAllowed (hang_up c) w = IsConnected w c

  pub data Reach : World → Type 0 where
    here : Reach boot
    next : {w : World} (e : Event) → Reach w → IsAllowed e w → Reach (deliver e w)
