-- ===== src/Server/World/Reachable.antt =====
-- The invariant holds in every reachable state, and what it says of the clients.
use sse_broadcast_benchmark.Common.{
  ℕ, ◌≡◌, ◌≢◌, refl, ◌∙◌, inl, inr, true, false, List, [], ◌∷◌, none, some, arith,
}
use sse_broadcast_benchmark.Js.Text.{Text}
use sse_broadcast_benchmark.Js.Text.Laws.{has}
use sse_broadcast_benchmark.Server.State.{Server}
use sse_broadcast_benchmark.Server.Response.{connection_close}
use sse_broadcast_benchmark.Server.Response.Bytes.{write_head_lem}
use sse_broadcast_benchmark.Server.Clients.Count.{uses, map-slot_unused}
use sse_broadcast_benchmark.Server.Dispatch.Routes.{SameTable, Entered, handle_request-Entered}
use sse_broadcast_benchmark.Server.Connection.{Parser, fresh, on_data}
use sse_broadcast_benchmark.Server.Connection.Phases.{
  IsDecoder, IsDone, Moves, on_data-IsOpen, on_data-IsDone, on_data-IsRefused, refuse,
}
use sse_broadcast_benchmark.Server.World.{
  Conn, World, Event, connect, receive, hang_up, boot, update, deliver, IsAllowed, Reach, here,
  next,
}
use sse_broadcast_benchmark.Server.World.Invariant.{
  ended_of, HasState, Inv, ended_of_other, states-update,
}
use sse_broadcast_benchmark.Server.World.Steps.{Inv-SameTable, Inv-Registered, Inv-ended}

boot-Inv : Inv boot
boot-Inv = record { slots = refl; indexed = tt; counted = refl; states = λ c. refl }

refuse-SameTable : (c : ℕ) (s : Server) → SameTable s (refuse c s)
refuse-SameTable c s = rw (write_head_lem c 411 (connection_close ∷ []) s) (refl, refl, refl)

-- The connection with its parser moved on.
abbrev moved : Conn → Parser → Conn
moved conn p = record conn { parser = p }

-- The invariant after a chunk, from what the chunk did.
abbrev After : World → ℕ → Conn → Parser × Server → Type 0
After w c conn (p, t) = Inv (record { server = t; conns = update c (moved conn p) w.conns })

module _ (w : World) (inv : Inv w) (c : ℕ) (conn : Conn) (found : w.conns c ≡ some conn) where
  Inv-Entered :
      (p : Parser) (t : Server)
      → conn.ended ≡ false
      → IsDone p
      → uses c w.server.on_end ≡ 0
      → Entered c w.server t
      → After w c conn (p, t)
  Inv-Entered p t alive done unused (inl same) =
      Inv-SameTable w inv c conn found (moved conn p) t refl same (inr (inl (done, omega arith)))
  Inv-Entered p t alive done unused (inr registered) =
      Inv-Registered w inv c conn found (moved conn p) t refl alive registered done unused

  Inv-Moves :
      (p : Parser) (t : Server)
      → conn.ended ≡ false
      → uses c w.server.on_end ≡ 0
      → Moves c w.server (p, t)
      → After w c conn (p, t)
  Inv-Moves p t alive unused (inl (still, same)) =
      Inv-SameTable w inv c conn found (moved conn p) t refl (rw same (refl, refl, refl))
        (inl (still, unused))
  Inv-Moves p t alive unused (inr (inl (done, (m, q, b, same)))) =
      Inv-Entered p t alive done unused (rw same (handle_request-Entered m q b c w.server))
  Inv-Moves p t alive unused (inr (inr (refused, same))) =
      Inv-SameTable w inv c conn found (moved conn p) t refl (rw same (refuse-SameTable c w.server))
        (inr (inr (refused, unused)))

module _ (decode : List ℕ → Text) (decoder : IsDecoder decode) where
  receive-Inv :
      (w : World) (c : ℕ) (chunk : List ℕ) (conn : Conn)
      → Inv w
      → w.conns c ≡ some conn
      → conn.ended ≡ false
      → chunk ≢ []
      → After w c conn (on_data decode chunk conn.parser c w.server)
  receive-Inv w c chunk conn inv found alive some_bytes = go (rw found at (inv.states c))
    where
      p : Parser
      p = (on_data decode chunk conn.parser c w.server).0

      t : Server
      t = (on_data decode chunk conn.parser c w.server).1

      go : HasState (some conn) (uses c w.server.on_end) → After w c conn (p, t)
      go (inl (still, unused)) =
          Inv-Moves w inv c conn found p t alive unused
            (on_data-IsOpen decode decoder conn.parser chunk c w.server still)
      go (inr (inl (done, once))) =
          let (done', same) =
            on_data-IsDone decode decoder conn.parser chunk c w.server some_bytes done in
          Inv-SameTable w inv c conn found (moved conn p) t refl (rw same (refl, refl, refl))
            (inr (inl (done', once)))
      go (inr (inr (refused, unused))) =
          let (refused', same) =
            on_data-IsRefused decode decoder conn.parser chunk c w.server refused in
          Inv-SameTable w inv c conn found (moved conn p) t refl
            (rw same (refuse-SameTable c w.server)) (inr (inr (refused', unused)))

  connect-Inv : (w : World) (c : ℕ) → Inv w → w.conns c ≡ none → Inv (deliver decode (connect c) w)
  unfolding deliver
  connect-Inv w c inv absent =
      let conn : Conn = record { parser = fresh; ended = false } in
      let unused : uses c w.server.on_end ≡ 0 = rw absent at (inv.states c) in
      record {
        slots =
            inv.slots
            ∙ map-slot_unused c (ended_of w.conns) (ended_of (update c conn w.conns))
                w.server.on_end (ended_of_other w.conns c conn) unused;
        indexed = inv.indexed;
        counted = inv.counted;
        states =
            states-update w.conns c conn w.server.on_end w.server.on_end inv.states (λ d _. refl)
              (inl ((refl, inl (refl, unfold has in refl)), unused));
      }

  deliver-Inv : (e : Event) (w : World) → Inv w → IsAllowed decode e w → Inv (deliver decode e w)
  unfolding deliver
  deliver-Inv (connect c) w inv absent = connect-Inv w c inv absent
  deliver-Inv (receive c chunk) w inv ((conn, (found, alive)), some_bytes) =
      rw (found, deliver) (receive-Inv w c chunk conn inv found alive some_bytes)
  deliver-Inv (hang_up c) w inv (conn, (found, alive)) =
      rw (found, deliver)
        (Inv-ended w inv c conn found (record conn { ended = true }) refl refl alive)

  pub Reach-Inv : {w : World} → Reach decode w → Inv w
  Reach-Inv here = boot-Inv
  Reach-Inv (next {w} e r allowed) = deliver-Inv e w (Reach-Inv r) allowed
