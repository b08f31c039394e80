-- ===== src/Server/World/Steps.antt =====
-- What each kind of event does to the invariant of the table of clients.
use sse_broadcast_benchmark.Common.{
  ℕ, ◌≡◌, refl, sym, ap, ◌∙◌, ◌⊎◌, inl, inr, true, false, List, [], ◌∷◌, ◌++◌, map, map-append,
  some, arith, ◌==◌, ==_refl, length, length-append, length-map,
}
use mathlib.Core.Path.{ap₂}
use sse_broadcast_benchmark.Common.Int.{pos, ◌-ℤ◌, pos-add_one, pos-sub_one}
use sse_broadcast_benchmark.Server.State.{Server}
use sse_broadcast_benchmark.Server.Clients.{end_socket}
use sse_broadcast_benchmark.Server.Clients.Delivery.{live, live-append}
use sse_broadcast_benchmark.Server.Clients.Count.{
  uses, slot, uses-append, IsIndexed-append, map-slot_unused, end_socket_unused, end_socket_used,
}
use sse_broadcast_benchmark.Server.Dispatch.Routes.{SameTable, Registered}
use sse_broadcast_benchmark.Server.Connection.Phases.{IsDone}
use sse_broadcast_benchmark.Server.World.{Conn, World, update}
use sse_broadcast_benchmark.Server.World.Invariant.{
  has_ended, ended_of, HasState, Inv, update_self, ended_of_other, ended_of-update, states-update,
}

module _ (w : World) (inv : Inv w) (c : ℕ) (old : Conn) (found : w.conns c ≡ some old) (conn : Conn)
    (t : Server) where
  -- An event that leaves the table alone.
  pub Inv-SameTable :
      conn.ended ≡ old.ended
      → SameTable w.server t
      → HasState (some conn) (uses c w.server.on_end)
      → Inv (record { server = t; conns = update c conn w.conns })
  Inv-SameTable same (clients, num, on_end) state = record {
    slots = rw (clients, on_end, ended_of-update w.conns c conn old found same) inv.slots;
    indexed = rw on_end inv.indexed;
    counted = rw (num, clients) inv.counted;
    states = rw on_end (
        states-update w.conns c conn w.server.on_end w.server.on_end inv.states (λ d _. refl)
          state);
  }

  -- An event that enters the socket in the table.
  pub Inv-Registered :
      conn.ended ≡ old.ended
      → old.ended ≡ false
      → Registered c w.server t
      → IsDone conn.parser
      → uses c w.server.on_end ≡ 0
      → Inv (record { server = t; conns = update c conn w.conns })
  Inv-Registered same alive (clients, num, on_end) done unused = record {
    slots =
        rw (clients, on_end, ended_of-update w.conns c conn old found same)
          (ap₂ ◌++◌ inv.slots (ap (λ o. o ∷ []) (sym new_slot))
            ∙ sym (map-append _ w.server.on_end _));
    indexed = rw on_end (
        IsIndexed-append 0 w.server.on_end c (length w.server.clients) inv.indexed (
          omega
            (arith, ap length inv.slots, length-map w.server.on_end (slot (ended_of w.conns)))));
    counted =
        rw (num, clients, inv.counted, live-append w.server.clients (some c ∷ []), pos-add_one)
          (ap pos (sym (length-append (live w.server.clients) (c ∷ []))));
    states = rw on_end (
        states-update w.conns c conn w.server.on_end (w.server.on_end ++ entry) inv.states
          (λ d miss. omega (arith, uses-append d w.server.on_end entry, other d miss))
          (inr (inl (done, omega (arith, uses-append c w.server.on_end entry, unused, itself)))));
  }
    where
      entry : List (ℕ × ℕ)
      entry = (c, length w.server.clients) ∷ []

      new_slot : slot (ended_of w.conns) (c, length w.server.clients) ≡ some c
      new_slot = rw (found, alive)

      other : (d : ℕ) → (d == c) ≡ false → uses d entry ≡ 0
      other d miss = ground arith

      itself : uses c entry ≡ 1
      itself = rw (==_refl c)

-- The end of a socket.
module _ (w : World) (inv : Inv w) (c : ℕ) (old : Conn) (found : w.conns c ≡ some old)
    (conn : Conn) where
  at_most_one : (uses c w.server.on_end ≡ 0) ⊎ (uses c w.server.on_end ≡ 1)
  at_most_one = go (rw found at (inv.states c))
    where
      go :
          HasState (some old) (uses c w.server.on_end)
          → (uses c w.server.on_end ≡ 0) ⊎ (uses c w.server.on_end ≡ 1)
      go (inl (_, h)) = inl h
      go (inr (inl (_, h))) = omega arith
      go (inr (inr (_, h))) = inl h

  abbrev w_ended : World
  w_ended = record { server = end_socket c w.server; conns = update c conn w.conns }

  ended_states :
      conn.parser ≡ old.parser → (d : ℕ) → HasState (w_ended.conns d) (uses d w.server.on_end)
  ended_states same =
      states-update w.conns c conn w.server.on_end w.server.on_end inv.states (λ d _. refl)
        (rw same (rw found at (inv.states c)))

  Inv-ended_unused : conn.parser ≡ old.parser → uses c w.server.on_end ≡ 0 → Inv w_ended
  Inv-ended_unused same unused = rw (end_socket_unused c w.server unused) (record {
    slots =
        inv.slots
        ∙ map-slot_unused c (ended_of w.conns) (ended_of w_ended.conns) w.server.on_end
            (ended_of_other w.conns c conn) unused;
    indexed = inv.indexed;
    counted = inv.counted;
    states = ended_states same;
  })

  Inv-ended_used :
      conn.ended ≡ true
      → conn.parser ≡ old.parser
      → old.ended ≡ false
      → uses c w.server.on_end ≡ 1
      → Inv w_ended
  Inv-ended_used now same alive used =
      let (clients, num, on_end, fewer) =
        end_socket_used c (ended_of w.conns) (ended_of w_ended.conns) w.server
          (ended_of_other w.conns c conn) (ap has_ended found ∙ alive)
          (ap has_ended (update_self w.conns c conn) ∙ now) inv.indexed used inv.slots in
      record {
        slots = clients ∙ ap (map (slot (ended_of w_ended.conns))) (sym on_end);
        indexed = rw on_end inv.indexed;
        counted =
            num
            ∙ ap (λ n. n -ℤ pos 1) (inv.counted ∙ ap pos fewer)
            ∙ pos-sub_one (length (live (map (slot (ended_of w_ended.conns)) w.server.on_end)))
            ∙ ap (λ l. pos (length (live l))) (sym clients);
        states = rw on_end (ended_states same);
      }

  pub Inv-ended : conn.ended ≡ true → conn.parser ≡ old.parser → old.ended ≡ false → Inv w_ended
  Inv-ended now same alive = elim at_most_one [
    | inl unused ↦ Inv-ended_unused same unused
    | inr used ↦ Inv-ended_used now same alive used
  ]
