-- ===== src/Server/World/Invariant.antt =====
-- The count of clients and the table agree with the sockets that stream, in every reachable state.
use sse_broadcast_benchmark.Common.{
  ℕ, ◌≤◌, ◌≡◌, sym, ap, subst, ◌∙◌, ◌⊎◌, inl, inr, Bool, false, List, map, Option, none, some, ◌==◌,
  ==_iff, ==_refl, Bool-cases, length,
}
use mathlib.Core.Path.{fun_ext}
use sse_broadcast_benchmark.Common.Int.{pos}
use sse_broadcast_benchmark.Server.Clients.Delivery.{live}
use sse_broadcast_benchmark.Server.Clients.Count.{uses, IsIndexed, slot}
use sse_broadcast_benchmark.Server.Connection.Phases.{IsOpen, IsDone, IsRefused}
use sse_broadcast_benchmark.Server.World.{Conn, World, update}

-- Whether the peer of a socket has ended it.
abbrev pub has_ended : Option Conn → Bool
has_ended none = false
has_ended (some conn) = conn.ended

abbrev pub ended_of : (ℕ → Option Conn) → ℕ → Bool
ended_of conns c = has_ended (conns c)

-- The state of a socket that has been entered in the table n times.
abbrev pub HasState : Option Conn → ℕ → Type 0
HasState none n = n ≡ 0
HasState (some conn) n =
    (IsOpen conn.parser × (n ≡ 0))
    ⊎ (IsDone conn.parser × (n ≤ 1))
    ⊎ (IsRefused conn.parser × (n ≡ 0))

pub record Inv (w : World) : Type 0 where
  pub slots : w.server.clients ≡ map (slot (ended_of w.conns)) w.server.on_end
  pub indexed : IsIndexed 0 w.server.on_end
  pub counted : w.server.num_clients ≡ pos (length (live w.server.clients))
  pub states : (c : ℕ) → HasState (w.conns c) (uses c w.server.on_end)

module _ (conns : ℕ → Option Conn) (c : ℕ) (conn : Conn) where
  pub update_self : update c conn conns c ≡ some conn
  update_self = rw (==_refl c)

  pub update_other : (d : ℕ) → (d == c) ≡ false → update c conn conns d ≡ conns d
  update_other d h = rw h

  pub ended_of_other :
      (d : ℕ) → (d == c) ≡ false → ended_of conns d ≡ ended_of (update c conn conns) d
  ended_of_other d h = ap has_ended (sym (update_other d h))

  -- A socket that is updated without being ended leaves the ended ones as they are.
  pub ended_of-update :
      (old : Conn)
      → conns c ≡ some old
      → conn.ended ≡ old.ended
      → ended_of (update c conn conns) ≡ ended_of conns
  ended_of-update old found same = fun_ext λ d. elim (Bool-cases (d == c)) [
    | inl hit ↦
        let e = (==_iff d c).0 hit in
        ap has_ended (ap (update c conn conns) e ∙ update_self)
        ∙ same
        ∙ sym (ap has_ended (ap conns e ∙ found))
    | inr miss ↦ ap has_ended (update_other d miss)
  ]

  -- The states of the sockets, if only that of c changes and only its uses do.
  pub states-update :
      (before after : List (ℕ × ℕ))
      → ((d : ℕ) → HasState (conns d) (uses d before))
      → ((d : ℕ) → (d == c) ≡ false → uses d after ≡ uses d before)
      → HasState (some conn) (uses c after)
      → (d : ℕ) → HasState (update c conn conns d) (uses d after)
  states-update before after old same new d = elim (Bool-cases (d == c)) [
    | inl hit ↦
        rw hit (subst (λ e. HasState (some conn) (uses e after)) (sym ((==_iff d c).0 hit)) new)
    | inr miss ↦ rw (miss, same d miss) (old d)
  ]
