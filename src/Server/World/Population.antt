-- ===== src/Server/World/Population.antt =====
-- The clients that the server counts, and to whom it broadcasts, are the sockets that stream.
use sse_broadcast_benchmark.Common.{
  ℕ, suc, ◌≤◌, ◌≡◌, ap, ◌∙◌, inl, inr, Bool, List, [], ◌∷◌, map, Option, none, some, arith, ◌==◌,
  ==_iff, Bool-cases, length, if◌then◌else◌,
}
use sse_broadcast_benchmark.Common.Int.{pos}
use sse_broadcast_benchmark.Js.Text.{Text}
use sse_broadcast_benchmark.Server.Clients.Delivery.{live}
use sse_broadcast_benchmark.Server.Clients.Count.{uses, slot}
use sse_broadcast_benchmark.Server.Connection.Phases.{IsDecoder}
use sse_broadcast_benchmark.Server.World.{World, Conn, Reach}
use sse_broadcast_benchmark.Server.World.Invariant.{ended_of, HasState}
use sse_broadcast_benchmark.Server.World.Reachable.{Reach-Inv}

-- How often a number stands in a list.
abbrev pub count : ℕ → List ℕ → ℕ
count c [] = 0
count c (d ∷ ds) = if d == c then suc (count c ds) else count c ds

count-live :
    (c : ℕ) (ended : ℕ → Bool) (listeners : List (ℕ × ℕ))
    → count c (live (map (slot ended) listeners)) ≡ (if ended c then 0 else uses c listeners)
count-live c ended [] = ground arith
count-live c ended ((d, index) ∷ listeners) =
    let ih = count-live c ended listeners in
    elim (Bool-cases (d == c)) [
      | inl hit ↦
          let same = ap ended ((==_iff d c).0 hit) in
          elim (Bool-cases (ended c)) [
            | inl gone ↦ rw (same, gone) (rw gone at ih)
            | inr alive ↦ rw (same, alive, hit) (ap suc (rw alive at ih))
          ]
      | inr miss ↦ elim (Bool-cases (ended d)) [
        | inl gone ↦ rw (gone, miss) ih
        | inr alive ↦ rw (alive, miss) ih
      ]
    ]

HasState-le : (o : Option Conn) (n : ℕ) → HasState o n → n ≤ 1
HasState-le none n h = omega arith
HasState-le (some conn) n (inl (_, h)) = omega arith
HasState-le (some conn) n (inr (inl (_, h))) = h
HasState-le (some conn) n (inr (inr (_, h))) = omega arith

module _ (decode : List ℕ → Text) (decoder : IsDecoder decode) (w : World)
    (r : Reach decode w) where
  -- In every state that the program reaches, `numClients` is the number of sockets in the table.
  pub num_clients-live : w.server.num_clients ≡ pos (length (live w.server.clients))
  num_clients-live = (Reach-Inv decode decoder r).counted

  -- In every state that the program reaches, a socket stands in the table once if it has been
  -- entered and has not ended, and otherwise not at all; it is entered at most once.
  pub live_once :
      (c : ℕ)
      → (count c (live w.server.clients)
          ≡ (if ended_of w.conns c then 0 else uses c w.server.on_end))
        × (uses c w.server.on_end ≤ 1)
  live_once c =
      let inv = Reach-Inv decode decoder r in
      (
        ap (λ slots. count c (live slots)) inv.slots
            ∙ count-live c (ended_of w.conns) w.server.on_end,
        HasState-le (w.conns c) (uses c w.server.on_end) (inv.states c),
      )
