-- ===== src/Server/Clients/Count.antt =====
-- How the table of clients, its count and its listeners change together.
use sse_broadcast_benchmark.Common.{
  ℕ, suc, ◌+◌, ◌≡◌, refl, ap, ◌∙◌, inl, inr, Bool, true, false, List, [], ◌∷◌, ◌++◌, map, Option,
  none, some, arith, ◌==◌, ==_iff, Bool-cases, length, set, if◌then◌else◌, append_assoc,
}
use sse_broadcast_benchmark.Common.Int.{pos, ◌+ℤ◌, ◌-ℤ◌}
use sse_broadcast_benchmark.Server.State.{Server, Effect, write, set_timeout, set_no_delay}
use sse_broadcast_benchmark.Server.Log.{append_log}
use sse_broadcast_benchmark.Server.Response.Bytes.{head_calls, write_head_lem}
use sse_broadcast_benchmark.Server.Clients.{
  stream_headers, greeting, end_socket, register, init_sse_client, remove_client, run_on_end,
}
use sse_broadcast_benchmark.Server.Clients.Delivery.{live}

-- The calls that open a stream.
abbrev pub stream_calls : ℕ → List Effect
stream_calls c =
    set_timeout c ∷ set_no_delay c ∷ (head_calls c 200 stream_headers ++ write c greeting ∷ [])

pub init_sse_client_lem :
    (c : ℕ) (s : Server)
    → init_sse_client c s ≡ record s {
      clients = s.clients ++ some c ∷ [];
      num_clients = s.num_clients +ℤ pos 1;
      on_end = s.on_end ++ (c, length s.clients) ∷ [];
      log = s.log ++ stream_calls c;
    }
unfolding init_sse_client
init_sse_client_lem c s =
    rw
      (write_head_lem c 200 stream_headers
        (append_log (append_log s (set_timeout c ∷ [])) (set_no_delay c ∷ [])))
      (ap (λ l. register c (record s { log = l })) (simp append_assoc))

-- How often a socket has been entered in the table.
abbrev pub uses : ℕ → List (ℕ × ℕ) → ℕ
uses c [] = 0
uses c ((d, index) ∷ listeners) = if d == c then suc (uses c listeners) else uses c listeners

-- The listeners stand in the order of their indices, from k on.
abbrev pub IsIndexed : ℕ → List (ℕ × ℕ) → Type 0
IsIndexed k [] = Unit {0}
IsIndexed k ((d, index) ∷ listeners) = (index ≡ k) × IsIndexed (suc k) listeners

pub uses-append : (c : ℕ) (xs ys : List (ℕ × ℕ)) → uses c (xs ++ ys) ≡ uses c xs + uses c ys
uses-append c [] ys = omega arith
uses-append c ((d, index) ∷ xs) ys = ground (arith, uses-append c xs ys)

pub IsIndexed-append :
    (k : ℕ) (xs : List (ℕ × ℕ)) (d index : ℕ)
    → IsIndexed k xs
    → index ≡ k + length xs
    → IsIndexed k (xs ++ (d, index) ∷ [])
IsIndexed-append k [] d index h e = (omega arith, tt)
IsIndexed-append k (x ∷ xs) d index (here, h) e =
    (here, IsIndexed-append (suc k) xs d index h (omega arith))

-- The slot of a listener, when some sockets have ended.
abbrev pub slot : (ℕ → Bool) → ℕ × ℕ → Option ℕ
slot ended (c, index) = if ended c then none else some c

pub run_on_end_unused :
    (c : ℕ) (listeners : List (ℕ × ℕ)) (s : Server)
    → uses c listeners ≡ 0
    → run_on_end c listeners s ≡ s
unfolding run_on_end
run_on_end_unused c [] s h = refl
run_on_end_unused c ((d, index) ∷ listeners) s h =
    let miss : (d == c) ≡ false = ground arith in
    rw miss (run_on_end_unused c listeners s (rw miss at h))

-- Two ways to tell who has ended that differ at c alone.
abbrev pub AgreeBut : ℕ → (ℕ → Bool) → (ℕ → Bool) → Type 0
AgreeBut c before after = (d : ℕ) → (d == c) ≡ false → before d ≡ after d

pub map-slot_unused :
    (c : ℕ) (before after : ℕ → Bool) (listeners : List (ℕ × ℕ))
    → AgreeBut c before after
    → uses c listeners ≡ 0
    → map (slot before) listeners ≡ map (slot after) listeners
map-slot_unused c before after [] agree h = refl
map-slot_unused c before after ((d, index) ∷ listeners) agree h =
    let miss : (d == c) ≡ false = ground arith in
    rw (agree d miss, map-slot_unused c before after listeners agree (rw miss at h))

module _ (c : ℕ) (before after : ℕ → Bool) (agree : AgreeBut c before after) where
  -- The one listener of c empties its slot, and one socket fewer is left.
  abbrev pub Removes : ℕ → List (ℕ × ℕ) → Type 0
  Removes k listeners =
      (j : ℕ) × (((s : Server) → run_on_end c listeners s ≡ remove_client (k + j) s)
        × (set (map (slot before) listeners) j none ≡ map (slot after) listeners)
        × (length (live (map (slot before) listeners))
            ≡ suc (length (live (map (slot after) listeners)))))

  Removes-first :
      (k d index : ℕ) (listeners : List (ℕ × ℕ))
      → (d == c) ≡ true
      → before d ≡ false
      → after d ≡ true
      → index ≡ k
      → uses c listeners ≡ 0
      → Removes k ((d, index) ∷ listeners)
  unfolding run_on_end
  Removes-first k d index listeners hit b a here none_left =
      let rest = map-slot_unused c before after listeners agree none_left in
      (
        0,
        (
          (λ s. rw hit (
              run_on_end_unused c listeners (remove_client index s) none_left
              ∙ ap (λ i. remove_client i s) (omega arith))),
          rw a (ap (◌∷◌ none) rest),
          rw (b, a) (ap (λ slots. suc (length (live slots))) rest),
        ),
      )

  Removes-later :
      (k d index : ℕ) (listeners : List (ℕ × ℕ))
      → (d == c) ≡ false
      → Removes (suc k) listeners
      → Removes k ((d, index) ∷ listeners)
  unfolding run_on_end
  Removes-later k d index listeners miss (j, (run, emptied, fewer)) = (
    suc j,
    (
      (λ s. rw miss (run s ∙ ap (λ i. remove_client i s) (omega arith))),
      rw (agree d miss) (ap (◌∷◌ (slot after (d, index))) emptied),
      rw (agree d miss)
          (elim (Bool-cases (after d)) [ inl e ↦ rw e fewer | inr e ↦ rw e (ap suc fewer) ]),
    ),
  )

  pub run_on_end_used :
      (k : ℕ) (listeners : List (ℕ × ℕ))
      → before c ≡ false
      → after c ≡ true
      → IsIndexed k listeners
      → uses c listeners ≡ 1
      → Removes k listeners
  run_on_end_used k [] b a h u = absurd (omega arith)
  run_on_end_used k ((d, index) ∷ listeners) b a (here, h) u = elim (Bool-cases (d == c)) [
    | inl hit ↦
        let same : d ≡ c = (==_iff d c).0 hit in
        Removes-first k d index listeners hit (ap before same ∙ b) (ap after same ∙ a) here
          (let u' : suc (uses c listeners) ≡ 1 = rw hit at u in omega arith)
    | inr miss ↦
        Removes-later k d index listeners miss
          (run_on_end_used (suc k) listeners b a h (rw miss at u))
  ]

pub end_socket_unused : (c : ℕ) (s : Server) → uses c s.on_end ≡ 0 → end_socket c s ≡ s
unfolding end_socket
end_socket_unused c s h = run_on_end_unused c s.on_end s h

-- The end of a socket that has one listener, by its effect on the table.
pub end_socket_used :
    (c : ℕ) (before after : ℕ → Bool) (s : Server)
    → AgreeBut c before after
    → before c ≡ false
    → after c ≡ true
    → IsIndexed 0 s.on_end
    → uses c s.on_end ≡ 1
    → s.clients ≡ map (slot before) s.on_end
    → ((end_socket c s).clients ≡ map (slot after) s.on_end)
      × ((end_socket c s).num_clients ≡ s.num_clients -ℤ pos 1)
      × ((end_socket c s).on_end ≡ s.on_end)
      × (length (live s.clients) ≡ suc (length (live (map (slot after) s.on_end))))
unfolding end_socket remove_client
end_socket_used c before after s agree b a indexed used slots =
    let (j, (run, emptied, fewer)) =
      run_on_end_used c before after agree 0 s.on_end b a indexed used in
    let first : 0 + j ≡ j = omega arith in
    rw (run s, first)
      (ap (λ l. set l j none) slots ∙ emptied, refl, refl, ap (λ l. length (live l)) slots ∙ fewer)
