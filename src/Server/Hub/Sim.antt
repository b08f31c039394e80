-- ===== src/Server/Hub/Sim.antt =====
-- The program and the hub, side by side: what each kind of event does to the agreement between them.
use sse_broadcast_benchmark.Common.{
  ℕ, ◌+◌, ◌≡◌, sym, ap, subst, ◌∙◌, ◌⊎◌, inl, inr, Bool, true, false, List, [], ◌∷◌, ◌++◌, reverse,
  Option, none, some, arith, ◌==◌, ==_iff, ==_refl, Bool-cases, if◌then◌else◌, append-nil,
  append_assoc,
}
use sse_broadcast_benchmark.Js.Text.{Text}
use sse_broadcast_benchmark.Server.State.{Server, Effect}
use sse_broadcast_benchmark.Server.Log.{received}
use sse_broadcast_benchmark.Server.Clients.{frame}
use sse_broadcast_benchmark.Server.Clients.Delivery.{live, live-append}
use sse_broadcast_benchmark.Server.Connection.Phases.{IsOpen, IsDone, IsRefused}
use sse_broadcast_benchmark.Server.World.{Conn, World, update}
use sse_broadcast_benchmark.Server.World.Invariant.{update_self, update_other}
use sse_broadcast_benchmark.Server.World.Population.{count}
use sse_broadcast_benchmark.Server.Hub.{Hub, join, publish, opening, frames, stream_text}
use sse_broadcast_benchmark.Server.Hub.Streams.{
  received-append, stream_calls-OnlyTo, received-stream_calls, received-publish, count-append,
  count-reverse, frames-append,
}
use sse_broadcast_benchmark.Server.Hub.Outcome.{Answers, Publishes}
use sse_broadcast_benchmark.Server.Dispatch.Replies.{Streams, messages_of}

-- A socket that has asked for nothing is no member and has been sent nothing; a member has been sent
-- its stream.
abbrev pub Phase : Option Conn → Bool → Text → List (Option Text) → Type 0
Phase none m r q = (m ≡ false) × (r ≡ [])
Phase (some conn) m r q =
    (IsOpen conn.parser × (m ≡ false) × (r ≡ []))
    ⊎ (IsDone conn.parser × (m ≡ true → r ≡ stream_text q))
    ⊎ (IsRefused conn.parser × (m ≡ false))

abbrev pub Table : Server → Hub → Type 0
Table s h = (c : ℕ) → count c (live s.clients) ≡ (if h.member c then 1 else 0)

abbrev pub PhaseAt : (ℕ → Option Conn) → Server → Hub → ℕ → Type 0
PhaseAt conns s h c = Phase (conns c) (h.member c) (received c s.log) (h.sent c)

pub record Sim (w : World) (h : Hub) : Type 0 where
  pub table : Table w.server h
  pub phases : (c : ℕ) → PhaseAt w.conns w.server h c

-- What a refinement shows of a state of the program.
abbrev pub Refines : World → Hub → Type 0
Refines w h =
    ((c : ℕ) → count c (live w.server.clients) ≡ (if h.member c then 1 else 0))
    × ((c : ℕ) → h.member c ≡ true → received c w.server.log ≡ stream_text (h.sent c))

pub Phase-stream :
    (o : Option Conn) (m : Bool) (r : Text) (q : List (Option Text))
    → Phase o m r q
    → m ≡ true
    → r ≡ stream_text q
Phase-stream none m r q (p, _) e = cc
Phase-stream (some conn) m r q (inl (_, p, _)) e = cc
Phase-stream (some conn) m r q (inr (inl (_, f))) e = f e
Phase-stream (some conn) m r q (inr (inr (_, p))) e = cc

pub Sim-Refines : (w : World) (h : Hub) → Sim w h → Refines w h
Sim-Refines w h sim =
    (sim.table, λ c. Phase-stream (w.conns c) (h.member c) _ (h.sent c) (sim.phases c))

Phase-publish :
    (body : Option Text) (o : Option Conn) (m : Bool) (r : Text) (q : List (Option Text))
    → Phase o m r q
    → Phase o m (r ++ (if m then frame body else [])) (if m then q ++ body ∷ [] else q)
Phase-publish body o false r q p = subst (λ r'. Phase o false r' q) (sym (append-nil r)) p
Phase-publish body none true r q (p, _) = cc
Phase-publish body (some conn) true r q (inl (_, p, _)) = cc
Phase-publish body (some conn) true r q (inr (inl (done, f))) = inr (
    inl (
      done,
      λ e.
          ap (λ r'. r' ++ frame body) (f e)
          ∙ append_assoc opening (frames q) (frame body)
          ∙ ap (λ l. opening ++ l) (sym (frames-append q body)),
    ))
Phase-publish body (some conn) true r q (inr (inr (refused, p))) = cc

joined_count :
    (c d n : ℕ) (m : Bool)
    → n ≡ (if m then 1 else 0)
    → (d ≡ c → m ≡ false)
    → n + count d (c ∷ []) ≡ (if (if d == c then true else m) then 1 else 0)
joined_count c d n m e f = elim (Bool-cases (d == c)) [
  | inl hit ↦
      let none_yet : n ≡ 0 = rw (f ((==_iff d c).0 hit)) at e in
      let here : (c == d) ≡ true = ground arith in rw (hit, here) (omega arith)
  | inr miss ↦ let away : (c == d) ≡ false = ground arith in rw (miss, away) (omega arith)
]

module _ (w : World) (h : Hub) (sim : Sim w h) (c : ℕ) (conn : Conn) where
  -- After an event of c, if the others are in phase.
  pub phases-update :
      (t : Server) (h' : Hub)
      → ((d : ℕ) → (d == c) ≡ false → PhaseAt w.conns t h' d)
      → Phase (some conn) (h'.member c) (received c t.log) (h'.sent c)
      → (d : ℕ) → PhaseAt (update c conn w.conns) t h' d
  phases-update t h' others own d = elim (Bool-cases (d == c)) [
    | inl hit ↦
        subst (PhaseAt (update c conn w.conns) t h') (sym ((==_iff d c).0 hit))
          (rw (update_self w.conns c conn) own)
    | inr miss ↦ rw (update_other w.conns c conn d miss) (others d miss)
  ]

  -- An answer to c.
  pub Sim-Answers :
      (t : Server)
      → Answers c w.server t
      → Phase (some conn) (h.member c) (received c t.log) (h.sent c)
      → Sim (record { server = t; conns = update c conn w.conns }) h
  Sim-Answers t (es, only, log, (clients, num, on_end)) own = record {
    table = λ d. ap (λ l. count d (live l)) clients ∙ sim.table d;
    phases =
        phases-update t h
          (λ d miss.
            let e : received d t.log ≡ received d w.server.log =
              ap (received d) log
              ∙ received-append d w.server.log es
              ∙ rw (only d miss) (append-nil _) in
            subst (λ r. Phase (w.conns d) (h.member d) r (h.sent d)) (sym e) (sim.phases d))
          own;
  }

  received-messages_of :
      (t : Server) (body : Option Text) (es : List Effect) (d : ℕ)
      → received d es ≡ []
      → t.log ≡ w.server.log ++ (messages_of body w.server ++ es)
      → received d t.log ≡ received d w.server.log ++ (if h.member d then frame body else [])
  received-messages_of t body es d none_left log =
      let told =
        received-publish d (frame body) (reverse (live w.server.clients)) (h.member d)
          (count-reverse d (live w.server.clients) ∙ sim.table d) in
      ap (received d) log
      ∙ received-append d w.server.log (messages_of body w.server ++ es)
      ∙ ap (λ r. received d w.server.log ++ r)
          (received-append d (messages_of body w.server) es
            ∙ rw (told, none_left) (append-nil (if h.member d then frame body else [])))

  -- A message to all, from c, which is no member.
  pub Sim-Publishes :
      (t : Server) (body : Option Text)
      → Publishes body c w.server t
      → h.member c ≡ false
      → IsDone conn.parser
      → Sim (record { server = t; conns = update c conn w.conns }) (publish body h)
  Sim-Publishes t body (es, only, log, (clients, num, on_end)) outside done = record {
    table = λ d. ap (λ l. count d (live l)) clients ∙ sim.table d;
    phases =
        phases-update t (publish body h)
          (λ d miss.
            let e = received-messages_of t body es d (only d miss) log in
            subst
              (λ r.
                Phase (w.conns d) (h.member d) r
                  (if h.member d then h.sent d ++ body ∷ [] else h.sent d))
              (sym e)
              (Phase-publish body (w.conns d) (h.member d) (received d w.server.log) (h.sent d)
                (sim.phases d)))
          (inr (inl (done, λ e. cc (e, outside))));
  }

  -- A new member.
  pub Sim-Streams :
      (t : Server)
      → Streams c w.server t
      → h.member c ≡ false
      → received c w.server.log ≡ []
      → IsDone conn.parser
      → Sim (record { server = t; conns = update c conn w.conns }) (join c h)
  Sim-Streams t (log, (clients, num, on_end)) outside silent done = record {
    table = λ d.
        ap (λ l. count d (live l)) clients
        ∙ ap (count d) (live-append w.server.clients (some c ∷ []))
        ∙ count-append d (live w.server.clients) (c ∷ [])
        ∙ joined_count c d (count d (live w.server.clients)) (h.member d) (sim.table d)
            (λ e. ap h.member e ∙ outside);
    phases =
        phases-update t (join c h)
          (λ d miss.
            let e : received d t.log ≡ received d w.server.log =
              ap (received d) log
              ∙ received-append d w.server.log _
              ∙ rw (stream_calls-OnlyTo c d miss) (append-nil (received d w.server.log)) in
            rw (miss, e) (sim.phases d))
          (inr (
            inl (
              done,
              λ _.
                  ap (received c) log
                  ∙ received-append c w.server.log _
                  ∙ rw (silent, received-stream_calls c, ==_refl c) (sym (append-nil opening)),
            )));
  }
