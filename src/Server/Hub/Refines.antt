-- ===== src/Server/Hub/Refines.antt =====
-- The program of node.js/server.js under its event loop refines the hub.
use sse_broadcast_benchmark.Common.{
  ℕ, ◌≡◌, ◌≢◌, refl, sym, ap, subst, ◌∙◌, inl, inr, Bool, true, false, List, [], ◌∷◌, Option, some,
  ◌==◌, ==_refl, Bool-cases, if◌then◌else◌,
}
use sse_broadcast_benchmark.Js.Text.{Text}
use sse_broadcast_benchmark.Js.Text.Laws.{has}
use sse_broadcast_benchmark.Server.State.{Server}
use sse_broadcast_benchmark.Server.Log.{received}
use sse_broadcast_benchmark.Server.Clients.{end_socket, run_on_end, remove_client}
use sse_broadcast_benchmark.Server.Clients.Delivery.{live}
use sse_broadcast_benchmark.Server.Connection.{Parser, fresh, on_data}
use sse_broadcast_benchmark.Server.Connection.Phases.{
  IsDecoder, Moves, on_data-IsOpen, on_data-IsDone, on_data-IsRefused, refuse,
}
use sse_broadcast_benchmark.Server.World.{
  Conn, World, Event, connect, receive, hang_up, update, deliver, IsAllowed, Reach, here, next,
}
use sse_broadcast_benchmark.Server.World.Population.{count, live_once}
use sse_broadcast_benchmark.Server.Hub.{Hub, no_members, leave}
use sse_broadcast_benchmark.Server.Hub.Outcome.{refuse-Answers}
use sse_broadcast_benchmark.Server.Hub.Step.{HubRun}
use sse_broadcast_benchmark.Server.Hub.Sim.{
  Phase, Sim, Refines, Sim-Refines, phases-update, Sim-Answers,
}
use sse_broadcast_benchmark.Server.Hub.Chunk.{same-Answers, Simulated, Simulated-Moves}

run_on_end_frame :
    (c : ℕ) (listeners : List (ℕ × ℕ)) (s : Server)
    → ((run_on_end c listeners s).log ≡ s.log) × ((run_on_end c listeners s).on_end ≡ s.on_end)
unfolding run_on_end remove_client
run_on_end_frame c [] s = (refl, refl)
run_on_end_frame c ((d, index) ∷ listeners) s =
    let (log, on_end) =
      run_on_end_frame c listeners (if d == c then remove_client index s else s) in
    elim (Bool-cases (d == c)) [
      | inl hit ↦ (log ∙ rw hit refl, on_end ∙ rw hit refl)
      | inr miss ↦ (log ∙ rw miss refl, on_end ∙ rw miss refl)
    ]

left_count :
    (c d : ℕ) (m : Bool) {n : ℕ}
    → n ≡ (if m then 1 else 0)
    → (if d == c then 0 else n) ≡ (if (if d == c then false else m) then 1 else 0)
left_count c d m e = elim (Bool-cases (d == c)) [ inl hit ↦ rw hit | inr miss ↦ rw miss e ]

Phase-left :
    (conn : Conn) (m : Bool) (r : Text) (q : List (Option Text))
    → Phase (some conn) m r q
    → Phase (some (record conn { ended = true })) false r q
Phase-left conn m r q (inl (still, outside, silent)) = inl (still, refl, silent)
Phase-left conn m r q (inr (inl (done, f))) = inr (inl (done, λ e. cc e))
Phase-left conn m r q (inr (inr (refused, outside))) = inr (inr (refused, refl))

module _ (decode : List ℕ → Text) (decoder : IsDecoder decode) where
  Simulated-receive :
      (w : World) (c : ℕ) (chunk : List ℕ) (conn : Conn) (h : Hub)
      → Sim w h
      → w.conns c ≡ some conn
      → chunk ≢ []
      → (q : Parser × Server) → q ≡ on_data decode chunk conn.parser c w.server
      → Simulated
          (receive c chunk)
          w.server
          h
          (record { server = q.1; conns = update c (record conn { parser = q.0 }) w.conns })
  Simulated-receive w c chunk conn h sim found some_bytes (p, t) e = go (rw found at (sim.phases c))
    where
      conn' : Conn
      conn' = record conn { parser = p }

      go :
          Phase (some conn) (h.member c) (received c w.server.log) (h.sent c)
          → Simulated
              (receive c chunk)
              w.server
              h
              (record { server = t; conns = update c conn' w.conns })
      go (inl (still, outside, silent)) = Simulated-Moves w h sim c chunk conn' t outside silent (
          subst (Moves c w.server) (sym e)
            (on_data-IsOpen decode decoder conn.parser chunk c w.server still))
      go (inr (inl (done, streams))) =
          let (done', same) =
            on_data-IsDone decode decoder conn.parser chunk c w.server some_bytes done in
          let kept : t ≡ w.server = ap (λ q. q.1) e ∙ same in
          (
            h,
            inl (inl kept, refl),
            Sim-Answers w h sim c conn' t (rw kept (same-Answers c w.server))
                (inr (inl (rw (ap (λ q. q.0) e) done', rw kept streams))),
          )
      go (inr (inr (refused, outside))) =
          let (refused', same) =
            on_data-IsRefused decode decoder conn.parser chunk c w.server refused in
          let kept : t ≡ refuse c w.server = ap (λ q. q.1) e ∙ same in
          (
            h,
            inl (inr kept, refl),
            Sim-Answers w h sim c conn' t (rw kept (refuse-Answers c w.server))
                (inr (inr (rw (ap (λ q. q.0) e) refused', outside))),
          )

  -- The end of c takes it out of the table and leaves the others there.
  ended_counts :
      (w : World) (c : ℕ) (conn : Conn)
      → w.conns c ≡ some conn
      → Reach decode w
      → IsAllowed decode (hang_up c) w
      → (d : ℕ)
      → count d (live (end_socket c w.server).clients)
        ≡ (if d == c then 0 else count d (live w.server.clients))
  unfolding deliver end_socket
  ended_counts w c conn found r allowed d =
      let before = (live_once decode decoder w r d).0 in
      let w' : World = record {
        server = end_socket c w.server;
        conns = update c (record conn { ended = true }) w.conns;
      } in
      let moved : deliver decode (hang_up c) w ≡ w' = rw (found, deliver) refl in
      let after =
        (live_once decode decoder w' (subst (Reach decode) moved (next (hang_up c) r allowed))
          d).0 in
      let (log, on_end) = run_on_end_frame c w.server.on_end w.server in
      elim (Bool-cases (d == c)) [
        | inl hit ↦ rw hit (rw hit at after)
        | inr miss ↦ rw miss (rw (miss, on_end) at after ∙ sym before)
      ]

  -- The end of a socket makes it leave, if it was a member.
  Simulated-hang_up :
      (w : World) (c : ℕ) (conn : Conn) (h : Hub)
      → Sim w h
      → w.conns c ≡ some conn
      → ((d : ℕ)
          → count d (live (end_socket c w.server).clients)
            ≡ (if d == c then 0 else count d (live w.server.clients)))
      → Simulated (hang_up c) w.server h (record {
        server = end_socket c w.server;
        conns = update c (record conn { ended = true }) w.conns;
      })
  unfolding end_socket
  Simulated-hang_up w c conn h sim found counts =
      let (log, on_end) = run_on_end_frame c w.server.on_end w.server in
      (
        leave c h,
        refl,
        record {
          table = λ d. counts d ∙ left_count c d (h.member d) (sim.table d);
          phases =
              phases-update w h sim c (record conn { ended = true }) (end_socket c w.server)
                (leave c h) (λ d miss. rw (miss, log) (sim.phases d))
                (rw (==_refl c, log)
                  (Phase-left conn (h.member c) _ (h.sent c) (rw found at (sim.phases c))));
        },
      )

  Simulated-event :
      (e : Event) (w : World) (h : Hub)
      → Reach decode w
      → IsAllowed decode e w
      → Sim w h
      → Simulated e w.server h (deliver decode e w)
  unfolding deliver
  Simulated-event (connect c) w h r absent sim =
      let silent : (h.member c ≡ false) × (received c w.server.log ≡ []) =
        rw absent at (sim.phases c) in
      (
        h,
        refl,
        record {
          table = sim.table;
          phases =
              phases-update w h sim c (record { parser = fresh; ended = false }) w.server h
                (λ d miss. sim.phases d)
                (inl ((refl, inl (refl, unfold has in refl)), silent.0, silent.1));
        },
      )
  Simulated-event (receive c chunk) w h r ((conn, (found, alive)), some_bytes) sim =
      rw (found, deliver)
        (Simulated-receive w c chunk conn h sim found some_bytes
          (on_data decode chunk conn.parser c w.server) refl)
  Simulated-event (hang_up c) w h r (conn, (found, alive)) sim =
      rw (found, deliver)
        (Simulated-hang_up w c conn h sim found
          (ended_counts w c conn found r (conn, (found, alive))))

  Reach-Sim : {w : World} → (r : Reach decode w) → (h : Hub) × HubRun r h × Sim w h
  unfolding received HubRun
  Reach-Sim here = (no_members, refl, record { table = λ c. refl; phases = λ c. (refl, refl) })
  Reach-Sim (next {w} e r allowed) =
      let (h, run, sim) = Reach-Sim r in
      let (h', step, sim') = Simulated-event e w h r allowed sim in
      (h', (h, run, Sim-Refines w h sim, step), sim')

  -- Along every run of the program there is a run of the hub, from no members: where a socket
  -- connects the hub stays as it is, and where a socket ends it leaves. A chunk either changes nothing
  -- but for a refusal, or makes the server handle a request, and then a POST at /broadcast publishes its
  -- body, a request for /sse by another method than OPTIONS makes its socket join, which was no member,
  -- and any other request leaves the hub as it is. In each state of the run, and after it, the table
  -- holds each member once and no other socket, and each member's socket has been written the head of
  -- its stream and the greeting, then the frames of the messages published since it joined, in order,
  -- and nothing else.
  pub Reach-HubRun : {w : World} → (r : Reach decode w) → (h : Hub) × HubRun r h × Refines w h
  Reach-HubRun {w} r = let (h, run, sim) = Reach-Sim r in (h, run, Sim-Refines w h sim)
