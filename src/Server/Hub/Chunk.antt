-- ===== src/Server/Hub/Chunk.antt =====
-- What a chunk makes of the hub.
use sse_broadcast_benchmark.Common.{
  ℕ, ◌≡◌, refl, sym, inl, inr, false, List, [], Option, append-nil,
}
use sse_broadcast_benchmark.Js.Text.{Text}
use sse_broadcast_benchmark.Server.State.{Server}
use sse_broadcast_benchmark.Server.Log.{received}
use sse_broadcast_benchmark.Server.Dispatch.{handle_request}
use sse_broadcast_benchmark.Server.Connection.Phases.{IsDone, Moves}
use sse_broadcast_benchmark.Server.World.{Conn, World, Event, receive, update}
use sse_broadcast_benchmark.Server.Hub.{Hub, join, publish}
use sse_broadcast_benchmark.Server.Hub.Outcome.{
  Answers, Outcome, handle_request-Outcome, refuse-Answers,
}
use sse_broadcast_benchmark.Server.Hub.Step.{HubStep}
use sse_broadcast_benchmark.Server.Hub.Sim.{Sim, Sim-Answers, Sim-Publishes, Sim-Streams}

pub same-Answers : (c : ℕ) (s : Server) → Answers c s s
unfolding received
same-Answers c s = ([], (λ d miss. refl), sym (append-nil s.log), (refl, refl, refl))

-- A hub that the program may be in after an event.
abbrev pub Simulated : Event → Server → Hub → World → Type 0
Simulated e s h w = (h' : Hub) × HubStep e s w.server h h' × Sim w h'

module _ (w : World) (h : Hub) (sim : Sim w h) (c : ℕ) (chunk : List ℕ) (conn : Conn) where
  -- What a request of a socket that has asked for nothing yet does.
  Simulated-Outcome :
      (t : Server) (method path body : Option Text)
      → t ≡ handle_request method path body c w.server
      → h.member c ≡ false
      → received c w.server.log ≡ []
      → IsDone conn.parser
      → Outcome method path body c w.server t
      → Simulated
          (receive c chunk)
          w.server
          h
          (record { server = t; conns = update c conn w.conns })
  Simulated-Outcome t m q body same outside silent done (inl (none, never, answers)) = (
    h,
    inr (m, q, body, same, inr (inr (none, never, refl))),
    Sim-Answers w h sim c conn t answers (inr (inl (done, λ e. cc (e, outside)))),
  )
  Simulated-Outcome t m q body same outside silent done (inr (inl (asks, publishes))) = (
    publish body h,
    inr (m, q, body, same, inl (asks, refl)),
    Sim-Publishes w h sim c conn t body publishes outside done,
  )
  Simulated-Outcome t m q body same outside silent done (inr (inr (asks, streams))) = (
    join c h,
    inr (m, q, body, same, inr (inl (asks, outside, refl))),
    Sim-Streams w h sim c conn t streams outside silent done,
  )

  pub Simulated-Moves :
      (t : Server)
      → h.member c ≡ false
      → received c w.server.log ≡ []
      → Moves c w.server (conn.parser, t)
      → Simulated
          (receive c chunk)
          w.server
          h
          (record { server = t; conns = update c conn w.conns })
  Simulated-Moves t outside silent (inl (still, same)) = (
    h,
    inl (inl same, refl),
    Sim-Answers w h sim c conn t (rw same (same-Answers c w.server))
        (rw same (inl (still, outside, silent))),
  )
  Simulated-Moves t outside silent (inr (inl (done, (m, q, body, same)))) =
      Simulated-Outcome t m q body same outside silent done
        (rw same (handle_request-Outcome m q body c w.server))
  Simulated-Moves t outside silent (inr (inr (refused, same))) = (
    h,
    inl (inr same, refl),
    Sim-Answers w h sim c conn t (rw same (refuse-Answers c w.server))
        (inr (inr (refused, outside))),
  )
