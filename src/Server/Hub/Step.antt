-- ===== src/Server/Hub/Step.antt =====
-- What an event of the program does to the hub, and the hubs along a run of the program.
use sse_broadcast_benchmark.Common.{ℕ, ◌≡◌, ◌⊎◌, false, List, Option}
use sse_broadcast_benchmark.Js.Text.{Text, codes}
use sse_broadcast_benchmark.Server.State.{Server}
use sse_broadcast_benchmark.Server.Dispatch.{handle_request}
use sse_broadcast_benchmark.Server.Dispatch.Replies.{AsksBroadcast, AsksAt}
use sse_broadcast_benchmark.Server.Connection.Phases.{refuse}
use sse_broadcast_benchmark.Server.World.{
  World, Event, connect, receive, hang_up, deliver, Reach, here, next,
}
use sse_broadcast_benchmark.Server.Hub.{Hub, no_members, join, leave, publish}
use sse_broadcast_benchmark.Server.Hub.Sim.{Refines}

-- A POST at /broadcast publishes its body, a request for the stream makes its socket join, which was no
-- member, and any other request changes nothing.
abbrev pub Responds : Option Text → Option Text → Option Text → ℕ → Hub → Hub → Type 0
Responds method path body c h h' =
    (AsksBroadcast method path × (h' ≡ publish body h))
    ⊎ (AsksAt (codes "/sse") method path × (h.member c ≡ false) × (h' ≡ join c h))
    ⊎ ((¬ AsksBroadcast method path) × (¬ AsksAt (codes "/sse") method path) × (h' ≡ h))

-- A connection changes nothing, an end makes its socket leave, and a chunk either changes neither the
-- server, but for a refusal, nor the hub, or brings a request that is handled and to which the hub
-- responds.
abbrev pub HubStep : Event → Server → Server → Hub → Hub → Type 0
HubStep (connect c) s t h h' = h' ≡ h
HubStep (hang_up c) s t h h' = h' ≡ leave c h
HubStep (receive c chunk) s t h h' =
    (((t ≡ s) ⊎ (t ≡ refuse c s)) × (h' ≡ h))
    ⊎ ((method : Option Text) × (path : Option Text) × (body : Option Text) × (t
          ≡ handle_request method path body c s)
        × Responds method path body c h h')

-- The hub after a run of the program, which goes from step to step as the program does, and which each
-- state of the program on the way refines.
unfoldable pub HubRun : {decode : List ℕ → Text} {w : World} → Reach decode w → Hub → Type 0
HubRun here h = h ≡ no_members
HubRun {decode} (next {w} e r allowed) h' =
    (h : Hub) × HubRun r h × Refines w h × HubStep e w.server (deliver decode e w).server h h'
