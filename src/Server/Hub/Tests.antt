-- ===== src/Server/Hub/Tests.antt =====
-- The hub at a concrete run: two subscribers, and a message that only the first one is there for.
use sse_broadcast_benchmark.Common.{ℕ, ◌≡◌, refl, false, List, [], ◌∷◌, ◌++◌, none, some}
use sse_broadcast_benchmark.Js.Text.{codes, index_of, is_falsy, is, eq_text, split_words, slice_to}
use sse_broadcast_benchmark.Js.Number.{parse_digits}
use sse_broadcast_benchmark.Js.Regex.{match_length}
use sse_broadcast_benchmark.Server.Response.{write_head}
use sse_broadcast_benchmark.Server.Clients.{init_sse_client, broadcast}
use sse_broadcast_benchmark.Server.Dispatch.{handle_request}
use sse_broadcast_benchmark.Server.Post.{post_verdict, handle_post_request}
use sse_broadcast_benchmark.Server.Connection.{fresh, scan, parse_data, on_data}
use sse_broadcast_benchmark.Server.World.{World, Conn, connect, receive, deliver, Reach, next}
use sse_broadcast_benchmark.Server.Connection.Plain.{plain, plain-IsDecoder}
use sse_broadcast_benchmark.Server.Tests.{get_sse, streaming, streaming-Reach}
use sse_broadcast_benchmark.Server.Hub.{Hub}
use sse_broadcast_benchmark.Server.Hub.Sim.{Refines}
use sse_broadcast_benchmark.Server.Hub.Refines.{Reach-HubRun}
use sse_broadcast_benchmark.Server.Hub.Step.{HubRun}

abbrev post_hi : List ℕ
post_hi =
    codes "POST /broadcast HTTP/1.1"
    ++ (13 ∷ 10 ∷ (codes "Content-Length: 2" ++ (13 ∷ 10 ∷ 13 ∷ 10 ∷ codes "hi")))

abbrev sent_hi : World
sent_hi = deliver plain (receive 8 post_hi) (deliver plain (connect 8) streaming)

abbrev two_members : World
two_members = deliver plain (receive 9 get_sse) (deliver plain (connect 9) sent_hi)

abbrev unread : Conn
unread = record { parser = fresh; ended = false }

eight_unread : (deliver plain (connect 8) streaming).conns 8 ≡ some unread
unfolding deliver
eight_unread = refl

nine_unread : (deliver plain (connect 9) sent_hi).conns 9 ≡ some unread
unfolding deliver
nine_unread = refl

eight_absent : streaming.conns 8 ≡ none
unfolding deliver
eight_absent = refl

nine_absent : sent_hi.conns 9 ≡ none
unfolding deliver
nine_absent = refl

sent_hi-Reach : Reach plain sent_hi
sent_hi-Reach =
    next (receive 8 post_hi) (next (connect 8) streaming-Reach eight_absent)
      ((unread, (eight_unread, refl)), λ e. unfold codes in cc e)

two_members-Reach : Reach plain two_members
two_members-Reach =
    next (receive 9 get_sse) (next (connect 9) sent_hi-Reach nine_absent)
      ((unread, (nine_unread, refl)), λ e. unfold codes in cc e)

two_members_clients : two_members.server.clients ≡ some 7 ∷ some 9 ∷ []
unfolding deliver on_data parse_data scan handle_request init_sse_client broadcast is_falsy is
    eq_text split_words slice_to write_head codes post_verdict match_length parse_digits index_of
    handle_post_request
two_members_clients = refl

Reach-HubRun_example : (h : Hub) × HubRun two_members-Reach h × Refines two_members h
Reach-HubRun_example = Reach-HubRun plain plain-IsDecoder two_members-Reach
