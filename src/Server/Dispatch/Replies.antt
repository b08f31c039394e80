-- ===== src/Server/Dispatch/Replies.antt =====
-- What each request is answered: a stream that stays open, or one whole response that says that the
-- connection closes, and closes it.
use sse_broadcast_benchmark.Common.{
  arith, ℕ, ◌≡◌, ◌≢◌, refl, sym, subst, ◌⊎◌, inl, inr, Bool, true, false, ◌&&◌, ◌||◌, List, [], ◌∷◌,
  ◌++◌, map, reverse, Option, some,
}
use sse_broadcast_benchmark.Js.Text.{Text, codes, is_falsy, is}
use sse_broadcast_benchmark.Js.Text.Laws.{is_iff}
use sse_broadcast_benchmark.Js.Number.{show_int}
use sse_broadcast_benchmark.Server.State.{Server, Effect, write}
use sse_broadcast_benchmark.Server.Response.{
  connection_close, count_headers, any_origin, plain_text,
}
use sse_broadcast_benchmark.Server.Response.Bytes.{
  closing, write_connection_count_lem, write_cors_options_lem, write_client_error_lem,
  write_404_lem,
}
use sse_broadcast_benchmark.Server.Clients.{frame}
use sse_broadcast_benchmark.Server.Clients.Delivery.{live}
use sse_broadcast_benchmark.Server.Clients.Count.{stream_calls, init_sse_client_lem}
use sse_broadcast_benchmark.Server.Dispatch.{handle_request}
use sse_broadcast_benchmark.Server.Dispatch.Routes.{
  handle_request_cases, SameTable, Registered, accept_broadcast_lem,
}

-- The stream is opened, and the socket is entered in the table.
abbrev pub Streams : ℕ → Server → Server → Type 0
Streams c s t = (t.log ≡ s.log ++ stream_calls c) × Registered c s t

-- One whole response is written and ended, after some messages, and the table of clients stays as it is.
abbrev pub Closes : List Effect → ℕ → List (Text × Text) → List Text → ℕ → Server → Server → Type 0
Closes messages code headers texts c s t =
    (t.log ≡ s.log ++ (messages ++ closing c code headers texts)) × SameTable s t

-- The message of a broadcast, written to each socket in the table, the newest first.
abbrev pub messages_of : Option Text → Server → List Effect
messages_of body s = map (λ d. write d (frame body)) (reverse (live s.clients))

abbrev pub IsComplete : Option Text → Option Text → Type 0
IsComplete method path = (is_falsy method ≡ false) × (is_falsy path ≡ false)

abbrev pub AsksOptions : Option Text → Option Text → Type 0
AsksOptions method path = IsComplete method path × (method ≡ some (codes "OPTIONS"))

abbrev pub AsksBroadcast : Option Text → Option Text → Type 0
AsksBroadcast method path = (method ≡ some (codes "POST")) × (path ≡ some (codes "/broadcast"))

-- A request at a path by another method than OPTIONS.
abbrev pub AsksAt : Text → Option Text → Option Text → Type 0
AsksAt literal method path =
    IsComplete method path × (method ≢ some (codes "OPTIONS")) × (path ≡ some literal)

abbrev pub AsksOther : Option Text → Option Text → Type 0
AsksOther method path =
    IsComplete method path
    × (method ≢ some (codes "OPTIONS"))
    × (¬ AsksBroadcast method path)
    × (path ≢ some (codes "/connections"))
    × (path ≢ some (codes "/sse"))

-- The six kinds of requests, and what each is answered.
abbrev pub Replied : Option Text → Option Text → Option Text → ℕ → Server → Server → Type 0
Replied method path body c s t =
    (((is_falsy method || is_falsy path) ≡ true)
      × Closes [] 400 (plain_text ∷ connection_close ∷ []) [] c s t)
    ⊎ (AsksOptions method path × Closes [] 204 (any_origin ∷ connection_close ∷ []) [] c s t)
    ⊎ (AsksBroadcast method path × Closes (messages_of body s) 202 (connection_close ∷ []) [] c s t)
    ⊎ (AsksAt (codes "/connections") method path
        × Closes [] 200 count_headers (show_int s.num_clients ∷ []) c s t)
    ⊎ (AsksAt (codes "/sse") method path × Streams c s t)
    ⊎ (AsksOther method path
        × Closes [] 404 (plain_text ∷ connection_close ∷ []) (codes "File not found" ∷ []) c s t)

or-none : (a b : Bool) → (a || b) ≡ false → (a ≡ false) × (b ≡ false)
or-none true b h = cc h
or-none false b h = (refl, h)

and-both : (a b : Bool) → (a && b) ≡ true → (a ≡ true) × (b ≡ true)
and-both true b h = (refl, h)
and-both false b h = cc h

is_not : (o : Option Text) (t : Text) → is o t ≡ false → o ≢ some t
is_not o t h e = let h' = (is_iff o t).1 e in cc (h, h')

not-AsksBroadcast :
    (method path : Option Text)
    → (is method (codes "POST") && is path (codes "/broadcast")) ≡ false
    → ¬ AsksBroadcast method path
not-AsksBroadcast method path h (m, p) =
    let m' = (is_iff method (codes "POST")).1 m in
    let p' = (is_iff path (codes "/broadcast")).1 p in grind arith

-- Every request is answered as its kind asks. Without a method or a path it is one whole response with
-- the status 400; by OPTIONS one with 204; by POST at /broadcast one with 202, after the frame of the
-- body has been written to each socket in the table, the newest first; at /connections, by another
-- method than OPTIONS, one with 200 and the number of clients; at /sse the event stream, which stays
-- open and whose socket is entered in the table; and in any other case one with 404. Each of the
-- whole responses carries `Connection: close`, ends the socket once, and leaves the table, and nothing
-- else is written.
pub handle_request-Replied :
    (method path body : Option Text) (c : ℕ) (s : Server)
    → Replied method path body c s (handle_request method path body c s)
handle_request-Replied method path body c s =
    handle_request_cases (Replied method path body c s) method path body c s
      (λ e. rw (write_client_error_lem c s) (inl (e, (refl, (refl, refl, refl)))))
      (λ e.
        let whole = or-none _ _ e in
        (
          λ f. rw (write_cors_options_lem c s) (
              inr
                (inl ((whole, (is_iff method (codes "OPTIONS")).0 f), (refl, (refl, refl, refl))))),
          λ f.
              let other = is_not method (codes "OPTIONS") f in
              (
                λ g.
                    let (post, at) = and-both _ _ g in
                    subst (Replied method path body c s) (sym (accept_broadcast_lem body c s)) (
                      inr (
                        inr (
                          inl (
                            (
                              (is_iff method (codes "POST")).0 post,
                              (is_iff path (codes "/broadcast")).0 at,
                            ),
                            (refl, (refl, refl, refl)),
                          )))),
                λ g. (
                  λ h. rw (write_connection_count_lem c s) (
                      inr (
                        inr (
                          inr (
                            inl (
                              (whole, other, (is_iff path (codes "/connections")).0 h),
                              (refl, (refl, refl, refl)),
                            ))))),
                  λ h. (
                    λ i. rw (init_sse_client_lem c s) (
                        inr (
                          inr (
                            inr (
                              inr (
                                inl (
                                  (whole, other, (is_iff path (codes "/sse")).0 i),
                                  (refl, (refl, refl, refl)),
                                )))))),
                    λ i. rw (write_404_lem c s) (
                        inr (
                          inr (
                            inr (
                              inr (
                                inr (
                                  (
                                    whole,
                                    other,
                                    not-AsksBroadcast method path g,
                                    is_not path (codes "/connections") h,
                                    is_not path (codes "/sse") i,
                                  ),
                                  (refl, (refl, refl, refl)),
                                )))))),
                  ),
                ),
              ),
        ))
