-- ===== src/Server/Dispatch/Routes.antt =====
-- Which request gets which answer, and what an answer does to the table of clients.
use sse_broadcast_benchmark.Common.{
  ℕ, ◌≡◌, refl, ap, ◌⊎◌, inl, inr, true, false, ◌&&◌, ◌||◌, [], ◌∷◌, ◌++◌, Option, some, Bool-cases,
  length, map, reverse, append_assoc,
}
use sse_broadcast_benchmark.Common.Int.{pos, ◌+ℤ◌}
use sse_broadcast_benchmark.Js.Text.{Text, codes, eq_text, is_falsy, is}
use sse_broadcast_benchmark.Server.State.{Server, write, end, call}
use sse_broadcast_benchmark.Server.Response.{
  connection_close, write_head, write_connection_count, write_cors_options, write_client_error,
  write_404,
}
use sse_broadcast_benchmark.Server.Log.{append_log}
use sse_broadcast_benchmark.Server.Response.Bytes.{
  closing, write_head_lem, write_connection_count_lem, write_cors_options_lem,
  write_client_error_lem, write_404_lem,
}
use sse_broadcast_benchmark.Server.Clients.{init_sse_client, frame, broadcast}
use sse_broadcast_benchmark.Server.Clients.Delivery.{live, broadcast_lem}
use sse_broadcast_benchmark.Server.Clients.Count.{init_sse_client_lem}
use sse_broadcast_benchmark.Server.Dispatch.{handle_request}

-- The answer to an accepted broadcast.
abbrev pub accept_broadcast : Option Text → ℕ → Server → Server
accept_broadcast body c s =
    call (end c) (write_head c 202 (connection_close ∷ []) (broadcast body s))

-- To prove a property of the result of `handleRequest`, prove it of each answer.
module _ {ℓ} (P : Server → Type ℓ) (method path body : Option Text) (c : ℕ) (s : Server) where
  pub handle_request_cases :
      ((is_falsy method || is_falsy path) ≡ true → P (write_client_error c s))
      → ((is_falsy method || is_falsy path) ≡ false
          → (is method (codes "OPTIONS") ≡ true → P (write_cors_options c s))
            × (is method (codes "OPTIONS") ≡ false
                → ((is method (codes "POST") && is path (codes "/broadcast")) ≡ true
                    → P (accept_broadcast body c s))
                  × ((is method (codes "POST") && is path (codes "/broadcast")) ≡ false
                      → (is path (codes "/connections") ≡ true → P (write_connection_count c s))
                        × (is path (codes "/connections") ≡ false
                            → (is path (codes "/sse") ≡ true → P (init_sse_client c s))
                              × (is path (codes "/sse") ≡ false → P (write_404 c s))))))
      → P (handle_request method path body c s)
  unfolding handle_request
  handle_request_cases bad good = elim (Bool-cases (is_falsy method || is_falsy path)) [
    | inl e ↦ rw e (bad e)
    | inr e ↦ rw e (elim (Bool-cases (is method (codes "OPTIONS"))) [
      | inl f ↦ rw f ((good e).0 f)
      | inr f ↦ rw f (elim (Bool-cases (is method (codes "POST") && is path (codes "/broadcast"))) [
        | inl g ↦ rw g (((good e).1 f).0 g)
        | inr g ↦ rw g (elim (Bool-cases (is path (codes "/connections"))) [
          | inl h ↦ rw h ((((good e).1 f).1 g).0 h)
          | inr h ↦ rw h (elim (Bool-cases (is path (codes "/sse"))) [
            | inl i ↦ rw i (((((good e).1 f).1 g).1 h).0 i)
            | inr i ↦ rw i (((((good e).1 f).1 g).1 h).1 i)
          ])
        ])
      ])
    ])
  ]

-- The table of clients, its count and its listeners are as they were.
abbrev pub SameTable : Server → Server → Type 0
SameTable s t = (t.clients ≡ s.clients) × (t.num_clients ≡ s.num_clients) × (t.on_end ≡ s.on_end)

-- The socket c is entered at the end of the table.
abbrev pub Registered : ℕ → Server → Server → Type 0
Registered c s t =
    (t.clients ≡ s.clients ++ some c ∷ [])
    × (t.num_clients ≡ s.num_clients +ℤ pos 1)
    × (t.on_end ≡ s.on_end ++ (c, length s.clients) ∷ [])

abbrev pub Entered : ℕ → Server → Server → Type 0
Entered c s t = SameTable s t ⊎ Registered c s t

accept_broadcast-SameTable :
    (body : Option Text) (c : ℕ) (s : Server) → SameTable s (accept_broadcast body c s)
accept_broadcast-SameTable body c s =
    rw (write_head_lem c 202 (connection_close ∷ []) (broadcast body s), broadcast_lem body s)
      (refl, refl, refl)

pub handle_request-Entered :
    (method path body : Option Text) (c : ℕ) (s : Server)
    → Entered c s (handle_request method path body c s)
handle_request-Entered method path body c s =
    handle_request_cases (Entered c s) method path body c s
      (λ _. rw (write_client_error_lem c s) (inl (refl, refl, refl)))
      (λ _. (
        λ _. rw (write_cors_options_lem c s) (inl (refl, refl, refl)),
        λ _. (
          λ _. inl (accept_broadcast-SameTable body c s),
          λ _. (
            λ _. rw (write_connection_count_lem c s) (inl (refl, refl, refl)),
            λ _. (
              λ _. rw (init_sse_client_lem c s) (inr (refl, refl, refl)),
              λ _. rw (write_404_lem c s) (inl (refl, refl, refl)),
            ),
          ),
        ),
      ))

pub accept_broadcast_lem :
    (body : Option Text) (c : ℕ) (s : Server)
    → accept_broadcast body c s
      ≡ append_log s (
          map (λ d. write d (frame body)) (reverse (live s.clients))
          ++ closing c 202 (connection_close ∷ []) [])
accept_broadcast_lem body c s =
    rw (write_head_lem c 202 (connection_close ∷ []) (broadcast body s), broadcast_lem body s)
      (ap (λ l. record s { log = l }) (simp append_assoc))

pub handle_request_broadcast :
    (body : Option Text) (c : ℕ) (s : Server)
    → handle_request (some (codes "POST")) (some (codes "/broadcast")) body c s
      ≡ append_log s (
          map (λ d. write d (frame body)) (reverse (live s.clients))
          ++ closing c 202 (connection_close ∷ []) [])
unfolding handle_request is_falsy is eq_text codes
handle_request_broadcast body c s = accept_broadcast_lem body c s

-- Without a method or a path the answer is 400.
pub handle_request_falsy :
    (method path body : Option Text) (c : ℕ) (s : Server)
    → (is_falsy method || is_falsy path) ≡ true
    → handle_request method path body c s ≡ write_client_error c s
unfolding handle_request
handle_request_falsy method path body c s h = rw (h, handle_request)
