-- ===== src/Server/Connection/Once.antt =====
-- A connection handles at most one request, however its bytes are cut into chunks.
use sse_broadcast_benchmark.Common.{
  ℕ, zero, suc, ◌≡◌, ◌≢◌, refl, subst, ◌∙◌, ◌⊎◌, inl, inr, List, [], ◌∷◌, Option, All,
}
use sse_broadcast_benchmark.Js.Text.{Text}
use sse_broadcast_benchmark.Js.Text.Laws.{has}
use sse_broadcast_benchmark.Server.State.{Server}
use sse_broadcast_benchmark.Server.Dispatch.{handle_request}
use sse_broadcast_benchmark.Server.Connection.{Parser, fresh, on_data}
use sse_broadcast_benchmark.Server.Connection.Phases.{
  IsDecoder, IsOpen, IsDone, IsRefused, Moves, refuse, on_data-IsOpen, on_data-IsDone,
  on_data-IsRefused,
}

-- n refusals, one after another.
abbrev pub refusals : ℕ → ℕ → Server → Server
refusals zero c s = s
refusals (suc n) c s = refusals n c (refuse c s)

-- The chunks of one connection, one after another.
unfoldable pub serve : (List ℕ → Text) → List (List ℕ) → Parser → ℕ → Server → Parser × Server
serve decode [] p c s = (p, s)
serve decode (chunk ∷ chunks) p c s =
    let (p', s') = on_data decode chunk p c s in serve decode chunks p' c s'

-- All that a connection may have done to the server.
abbrev pub Answer : ℕ → Server → Server → Type 0
Answer c s t =
    (t ≡ s)
    ⊎ ((method : Option Text) × (path : Option Text) × (body : Option Text) × (t
          ≡ handle_request method path body c s))
    ⊎ ((n : ℕ) × (t ≡ refusals n c s))

module _ (decode : List ℕ → Text) (decoder : IsDecoder decode) where
  pub serve-IsDone :
      (chunks : List (List ℕ)) (p : Parser) (c : ℕ) (s : Server)
      → All (λ chunk. chunk ≢ []) chunks
      → IsDone p
      → (serve decode chunks p c s).1 ≡ s
  unfolding serve
  serve-IsDone [] p c s h done = refl
  serve-IsDone (chunk ∷ chunks) p c s (some_bytes, h) done =
      let (done', same) = on_data-IsDone decode decoder p chunk c s some_bytes done in
      let (p', s') = on_data decode chunk p c s in serve-IsDone chunks p' c s' h done' ∙ same

  serve-IsRefused :
      (chunks : List (List ℕ)) (p : Parser) (c : ℕ) (s : Server)
      → IsRefused p
      → (n : ℕ) × ((serve decode chunks p c s).1 ≡ refusals n c s)
  unfolding serve
  serve-IsRefused [] p c s refused = (zero, refl)
  serve-IsRefused (chunk ∷ chunks) p c s refused =
      let (refused', same) = on_data-IsRefused decode decoder p chunk c s refused in
      let (p', s') = on_data decode chunk p c s in
      let (n, e) = serve-IsRefused chunks p' c s' refused' in
      (suc n, subst (λ t. (serve decode chunks p' c s').1 ≡ refusals n c t) same e)

  serve-Moves :
      (chunks : List (List ℕ)) (p : Parser) (c : ℕ) (s t : Server)
      → All (λ chunk. chunk ≢ []) chunks
      → (IsOpen p → Answer c t (serve decode chunks p c t).1)
      → Moves c s (p, t)
      → Answer c s (serve decode chunks p c t).1
  serve-Moves chunks p c s t h ih (inl (still, same)) =
      subst (λ t'. Answer c t' (serve decode chunks p c t).1) same (ih still)
  serve-Moves chunks p c s t h ih (inr (inl (done, (m, q, b, same)))) =
      inr (inl (m, q, b, serve-IsDone chunks p c t h done ∙ same))
  serve-Moves chunks p c s t h ih (inr (inr (refused, same))) =
      let (n, e) = serve-IsRefused chunks p c t refused in
      inr (inr (suc n, subst (λ t'. (serve decode chunks p c t).1 ≡ refusals n c t') same e))

  serve-IsOpen :
      (chunks : List (List ℕ)) (p : Parser) (c : ℕ) (s : Server)
      → All (λ chunk. chunk ≢ []) chunks
      → IsOpen p
      → Answer c s (serve decode chunks p c s).1
  unfolding serve
  serve-IsOpen [] p c s h open_now = inl refl
  serve-IsOpen (chunk ∷ chunks) p c s (some_bytes, h) open_now =
      let (p', s') = on_data decode chunk p c s in
      serve-Moves chunks p' c s s' h (serve-IsOpen chunks p' c s' h)
        (on_data-IsOpen decode decoder p chunk c s open_now)

  -- Whatever chunks of at least one byte a new connection receives, all that happens to the server
  -- is nothing, or a single call of `handleRequest`, or refusals with the status 411.
  pub serve_once :
      (chunks : List (List ℕ)) (c : ℕ) (s : Server)
      → All (λ chunk. chunk ≢ []) chunks
      → Answer c s (serve decode chunks fresh c s).1
  serve_once chunks c s h = serve-IsOpen chunks fresh c s h (refl, inl (refl, unfold has in refl))
