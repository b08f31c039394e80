-- ===== src/Server/Connection/Short.antt =====
-- A POST request whose body has fewer code units than its header says is never answered.
use sse_broadcast_benchmark.Common.{
  ℕ, ◌+◌, ◌≡◌, ◌<◌, ◌≤◌, refl, sym, ap, subst, ◌∙◌, true, false, List, [], ◌∷◌, ◌++◌, none, some,
  arith, length, take, drop, append_assoc, append-nil,
}
use sse_broadcast_benchmark.Js.Text.{Text, codes, is_falsy}
use sse_broadcast_benchmark.Js.Text.Laws.{has}
use sse_broadcast_benchmark.Js.Number.{parse_digits}
use sse_broadcast_benchmark.Js.Regex.{match_length}
use sse_broadcast_benchmark.Server.State.{Server}
use sse_broadcast_benchmark.Server.Post.{
  Verdict, wait, no_length, complete, post_verdict, obey, handle_post_request,
}
use sse_broadcast_benchmark.Server.Post.Framing.{
  Framed, Past, NoLength, Past-complete, NoLength-no_length, Past-extend, NoLength-extend,
}
use sse_broadcast_benchmark.Server.Connection.{Parser, fresh}
use sse_broadcast_benchmark.Server.Connection.Phases.{IsDecoder, on_data_set}
use sse_broadcast_benchmark.Server.Connection.Once.{serve}
use sse_broadcast_benchmark.Server.Connection.Chunks.{joined, serve-step, serve_nil, serve-first}

-- The headers are complete, and the body is shorter than they say.
abbrev pub IsShort : Text → ℕ → Text → Type 0
IsShort text at digits = Framed text at digits × (length (drop (at + 4) text) < parse_digits digits)

module _ (text : Text) (at : ℕ) (digits : Text) (short : IsShort text at digits) where
  not-Past : ¬ Past text
  not-Past (at', digits', ((found, given), enough)) =
      let same : at' ≡ at = cc (short.0.0, found) in
      let given' : match_length (take (at + 4) text) ≡ some digits' =
        subst (λ i. match_length (take (i + 4) text) ≡ some digits') same given in
      let number : digits' ≡ digits = cc (short.0.1, given') in
      let enough' : parse_digits digits ≤ length (drop (at + 4) text) =
        subst (λ i. parse_digits digits ≤ length (drop (i + 4) text)) same
          (subst (λ d. parse_digits d ≤ length (drop (at' + 4) text)) number enough) in
      omega (arith, short.1, enough')

  not-NoLength : ¬ NoLength text
  not-NoLength (at', (found, missing)) =
      let same : at' ≡ at = cc (short.0.0, found) in
      let missing' : match_length (take (at + 4) text) ≡ none =
        subst (λ i. match_length (take (i + 4) text) ≡ none) same missing in
      cc (short.0.1, missing')

Past-append : (b more : Text) → Past b → Past (b ++ more)
Past-append b [] past = subst Past (sym (append-nil b)) past
Past-append b (x ∷ more) past = (Past-extend b (x ∷ more) past (λ e. cc)).0

-- Every beginning of such a text makes the server wait.
waits :
    (b more : Text) (at : ℕ) (digits : Text)
    → IsShort (b ++ more) at digits
    → (v : Verdict) → post_verdict b ≡ v
    → v ≡ wait
waits b more at digits short wait e = refl
waits b more at digits short no_length e =
    absurd
      (not-NoLength (b ++ more) at digits short (NoLength-extend b more (NoLength-no_length b e)).0)
waits b more at digits short (complete m q r) e =
    absurd (not-Past (b ++ more) at digits short (Past-append b more (Past-complete b e)))

module _ (decode : List ℕ → Text) (decoder : IsDecoder decode) where
  waits-step :
      (b : Text) (chunks : List (List ℕ)) (p : Parser) (c : ℕ) (s : Server) (at : ℕ) (digits : Text)
      → p.reading ≡ true
      → is_falsy p.header ≡ false
      → p.buffer ≡ b
      → IsShort (b ++ joined decode chunks) at digits
      → (serve decode chunks p c (handle_post_request b c s)).1 ≡ s
  unfolding handle_post_request
  waits-step b [] p c s at digits reading set same short =
      ap (λ (a : Parser × Server). a.1) (serve_nil decode decoder p c (handle_post_request b c s))
      ∙ ap (λ v. obey v c s) (waits b [] at digits short (post_verdict b) refl)
  waits-step b (chunk ∷ chunks) p c s at digits reading set same short =
      let whole = append_assoc b (decode chunk) (joined decode chunks) in
      let quiet = waits b (joined decode (chunk ∷ chunks)) at digits short (post_verdict b) refl in
      let b' = p.buffer ++ decode chunk in
      let p' = record p { buffer = b' } in
      let grown : b' ≡ b ++ decode chunk = ap (λ t. t ++ decode chunk) same in
      let rest =
        waits-step (b ++ decode chunk) chunks p' c s at digits reading set grown
          (subst (λ t. IsShort t at digits) (sym whole) short) in
      ap (λ v. (serve decode (chunk ∷ chunks) p c (obey v c s)).1) quiet
      ∙ ap (λ (a : Parser × Server). a.1)
          (serve-step decode decoder chunk chunks p p' c s (handle_post_request b' c s)
            (on_data_set decode decoder p chunk c s reading set))
      ∙ ap (λ t. (serve decode chunks p' c (handle_post_request t c s)).1) grown
      ∙ rest

  -- A POST request whose first chunk holds the request line, and whose body decodes to fewer code
  -- units than its Content-Length, is never answered, whatever the chunks: the server is as before.
  pub serve_short :
      (bytes : List ℕ) (chunks : List (List ℕ)) (c : ℕ) (s : Server) (at : ℕ) (digits : Text)
      → has 10 bytes ≡ true
      → IsShort (joined decode ((codes "POST " ++ bytes) ∷ chunks)) at digits
      → (serve decode ((codes "POST " ++ bytes) ∷ chunks) fresh c s).1 ≡ s
  serve_short bytes chunks c s at digits feed short =
      let (p, (reading, set, same, step)) = serve-first decode decoder bytes c s feed in
      ap (λ (a : Parser × Server). a.1)
        (serve-step decode decoder (codes "POST " ++ bytes) chunks fresh p c s
          (handle_post_request (decode (codes "POST " ++ bytes)) c s) step)
      ∙ waits-step (decode (codes "POST " ++ bytes)) chunks p c s at digits reading set same short
