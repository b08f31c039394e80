-- ===== src/Server/Connection/Chunks.antt =====
-- A POST request whose request line has arrived is handled once it is complete, however the rest of
-- it is cut into chunks.
use sse_broadcast_benchmark.Common.{
  ℕ, zero, suc, ◌+◌, ◌-◌, ◌≤◌, ◌≡◌, ◌≢◌, refl, sym, ap, ◌∙◌, inl, inr, true, false, List, [], ◌∷◌,
  ◌++◌, Option, none, some, arith, ◌==◌, All, Bool-cases, take, append_assoc, append-nil,
}
use sse_broadcast_benchmark.Js.Text.{Text, codes, is_falsy, slice_to}
use sse_broadcast_benchmark.Js.Text.Laws.{has, is_self, split_words-first, split_words-only}
use sse_broadcast_benchmark.Server.State.{Server}
use sse_broadcast_benchmark.Server.Dispatch.{handle_request}
use sse_broadcast_benchmark.Server.Post.{
  Verdict, wait, no_length, complete, post_verdict, obey, handle_post_request,
}
use sse_broadcast_benchmark.Server.Post.Framing.{
  Past-complete, NoLength-no_length, Past-extend, NoLength-extend,
}
use sse_broadcast_benchmark.Server.Connection.Once.{serve}
use sse_broadcast_benchmark.Server.Connection.{Parser, fresh, scanned, scan, after_scan, on_data}
use sse_broadcast_benchmark.Server.Connection.Phases.{
  line_at, word, scan_other, scan_post, scan-scanned, IsDecoder, on_data_set, on_data_unset,
}

abbrev pub post : Text
post = codes "POST"

word-take :
    (w : Text) (k : ℕ) → word 0 (take (suc (suc (suc (suc k)))) (codes "POST " ++ w)) ≡ some post
unfolding codes
word-take w zero = rw (split_words-only (80 ∷ 79 ∷ 83 ∷ 84 ∷ []) (unfold has in refl))
word-take w (suc k) =
    let (ws, e) = split_words-first (80 ∷ 79 ∷ 83 ∷ 84 ∷ []) (take k w) (unfold has in refl) in rw e

pub line_at-take : (buffer : Text) (i : ℕ) → 1 ≤ i → line_at buffer i ≡ take (i - 1) buffer
unfolding slice_to
line_at-take buffer i h = ground arith

-- Every line of a buffer that begins with "POST " has POST for its first word.
word-line_at : (w : Text) (i : ℕ) → 5 ≤ i → word 0 (line_at (codes "POST " ++ w) i) ≡ some post
word-line_at w i h =
    let e : i - 1 ≡ suc (suc (suc (suc (i - 5)))) = omega arith in
    rw (line_at-take (codes "POST " ++ w) i (omega arith), e) (word-take w (i - 5))

scan-post :
    (w : Text) (bytes : List ℕ) (i : ℕ) (header : Option Text)
    → 5 ≤ i
    → (found : Option Text) × (scan (codes "POST " ++ w) bytes i header ≡ scanned found)
scan-post w [] i header h = (header, unfold scan in refl)
scan-post w (byte ∷ bytes) i header h = elim (Bool-cases (byte == 10)) [
  | inl feed ↦
      let post = (is_self (codes "POST")) in
      let (found, e) =
        scan-post w bytes (i + 1) (some (line_at (codes "POST " ++ w) i)) (omega arith) in
      (
        found,
        scan_post (codes "POST " ++ w) byte bytes i header feed (rw (word-line_at w i h) post) ∙ e,
      )
  | inr other ↦
      let (found, e) = scan-post w bytes (i + 1) header (omega arith) in
      (found, scan_other (codes "POST " ++ w) byte bytes i header other ∙ e)
]

-- A chunk that begins with "POST " and holds a line feed sets the header.
first_scan :
    (w : Text) (bytes : List ℕ)
    → has 10 bytes ≡ true
    → (found : Option Text) × ((scan (codes "POST " ++ w) (codes "POST " ++ bytes) 0 none
          ≡ scanned found)
        × (is_falsy found ≡ false))
first_scan w bytes feed =
    let start : scan (codes "POST " ++ w) (codes "POST " ++ bytes) 0 none
        ≡ scan (codes "POST " ++ w) bytes 5 none =
      unfold scan codes in refl in
    let (found, e) = scan-post w bytes 5 none (omega arith) in
    (
      found,
      (
        start ∙ e,
        elim (scan-scanned (codes "POST " ++ w) bytes 5 none found e) [
          | inl (_, no_feed) ↦ cc
          | inr set ↦ set
        ],
      ),
    )

-- Before a request is complete the server waits.
post_verdict_before :
    (buffer more : Text) {m q : Option Text} {r : Text}
    → post_verdict (buffer ++ more) ≡ complete m q r
    → more ≢ []
    → (v : Verdict) → post_verdict buffer ≡ v
    → v ≡ wait
post_verdict_before buffer more h some_more wait e = refl
post_verdict_before buffer more h some_more no_length e =
    cc (h, (NoLength-extend buffer more (NoLength-no_length buffer e)).1)
post_verdict_before buffer more h some_more (complete m q r) e =
    cc (h, (Past-extend buffer more (Past-complete buffer e) some_more).1)

-- The text of some chunks.
abbrev pub joined : (List ℕ → Text) → List (List ℕ) → Text
joined decode [] = []
joined decode (chunk ∷ chunks) = decode chunk ++ joined decode chunks

module _ (decode : List ℕ → Text) (decoder : IsDecoder decode) where
  joined-nonempty :
      (chunk : List ℕ) (chunks : List (List ℕ)) → chunk ≢ [] → joined decode (chunk ∷ chunks) ≢ []
  joined-nonempty chunk chunks h e = go (decode chunk) (decoder.nonempty chunk h) e
    where
      go : (t : Text) → t ≢ [] → t ++ joined decode chunks ≢ []
      go [] k e = k refl
      go (x ∷ t) k e = cc

  pub serve-step :
      (chunk : List ℕ) (chunks : List (List ℕ)) (p q : Parser) (c : ℕ) (s t : Server)
      → on_data decode chunk p c s ≡ (q, t)
      → serve decode (chunk ∷ chunks) p c s ≡ serve decode chunks q c t
  unfolding serve
  serve-step chunk chunks p q c s t e =
      ap (λ (a : Parser × Server). serve decode chunks a.0 c a.1) e

  pub serve_nil : (p : Parser) (c : ℕ) (s : Server) → serve decode [] p c s ≡ (p, s)
  unfolding serve
  serve_nil p c s = refl

  -- The parser with the whole buffer, in the state that the header is set.
  handle_post-step :
      (b : Text) (chunks : List (List ℕ)) (p : Parser) (c : ℕ) (s : Server) {m q : Option Text}
      {r : Text}
      → p.reading ≡ true
      → is_falsy p.header ≡ false
      → All (λ later. later ≢ []) chunks
      → p.buffer ≡ b
      → post_verdict (b ++ joined decode chunks) ≡ complete m q r
      → (serve decode chunks p c (handle_post_request b c s)).1 ≡ handle_request m q (some r) c s
  unfolding handle_post_request
  handle_post-step b [] p c s reading set h same e =
      ap (λ (a : Parser × Server). a.1) (serve_nil p c (handle_post_request b c s))
      ∙ ap (λ v. obey v c s) (ap post_verdict (sym (append-nil b)) ∙ e)
  handle_post-step b (chunk ∷ chunks) p c s reading set (some_bytes, h) same e =
      let whole = ap post_verdict (append_assoc b (decode chunk) (joined decode chunks)) ∙ e in
      let waits =
        post_verdict_before b (joined decode (chunk ∷ chunks)) e
          (joined-nonempty chunk chunks some_bytes) (post_verdict b) refl in
      let b' = p.buffer ++ decode chunk in
      let p' = record p { buffer = b' } in
      let grown : b' ≡ b ++ decode chunk = ap (λ t. t ++ decode chunk) same in
      let rest = handle_post-step (b ++ decode chunk) chunks p' c s reading set h grown whole in
      ap (λ v. (serve decode (chunk ∷ chunks) p c (obey v c s)).1) waits
      ∙ ap (λ (a : Parser × Server). a.1)
          (serve-step chunk chunks p p' c s (handle_post_request b' c s)
            (on_data_set decode decoder p chunk c s reading set))
      ∙ ap (λ t. (serve decode chunks p' c (handle_post_request t c s)).1) grown
      ∙ rest

  -- After a first chunk with the request line of a POST the header is set.
  pub serve-first :
      (bytes : List ℕ) (c : ℕ) (s : Server)
      → has 10 bytes ≡ true
      → let first = codes "POST " ++ bytes in
        (p : Parser) × ((p.reading ≡ true)
          × (is_falsy p.header ≡ false)
          × (p.buffer ≡ decode first)
          × (on_data decode first fresh c s ≡ (p, handle_post_request (decode first) c s)))
  unfolding after_scan
  serve-first bytes c s feed =
      let first = codes "POST " ++ bytes in
      let text : decode first ≡ codes "POST " ++ decode bytes =
        decoder.ascii (codes "POST ") bytes (unfold codes in refl) in
      let (found, (scanned_found, set)) = first_scan (decode bytes) bytes feed in
      (
        record { buffer = decode first; header = found; reading = true },
        (
          refl,
          set,
          refl,
          on_data_unset decode decoder fresh first c s refl refl
              ∙ ap (λ f. after_scan f (record fresh { buffer = decode first }) c s)
                  (ap (λ t. scan t first 0 none) text ∙ scanned_found),
        ),
      )

  -- A POST request is handled when all of it has arrived, whatever the chunks that bring it.
  pub serve-complete :
      (bytes : List ℕ) (chunks : List (List ℕ)) (c : ℕ) (s : Server) (method path : Option Text)
      (body : Text)
      → has 10 bytes ≡ true
      → All (λ chunk. chunk ≢ []) chunks
      → post_verdict (joined decode ((codes "POST " ++ bytes) ∷ chunks)) ≡ complete method path body
      → (serve decode ((codes "POST " ++ bytes) ∷ chunks) fresh c s).1
        ≡ handle_request method path (some body) c s
  serve-complete bytes chunks c s method path body feed h e =
      let (p, (reading, set, same, step)) = serve-first bytes c s feed in
      ap (λ (a : Parser × Server). a.1)
        (serve-step (codes "POST " ++ bytes) chunks fresh p c s
          (handle_post_request (decode (codes "POST " ++ bytes)) c s) step)
      ∙ handle_post-step (decode (codes "POST " ++ bytes)) chunks p c s reading set h same e
