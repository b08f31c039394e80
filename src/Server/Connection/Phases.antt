-- ===== src/Server/Connection/Phases.antt =====
-- The states of a connection of node.js/server.js, and how a chunk moves it from one to another.
use sse_broadcast_benchmark.Common.{
  ℕ, ◌+◌, ◌≡◌, ◌≢◌, refl, sym, ap, subst, ◌∙◌, ◌⊎◌, inl, inr, Bool, true, false, List, [], ◌∷◌,
  ◌++◌, Option, none, some, arith, ◌==◌, ◌&&◌, leb, Bool-cases, get_elem?,
}
use sse_broadcast_benchmark.Common.Int.{sub_ℕ}
use sse_broadcast_benchmark.Js.Text.{Text, codes, is, is_falsy, slice_to, split_words, eq_text}
use sse_broadcast_benchmark.Js.Text.Laws.{has, has-append, index_of-has, split_words-nil}
use sse_broadcast_benchmark.Server.State.{Server, destroy, call}
use sse_broadcast_benchmark.Server.Response.{write_head, connection_close}
use sse_broadcast_benchmark.Server.Dispatch.{handle_request}
use sse_broadcast_benchmark.Server.Post.{
  Verdict, wait, no_length, complete, blank_line, post_verdict, obey, handle_post_request,
}
use sse_broadcast_benchmark.Server.Post.Framing.{
  Past, NoLength, Past-complete, NoLength-no_length, Past-extend, NoLength-extend,
}
use sse_broadcast_benchmark.Server.Connection.{
  Parser, Scan, stopped, scanned, scan, after_scan, parse_data, on_data,
}

abbrev pub all_ascii : List ℕ → Bool
all_ascii [] = true
all_ascii (byte ∷ bytes) = leb byte 127 && all_ascii bytes

-- What UTF-8 says of a Buffer that becomes a string: no bytes give the empty text and some bytes
-- some text, a line feed comes from no other byte, and ASCII stands for itself.
pub record IsDecoder (decode : List ℕ → Text) : Type 0 where
  pub nonempty : (chunk : List ℕ) → chunk ≢ [] → decode chunk ≢ []
  pub empty : decode [] ≡ []
  pub ascii : (a b : List ℕ) → all_ascii a ≡ true → decode (a ++ b) ≡ a ++ decode b
  pub line_feed : (chunk : List ℕ) → has 10 chunk ≡ false → has 10 (decode chunk) ≡ false

-- The answer 411 of `handlePostRequest`.
abbrev pub refuse : ℕ → Server → Server
refuse c s = call (destroy c) (write_head c 411 (connection_close ∷ []) s)

-- The three states of a connection: nothing has been answered; one request has been handled;
-- the request has been refused.
abbrev pub IsOpen : Parser → Type 0
IsOpen p =
    (p.reading ≡ true)
    × (((p.header ≡ none) × (has 10 p.buffer ≡ false)) ⊎ (is_falsy p.header ≡ false))

abbrev pub IsDone : Parser → Type 0
IsDone p = (p.reading ≡ false) ⊎ ((is_falsy p.header ≡ false) × Past p.buffer)

abbrev pub IsRefused : Parser → Type 0
IsRefused p = (p.reading ≡ true) × (is_falsy p.header ≡ false) × NoLength p.buffer

-- A first word makes a header that is not empty.
is_falsy-post :
    (line : Text)
    → is (get_elem? (split_words line) 0) (codes "POST") ≡ true
    → is_falsy (some line) ≡ false
unfolding is is_falsy eq_text codes
is_falsy-post [] h = cc (rw split_words-nil at h)
is_falsy-post (c ∷ line) h = refl

abbrev pub line_at : Text → ℕ → Text
line_at buffer i = slice_to buffer (sub_ℕ i 1)

abbrev pub word : ℕ → Text → Option Text
word k line = get_elem? (split_words line) k

module _ (buffer : Text) (byte : ℕ) (bytes : List ℕ) (i : ℕ) (header : Option Text) where
  pub scan_other :
      (byte == 10) ≡ false → scan buffer (byte ∷ bytes) i header ≡ scan buffer bytes (i + 1) header
  unfolding scan
  scan_other h = rw h

  pub scan_post :
      (byte == 10) ≡ true
      → is (word 0 (line_at buffer i)) (codes "POST") ≡ true
      → scan buffer (byte ∷ bytes) i header ≡ scan buffer bytes (i + 1) (some (line_at buffer i))
  unfolding scan
  scan_post h k = rw (h, k)

  pub scan_stop :
      (byte == 10) ≡ true
      → is (word 0 (line_at buffer i)) (codes "POST") ≡ false
      → scan buffer (byte ∷ bytes) i header
        ≡ stopped (line_at buffer i) (word 0 (line_at buffer i)) (word 1 (line_at buffer i))
  unfolding scan
  scan_stop h k = rw (h, k)

-- At the end of a chunk the header is as before if there was no line feed, and set if there was.
pub scan-scanned :
    (buffer : Text) (bytes : List ℕ) (i : ℕ) (header found : Option Text)
    → scan buffer bytes i header ≡ scanned found
    → ((found ≡ header) × (has 10 bytes ≡ false)) ⊎ (is_falsy found ≡ false)
unfolding has
scan-scanned buffer [] i header found h = inl (unfold scan in ground arith, refl)
scan-scanned buffer (byte ∷ bytes) i header found h = elim (Bool-cases (byte == 10)) [
  | inl feed ↦ elim (Bool-cases (is (word 0 (line_at buffer i)) (codes "POST"))) [
    | inl post ↦
        let rest =
          scan-scanned buffer bytes (i + 1) (some (line_at buffer i)) found
            (sym (scan_post buffer byte bytes i header feed post) ∙ h) in
        inr (elim rest [
          | inl (same, _) ↦ rw same (is_falsy-post (line_at buffer i) post)
          | inr set ↦ set
        ])
    | inr other ↦ cc (scan_stop buffer byte bytes i header feed other, h)
  ]
  | inr other ↦
      elim (scan-scanned buffer bytes (i + 1) header found
        (sym (scan_other buffer byte bytes i header other) ∙ h)) [
          | inl (same, none_left) ↦ inl (same, rw other none_left)
          | inr set ↦ inr set
        ]
]

-- A buffer without a line feed holds no complete headers.
pub post_verdict-no_feed : (buffer : Text) → has 10 buffer ≡ false → post_verdict buffer ≡ wait
unfolding post_verdict
post_verdict-no_feed buffer h =
    rw (index_of-has 10 blank_line buffer (unfold has in refl) h, post_verdict)

-- What a chunk does to an open connection: nothing, or a request is handled, or it is refused.
abbrev pub Moves : ℕ → Server → Parser × Server → Type 0
Moves c s (p, t) =
    (IsOpen p × (t ≡ s))
    ⊎ (IsDone p
        × ((method : Option Text) × (path : Option Text) × (body : Option Text) × (t
              ≡ handle_request method path body c s)))
    ⊎ (IsRefused p × (t ≡ refuse c s))

Moves-post :
    (p : Parser) (c : ℕ) (s : Server) (v : Verdict)
    → post_verdict p.buffer ≡ v
    → p.reading ≡ true
    → ((p.header ≡ none) × (has 10 p.buffer ≡ false)) ⊎ (is_falsy p.header ≡ false)
    → Moves c s (p, handle_post_request p.buffer c s)
unfolding handle_post_request
Moves-post p c s wait e r h = rw e (inl ((r, h), refl))
Moves-post p c s no_length e r (inl (_, no_feed)) = cc (post_verdict-no_feed p.buffer no_feed)
Moves-post p c s no_length e r (inr set) =
    rw e (inr (inr ((r, set, NoLength-no_length p.buffer e), refl)))
Moves-post p c s (complete m path body) e r (inl (_, no_feed)) =
    cc (post_verdict-no_feed p.buffer no_feed)
Moves-post p c s (complete m path body) e r (inr set) =
    rw e (inr (inl (inr (set, Past-complete p.buffer e), (m, path, some body, refl))))

Moves-after_scan :
    (p : Parser) (c : ℕ) (s : Server) (chunk : List ℕ) (found : Scan)
    → scan p.buffer chunk 0 none ≡ found
    → p.reading ≡ true
    → (has 10 chunk ≡ false → has 10 p.buffer ≡ false)
    → Moves c s (after_scan found p c s)
unfolding after_scan
Moves-after_scan p c s chunk (stopped line method path) e r feed =
    inr (inl (inl refl, (method, path, none, refl)))
Moves-after_scan p c s chunk (scanned header) e r feed =
    Moves-post (record p { header = header }) c s (post_verdict p.buffer) refl r
      (elim (scan-scanned p.buffer chunk 0 none header e) [
        | inl (same, no_feed) ↦ inl (same, feed no_feed)
        | inr set ↦ inr set
      ])

module _ (decode : List ℕ → Text) (decoder : IsDecoder decode) where
  -- The parser with a chunk added to its buffer.
  abbrev longer : Parser → List ℕ → Parser
  longer p chunk = record p { buffer = p.buffer ++ decode chunk }

  no_feed-longer :
      (p : Parser) (chunk : List ℕ)
      → has 10 p.buffer ≡ false
      → has 10 chunk ≡ false
      → has 10 (longer p chunk).buffer ≡ false
  no_feed-longer p chunk h k =
      has-append 10 p.buffer (decode chunk) ∙ rw (h, decoder.line_feed chunk k)

  on_data_closed :
      (p : Parser) (chunk : List ℕ) (c : ℕ) (s : Server)
      → p.reading ≡ false
      → on_data decode chunk p c s ≡ (p, s)
  unfolding on_data
  on_data_closed p chunk c s r = ground arith

  pub on_data_unset :
      (p : Parser) (chunk : List ℕ) (c : ℕ) (s : Server)
      → p.reading ≡ true
      → p.header ≡ none
      → on_data decode chunk p c s
        ≡ after_scan (scan (p.buffer ++ decode chunk) chunk 0 none) (longer p chunk) c s
  unfolding on_data parse_data is_falsy
  on_data_unset p chunk c s r h = ground arith

  pub on_data_set :
      (p : Parser) (chunk : List ℕ) (c : ℕ) (s : Server)
      → p.reading ≡ true
      → is_falsy p.header ≡ false
      → on_data decode chunk p c s
        ≡ (longer p chunk, handle_post_request (p.buffer ++ decode chunk) c s)
  unfolding on_data parse_data
  on_data_set p chunk c s r h = ground arith

  pub on_data-IsOpen :
      (p : Parser) (chunk : List ℕ) (c : ℕ) (s : Server)
      → IsOpen p
      → Moves c s (on_data decode chunk p c s)
  on_data-IsOpen p chunk c s (r, inl (unset, no_feed)) =
      subst (Moves c s) (sym (on_data_unset p chunk c s r unset)) (
        Moves-after_scan (longer p chunk) c s chunk (scan (p.buffer ++ decode chunk) chunk 0 none)
          refl r (no_feed-longer p chunk no_feed))
  on_data-IsOpen p chunk c s (r, inr set) =
      subst (Moves c s) (sym (on_data_set p chunk c s r set))
        (Moves-post (longer p chunk) c s (post_verdict (p.buffer ++ decode chunk)) refl r (inr set))

  pub on_data-IsDone :
      (p : Parser) (chunk : List ℕ) (c : ℕ) (s : Server)
      → chunk ≢ []
      → IsDone p
      → IsDone (on_data decode chunk p c s).0 × ((on_data decode chunk p c s).1 ≡ s)
  unfolding handle_post_request
  on_data-IsDone p chunk c s some_bytes done = elim (Bool-cases p.reading) [
    | inl r ↦ elim done [
      | inl closed ↦ cc
      | inr (set, past) ↦
          let (past', e) =
            Past-extend p.buffer (decode chunk) past (decoder.nonempty chunk some_bytes) in
          subst (λ (r : Parser × Server). IsDone r.0 × (r.1 ≡ s))
            (sym (on_data_set p chunk c s r set)) (inr (set, past'), ap (λ v. obey v c s) e)
    ]
    | inr r ↦
        subst (λ (r : Parser × Server). IsDone r.0 × (r.1 ≡ s)) (sym (on_data_closed p chunk c s r))
          (inl r, refl)
  ]

  pub on_data-IsRefused :
      (p : Parser) (chunk : List ℕ) (c : ℕ) (s : Server)
      → IsRefused p
      → IsRefused (on_data decode chunk p c s).0 × ((on_data decode chunk p c s).1 ≡ refuse c s)
  unfolding handle_post_request
  on_data-IsRefused p chunk c s (r, set, lacking) =
      let (lacking', e) = NoLength-extend p.buffer (decode chunk) lacking in
      subst (λ (q : Parser × Server). IsRefused q.0 × (q.1 ≡ refuse c s))
        (sym (on_data_set p chunk c s r set)) ((r, set, lacking'), ap (λ v. obey v c s) e)
