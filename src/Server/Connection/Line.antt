-- ===== src/Server/Connection/Line.antt =====
-- What becomes of a request by its first line, when the line arrives whole and when it does not.
use sse_broadcast_benchmark.Common.{
  ℕ, ◌+◌, ◌≡◌, ◌≢◌, refl, sym, ap, ◌∙◌, inl, true, false, List, [], ◌∷◌, ◌++◌, Option, none, some,
  arith, ◌==◌, All, length, take, take-append, append_assoc, get_elem?,
}
use mathlib.Core.Path.{ap₂}
use sse_broadcast_benchmark.Js.Text.{Text, codes, eq_text, is, is_falsy}
use sse_broadcast_benchmark.Js.Text.Laws.{has, split_words-two, split_words-nil, is-other}
use sse_broadcast_benchmark.Server.State.{Server}
use sse_broadcast_benchmark.Server.Response.{write_client_error}
use sse_broadcast_benchmark.Server.Dispatch.{handle_request}
use sse_broadcast_benchmark.Server.Dispatch.Routes.{handle_request_falsy}
use sse_broadcast_benchmark.Server.Post.{obey, handle_post_request}
use sse_broadcast_benchmark.Server.Connection.{
  Parser, fresh, stopped, scanned, scan, after_scan, on_data,
}
use sse_broadcast_benchmark.Server.Connection.Phases.{
  all_ascii, IsDecoder, line_at, word, scan_other, scan_stop, post_verdict-no_feed, on_data_unset,
}
use sse_broadcast_benchmark.Server.Connection.Once.{serve, serve-IsDone}
use sse_broadcast_benchmark.Server.Connection.Chunks.{line_at-take, serve-step}

-- The loop passes over bytes without a line feed.
scan-append :
    (buffer : Text) (a rest : List ℕ) (i : ℕ) (header : Option Text)
    → has 10 a ≡ false
    → scan buffer (a ++ rest) i header ≡ scan buffer rest (i + length a) header
unfolding has
scan-append buffer [] rest i header h = ap (λ j. scan buffer rest j header) (omega arith)
scan-append buffer (byte ∷ a) rest i header h =
    let other : (byte == 10) ≡ false = ground arith in
    let later : has 10 a ≡ false = ground arith in
    scan_other buffer byte (a ++ rest) i header other
    ∙ scan-append buffer a rest (i + 1) header later
    ∙ ap (λ j. scan buffer rest j header) (omega arith)

scan-no_feed :
    (buffer : Text) (a : List ℕ) (i : ℕ) (header : Option Text)
    → has 10 a ≡ false
    → scan buffer a i header ≡ scanned header
unfolding has
scan-no_feed buffer [] i header h = unfold scan in refl
scan-no_feed buffer (byte ∷ a) i header h =
    let other : (byte == 10) ≡ false = ground arith in
    let later : has 10 a ≡ false = ground arith in
    scan_other buffer byte a i header other ∙ scan-no_feed buffer a (i + 1) header later

-- A first line that ends in a carriage return and a line feed, and does not say POST.
scan_line :
    (line : Text) (rest : Text) (bytes : List ℕ)
    → has 10 line ≡ false
    → is (word 0 line) (codes "POST") ≡ false
    → scan (line ++ (13 ∷ 10 ∷ rest)) (line ++ (13 ∷ 10 ∷ bytes)) 0 none
      ≡ stopped line (word 0 line) (word 1 line)
scan_line line rest bytes h k =
    let buffer = line ++ (13 ∷ 10 ∷ rest) in
    let i = length line + 1 in
    let cut : line_at buffer i ≡ line =
      line_at-take buffer i (omega arith)
      ∙ ap (λ n. take n buffer) (omega arith)
      ∙ take-append line (13 ∷ 10 ∷ rest) in
    scan-append buffer line (13 ∷ 10 ∷ bytes) 0 none h
    ∙ scan_other buffer 13 (10 ∷ bytes) (0 + length line) none refl
    ∙ ap (λ j. scan buffer (10 ∷ bytes) j none) (omega arith)
    ∙ scan_stop buffer 10 bytes i none refl (ap (λ l. is (word 0 l) (codes "POST")) cut ∙ k)
    ∙ ap (λ l. stopped l (word 0 l) (word 1 l)) cut

-- A chunk that begins with a line end: the source slices the buffer at an index of the chunk.
scan_line_end :
    (buffer : Text) (bytes : List ℕ)
    → scan buffer (13 ∷ 10 ∷ bytes) 0 none ≡ stopped [] (some []) none
scan_line_end buffer bytes =
    let cut : line_at buffer 1 ≡ [] = line_at-take buffer 1 (omega arith) in
    let first : word 0 [] ≡ some [] = ap (λ ws. get_elem? ws 0) split_words-nil in
    let second : word 1 [] ≡ none = ap (λ ws. get_elem? ws 1) split_words-nil in
    let no_post : is (word 0 (line_at buffer 1)) (codes "POST") ≡ false =
      ap (λ l. is (word 0 l) (codes "POST")) cut
      ∙ ap (λ m. is m (codes "POST")) first
      ∙ (unfold is eq_text codes in refl) in
    scan_other buffer 13 (10 ∷ bytes) 0 none refl
    ∙ scan_stop buffer 10 bytes 1 none refl no_post
    ∙ ap (λ l. stopped l (word 0 l) (word 1 l)) cut
    ∙ ap₂ (stopped []) first second

module _ (decode : List ℕ → Text) (decoder : IsDecoder decode) where
  -- After the answer to the first line nothing more is read.
  serve_stopped :
      (chunk : List ℕ) (chunks : List (List ℕ)) (p : Parser) (c : ℕ) (s : Server) (line : Text)
      (m q : Option Text)
      → All (λ later. later ≢ []) chunks
      → p.reading ≡ true
      → p.header ≡ none
      → scan (p.buffer ++ decode chunk) chunk 0 none ≡ stopped line m q
      → (serve decode (chunk ∷ chunks) p c s).1 ≡ handle_request m q none c s
  unfolding after_scan
  serve_stopped chunk chunks p c s line m q h reading unset e =
      let p' : Parser = record {
        buffer = p.buffer ++ decode chunk;
        header = some line;
        reading = false;
      } in
      let t = handle_request m q none c s in
      let step : on_data decode chunk p c s ≡ (p', t) =
        on_data_unset decode decoder p chunk c s reading unset
        ∙ ap (λ f. after_scan f (record p { buffer = p.buffer ++ decode chunk }) c s) e in
      ap (λ (a : Parser × Server). a.1) (serve-step decode decoder chunk chunks p p' c s t step)
      ∙ serve-IsDone decode decoder chunks p' c t h (inl refl)

  -- A request that is no POST, and whose first line arrives in the first chunk, is handled with the
  -- first two words of that line and without a body, whatever follows.
  pub serve_line :
      (method path version : Text) (bytes : List ℕ) (chunks : List (List ℕ)) (c : ℕ) (s : Server)
      → let line = method ++ (32 ∷ (path ++ (32 ∷ version))) in
        all_ascii (line ++ (13 ∷ 10 ∷ [])) ≡ true
        → has 10 line ≡ false
        → has 32 method ≡ false
        → has 32 path ≡ false
        → method ≢ codes "POST"
        → All (λ chunk. chunk ≢ []) chunks
        → (serve decode ((line ++ (13 ∷ 10 ∷ bytes)) ∷ chunks) fresh c s).1
          ≡ handle_request (some method) (some path) none c s
  serve_line method path version bytes chunks c s ascii no_feed m_word q_word other h =
      let line = method ++ (32 ∷ (path ++ (32 ∷ version))) in
      let (w, words) = split_words-two method path version m_word q_word in
      let first : word 0 line ≡ some method = ap (λ ws. get_elem? ws 0) words in
      let second : word 1 line ≡ some path = ap (λ ws. get_elem? ws 1) words in
      let text : decode (line ++ (13 ∷ 10 ∷ bytes)) ≡ line ++ (13 ∷ 10 ∷ decode bytes) =
        ap decode (sym (append_assoc line (13 ∷ 10 ∷ []) bytes))
        ∙ decoder.ascii (line ++ (13 ∷ 10 ∷ [])) bytes ascii
        ∙ append_assoc line (13 ∷ 10 ∷ []) (decode bytes) in
      let no_post = ap (λ m. is m (codes "POST")) first ∙ is-other method (codes "POST") other in
      serve_stopped (line ++ (13 ∷ 10 ∷ bytes)) chunks fresh c s line (some method) (some path) h
        refl refl
        (ap (λ t. scan t (line ++ (13 ∷ 10 ∷ bytes)) 0 none) text
          ∙ scan_line line (decode bytes) bytes no_feed no_post
          ∙ ap₂ (stopped line) first second)

  -- A request line of which the first chunk holds all but the line end, the second chunk beginning
  -- with the line end, is answered with the status 400, whatever the request is.
  pub serve_split_line :
      (line : List ℕ) (bytes : List ℕ) (chunks : List (List ℕ)) (c : ℕ) (s : Server)
      → has 10 line ≡ false
      → All (λ chunk. chunk ≢ []) chunks
      → (serve decode (line ∷ (13 ∷ 10 ∷ bytes) ∷ chunks) fresh c s).1 ≡ write_client_error c s
  unfolding after_scan handle_post_request is_falsy
  serve_split_line line bytes chunks c s no_feed h =
      let p' : Parser = record { buffer = decode line; header = none; reading = true } in
      let waits = post_verdict-no_feed (decode line) (decoder.line_feed line no_feed) in
      let step : on_data decode line fresh c s ≡ (p', s) =
        on_data_unset decode decoder fresh line c s refl refl
        ∙ ap (λ f. after_scan f (record fresh { buffer = decode line }) c s)
            (scan-no_feed (decode line) line 0 none no_feed)
        ∙ ap (λ v. (p', obey v c s)) waits in
      let second = 13 ∷ 10 ∷ bytes in
      let buffer = decode line ++ decode second in
      ap (λ (a : Parser × Server). a.1)
        (serve-step decode decoder line (second ∷ chunks) fresh p' c s s step)
      ∙ serve_stopped second chunks p' c s [] (some []) none h refl refl
          (scan_line_end buffer bytes)
      ∙ handle_request_falsy (some []) none none c s refl
