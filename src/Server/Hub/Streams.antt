-- ===== src/Server/Hub/Streams.antt =====
-- What each socket has been sent, when the log grows.
use mathlib.Core.List.{reverse-append}
use sse_broadcast_benchmark.Common.{
  ℕ, ◌+◌, ◌≡◌, refl, sym, ap, ◌∙◌, Bool, true, false, List, [], ◌∷◌, ◌++◌, map, reverse, Option,
  arith, ◌==◌, ==_refl, if◌then◌else◌, append-nil, append_assoc, Bool-cases, inl, inr,
}
use sse_broadcast_benchmark.Js.Text.{Text}
use sse_broadcast_benchmark.Server.State.{Effect, write, end, destroy, set_timeout, set_no_delay}
use sse_broadcast_benchmark.Server.Log.{received}
use sse_broadcast_benchmark.Server.Response.{status_line, header_line, crlf}
use sse_broadcast_benchmark.Server.Response.Bytes.{head_calls, closing}
use sse_broadcast_benchmark.Server.Clients.{stream_headers, greeting, frame}
use sse_broadcast_benchmark.Server.Clients.Count.{stream_calls}
use sse_broadcast_benchmark.Server.World.Population.{count}
use sse_broadcast_benchmark.Server.Hub.{header_lines, opening, frames}

pub received-append :
    (c : ℕ) (es fs : List Effect) → received c (es ++ fs) ≡ received c es ++ received c fs
unfolding received
received-append c [] fs = refl
received-append c (write d t ∷ es) fs = elim (Bool-cases (d == c)) [
  | inl h ↦ rw (h, received-append c es fs) (sym (append_assoc t (received c es) (received c fs)))
  | inr h ↦ rw h (received-append c es fs)
]
received-append c (end d ∷ es) fs = received-append c es fs
received-append c (destroy d ∷ es) fs = received-append c es fs
received-append c (set_timeout d ∷ es) fs = received-append c es fs
received-append c (set_no_delay d ∷ es) fs = received-append c es fs

-- Calls that write to no socket but c.
abbrev pub OnlyTo : ℕ → List Effect → Type 0
OnlyTo c es = (d : ℕ) → (d == c) ≡ false → received d es ≡ []

missed : (c d : ℕ) → (d == c) ≡ false → (c == d) ≡ false
missed c d h = ground arith

headers_elsewhere :
    (c d : ℕ) (headers : List (Text × Text)) (es : List Effect)
    → (c == d) ≡ false
    → received d (map (λ h. write c (header_line h)) headers ++ es) ≡ received d es
unfolding received
headers_elsewhere c d [] es m = refl
headers_elsewhere c d (h ∷ hs) es m = rw m (headers_elsewhere c d hs es m)

texts_elsewhere :
    (c d : ℕ) (texts : List Text) (es : List Effect)
    → (c == d) ≡ false
    → received d (map (write c) texts ++ es) ≡ received d es
unfolding received
texts_elsewhere c d [] es m = refl
texts_elsewhere c d (t ∷ ts) es m = rw m (texts_elsewhere c d ts es m)

head_calls-OnlyTo :
    (c code : ℕ) (headers : List (Text × Text)) → OnlyTo c (head_calls c code headers)
unfolding received
head_calls-OnlyTo c code headers d h =
    let m = missed c d h in rw m (headers_elsewhere c d headers (write c crlf ∷ []) m ∙ rw m refl)

pub closing-OnlyTo :
    (c code : ℕ) (headers : List (Text × Text)) (texts : List Text)
    → OnlyTo c (closing c code headers texts)
unfolding received
closing-OnlyTo c code headers texts d h =
    let m = missed c d h in
    received-append d (head_calls c code headers) _
    ∙ rw (head_calls-OnlyTo c code headers d h) (texts_elsewhere c d texts (end c ∷ []) m)

pub refuse-OnlyTo :
    (c code : ℕ) (headers : List (Text × Text))
    → OnlyTo c (head_calls c code headers ++ destroy c ∷ [])
unfolding received
refuse-OnlyTo c code headers d h =
    received-append d (head_calls c code headers) (destroy c ∷ [])
    ∙ rw (head_calls-OnlyTo c code headers d h) refl

pub stream_calls-OnlyTo : (c : ℕ) → OnlyTo c (stream_calls c)
unfolding received
stream_calls-OnlyTo c d h =
    let m = missed c d h in
    received-append d (head_calls c 200 stream_headers) (write c greeting ∷ [])
    ∙ rw (head_calls-OnlyTo c 200 stream_headers d h, m) refl

headers_here :
    (c : ℕ) (headers : List (Text × Text)) (es : List Effect)
    → received c (map (λ h. write c (header_line h)) headers ++ es)
      ≡ header_lines headers ++ received c es
unfolding received
headers_here c [] es = refl
headers_here c (h ∷ hs) es =
    rw (==_refl c, headers_here c hs es)
      (sym (append_assoc (header_line h) (header_lines hs) (received c es)))

received-head_calls :
    (c code : ℕ) (headers : List (Text × Text))
    → received c (head_calls c code headers) ≡ status_line code ++ (header_lines headers ++ crlf)
unfolding received
received-head_calls c code headers = rw (==_refl c) (
    ap (λ t. status_line code ++ t)
      (headers_here c headers (write c crlf ∷ []) ∙ rw (==_refl c) refl))

received-greeting :
    (c : ℕ) (headers : List (Text × Text))
    → received c (head_calls c 200 headers ++ write c greeting ∷ [])
      ≡ status_line 200 ++ (header_lines headers ++ (crlf ++ greeting))
unfolding received
received-greeting c headers =
    received-append c (head_calls c 200 headers) (write c greeting ∷ [])
    ∙ rw (received-head_calls c 200 headers, ==_refl c) (simp (append_assoc, append-nil))

pub received-stream_calls : (c : ℕ) → received c (stream_calls c) ≡ opening
unfolding received
received-stream_calls c = received-greeting c stream_headers

-- A message to a list of sockets, each of which gets it as often as it stands there.
pub received-publish :
    (d : ℕ) (line : Text) (cs : List ℕ) (b : Bool)
    → count d cs ≡ (if b then 1 else 0)
    → received d (map (λ c. write c line) cs) ≡ (if b then line else [])
unfolding received
received-publish d line [] true h = absurd (omega arith)
received-publish d line [] false h = refl
received-publish d line (c ∷ cs) true h = elim (Bool-cases (c == d)) [
  | inl hit ↦
      let rest : count d cs ≡ 0 = ground arith in
      rw (hit, received-publish d line cs false rest) (append-nil line)
  | inr miss ↦ rw miss (received-publish d line cs true (rw miss at h))
]
received-publish d line (c ∷ cs) false h =
    let miss : (c == d) ≡ false = ground arith in
    rw miss (received-publish d line cs false (rw miss at h))

pub count-append : (d : ℕ) (cs ds : List ℕ) → count d (cs ++ ds) ≡ count d cs + count d ds
count-append d [] ds = omega arith
count-append d (c ∷ cs) ds = ground (arith, count-append d cs ds)

pub count-reverse : (d : ℕ) (cs : List ℕ) → count d (reverse cs) ≡ count d cs
count-reverse d [] = refl
count-reverse d (c ∷ cs) =
    ap (count d) (reverse-append (c ∷ []) cs)
    ∙ count-append d (reverse cs) (c ∷ [])
    ∙ ground (arith, count-reverse d cs)

pub frames-append :
    (bodies : List (Option Text)) (body : Option Text)
    → frames (bodies ++ body ∷ []) ≡ frames bodies ++ frame body
frames-append [] body = append-nil (frame body)
frames-append (b ∷ bs) body =
    rw (frames-append bs body) (sym (append_assoc (frame b) (frames bs) (frame body)))
