-- ===== src/Reporter/Timestamp/Request.antt =====
-- The server takes the request of `sendTimestampBroadcast` for what it is.
use sse_broadcast_benchmark.Common.{
  ◌+◌, ◌≡◌, refl, sym, ap, subst, ◌∙◌, true, false, ◌&&◌, [], ◌∷◌, ◌++◌, some, arith, length, take,
  drop, length-append, take-append, drop-append, append_assoc, get_elem?,
}
use mathlib.Core.Path.{ap₂}
use sse_broadcast_benchmark.Js.Text.{Text, codes, index_of, split_words}
use sse_broadcast_benchmark.Js.Text.Laws.{has, split_words-two}
use sse_broadcast_benchmark.Js.Text.Search.{clear, clear-append, clear-has, index_of-clear}
use sse_broadcast_benchmark.Js.Number.{show, is_digit}
use sse_broadcast_benchmark.Js.Number.Laws.{
  all_digits, all_digits-show, show-cons, parse_digits-show,
}
use sse_broadcast_benchmark.Js.Regex.{match_length}
use sse_broadcast_benchmark.Js.Regex.Laws.{unmatched, match_length-unmatched, match_length-header}
use sse_broadcast_benchmark.Server.Post.{complete, blank_line, post_verdict, check_length}
use sse_broadcast_benchmark.Server.Post.Framing.{post_verdict_found, check_length-exact}
use sse_broadcast_benchmark.Reporter.Timestamp.{ip, newline, broadcast_request}

-- The request up to the header that gives the length.
abbrev before_length : Text
before_length =
    codes "POST /broadcast HTTP/1.1"
    ++ (newline
        ++ (codes "Host: " ++ (ip ++ (newline ++ (codes "Content-Type: text/plain" ++ newline)))))

-- The same, up to the number.
abbrev before_number : Text
before_number = before_length ++ codes "Content-Length: "

abbrev after_words : Text
after_words =
    codes "HTTP/1.1"
    ++ (newline
        ++ (codes "Host: "
            ++ (ip
                ++ (newline
                    ++ (codes "Content-Type: text/plain"
                        ++ (newline ++ codes "Content-Length: "))))))

has-digits : (ds : Text) → all_digits ds ≡ true → has 13 ds ≡ false
unfolding has is_digit
has-digits [] h = refl
has-digits (c ∷ ds) h = ground (arith, has-digits ds)

module _ (payload : Text) where
  number : Text
  number = show (length payload)

  -- The request, cut at its blank line.
  request_parts : broadcast_request payload ≡ (before_number ++ number) ++ (blank_line ++ payload)
  unfolding broadcast_request number
  request_parts = refl

  number-clear : clear blank_line number (blank_line ++ payload) ≡ true
  unfolding number
  number-clear =
      clear-has 13 _ number (blank_line ++ payload)
        (has-digits number (all_digits-show (length payload)))

  prefix-clear : (tail : Text) → clear blank_line before_number tail ≡ true
  unfolding clear codes
  prefix-clear tail = refl

  found :
      index_of blank_line ((before_number ++ number) ++ (blank_line ++ payload))
      ≡ some (length (before_number ++ number))
  found = index_of-clear blank_line (before_number ++ number) payload (
      clear-append blank_line before_number number (blank_line ++ payload)
      ∙ ap₂ ◌&&◌ (prefix-clear (number ++ (blank_line ++ payload))) number-clear)

  headers : Text
  headers = (before_number ++ number) ++ blank_line

  -- The request, cut behind its blank line.
  request_headers : broadcast_request payload ≡ headers ++ payload
  unfolding headers
  request_headers = request_parts ∙ sym (append_assoc (before_number ++ number) blank_line payload)

  at_headers : length (before_number ++ number) + 4 ≡ length headers
  unfolding headers
  at_headers = omega (arith, length-append (before_number ++ number) blank_line)

  parts_taken : take (length (before_number ++ number) + 4) (broadcast_request payload) ≡ headers
  parts_taken = rw (at_headers, request_headers) (take-append headers payload)

  parts_dropped : drop (length (before_number ++ number) + 4) (broadcast_request payload) ≡ payload
  parts_dropped = rw (at_headers, request_headers) (drop-append headers payload)

  number_tail : Text
  number_tail = 10 ∷ 13 ∷ 10 ∷ []

  prefix-unmatched : (tail : Text) → unmatched before_length tail ≡ true
  unfolding unmatched codes
  prefix-unmatched tail = refl

  header_matched :
      match_length (codes "Content-Length: " ++ (number ++ (13 ∷ number_tail))) ≡ some number
  unfolding number
  header_matched =
      let (c, ds, e) = show-cons (length payload) in
      subst (λ n. match_length (codes "Content-Length: " ++ (n ++ (13 ∷ number_tail))) ≡ some n)
        (sym e)
        (match_length-header c ds number_tail
          (subst (λ n. all_digits n ≡ true) e (all_digits-show (length payload))))

  headers_parts :
      headers ≡ before_length ++ (codes "Content-Length: " ++ (number ++ (13 ∷ number_tail)))
  unfolding headers number_tail
  headers_parts =
      append_assoc (before_length ++ codes "Content-Length: ") number blank_line
      ∙ append_assoc before_length (codes "Content-Length: ") (number ++ blank_line)

  headers_matched : match_length headers ≡ some number
  headers_matched =
      ap match_length headers_parts
      ∙ match_length-unmatched before_length
          (codes "Content-Length: " ++ (number ++ (13 ∷ number_tail))) (prefix-unmatched _)
      ∙ header_matched

  headers_words : (w : Text) × (split_words headers ≡ codes "POST" ∷ codes "/broadcast" ∷ w ∷ [])
  unfolding headers codes
  headers_words =
      split_words-two (codes "POST") (codes "/broadcast") ((after_words ++ number) ++ blank_line)
        (unfold has in refl) (unfold has in refl)

  -- The server finds in the request of `sendTimestampBroadcast` a POST of the payload to /broadcast.
  pub post_verdict-broadcast_request :
      post_verdict (broadcast_request payload)
      ≡ complete (some (codes "POST")) (some (codes "/broadcast")) payload
  post_verdict-broadcast_request =
      let at = length (before_number ++ number) in
      let (w, words) = headers_words in
      post_verdict_found (broadcast_request payload) at
        (ap (index_of blank_line) request_parts ∙ found)
      ∙ ap₂ check_length parts_taken parts_dropped
      ∙ check_length-exact headers payload number headers_matched
          (unfold number in sym (parse_digits-show (length payload)))
      ∙ ap (λ ws. complete (get_elem? ws 0) (get_elem? ws 1) payload) words
