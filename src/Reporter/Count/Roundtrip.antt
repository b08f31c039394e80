-- ===== src/Reporter/Count/Roundtrip.antt =====
-- The reporter reads the number of clients that the server has.
use native.Mathlib.Nat.{mod-eq_of_lt}
use sse_broadcast_benchmark.Common.{
  ℕ, ◌%◌, ◌^◌, ◌<◌, ◌≡◌, refl, ap, ◌∙◌, true, List, [], ◌∷◌, ◌++◌, Option, some, arith, length, ltb,
}
use sse_broadcast_benchmark.Common.Int.{ℤ, pos}
use sse_broadcast_benchmark.Js.Text.{Text}
use sse_broadcast_benchmark.Js.Number.{show, show_int}
use sse_broadcast_benchmark.Server.Response.{count_headers, write_connection_count}
use sse_broadcast_benchmark.Server.Response.Bytes.{closing, write_connection_count_lem}
use sse_broadcast_benchmark.Server.Clients.Delivery.{live}
use sse_broadcast_benchmark.Server.Connection.Phases.{IsDecoder}
use sse_broadcast_benchmark.Server.World.{World, Reach}
use sse_broadcast_benchmark.Server.World.Population.{num_clients-live}
use sse_broadcast_benchmark.Reporter.Count.{to_int32, signed, or_zero}

-- JavaScript reads the digits of a number below 2 ^ 53, which a double holds exactly, as this number.
abbrev pub ReadsDigits : (Text → Option ℤ) → Type 0
ReadsDigits to_number = (n : ℕ) → n < 2 ^ 53 → to_number (show n) ≡ some (pos n)

to_int32_small : (n : ℕ) → n < 2 ^ 31 → to_int32 (pos n) ≡ pos n
unfolding to_int32 signed
to_int32_small n h =
    let e : n % 2 ^ 32 ≡ n = mod-eq_of_lt (omega arith) in
    let l : ltb n (2 ^ 31) ≡ true = ground arith in rw (e, l) refl

-- In every state that the program reaches with fewer than 2 ^ 31 clients in its table, the answer to
-- a request for the number of connections is a text that the reporter reads as the number of them,
-- if JavaScript reads the digits of every number below 2 ^ 53 as this number.
pub or_zero-write_connection_count :
    (decode : List ℕ → Text)
    → IsDecoder decode
    → (to_number : Text → Option ℤ) → ReadsDigits to_number
    → (w : World) → Reach decode w
    → (c : ℕ) → length (live w.server.clients) < 2 ^ 31
    → (body : Text) × ((write_connection_count c w.server).log
        ≡ w.server.log ++ closing c 200 count_headers (body ∷ []))
      × (or_zero to_number (some body) ≡ pos (length (live w.server.clients)))
unfolding or_zero show_int
or_zero-write_connection_count decode decoder to_number reads w r c h =
    let n = length (live w.server.clients) in
    let counted = num_clients-live decode decoder w r in
    let number = reads n (omega arith) in
    (
      show n,
      ap (λ s. s.log) (write_connection_count_lem c w.server)
          ∙ ap (λ z. w.server.log ++ closing c 200 count_headers (show_int z ∷ [])) counted,
      rw (number, or_zero) (to_int32_small n h),
    )
