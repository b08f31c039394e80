-- ===== src/Server/Connection/Plain.antt =====
-- A way to read bytes that satisfies what is asked of a decoder.
use sse_broadcast_benchmark.Common.{ℕ, List, refl}
use sse_broadcast_benchmark.Js.Text.{Text}
use sse_broadcast_benchmark.Server.Connection.Phases.{IsDecoder}

-- Bytes read as code units, which is UTF-8 on ASCII.
abbrev pub plain : List ℕ → Text
plain bytes = bytes

pub plain-IsDecoder : IsDecoder plain
plain-IsDecoder = record {
  nonempty = λ chunk h. h;
  empty = refl;
  ascii = λ a b h. refl;
  line_feed = λ chunk h. h;
}
