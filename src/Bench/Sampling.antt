-- ===== src/Bench/Sampling.antt =====
-- The loop of bench/bench.js that opens the clients, and which of them listen for messages.
pub mod Bounds
use sse_broadcast_benchmark.Common.{
  ℕ, zero, suc, ◌+◌, ◌/◌, ◌%◌, Bool, false, ◌||◌, List, [], ◌∷◌, ◌++◌, ◌==◌, if◌then◌else◌,
}

-- An `EventSource`: whether `onmessage` is set.
pub record Client : Type 0 where
  pub listens : Bool

abbrev pub sample_rate : ℕ → ℕ
sample_rate num_clients = num_clients / 20

-- `i % rate === 0`, where `i % 0` is NaN.
unfoldable pub divides : ℕ → ℕ → Bool
divides zero i = false
divides (suc r) i = i % suc r == 0

unfoldable pub is_sampled : ℕ → ℕ → Bool
unfolding divides
is_sampled num_clients i = i == 0 || divides (sample_rate num_clients) i || i == num_clients

-- The body of the loop, for i = 0, ..., rounds - 1.
unfoldable pub open_from : ℕ → ℕ → List Client
open_from num_clients zero = []
open_from num_clients (suc i) =
    open_from num_clients i ++ record { listens = is_sampled num_clients i } ∷ []

unfoldable pub open_clients : ℕ → List Client
unfolding open_from
open_clients num_clients = open_from num_clients num_clients

-- How many clients measure the delivery time.
unfoldable pub listeners : List Client → ℕ
listeners [] = 0
listeners (c ∷ cs) = (if c.listens then 1 else 0) + listeners cs
