-- ===== src/Reporter/Delivery.antt =====
-- The closure `fetchDeliveryTiming` of stats-reporter/report.js. A callback is a number, given anew by
-- each call; times are milliseconds.
pub mod Callbacks
pub mod Timers
use sse_broadcast_benchmark.Common.{
  ℕ, suc, ◌+◌, Bool, true, false, List, [], ◌∷◌, ◌++◌, Option, none, some, ◌==◌, if◌then◌else◌,
}
use sse_broadcast_benchmark.Common.Int.{ℤ, sub_ℕ}

-- The variables `cb`, `deliveryTimingRunning` and `timeoutId` (with `none` for -1), the timers that
-- are pending and the number of the next, the streams opened and closed, the timestamps sent, and
-- the calls of callbacks, with the time that each is told.
pub record Timing : Type 0 where
  pub cb : Option ℕ
  pub running : Bool
  pub timeout_id : Option ℕ
  pub timers : List ℕ
  pub next_timer : ℕ
  pub opened : ℕ
  pub closed : ℕ
  pub sent : ℕ
  pub calls : List (ℕ × ℤ)

abbrev pub idle : Timing
idle = record {
  cb = none;
  running = false;
  timeout_id = none;
  timers = [];
  next_timer = 0;
  opened = 0;
  closed = 0;
  sent = 0;
  calls = [];
}

unfoldable pub remove_timer : ℕ → List ℕ → List ℕ
remove_timer t [] = []
remove_timer t (u ∷ us) = let rest = remove_timer t us in if u == t then us else u ∷ rest

-- `getDeliveryTiming`; a new stream has its own `timeoutId`.
unfoldable pub get_delivery_timing : ℕ → Timing → Timing
get_delivery_timing callback s =
    if s.running
    then record s { cb = some callback }
    else record s { cb = some callback; running = true; timeout_id = none; opened = s.opened + 1 }

unfoldable pub schedule_broadcast : Timing → Timing
schedule_broadcast s = record s {
  timeout_id = some s.next_timer;
  timers = s.timers ++ s.next_timer ∷ [];
  next_timer = suc s.next_timer;
}

unfoldable pub on_open : Timing → Timing
unfolding schedule_broadcast
on_open s = schedule_broadcast s

unfoldable pub clear_timeout : Timing → Timing
unfolding remove_timer
clear_timeout s = elim s.timeout_id [
  | none ↦ s
  | some t ↦ record s { timers = remove_timer t s.timers; timeout_id = none }
]

unfoldable pub on_error : Timing → Timing
unfolding clear_timeout
on_error s =
    let s' = clear_timeout (record s { running = false }) in record s' { closed = s'.closed + 1 }

-- `cb(Date.now() - parseInt(msg.data, 10))`, for a message that holds a time.
unfoldable pub call_back : ℕ → ℕ → Timing → Timing
call_back now sent_at s = elim s.cb [
  | none ↦ s
  | some callback ↦ record s { calls = s.calls ++ (callback, sub_ℕ now sent_at) ∷ []; cb = none }
]

unfoldable pub on_message : ℕ → ℕ → Timing → Timing
unfolding call_back schedule_broadcast
on_message now sent_at s = schedule_broadcast (call_back now sent_at s)

-- A timer runs out: `sendTimestampBroadcast`.
unfoldable pub on_timer : ℕ → Timing → Timing
unfolding remove_timer
on_timer t s = record s { timers = remove_timer t s.timers; sent = s.sent + 1 }
