-- ===== src/Reporter/Gather.antt =====
-- `gatherStats` of stats-reporter/report.js with its three tasks, and `reportStats`. A gathering is
-- numbered by the call of `gatherStats` that starts it, and its callback of `fetchDeliveryTiming` by
-- the same number. Times are milliseconds.
pub mod Frame
pub mod Invariant
pub mod Steps
pub mod Once
mod Tests
use sse_broadcast_benchmark.Common.{
  ℕ, suc, ◌+◌, ◌≡◌, Bool, true, false, ◌&&◌, ◌||◌, List, [], ◌∷◌, ◌++◌, Option, none, some, ◌==◌,
  if◌then◌else◌, leb,
}
use sse_broadcast_benchmark.Common.Int.{ℤ, sub_ℕ}
use sse_broadcast_benchmark.Js.Text.{Text}
use sse_broadcast_benchmark.Reporter.Count.{or_zero}
use sse_broadcast_benchmark.Reporter.Delivery.{
  Timing, idle, get_delivery_timing, on_open, on_error, on_message, on_timer,
}

-- A task of `async.parallel`: its callback has not been called, was called with an error, or with a
-- result.
pub data Task {ℓ} (A : Type ℓ) : Type ℓ where
  waiting failed : Task A
  done : A → Task A

-- `getNetworkTiming`: its stream is opening since some time, or it has a response time and waits for
-- `fetchDeliveryTiming`, or it has both times, or its stream has failed.
pub data Network : Type 0 where
  opening : ℕ → Network
  measuring : ℤ → Network
  measured : ℤ → ℤ → Network
  broken : Network

-- `Usage` is what `usage.lookup` finds, and `Loads` what `os.loadavg` returns.
pub record SystemInfo (Usage Loads : Type 0) : Type 0 where
  pub usage : Usage
  pub load_avg : Loads
  pub hostname : Text
  pub sse_port : ℤ
  pub free_mem : ℕ

pub record Gathering (Usage Loads : Type 0) : Type 0 where
  pub system : Task (SystemInfo Usage Loads)
  pub network : Network
  pub count : Task ℤ

pub record Stats (Usage Loads : Type 0) : Type 0 where
  pub system_info : SystemInfo Usage Loads
  pub response_time : ℤ
  pub delivery_time : ℤ
  pub connection_count : ℤ
  pub timestamp : ℕ

-- `getNetworkTiming` as a task. A handler that throws calls no callback.
abbrev pub network_task : Network → Task (ℤ × ℤ)
network_task (opening start) = waiting
network_task (measuring response_time) = waiting
network_task (measured response_time delivery_time) = done (response_time, delivery_time)
network_task broken = waiting

-- The gatherings, the closure `fetchDeliveryTiming`, whether an exception has ended the process, how
-- many streams of `getNetworkTiming` were closed, and the statistics posted to the endpoint.
pub record Reporter (Usage Loads : Type 0) : Type 0 where
  pub gatherings : ℕ → Option (Gathering Usage Loads)
  pub next_gathering : ℕ
  pub timing : Timing
  pub crashed : Bool
  pub closed : ℕ
  pub reports : List (ℕ × Stats Usage Loads)

abbrev pub no_gatherings : {Usage Loads : Type 0} → Reporter Usage Loads
no_gatherings = record {
  gatherings = λ n. none;
  next_gathering = 0;
  timing = idle;
  crashed = false;
  closed = 0;
  reports = [];
}

module _ {Usage Loads : Type 0} where
  abbrev pub set_gathering : ℕ → Gathering Usage Loads → Reporter Usage Loads → Reporter Usage Loads
  set_gathering n g s = record s { gatherings = λ k. if k == n then some g else s.gatherings k }

  -- `gatherStats` starts the three tasks.
  unfoldable pub gather_stats : ℕ → Reporter Usage Loads → Reporter Usage Loads
  gather_stats now s =
      record (set_gathering s.next_gathering
        (record { system = waiting; network = opening now; count = waiting }) s) {
          next_gathering = suc s.next_gathering;
        }

  -- `reportStats`
  unfoldable pub report_stats :
      ℕ → ℕ → SystemInfo Usage Loads × (ℤ × ℤ) × ℤ → Reporter Usage Loads → Reporter Usage Loads
  report_stats n now (info, (response_time, delivery_time), count) s = record s {
    reports =
        s.reports
        ++ (
          n,
          record {
            system_info = info;
            response_time = response_time;
            delivery_time = delivery_time;
            connection_count = count;
            timestamp = now;
          },
        )
          ∷ [];
  }

-- What `async.parallel` makes of its tasks.
abbrev pub Parallel : Type 0 → Type 0 → Type 0
Parallel Usage Loads =
    Task (SystemInfo Usage Loads)
    → Task (ℤ × ℤ)
    → Task ℤ
    → Task (SystemInfo Usage Loads × (ℤ × ℤ) × ℤ)

-- The callback of `async.parallel`, which is not called while it waits.
unfoldable pub conclude :
    {Usage Loads : Type 0}
    → Task (SystemInfo Usage Loads × (ℤ × ℤ) × ℤ)
    → ℕ
    → ℕ
    → Reporter Usage Loads
    → Reporter Usage Loads
unfolding report_stats
conclude waiting n now s = s
conclude failed n now s = s
conclude (done results) n now s = report_stats n now results s

-- A task of the gathering n has called its callback, which makes it g.
unfoldable pub finish :
    {Usage Loads : Type 0}
    → Parallel Usage Loads
    → ℕ
    → ℕ
    → Gathering Usage Loads
    → Reporter Usage Loads
    → Reporter Usage Loads
unfolding conclude
finish parallel n now g s =
    conclude (parallel g.system (network_task g.network) g.count) n now (set_gathering n g s)

module _ {Usage Loads : Type 0} (parallel : Parallel Usage Loads) (to_number : Text → Option ℤ)
    (port : ℤ) where
  -- `getSystemInfo`: `usage.lookup` has an error, or finds the usage.
  unfoldable pub on_lookup :
      ℕ
      → ℕ
      → Option (SystemInfo Usage Loads)
      → Gathering Usage Loads
      → Reporter Usage Loads
      → Reporter Usage Loads
  unfolding finish
  on_lookup n now none g s = finish parallel n now (record g { system = failed }) s
  on_lookup n now (some found) g s =
      finish parallel n now (record g { system = done (record found { sse_port = port }) }) s

  -- `getConnectionCount`: `request` has an error, or receives a body.
  unfoldable pub on_count :
      ℕ
      → ℕ
      → Bool
      → Option Text
      → Gathering Usage Loads
      → Reporter Usage Loads
      → Reporter Usage Loads
  unfolding finish or_zero
  on_count n now true body g s = finish parallel n now (record g { count = failed }) s
  on_count n now false body g s =
      finish parallel n now (record g { count = done (or_zero to_number body) }) s

  -- The stream of `getNetworkTiming` opens: it is closed, and `fetchDeliveryTiming` is called.
  unfoldable pub on_network_open :
      ℕ → ℕ → ℕ → Gathering Usage Loads → Reporter Usage Loads → Reporter Usage Loads
  unfolding get_delivery_timing
  on_network_open n now start g s =
      let g' = record g { network = measuring (sub_ℕ now start) } in
      record (set_gathering n g' s) {
        closed = s.closed + 1;
        timing = get_delivery_timing n s.timing;
      }

  -- The stream of `getNetworkTiming` fails: the handler reads `timeoutId`, which is not declared.
  unfoldable pub on_network_error :
      ℕ → Gathering Usage Loads → Reporter Usage Loads → Reporter Usage Loads
  on_network_error n g s = record (set_gathering n (record g { network = broken }) s) {
    crashed = true;
  }

  -- The callback that `getNetworkTiming` gives to `fetchDeliveryTiming`.
  unfoldable pub on_delivery :
      ℕ → ℕ → ℤ → Gathering Usage Loads → Reporter Usage Loads → Reporter Usage Loads
  unfolding finish
  on_delivery n now delivery_time g s = elim g.network [
    | measuring response_time ↦
        finish parallel n now (record g { network = measured response_time delivery_time }) s
    | _ ↦ s
  ]

  -- A message of the stream of `fetchDeliveryTiming`.
  unfoldable pub on_timestamp : ℕ → ℕ → Reporter Usage Loads → Reporter Usage Loads
  unfolding on_delivery on_message
  on_timestamp now sent_at s =
      let s' = record s { timing = on_message now sent_at s.timing } in
      elim s.timing.cb [
        | none ↦ s'
        | some n ↦ elim (s.gatherings n) [
          | none ↦ s'
          | some g ↦ on_delivery n now (sub_ℕ now sent_at) g s'
        ]
      ]

-- `onStatsReported`: whether it complains, of an error or of a status.
unfoldable pub on_stats_reported : Bool → ℕ → Bool
on_stats_reported err status = err || leb 400 status
