-- ===== src/Reporter/Gather/Once.antt =====
-- Each gathering of stats-reporter/report.js is reported once, when its three tasks have results.
use sse_broadcast_benchmark.Common.{ℕ, ◌≡◌, refl, Bool, false, Option, some, if◌then◌else◌}
use sse_broadcast_benchmark.Common.Int.{ℤ}
use sse_broadcast_benchmark.Js.Text.{Text}
use sse_broadcast_benchmark.Reporter.Delivery.{on_open, on_error, on_timer, schedule_broadcast}
use sse_broadcast_benchmark.Reporter.Gather.{
  waiting, opening, SystemInfo, Gathering, Reporter, no_gatherings, Parallel, gather_stats,
  on_lookup, on_count, on_network_open, on_network_error, on_timestamp,
}
use sse_broadcast_benchmark.Reporter.Gather.Frame.{IsParallel, reported, is_complete}
use sse_broadcast_benchmark.Reporter.Gather.Invariant.{
  Inv, on_error-cb, no_gatherings-Inv, timing-Inv, gather_stats-Inv,
}
use sse_broadcast_benchmark.Reporter.Gather.Steps.{
  on_lookup-Inv, on_count-Inv, on_network_open-Inv, on_network_error-Inv, on_timestamp-Inv,
}

module _ {Usage Loads : Type 0} (parallel : Parallel Usage Loads) (to_number : Text → Option ℤ)
    (port : ℤ) where
  -- The interval of `gatherStats`, the answers to its tasks, at most one to each, and the events of
  -- `fetchDeliveryTiming`, while the process lives.
  pub data History : Reporter Usage Loads → Type 0 where
    begin : History no_gatherings
    gather :
        {s : Reporter Usage Loads} (now : ℕ)
        → History s
        → s.crashed ≡ false
        → History (gather_stats now s)
    looked_up :
        {s : Reporter Usage Loads} (n now : ℕ) (found : Option (SystemInfo Usage Loads))
        (g : Gathering Usage Loads)
        → History s
        → s.crashed ≡ false
        → s.gatherings n ≡ some g
        → g.system ≡ waiting
        → History (on_lookup parallel to_number port n now found g s)
    counted :
        {s : Reporter Usage Loads} (n now : ℕ) (err : Bool) (body : Option Text)
        (g : Gathering Usage Loads)
        → History s
        → s.crashed ≡ false
        → s.gatherings n ≡ some g
        → g.count ≡ waiting
        → History (on_count parallel to_number port n now err body g s)
    network_opened :
        {s : Reporter Usage Loads} (n now since : ℕ) (g : Gathering Usage Loads)
        → History s
        → s.crashed ≡ false
        → s.gatherings n ≡ some g
        → g.network ≡ opening since
        → History (on_network_open parallel to_number port n now since g s)
    network_failed :
        {s : Reporter Usage Loads} (n since : ℕ) (g : Gathering Usage Loads)
        → History s
        → s.crashed ≡ false
        → s.gatherings n ≡ some g
        → g.network ≡ opening since
        → History (on_network_error parallel to_number port n g s)
    stream_opened :
        {s : Reporter Usage Loads}
        → History s
        → s.crashed ≡ false
        → History (record s { timing = on_open s.timing })
    stream_failed :
        {s : Reporter Usage Loads}
        → History s
        → s.crashed ≡ false
        → History (record s { timing = on_error s.timing })
    told :
        {s : Reporter Usage Loads} (now sent_at : ℕ)
        → History s
        → s.crashed ≡ false
        → History (on_timestamp parallel to_number port now sent_at s)
    timer_fired :
        {s : Reporter Usage Loads} (t : ℕ)
        → History s
        → s.crashed ≡ false
        → History (record s { timing = on_timer t s.timing })

module _ {Usage Loads : Type 0} (parallel : Parallel Usage Loads)
    (p : IsParallel Usage Loads parallel) (to_number : Text → Option ℤ) (port : ℤ) where
  History-Inv : {s : Reporter Usage Loads} → History parallel to_number port s → Inv Usage Loads s
  unfolding on_open schedule_broadcast on_timer
  History-Inv begin = no_gatherings-Inv
  History-Inv (gather {s} now h _) = gather_stats-Inv s (History-Inv h) now
  History-Inv (looked_up {s} n now found g h _ at_n w) =
      on_lookup-Inv parallel p to_number port s (History-Inv h) n now found g at_n w
  History-Inv (counted {s} n now err body g h _ at_n w) =
      on_count-Inv parallel p to_number port s (History-Inv h) n now err body g at_n w
  History-Inv (network_opened {s} n now since g h _ at_n o) =
      on_network_open-Inv parallel p to_number port s (History-Inv h) n now since g at_n o
  History-Inv (network_failed {s} n since g h _ at_n o) =
      on_network_error-Inv parallel p to_number port s (History-Inv h) n since g at_n o
  History-Inv (stream_opened {s} h _) = timing-Inv s (on_open s.timing) refl (History-Inv h)
  History-Inv (stream_failed {s} h _) =
      timing-Inv s (on_error s.timing) (on_error-cb s.timing) (History-Inv h)
  History-Inv (told {s} now sent_at h _) =
      on_timestamp-Inv parallel p to_number port s (History-Inv h) now sent_at
  History-Inv (timer_fired {s} t h _) = timing-Inv s (on_timer t s.timing) refl (History-Inv h)

  -- If `async.parallel` does what is documented of it: whatever happens to the reporter, a gathering
  -- has been reported once if its system information, its network timing and its connection count
  -- have all arrived without an error, and otherwise not at all.
  pub reported_once :
      (s : Reporter Usage Loads)
      → History parallel to_number port s
      → (n : ℕ) → reported n s.reports ≡ (if is_complete (s.gatherings n) then 1 else 0)
  reported_once s h n = (History-Inv h).once n
