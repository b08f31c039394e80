-- ===== src/Reporter/Gather/Tests.antt =====
-- A gathering of the reporter at a concrete run.
use sse_broadcast_benchmark.Common.{ℕ, ◌≡◌, refl, false, ◌&&◌, Option, none, some, if◌then◌else◌}
use sse_broadcast_benchmark.Common.Int.{ℤ, pos}
use sse_broadcast_benchmark.Js.Text.{Text, codes}
use sse_broadcast_benchmark.Js.Number.{is_digit, parse_digits}
use sse_broadcast_benchmark.Js.Number.Laws.{all_digits}
use sse_broadcast_benchmark.Reporter.Delivery.{get_delivery_timing, on_message}
use sse_broadcast_benchmark.Reporter.Gather.{
  Task, waiting, failed, done, opening, measuring, measured, SystemInfo, Gathering, Reporter,
  no_gatherings, Parallel, gather_stats, finish, on_lookup, on_count, on_network_open, on_timestamp,
}
use sse_broadcast_benchmark.Reporter.Gather.Frame.{IsParallel, is_done, reported, is_complete}
use sse_broadcast_benchmark.Reporter.Gather.Once.{
  History, begin, gather, looked_up, counted, network_opened, told, reported_once,
}

-- With the numbers of a process for its usage and its load.
parallel : Parallel ℕ ℕ
parallel (done info) (done times) (done count) = done (info, times, count)
parallel failed b c = failed
parallel a b c = waiting

to_number : Text → Option ℤ
to_number t = if all_digits t then some (pos (parse_digits t)) else none

parallel_unfinished :
    (a : Task (SystemInfo ℕ ℕ)) (b : Task (ℤ × ℤ)) (c : Task ℤ)
    → (is_done a && (is_done b && is_done c)) ≡ false
    → is_done (parallel a b c) ≡ false
unfolding parallel
parallel_unfinished waiting b c h = refl
parallel_unfinished failed b c h = refl
parallel_unfinished (done x) waiting c h = refl
parallel_unfinished (done x) failed c h = refl
parallel_unfinished (done x) (done y) waiting h = refl
parallel_unfinished (done x) (done y) failed h = refl
parallel_unfinished (done x) (done y) (done z) h = cc

parallel-IsParallel : IsParallel ℕ ℕ parallel
unfolding parallel
parallel-IsParallel = record {
  finished = λ info times count. refl;
  unfinished = parallel_unfinished;
}

abbrev info : SystemInfo ℕ ℕ
info = record {
  usage = 12;
  load_avg = 3;
  hostname = codes "host";
  sse_port = pos 0;
  free_mem = 4096;
}

abbrev started : Reporter ℕ ℕ
started = gather_stats 5000 no_gatherings

abbrev new_gathering : Gathering ℕ ℕ
new_gathering = record { system = waiting; network = opening 5000; count = waiting }

abbrev opened : Reporter ℕ ℕ
opened = on_network_open parallel to_number (pos 1942) 0 5003 5000 new_gathering started

abbrev measuring_gathering : Gathering ℕ ℕ
measuring_gathering = record new_gathering { network = measuring (pos 3) }

abbrev with_count : Reporter ℕ ℕ
with_count =
    on_count parallel to_number (pos 1942) 0 5004 false (some (codes "2")) measuring_gathering
      opened

abbrev with_times : Reporter ℕ ℕ
with_times = on_timestamp parallel to_number (pos 1942) 6010 6003 with_count

abbrev timed_gathering : Gathering ℕ ℕ
timed_gathering = record {
  system = waiting;
  network = measured (pos 3) (pos 7);
  count = done (pos 2);
}

abbrev complete : Reporter ℕ ℕ
complete = on_lookup parallel to_number (pos 1942) 0 6011 (some info) timed_gathering with_times

opened_first : opened.gatherings 0 ≡ some measuring_gathering
unfolding on_network_open gather_stats
opened_first = refl

complete-History : History parallel to_number (pos 1942) complete
unfolding gather_stats on_network_open on_count on_timestamp finish parallel on_message
    get_delivery_timing to_number codes is_digit parse_digits
complete-History =
    looked_up 0 6011 (some info) timed_gathering
      (told 6010 6003
        (counted 0 5004 false (some (codes "2")) measuring_gathering
          (network_opened 0 5003 5000 new_gathering (gather 5000 begin refl) refl refl refl) refl
          opened_first refl)
        refl)
      refl refl refl

one_report : reported 0 complete.reports ≡ 1
unfolding gather_stats on_network_open on_count on_timestamp finish parallel on_message
    get_delivery_timing to_number codes is_digit parse_digits on_lookup
one_report = refl

reported_once_example :
    reported 0 complete.reports ≡ (if is_complete (complete.gatherings 0) then 1 else 0)
reported_once_example =
    reported_once parallel parallel-IsParallel to_number (pos 1942) complete complete-History 0
