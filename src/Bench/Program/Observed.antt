-- ===== src/Bench/Program/Observed.antt =====
-- What is to be seen in the events of a benchmark: the samples that its report is about.
use sse_broadcast_benchmark.Common.{
  ℕ, zero, suc, ◌≡◌, refl, sym, ap, ◌∙◌, List, [], ◌∷◌, ◌++◌, map, length, append-nil, append_assoc,
}
use sse_broadcast_benchmark.Common.Int.{ℤ, pos, sub_ℕ}
use sse_broadcast_benchmark.Js.Text.{Text, show_text}
use sse_broadcast_benchmark.Bench.Report.Loads.{Doubles, load_texts}
use sse_broadcast_benchmark.Bench.Report.{Measured}
use sse_broadcast_benchmark.Bench.Program.{
  Options, Event, probe_answered, probe_failed, client_failed, message, sample, is_local,
}

unfoldable pub collect : {A B : Type 0} → (A → List B) → List A → List B
collect f [] = []
collect f (x ∷ xs) = f x ++ collect f xs

pub collect_snoc :
    {A B : Type 0}
    → (f : A → List B) (xs : List A) (x : A) → collect f (xs ++ x ∷ []) ≡ collect f xs ++ f x
unfolding collect
collect_snoc f [] x = append-nil (f x)
collect_snoc f (y ∷ xs) x =
    ap (λ l. f y ++ l) (collect_snoc f xs x) ∙ sym (append_assoc (f y) (collect f xs) (f x))

module _ {Load : Type 0} where
  abbrev pub response_time : Event Load → List ℕ
  response_time (probe_answered elapsed now) = elapsed ∷ []
  response_time e = []

  abbrev pub delivery_time : Event Load → List ℤ
  delivery_time (message now sent_at) = sub_ℕ now sent_at ∷ []
  delivery_time e = []

  abbrev pub load_sample : Event Load → List Load
  load_sample (sample load total_mem free_mem) = load ∷ []
  load_sample e = []

  -- The memory in use.
  abbrev pub mem_sample : Event Load → List ℤ
  mem_sample (sample load total_mem free_mem) = sub_ℕ total_mem free_mem ∷ []
  mem_sample e = []

  -- A failure of a probe or a client.
  abbrev pub failure : Event Load → List (Event Load)
  failure probe_failed = probe_failed ∷ []
  failure client_failed = client_failed ∷ []
  failure e = []

  abbrev pub times : List (Event Load) → List ℕ
  times es = collect response_time es

  -- The text of the time of the last answer, or one from before.
  unfoldable pub last_now : Text → List (Event Load) → Text
  last_now before [] = before
  last_now before (probe_answered elapsed now ∷ es) = last_now now es
  last_now before (e ∷ es) = last_now before es

  -- The events until so many probes have been answered.
  unfoldable pub until : ℕ → List (Event Load) → List (Event Load)
  until zero es = []
  until (suc k) [] = []
  until (suc k) (probe_answered elapsed now ∷ es) = probe_answered elapsed now ∷ until k es
  until (suc k) (e ∷ es) = e ∷ until (suc k) es

  pub last_now-append :
      (before : Text) (xs : List (Event Load)) (elapsed : ℕ) (now : Text)
      → last_now before (xs ++ probe_answered elapsed now ∷ []) ≡ now
  unfolding last_now
  last_now-append before [] elapsed now = refl
  last_now-append before (probe_answered _ then ∷ xs) elapsed now =
      last_now-append then xs elapsed now
  last_now-append before (probe_failed ∷ xs) elapsed now = last_now-append before xs elapsed now
  last_now-append before (client_failed ∷ xs) elapsed now = last_now-append before xs elapsed now
  last_now-append before (message _ _ ∷ xs) elapsed now = last_now-append before xs elapsed now
  last_now-append before (sample _ _ _ ∷ xs) elapsed now = last_now-append before xs elapsed now

-- The measurements that some events come to.
abbrev pub observed : {Load : Type 0} → Doubles Load → Options → List (Event Load) → Measured
observed doubles args es = record {
  profile_name = show_text args.profile_name;
  now = last_now [] es;
  bench_duration = args.duration_text;
  response_times = map pos (times es);
  push_diff_times = collect delivery_time es;
  mem_usage = collect mem_sample es;
  loads = load_texts doubles (collect load_sample es);
  num_errors = length (collect failure es);
  is_local = is_local args;
}
