-- ===== src/Reporter/Gather/Frame.antt =====
-- When the callback of `async.parallel` reports, and what it leaves alone.
use sse_broadcast_benchmark.Common.{
  ℕ, ◌+◌, ◌≡◌, refl, ap, ◌∙◌, inl, inr, Bool, true, false, ◌&&◌, List, [], ◌∷◌, ◌++◌, Option, none,
  some, arith, ◌==◌, if◌then◌else◌, Bool-cases,
}
use sse_broadcast_benchmark.Common.Int.{ℤ}
use sse_broadcast_benchmark.Reporter.Gather.{
  Task, waiting, failed, done, network_task, SystemInfo, Gathering, Stats, Reporter, Parallel,
  report_stats, set_gathering, conclude, finish,
}

abbrev pub is_done {ℓ} : {A : Type ℓ} → Task A → Bool
is_done (done x) = true
is_done _ = false

-- What is documented of `async.parallel`: with all results its callback is called with them, and
-- not otherwise, but for errors.
pub record IsParallel (Usage Loads : Type 0) (parallel : Parallel Usage Loads) : Type 0 where
  pub finished :
      (info : SystemInfo Usage Loads) (times : ℤ × ℤ) (count : ℤ)
      → parallel (done info) (done times) (done count) ≡ done (info, times, count)
  pub unfinished :
      (a : Task (SystemInfo Usage Loads)) (b : Task (ℤ × ℤ)) (c : Task ℤ)
      → (is_done a && (is_done b && is_done c)) ≡ false
      → is_done (parallel a b c) ≡ false

-- How often a gathering has been reported.
abbrev pub reported : {Usage Loads : Type 0} → ℕ → List (ℕ × Stats Usage Loads) → ℕ
reported n [] = 0
reported n ((k, stats) ∷ reports) = (if k == n then 1 else 0) + reported n reports

-- All three tasks of a gathering have a result.
abbrev pub is_complete : {Usage Loads : Type 0} → Option (Gathering Usage Loads) → Bool
is_complete none = false
is_complete (some g) = is_done g.system && (is_done (network_task g.network) && is_done g.count)

module _ {Usage Loads : Type 0} where
  reported-append :
      (n k : ℕ) (stats : Stats Usage Loads) (reports : List (ℕ × Stats Usage Loads))
      → reported n (reports ++ (k, stats) ∷ []) ≡ (if k == n then 1 else 0) + reported n reports
  reported-append n k stats [] = refl
  reported-append n k stats ((j, x) ∷ reports) = omega (arith, reported-append n k stats reports)

  report_stats-reports :
      (n k now : ℕ) (results : SystemInfo Usage Loads × (ℤ × ℤ) × ℤ) (s : Reporter Usage Loads)
      → reported n (report_stats k now results s).reports
        ≡ (if k == n then 1 else 0) + reported n s.reports
  unfolding report_stats
  report_stats-reports n k now (info, (rt, dt), count) s = reported-append n k _ s.reports

-- The state but for the reports.
abbrev pub SameBut : {Usage Loads : Type 0} → Reporter Usage Loads → Reporter Usage Loads → Type 0
SameBut s t =
    (t.gatherings ≡ s.gatherings) × (t.next_gathering ≡ s.next_gathering) × (t.timing ≡ s.timing)

module _ {Usage Loads : Type 0} where
  conclude-SameBut :
      (task : Task (SystemInfo Usage Loads × (ℤ × ℤ) × ℤ)) (n now : ℕ) (s : Reporter Usage Loads)
      → SameBut s (conclude task n now s)
  unfolding conclude report_stats
  conclude-SameBut waiting n now s = (refl, refl, refl)
  conclude-SameBut failed n now s = (refl, refl, refl)
  conclude-SameBut (done (info, times, count)) n now s = (refl, refl, refl)

  conclude_unfinished :
      (task : Task (SystemInfo Usage Loads × (ℤ × ℤ) × ℤ)) (n now : ℕ) (s : Reporter Usage Loads)
      → is_done task ≡ false
      → conclude task n now s ≡ s
  unfolding conclude
  conclude_unfinished waiting n now s h = refl
  conclude_unfinished failed n now s h = refl
  conclude_unfinished (done r) n now s h = cc

module _ {Usage Loads : Type 0} (parallel : Parallel Usage Loads) where
  pub finish-SameBut :
      (n now : ℕ) (g : Gathering Usage Loads) (s : Reporter Usage Loads)
      → SameBut (set_gathering n g s) (finish parallel n now g s)
  unfolding finish
  finish-SameBut n now g s = conclude-SameBut _ n now (set_gathering n g s)

  finished_when :
      IsParallel Usage Loads parallel
      → (a : Task (SystemInfo Usage Loads)) (b : Task (ℤ × ℤ)) (c : Task ℤ)
      → (is_done a && (is_done b && is_done c)) ≡ true
      → (r : SystemInfo Usage Loads × (ℤ × ℤ) × ℤ) × (parallel a b c ≡ done r)
  finished_when p (done x) (done y) (done z) h = ((x, y, z), p.finished x y z)
  finished_when p (done x) (done y) waiting h = cc
  finished_when p (done x) (done y) failed h = cc
  finished_when p (done x) waiting c h = cc
  finished_when p (done x) failed c h = cc
  finished_when p waiting b c h = cc
  finished_when p failed b c h = cc

  -- The gathering is reported when it is complete, and no other is.
  pub reported-finish :
      IsParallel Usage Loads parallel
      → (k n now : ℕ) (g : Gathering Usage Loads) (s : Reporter Usage Loads)
      → reported k (finish parallel n now g s).reports
        ≡ (if n == k then (if is_complete (some g) then 1 else 0) else 0) + reported k s.reports
  unfolding finish conclude
  reported-finish p k n now g s = elim (Bool-cases (is_complete (some g))) [
    | inl all ↦
        let (r, e) = finished_when p g.system (network_task g.network) g.count all in
        rw all (
          ap (λ task. reported k (conclude task n now (set_gathering n g s)).reports) e
          ∙ report_stats-reports k n now r (set_gathering n g s))
    | inr some_left ↦
        let u = p.unfinished g.system (network_task g.network) g.count some_left in
        rw some_left (
          ap (λ r. reported k r.reports) (conclude_unfinished _ n now (set_gathering n g s) u)
          ∙ ground arith)
  ]
