-- ===== src/Reporter/Gather/Invariant.antt =====
-- What holds of the gatherings and the reports, and that the callback of a task keeps it.
use sse_broadcast_benchmark.Common.{
  ℕ, ◌+◌, ◌≤◌, ◌≡◌, refl, sym, ap, subst, ◌∙◌, inl, inr, true, false, Option, none, some, arith,
  ◌==◌, ==_iff, if◌then◌else◌, Bool-cases, Option-cases,
}
use sse_broadcast_benchmark.Common.Int.{ℤ}
use sse_broadcast_benchmark.Reporter.Delivery.{
  Timing, get_delivery_timing, on_error, on_message, call_back, schedule_broadcast, clear_timeout,
}
use sse_broadcast_benchmark.Reporter.Gather.{
  measuring, Gathering, Reporter, no_gatherings, Parallel, set_gathering, gather_stats, finish,
}
use sse_broadcast_benchmark.Reporter.Gather.Frame.{
  IsParallel, reported, is_complete, finish-SameBut, reported-finish,
}

abbrev pub Measuring : {Usage Loads : Type 0} → (ℕ → Option (Gathering Usage Loads)) → ℕ → Type 0
Measuring {Usage} {Loads} gatherings n =
    (g : Gathering Usage Loads) × (time : ℤ) × (gatherings n ≡ some g)
    × (g.network ≡ measuring time)

pub record Inv (Usage Loads : Type 0) (s : Reporter Usage Loads) : Type 0 where
  pub fresh : (n : ℕ) → s.next_gathering ≤ n → s.gatherings n ≡ none
  pub waits : (n : ℕ) → s.timing.cb ≡ some n → Measuring s.gatherings n
  pub once : (n : ℕ) → reported n s.reports ≡ (if is_complete (s.gatherings n) then 1 else 0)

pub on_message-cb : (now sent_at : ℕ) (t : Timing) → (on_message now sent_at t).cb ≡ none
unfolding on_message schedule_broadcast call_back
on_message-cb now sent_at t = elim (Option-cases t.cb) [
  | inl e ↦ rw (e, call_back) e
  | inr (k, e) ↦ rw (e, call_back) refl
]

pub get_delivery_timing-cb : (n : ℕ) (t : Timing) → (get_delivery_timing n t).cb ≡ some n
unfolding get_delivery_timing
get_delivery_timing-cb n t = elim (Bool-cases t.running) [
  | inl e ↦ rw (e, get_delivery_timing) refl
  | inr e ↦ rw (e, get_delivery_timing) refl
]

pub on_error-cb : (t : Timing) → (on_error t).cb ≡ t.cb
unfolding on_error clear_timeout
on_error-cb t = elim (Option-cases t.timeout_id) [
  | inl e ↦ rw (e, clear_timeout) refl
  | inr (k, e) ↦ rw (e, clear_timeout) refl
]

pub no_gatherings-Inv : {Usage Loads : Type 0} → Inv Usage Loads no_gatherings
no_gatherings-Inv = record { fresh = λ n h. refl; waits = λ n e. cc; once = λ n. refl }

-- Only the closure `fetchDeliveryTiming` changes, and its callback stays.
pub timing-Inv :
    {Usage Loads : Type 0} (s : Reporter Usage Loads) (t : Timing)
    → t.cb ≡ s.timing.cb
    → Inv Usage Loads s
    → Inv Usage Loads (record s { timing = t })
timing-Inv s t e inv = record {
  fresh = inv.fresh;
  waits = λ n f. inv.waits n (sym e ∙ f);
  once = inv.once;
}

module _ {Usage Loads : Type 0} (s : Reporter Usage Loads) (inv : Inv Usage Loads s) where
  pub gather_stats-Inv : (now : ℕ) → Inv Usage Loads (gather_stats now s)
  unfolding gather_stats
  gather_stats-Inv now = record {
    fresh = λ k h.
        let other : (k == s.next_gathering) ≡ false = ground arith in
        rw other (inv.fresh k (omega arith));
    waits = λ k e. waits_on k (inv.waits k e);
    once = λ k. elim (Bool-cases (k == s.next_gathering)) [
      | inl hit ↦ rw hit (
          inv.once k
          ∙ ap (λ o. if is_complete o then 1 else 0)
              (ap s.gatherings ((==_iff k s.next_gathering).0 hit)
                ∙ inv.fresh s.next_gathering (omega arith)))
      | inr miss ↦ rw miss (inv.once k)
    ];
  }
    where
      waits_on : (k : ℕ) → Measuring s.gatherings k → Measuring (gather_stats now s).gatherings k
      waits_on k (g, time, found, m) = elim (Bool-cases (k == s.next_gathering)) [
        | inl hit ↦ cc (
            sym found
            ∙ (ap s.gatherings ((==_iff k s.next_gathering).0 hit)
                ∙ inv.fresh s.next_gathering (omega arith)))
        | inr miss ↦ (g, time, rw miss found, m)
      ]

  -- The gathering n is replaced by one whose network timing is the same.
  pub Measuring-set :
      (n k : ℕ) (g g' : Gathering Usage Loads)
      → s.gatherings n ≡ some g
      → g'.network ≡ g.network
      → Measuring s.gatherings k
      → Measuring (set_gathering n g' s).gatherings k
  Measuring-set n k g g' at_n same (f, time, found, m) = elim (Bool-cases (k == n)) [
    | inl hit ↦
        let e : some g ≡ some f = sym at_n ∙ ap s.gatherings (sym ((==_iff k n).0 hit)) ∙ found in
        let e' : g ≡ f = cc e in (g', time, rw hit refl, same ∙ ap (λ r. r.network) e' ∙ m)
    | inr miss ↦ (f, time, rw miss found, m)
  ]

  pub fresh_set :
      (n k : ℕ) (g g' : Gathering Usage Loads)
      → s.gatherings n ≡ some g
      → s.next_gathering ≤ k
      → (set_gathering n g' s).gatherings k ≡ none
  fresh_set n k g g' at_n h = elim (Bool-cases (k == n)) [
    | inl hit ↦ cc (sym at_n ∙ ap s.gatherings (sym ((==_iff k n).0 hit)) ∙ inv.fresh k h)
    | inr miss ↦ rw miss (inv.fresh k h)
  ]

  -- A task of the gathering n calls its callback.
  pub finish-Inv :
      (parallel : Parallel Usage Loads)
      → IsParallel Usage Loads parallel
      → (n now : ℕ) (g g' : Gathering Usage Loads) → s.gatherings n ≡ some g
      → is_complete (some g) ≡ false
      → ((k : ℕ) → s.timing.cb ≡ some k → Measuring (set_gathering n g' s).gatherings k)
      → Inv Usage Loads (finish parallel n now g' s)
  finish-Inv parallel p n now g g' at_n left w =
      let (gatherings, next, timing) = finish-SameBut parallel n now g' s in
      record {
        fresh =
            λ k h. ap (λ f. f k) gatherings ∙ fresh_set n k g g' at_n (subst (λ m. m ≤ k) next h);
        waits = λ k e.
            subst (λ f. Measuring f k) (sym gatherings) (w k (sym (ap (λ t. t.cb) timing) ∙ e));
        once = λ k.
            reported-finish parallel p k n now g' s
            ∙ counts k
            ∙ ap (λ f. if is_complete (f k) then 1 else 0) (sym gatherings);
      }
    where
      counts :
          (k : ℕ)
          → (if n == k then (if is_complete (some g') then 1 else 0) else 0) + reported k s.reports
            ≡ (if is_complete ((set_gathering n g' s).gatherings k) then 1 else 0)
      counts k = elim (Bool-cases (k == n)) [
        | inl hit ↦
            let none_yet : reported k s.reports ≡ 0 =
              inv.once k
              ∙ ap (λ o. if is_complete o then 1 else 0)
                  (ap s.gatherings ((==_iff k n).0 hit) ∙ at_n)
              ∙ rw left refl in
            let hit' : (n == k) ≡ true = ground arith in rw (hit, hit') (omega arith)
        | inr miss ↦
            let miss' : (n == k) ≡ false = ground arith in
            rw (miss, miss') (omega (arith, inv.once k))
      ]
