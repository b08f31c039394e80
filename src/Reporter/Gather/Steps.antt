-- ===== src/Reporter/Gather/Steps.antt =====
-- Each handler of the gatherings keeps the invariant.
use sse_broadcast_benchmark.Common.{
  ℕ, ◌≡◌, refl, sym, ap, ◌∙◌, inl, inr, Bool, true, false, Option, none, some, arith, ◌==◌, ==_iff,
  ==_refl, if◌then◌else◌, Bool-cases, Option-cases,
}
use sse_broadcast_benchmark.Common.Int.{ℤ, sub_ℕ}
use sse_broadcast_benchmark.Js.Text.{Text}
use sse_broadcast_benchmark.Reporter.Delivery.{on_message}
use sse_broadcast_benchmark.Reporter.Gather.{
  waiting, failed, done, opening, measuring, measured, broken, network_task, SystemInfo, Gathering,
  Reporter, Parallel, set_gathering, on_lookup, on_count, on_network_open, on_network_error,
  on_delivery, on_timestamp,
}
use sse_broadcast_benchmark.Reporter.Gather.Frame.{is_done, IsParallel, is_complete}
use sse_broadcast_benchmark.Reporter.Gather.Invariant.{
  Measuring, Inv, on_message-cb, get_delivery_timing-cb, Measuring-set, fresh_set, finish-Inv,
}

module _ {Usage Loads : Type 0} (parallel : Parallel Usage Loads)
    (p : IsParallel Usage Loads parallel) (to_number : Text → Option ℤ) (port : ℤ)
    (s : Reporter Usage Loads) (inv : Inv Usage Loads s) where
  pub on_lookup-Inv :
      (n now : ℕ) (found : Option (SystemInfo Usage Loads)) (g : Gathering Usage Loads)
      → s.gatherings n ≡ some g
      → g.system ≡ waiting
      → Inv Usage Loads (on_lookup parallel to_number port n now found g s)
  unfolding on_lookup
  on_lookup-Inv n now found g at_n w =
      let left : is_complete (some g) ≡ false = rw w refl in on_each found left
    where
      on_each :
          (found : Option (SystemInfo Usage Loads))
          → is_complete (some g) ≡ false
          → Inv Usage Loads (on_lookup parallel to_number port n now found g s)
      on_each none left =
          finish-Inv s inv parallel p n now g (record g { system = failed }) at_n left
            (λ k e.
              Measuring-set s inv n k g (record g { system = failed }) at_n refl (inv.waits k e))
      on_each (some info) left =
          let g' = record g { system = done (record info { sse_port = port }) } in
          finish-Inv s inv parallel p n now g g' at_n left
            (λ k e. Measuring-set s inv n k g g' at_n refl (inv.waits k e))

  pub on_count-Inv :
      (n now : ℕ) (err : Bool) (body : Option Text) (g : Gathering Usage Loads)
      → s.gatherings n ≡ some g
      → g.count ≡ waiting
      → Inv Usage Loads (on_count parallel to_number port n now err body g s)
  unfolding on_count
  on_count-Inv n now err body g at_n w = on_each err (ground arith)
    where
      on_each :
          (err : Bool)
          → is_complete (some g) ≡ false
          → Inv Usage Loads (on_count parallel to_number port n now err body g s)
      on_each true left =
          finish-Inv s inv parallel p n now g (record g { count = failed }) at_n left
            (λ k e.
              Measuring-set s inv n k g (record g { count = failed }) at_n refl (inv.waits k e))
      on_each false left =
          finish-Inv s inv parallel p n now g _ at_n left
            (λ k e. Measuring-set s inv n k g _ at_n refl (inv.waits k e))

  -- A gathering whose network timing waits is not complete.
  unmeasured :
      (g : Gathering Usage Loads)
      → is_done (network_task g.network) ≡ false
      → is_complete (some g) ≡ false
  unmeasured g h = ground arith

  pub on_network_open-Inv :
      (n now since : ℕ) (g : Gathering Usage Loads)
      → s.gatherings n ≡ some g
      → g.network ≡ opening since
      → Inv Usage Loads (on_network_open parallel to_number port n now since g s)
  unfolding on_network_open
  on_network_open-Inv n now since g at_n o = record {
    fresh = λ k h. fresh_set s inv n k g g' at_n h;
    waits = λ k e.
        let same : n ≡ k = cc (sym (get_delivery_timing-cb n s.timing) ∙ e) in
        (g', sub_ℕ now since, rw (same, ==_refl k) refl, refl);
    once = λ k. elim (Bool-cases (k == n)) [
      | inl hit ↦
          let left = unmeasured g (rw o refl) in
          let left' = unmeasured g' refl in
          rw (hit, left')
            (inv.once k
              ∙ ap (λ o. if is_complete o then 1 else 0)
                  (ap s.gatherings ((==_iff k n).0 hit) ∙ at_n)
              ∙ rw left refl)
      | inr miss ↦ rw miss (inv.once k)
    ];
  }
    where
      g' : Gathering Usage Loads
      g' = record g { network = measuring (sub_ℕ now since) }

  pub on_network_error-Inv :
      (n since : ℕ) (g : Gathering Usage Loads)
      → s.gatherings n ≡ some g
      → g.network ≡ opening since
      → Inv Usage Loads (on_network_error parallel to_number port n g s)
  unfolding on_network_error
  on_network_error-Inv n since g at_n o = record {
    fresh = λ k h. fresh_set s inv n k g (record g { network = broken }) at_n h;
    waits = λ k e. waits_on k (inv.waits k e);
    once = λ k. elim (Bool-cases (k == n)) [
      | inl hit ↦
          let left = unmeasured g (rw o refl) in
          let left' = unmeasured (record g { network = broken }) refl in
          rw (hit, left')
            (inv.once k
              ∙ ap (λ o. if is_complete o then 1 else 0)
                  (ap s.gatherings ((==_iff k n).0 hit) ∙ at_n)
              ∙ rw left refl)
      | inr miss ↦ rw miss (inv.once k)
    ];
  }
    where
      waits_on :
          (k : ℕ)
          → Measuring s.gatherings k
          → Measuring (set_gathering n (record g { network = broken }) s).gatherings k
      waits_on k (f, time, found, m) = elim (Bool-cases (k == n)) [
        | inl hit ↦
            let e : some g ≡ some f =
              sym at_n ∙ ap s.gatherings (sym ((==_iff k n).0 hit)) ∙ found in
            let e' : g ≡ f = cc e in cc (sym o ∙ ap (λ r. r.network) e' ∙ m)
        | inr miss ↦ (f, time, rw miss found, m)
      ]

  pub on_timestamp-Inv :
      (now sent_at : ℕ) → Inv Usage Loads (on_timestamp parallel to_number port now sent_at s)
  unfolding on_timestamp on_delivery
  on_timestamp-Inv now sent_at = elim (Option-cases s.timing.cb) [
    | inl e ↦ rw (e, on_timestamp) told_none
    | inr (n, e) ↦
        let (g, time, found, m) = inv.waits n e in
        let left = unmeasured g (rw m refl) in
        rw (e, found, m, on_timestamp)
          (finish-Inv after told_none parallel p n now g
            (record g { network = measured time (sub_ℕ now sent_at) }) found left
            (λ k f. cc (sym (on_message-cb now sent_at s.timing) ∙ f)))
  ]
    where
      after : Reporter Usage Loads
      after = record s { timing = on_message now sent_at s.timing }

      told_none : Inv Usage Loads after
      told_none = record {
        fresh = inv.fresh;
        waits = λ n f. cc (sym (on_message-cb now sent_at s.timing) ∙ f);
        once = inv.once;
      }
