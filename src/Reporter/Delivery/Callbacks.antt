-- ===== src/Reporter/Delivery/Callbacks.antt =====
-- What the closure `fetchDeliveryTiming` promises: one stream at a time, and each callback called at
-- most once.
use sse_broadcast_benchmark.Common.{
  ℕ, suc, ◌+◌, ◌≤◌, ◌<◌, ◌≡◌, refl, inl, inr, true, List, [], ◌∷◌, ◌++◌, Option, none, some, arith,
  All, All-append, if◌then◌else◌, Option-cases, Bool-cases, subst, ◌∙◌,
}
use sse_broadcast_benchmark.Common.Int.{ℤ, sub_ℕ}
use sse_broadcast_benchmark.Reporter.Delivery.{
  Timing, idle, get_delivery_timing, on_open, on_error, on_message, on_timer, call_back,
  schedule_broadcast,
}

-- What happens to the closure: a call, and the events of its stream and of its timers.
pub data Happening : Type 0 where
  fetch opens fails : Happening
  receives : ℕ → ℕ → Happening
  fires : ℕ → Happening

-- The n-th call brings the callback n.
unfoldable pub happens : ℕ → Happening → Timing → Timing
happens n fetch s = get_delivery_timing n s
happens n opens s = on_open s
happens n fails s = on_error s
happens n (receives now sent_at) s = on_message now sent_at s
happens n (fires t) s = on_timer t s

abbrev pub next_call : ℕ → Happening → ℕ
next_call n fetch = suc n
next_call n _ = n

-- The stream sends events while it is open.
abbrev pub IsPossible : Happening → Timing → Type 0
IsPossible opens s = s.running ≡ true
IsPossible fails s = s.running ≡ true
IsPossible (receives now sent_at) s = s.running ≡ true
IsPossible _ s = Unit

pub data History : ℕ → Timing → Type 0 where
  begin : History 0 idle
  next :
      {n : ℕ} {s : Timing} (h : Happening)
      → History n s
      → IsPossible h s
      → History (next_call n h) (happens n h s)

-- The callbacks that have been called, each before those with a greater number.
abbrev pub IsAscending : List (ℕ × ℤ) → Type 0
IsAscending [] = Unit
IsAscending (x ∷ xs) = All (λ (y : ℕ × ℤ). x.0 < y.0) xs × IsAscending xs

abbrev Below : ℕ → List (ℕ × ℤ) → Type 0
Below n xs = All (λ (x : ℕ × ℤ). x.0 < n) xs

Below-mono : (m n : ℕ) (xs : List (ℕ × ℤ)) → m ≤ n → Below m xs → Below n xs
Below-mono m n [] h b = tt
Below-mono m n (x ∷ xs) h (p, b) = (omega arith, Below-mono m n xs h b)

IsAscending-append :
    (xs : List (ℕ × ℤ)) (n : ℕ) (z : ℤ)
    → Below n xs
    → IsAscending xs
    → IsAscending (xs ++ (n, z) ∷ [])
IsAscending-append [] n z b a = (tt, tt)
IsAscending-append (x ∷ xs) n z (p, b) (q, a) = (
  All-append (λ (y : ℕ × ℤ). x.0 < y.0) xs ((n, z) ∷ []) q (p, tt),
  IsAscending-append xs n z b a,
)

-- The callback that waits is newer than those that have been called.
abbrev Waits : ℕ → Option ℕ → List (ℕ × ℤ) → Type 0
Waits n none calls = Below n calls
Waits n (some k) calls = (k < n) × Below k calls

Waits-Below : (n : ℕ) (cb : Option ℕ) (calls : List (ℕ × ℤ)) → Waits n cb calls → Below n calls
Waits-Below n none calls w = w
Waits-Below n (some k) calls (h, w) = Below-mono k n calls (omega arith) w

record Inv (n : ℕ) (s : Timing) : Type 0 where
  ascending : IsAscending s.calls
  waits : Waits n s.cb s.calls
  streams : s.opened ≡ s.closed + (if s.running then 1 else 0)

idle-Inv : Inv 0 idle
idle-Inv = record { ascending = tt; waits = tt; streams = refl }

call_back-Inv : (n now sent_at : ℕ) (s : Timing) → Inv n s → Inv n (call_back now sent_at s)
unfolding call_back
call_back-Inv n now sent_at s inv = elim (Option-cases s.cb) [
  | inl e ↦ rw (e, call_back) inv
  | inr (k, e) ↦
      let w : Waits n (some k) s.calls = subst (λ o. Waits n o s.calls) e inv.waits in
      rw (e, call_back)
        (record {
          ascending = IsAscending-append s.calls k (sub_ℕ now sent_at) w.1 inv.ascending;
          waits =
              All-append (λ (x : ℕ × ℤ). x.0 < n) s.calls ((k, sub_ℕ now sent_at) ∷ [])
                (Below-mono k n s.calls (omega arith) w.1) (w.0, tt);
          streams = inv.streams;
        })
]

schedule_broadcast-Inv : (n : ℕ) (s : Timing) → Inv n s → Inv n (schedule_broadcast s)
unfolding schedule_broadcast
schedule_broadcast-Inv n s inv = record {
  ascending = inv.ascending;
  waits = inv.waits;
  streams = inv.streams;
}

get_delivery_timing-Inv : (n : ℕ) (s : Timing) → Inv n s → Inv (suc n) (get_delivery_timing n s)
unfolding get_delivery_timing
get_delivery_timing-Inv n s inv =
    let below = Waits-Below n s.cb s.calls inv.waits in
    elim (Bool-cases s.running) [
      | inl r ↦
          let base : s.opened ≡ s.closed + 1 = inv.streams ∙ rw r in
          rw (r, get_delivery_timing)
            (record { ascending = inv.ascending; waits = (omega arith, below); streams = base })
      | inr r ↦
          let base : s.opened ≡ s.closed + 0 = inv.streams ∙ rw r in
          rw (r, get_delivery_timing)
            (record {
              ascending = inv.ascending;
              waits = (omega arith, below);
              streams = omega arith;
            })
    ]

on_error-Inv : (n : ℕ) (s : Timing) → s.running ≡ true → Inv n s → Inv n (on_error s)
unfolding on_error
on_error-Inv n s r inv =
    let open_stream : s.opened ≡ s.closed + 1 = inv.streams ∙ rw r in
    elim (Option-cases s.timeout_id) [
      | inl e ↦
          rw (e, on_error)
            (record { ascending = inv.ascending; waits = inv.waits; streams = omega arith })
      | inr (t, e) ↦
          rw (e, on_error)
            (record { ascending = inv.ascending; waits = inv.waits; streams = omega arith })
    ]

on_timer-Inv : (n t : ℕ) (s : Timing) → Inv n s → Inv n (on_timer t s)
unfolding on_timer
on_timer-Inv n t s inv = record {
  ascending = inv.ascending;
  waits = inv.waits;
  streams = inv.streams;
}

happens-Inv :
    (n : ℕ) (h : Happening) (s : Timing)
    → IsPossible h s
    → Inv n s
    → Inv (next_call n h) (happens n h s)
unfolding happens on_open on_message
happens-Inv n fetch s p inv = get_delivery_timing-Inv n s inv
happens-Inv n opens s p inv = schedule_broadcast-Inv n s inv
happens-Inv n fails s p inv = on_error-Inv n s p inv
happens-Inv n (receives now sent_at) s p inv =
    schedule_broadcast-Inv n (call_back now sent_at s) (call_back-Inv n now sent_at s inv)
happens-Inv n (fires t) s p inv = on_timer-Inv n t s inv

History-Inv : (n : ℕ) (s : Timing) → History n s → Inv n s
History-Inv n s begin = idle-Inv
History-Inv _ _ (next {n} {s} h before p) = happens-Inv n h s p (History-Inv n s before)

-- Whatever calls `fetchDeliveryTiming` receives, and whatever its stream and its timers do, the
-- callbacks are called at most once each and in the order of the calls that brought them, and of the
-- streams opened all are closed but for one while `deliveryTimingRunning` is set.
pub callbacks_once :
    (n : ℕ) (s : Timing)
    → History n s
    → IsAscending s.calls × (s.opened ≡ s.closed + (if s.running then 1 else 0))
callbacks_once n s history = let inv = History-Inv n s history in (inv.ascending, inv.streams)
