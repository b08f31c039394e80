-- ===== src/Bench/Probes/Ends.antt =====
-- When the benchmark of bench/bench.js ends, and that it may never end.
use sse_broadcast_benchmark.Common.{
  ℕ, suc, ◌+◌, ◌*◌, ◌/◌, ◌<◌, ◌≡◌, ◌≢◌, refl, ◌∙◌, sym, ap, subst, Bool, true, false, ◌&&◌, not,
  List, [], ◌∷◌, ◌++◌, arith, ◌==◌, if◌then◌else◌, length, leb, Bool-cases, inl, inr, ==_iff,
  ==_refl, ==_of_ne,
}
use mathlib.Core.Bool.{and-false}
use native.Mathlib.Nat.{mul-div_cancel}
use sse_broadcast_benchmark.Bench.Probes.{
  Run, begun, is_last, print, on_response, on_probe_error, Probe, answered, failed, run_probes,
  answers, errors,
}

-- The benchmark has ended once k answers have arrived.
record Ended (k : ℕ) (n e : ℕ) (s : Run) : Type 0 where
  count : length s.response_times ≡ n
  failures : s.num_errors ≡ e
  printing : s.printing_report ≡ leb k n
  running : s.timers ≡ not (leb k n)
  once : s.reports ≡ (if leb k n then 1 else 0)

length-snoc : (xs : List ℕ) (x : ℕ) → length (xs ++ x ∷ []) ≡ suc (length xs)
length-snoc [] x = refl
length-snoc (y ∷ xs) x = ap suc (length-snoc xs x)

pub is_last-multiple : (k r n : ℕ) → is_last (k * suc r) (suc r) n ≡ (n == k)
unfolding is_last
is_last-multiple k r n =
    let z : (suc r == 0) ≡ false = ground arith in
    elim (Bool-cases (n == k)) [
      | inl h ↦ let e = (==_iff n k).0 h in rw (z, e) (==_refl (k * suc r) ∙ sym (==_refl k))
      | inr h ↦
          rw (z, h)
            (==_of_ne (n * suc r) (k * suc r) (λ e.
              let same : n ≡ k =
                sym (mul-div_cancel n (omega arith))
                ∙ (ap (λ x. x / suc r) e ∙ mul-div_cancel k (omega arith)) in
              grind arith))
    ]

-- An answer, by whether it is the one that ends the benchmark.
abbrev after_answer : Bool → ℕ → Run → Run
after_answer true elapsed s = print (record s { response_times = s.response_times ++ elapsed ∷ [] })
after_answer false elapsed s = record s { response_times = s.response_times ++ elapsed ∷ [] }

on_response_by :
    (duration interval elapsed : ℕ) (s : Run) (b : Bool)
    → (not s.printing_report && is_last duration interval (suc (length s.response_times))) ≡ b
    → on_response duration interval elapsed s ≡ after_answer b elapsed s
unfolding on_response
on_response_by duration interval elapsed s true h =
    let l = length-snoc s.response_times elapsed in rw (l, h) refl
on_response_by duration interval elapsed s false h =
    let l = length-snoc s.response_times elapsed in rw (l, h) refl

after_answer-Ended :
    (k n e elapsed : ℕ) (b : Bool) (s : Run)
    → (not (leb k n) && (suc n == k)) ≡ b
    → Ended k n e s
    → Ended k (suc n) e (after_answer b elapsed s)
unfolding print
after_answer-Ended k n e elapsed true s h i =
    let a : leb k n ≡ false = grind arith in
    let l : leb k (suc n) ≡ true = grind arith in
    record {
      count = length-snoc s.response_times elapsed ∙ ap suc i.count;
      failures = i.failures;
      printing = sym l;
      running = rw l refl;
      once = rw (i.once, a, l) refl;
    }
after_answer-Ended k n e elapsed false s h i =
    let l : leb k (suc n) ≡ leb k n = grind arith in
    record {
      count = length-snoc s.response_times elapsed ∙ ap suc i.count;
      failures = i.failures;
      printing = i.printing ∙ sym l;
      running = i.running ∙ sym (ap not l);
      once = i.once ∙ rw l refl;
    }

on_response-Ended :
    (k r n e elapsed : ℕ) (s : Run)
    → Ended k n e s
    → Ended k (suc n) e (on_response (k * suc r) (suc r) elapsed s)
on_response-Ended k r n e elapsed s i =
    let b = not (leb k n) && (suc n == k) in
    let h : (not s.printing_report && is_last (k * suc r) (suc r) (suc (length s.response_times)))
        ≡ b =
      rw (i.printing, i.count, is_last-multiple k r (suc n)) refl in
    subst (Ended k (suc n) e) (sym (on_response_by (k * suc r) (suc r) elapsed s b h))
      (after_answer-Ended k n e elapsed b s refl i)

on_probe_error-Ended : (k n e : ℕ) (s : Run) → Ended k n e s → Ended k n (suc e) (on_probe_error s)
unfolding on_probe_error
on_probe_error-Ended k n e s i = record {
  count = i.count;
  failures = rw i.failures (omega arith);
  printing = i.printing;
  running = i.running;
  once = i.once;
}

Ended-cast : (k n n' e e' : ℕ) (s : Run) → n ≡ n' → e ≡ e' → Ended k n e s → Ended k n' e' s
Ended-cast k n n' e e' s p q i = subst (λ x. Ended k x e' s) p (subst (λ x. Ended k n x s) q i)

run_probes-Ended :
    (k r n e : ℕ) (probes : List Probe) (s : Run)
    → Ended k n e s
    → Ended k (answers probes + n) (errors probes + e) (run_probes (k * suc r) (suc r) probes s)
unfolding run_probes answers errors
run_probes-Ended k r n e [] s i = Ended-cast k n (0 + n) e (0 + e) s (omega arith) (omega arith) i
run_probes-Ended k r n e (answered elapsed ∷ probes) s i =
    let s' = on_response (k * suc r) (suc r) elapsed s in
    Ended-cast k (answers probes + suc n) (suc (answers probes) + n) (errors probes + e)
      (errors probes + e) (run_probes (k * suc r) (suc r) probes s') (omega arith) refl
      (run_probes-Ended k r (suc n) e probes s' (on_response-Ended k r n e elapsed s i))
run_probes-Ended k r n e (failed ∷ probes) s i =
    Ended-cast k (answers probes + n) (answers probes + n) (errors probes + suc e)
      (suc (errors probes) + e) (run_probes (k * suc r) (suc r) probes (on_probe_error s)) refl
      (omega arith)
      (run_probes-Ended k r n (suc e) probes (on_probe_error s) (on_probe_error-Ended k n e s i))

begun-Ended : (k : ℕ) → 0 < k → Ended k 0 0 begun
begun-Ended k h =
    let a : leb k 0 ≡ false = grind arith in
    record {
      count = refl;
      failures = refl;
      printing = sym a;
      running = rw a refl;
      once = rw a refl;
    }

-- If the interval divides the duration, k times and at least once, then the benchmark, however its
-- probes end, prints its report once and stops its timers as soon as k answers have arrived, and not
-- before; it has kept a time for each answer and counted each error.
pub run_probes-multiple :
    (k r : ℕ)
    → 0 < k
    → (probes : List Probe)
    → let final = run_probes (k * suc r) (suc r) probes begun in
      (final.reports ≡ (if leb k (answers probes) then 1 else 0))
      × (final.timers ≡ not (leb k (answers probes)))
      × (length final.response_times ≡ answers probes)
      × (final.num_errors ≡ errors probes)
run_probes-multiple k r h probes =
    let i = run_probes-Ended k r 0 0 probes begun (begun-Ended k h) in
    let final = run_probes (k * suc r) (suc r) probes begun in
    let j =
      Ended-cast k (answers probes + 0) (answers probes) (errors probes + 0) (errors probes) final
        (omega arith) (omega arith) i in
    (j.once, j.running, j.count, j.failures)

is_last-never : (d i n : ℕ) → n * i ≢ d → is_last d i n ≡ false
unfolding is_last
is_last-never d i n h = rw (==_of_ne (n * i) d h) (and-false (not (i == 0)))

-- No answer ends the benchmark.
unended :
    (d i : ℕ)
    → ((n : ℕ) → n * i ≢ d)
    → (probes : List Probe) (s : Run)
    → ((run_probes d i probes s).reports ≡ s.reports)
      × ((run_probes d i probes s).timers ≡ s.timers)
unfolding run_probes on_probe_error
unended d i h [] s = (refl, refl)
unended d i h (failed ∷ probes) s = unended d i h probes (on_probe_error s)
unended d i h (answered elapsed ∷ probes) s =
    let l = is_last-never d i (suc (length s.response_times)) (h _) in
    let b : (not s.printing_report && is_last d i (suc (length s.response_times))) ≡ false =
      rw l (and-false (not s.printing_report)) in
    let step = on_response_by d i elapsed s false b in
    let rest = unended d i h probes (on_response d i elapsed s) in
    (rest.0 ∙ ap (λ x. x.reports) step, rest.1 ∙ ap (λ x. x.timers) step)

-- If no multiple of the interval is the duration, then the report is never printed and the timers
-- never stop, however many probes are answered.
pub run_probes-endless :
    (duration interval : ℕ)
    → ((n : ℕ) → n * interval ≢ duration)
    → (probes : List Probe)
    → ((run_probes duration interval probes begun).reports ≡ 0)
      × ((run_probes duration interval probes begun).timers ≡ true)
run_probes-endless d i h probes = unended d i h probes begun
