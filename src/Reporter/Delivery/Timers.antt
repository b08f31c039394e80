-- ===== src/Reporter/Delivery/Timers.antt =====
-- Several reporters on one server: each timestamp that is broadcast reaches all of them.
use sse_broadcast_benchmark.Common.{
  ℕ, zero, suc, ◌+◌, ◌-◌, true, if◌then◌else◌, All, ◌*◌, ◌^◌, ◌≡◌, refl, ◌∙◌, sym, ap, List, [],
  ◌∷◌, ◌++◌, map, arith, length, length-map, Option-cases, inl, inr, ==_refl,
}
use native.Mathlib.Nat.{mul_assoc, pow-suc, suc-mul, pow-zero}
use sse_broadcast_benchmark.Reporter.Delivery.{
  Timing, on_message, on_timer, remove_timer, call_back, schedule_broadcast,
}

-- The timers of the list run out.
unfoldable pub fire : List ℕ → Timing → Timing
fire [] s = s
fire (t ∷ ts) s = fire ts (on_timer t s)

-- So many messages arrive.
unfoldable pub receive : ℕ → ℕ → ℕ → Timing → Timing
receive zero now sent_at s = s
receive (suc n) now sent_at s = receive n now sent_at (on_message now sent_at s)

unfoldable pub pending : List Timing → ℕ
pending [] = 0
pending (s ∷ ss) = length s.timers + pending ss

-- How many timestamps have been sent.
unfoldable pub total_sent : List Timing → ℕ
total_sent [] = 0
total_sent (s ∷ ss) = s.sent + total_sent ss

-- So many messages are broadcast: a reporter whose stream is closed receives none.
unfoldable pub hear : ℕ → ℕ → ℕ → Timing → Timing
unfolding receive
hear n now sent_at s = if s.running then receive n now sent_at s else s

abbrev pub fire_all : Timing → Timing
fire_all s = fire s.timers s

-- All timers that are pending run out, and the timestamps that this sends are broadcast.
unfoldable pub round : ℕ → ℕ → List Timing → List Timing
unfolding hear fire total_sent
round now sent_at ss =
    let fired = map fire_all ss in map (hear (total_sent fired - total_sent ss) now sent_at) fired

unfoldable pub rounds : ℕ → ℕ → ℕ → List Timing → List Timing
unfolding round
rounds zero now sent_at ss = ss
rounds (suc r) now sent_at ss = rounds r now sent_at (round now sent_at ss)

on_timer-first : (t : ℕ) (ts : List ℕ) (s : Timing) → s.timers ≡ t ∷ ts → (on_timer t s).timers ≡ ts
unfolding on_timer remove_timer
on_timer-first t ts s e = ap (remove_timer t) e ∙ rw (==_refl t) refl

fire-timers : (ts : List ℕ) (s : Timing) → s.timers ≡ ts → (fire ts s).timers ≡ []
unfolding fire
fire-timers [] s e = e
fire-timers (t ∷ ts) s e = fire-timers ts (on_timer t s) (on_timer-first t ts s e)

length-last : (xs : List ℕ) (x : ℕ) → length (xs ++ x ∷ []) ≡ suc (length xs)
length-last [] x = refl
length-last (y ∷ xs) x = ap suc (length-last xs x)

call_back-timers : (now sent_at : ℕ) (s : Timing) → (call_back now sent_at s).timers ≡ s.timers
unfolding call_back
call_back-timers now sent_at s = elim (Option-cases s.cb) [
  | inl e ↦ rw (e, call_back) refl
  | inr (k, e) ↦ rw (e, call_back) refl
]

on_message-timers :
    (now sent_at : ℕ) (s : Timing)
    → length (on_message now sent_at s).timers ≡ suc (length s.timers)
unfolding on_message schedule_broadcast
on_message-timers now sent_at s =
    let called = call_back now sent_at s in
    length-last called.timers called.next_timer
    ∙ ap (λ x. suc (length x)) (call_back-timers now sent_at s)

receive-timers :
    (n now sent_at : ℕ) (s : Timing) → length (receive n now sent_at s).timers ≡ n + length s.timers
unfolding receive
receive-timers zero now sent_at s = omega arith
receive-timers (suc n) now sent_at s =
    let ih = receive-timers n now sent_at (on_message now sent_at s) in
    let e = on_message-timers now sent_at s in omega arith

fire-sent : (ts : List ℕ) (s : Timing) → (fire ts s).sent ≡ s.sent + length ts
unfolding fire on_timer
fire-sent [] s = omega arith
fire-sent (t ∷ ts) s = let ih = fire-sent ts (on_timer t s) in omega arith

fire-running : (ts : List ℕ) (s : Timing) → (fire ts s).running ≡ s.running
unfolding fire on_timer
fire-running [] s = refl
fire-running (t ∷ ts) s = fire-running ts (on_timer t s)

on_message-running : (now sent_at : ℕ) (s : Timing) → (on_message now sent_at s).running ≡ s.running
unfolding on_message schedule_broadcast call_back
on_message-running now sent_at s = elim (Option-cases s.cb) [
  | inl e ↦ rw (call_back, e) refl
  | inr (k, e) ↦ rw (call_back, e) refl
]

receive-running : (n now sent_at : ℕ) (s : Timing) → (receive n now sent_at s).running ≡ s.running
unfolding receive
receive-running zero now sent_at s = refl
receive-running (suc n) now sent_at s =
    receive-running n now sent_at (on_message now sent_at s) ∙ on_message-running now sent_at s

-- What is sent when the timers run out.
total_sent-fire_all : (ss : List Timing) → total_sent (map fire_all ss) ≡ total_sent ss + pending ss
unfolding total_sent pending
total_sent-fire_all [] = omega arith
total_sent-fire_all (s ∷ ss) =
    let ih = total_sent-fire_all ss in let e = fire-sent s.timers s in omega arith

abbrev pub IsRunning : Timing → Type 0
IsRunning s = s.running ≡ true

hear-IsRunning :
    (n now sent_at : ℕ) (s : Timing)
    → IsRunning s
    → (length (hear n now sent_at (fire_all s)).timers ≡ n)
      × IsRunning (hear n now sent_at (fire_all s))
unfolding hear fire
hear-IsRunning n now sent_at s h =
    let opened = fire-running s.timers s ∙ h in
    let e = receive-timers n now sent_at (fire_all s) in
    let z : length (fire_all s).timers ≡ 0 = ap length (fire-timers s.timers s refl) in
    rw (hear, opened) (omega arith, receive-running n now sent_at (fire_all s) ∙ opened)

pending-hear :
    (n now sent_at : ℕ) (ss : List Timing)
    → All IsRunning ss
    → (pending (map (hear n now sent_at) (map fire_all ss)) ≡ length ss * n)
      × All IsRunning (map (hear n now sent_at) (map fire_all ss))
unfolding pending
pending-hear n now sent_at [] h = (omega arith, tt)
pending-hear n now sent_at (s ∷ ss) (running, h) =
    let (ih, rest) = pending-hear n now sent_at ss h in
    let (e, still) = hear-IsRunning n now sent_at s running in
    let m = suc-mul (length ss) n in (omega arith, (still, rest))

length-round : (now sent_at : ℕ) (ss : List Timing) → length (round now sent_at ss) ≡ length ss
unfolding round
length-round now sent_at ss =
    length-map (map fire_all ss) (hear (total_sent (map fire_all ss) - total_sent ss) now sent_at)
    ∙ length-map ss fire_all

pending-round :
    (now sent_at : ℕ) (ss : List Timing)
    → All IsRunning ss
    → (pending (round now sent_at ss) ≡ length ss * pending ss)
      × All IsRunning (round now sent_at ss)
unfolding round
pending-round now sent_at ss h =
    let sent = total_sent-fire_all ss in
    let (count, running) =
      pending-hear (total_sent (map fire_all ss) - total_sent ss) now sent_at ss h in
    let n : total_sent (map fire_all ss) - total_sent ss ≡ pending ss = omega arith in
    (count ∙ ap (λ m. length ss * m) n, running)

-- A round lets all pending timers of some reporters on one server run out, and brings each timestamp
-- that they send to all of them, if the streams of all of them are running. It multiplies the number of
-- the timers that are pending by the number of the reporters, so that r rounds multiply it by the r-th
-- power of that.
pub pending-rounds :
    (r now sent_at : ℕ) (reporters : List Timing)
    → All IsRunning reporters
    → pending (rounds r now sent_at reporters) ≡ length reporters ^ r * pending reporters
unfolding rounds
pending-rounds zero now sent_at ss h = rw (pow-zero (length ss)) (omega arith)
pending-rounds (suc r) now sent_at ss h =
    let (count, running) = pending-round now sent_at ss h in
    let ih = pending-rounds r now sent_at (round now sent_at ss) running in
    ih
    ∙ (rw (length-round now sent_at ss, count)
        (sym (mul_assoc (length ss ^ r) (length ss) (pending ss))
          ∙ ap (λ x. x * pending ss) (sym (pow-suc (length ss) r))))
