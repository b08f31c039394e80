-- ===== src/Server/Clients/Delivery.antt =====
-- A broadcast reaches every client in the table, once for each slot.
use mathlib.Core.List.{reverse-append}
use sse_broadcast_benchmark.Common.{
  ℕ, zero, suc, ◌≤◌, ◌<◌, ◌≡◌, refl, sym, ap, ◌∙◌, List, [], ◌∷◌, ◌++◌, map, reverse, Option, none,
  some, arith, length, take, get_elem?, append-nil, map-append,
}
use sse_broadcast_benchmark.Js.Text.{Text}
use sse_broadcast_benchmark.Server.State.{Server, write}
use sse_broadcast_benchmark.Server.Log.{append_log, append_log-append, append_log-nil}
use sse_broadcast_benchmark.Server.Clients.{frame, write_slot, broadcast_from, broadcast}

-- The sockets in the slots that are not null, in the order of the table.
abbrev pub live : List (Option ℕ) → List ℕ
live [] = []
live (none ∷ slots) = live slots
live (some c ∷ slots) = c ∷ live slots

pub live-append : (xs ys : List (Option ℕ)) → live (xs ++ ys) ≡ live xs ++ live ys
live-append [] ys = refl
live-append (none ∷ xs) ys = live-append xs ys
live-append (some c ∷ xs) ys = ap (◌∷◌ c) (live-append xs ys)

take-suc {ℓ} :
    {A : Type ℓ} (i : ℕ) (xs : List A)
    → i < length xs
    → (x : A) × (get_elem? xs i ≡ some x) × (take (suc i) xs ≡ take i xs ++ x ∷ [])
take-suc i [] h = absurd (omega arith)
take-suc zero (x ∷ xs) h = (x, refl, refl)
take-suc (suc i) (x ∷ xs) h = let (y, e, f) = take-suc i xs (omega arith) in (y, e, ap (◌∷◌ x) f)

take-length {ℓ} : {A : Type ℓ} (xs : List A) → take (length xs) xs ≡ xs
take-length [] = refl
take-length (x ∷ xs) = ap (◌∷◌ x) (take-length xs)

module _ (line : Text) where
  abbrev lines : List ℕ → Server → Server
  lines cs s = append_log s (map (λ c. write c line) cs)

  write_slot_lem :
      (slot : Option ℕ) (s : Server) → write_slot (some slot) line s ≡ lines (live (slot ∷ [])) s
  unfolding write_slot
  write_slot_lem none s = sym (append_log-nil s)
  write_slot_lem (some c) s = refl

  lines-append : (cs ds : List ℕ) (s : Server) → lines ds (lines cs s) ≡ lines (cs ++ ds) s
  lines-append cs ds s =
      append_log-append s _ _ ∙ ap (append_log s) (sym (map-append (λ c. write c line) cs ds))

  live-reverse :
      (slots : List (Option ℕ)) (slot : Option ℕ)
      → reverse (live (slots ++ slot ∷ [])) ≡ live (slot ∷ []) ++ reverse (live slots)
  live-reverse slots none =
      rw (live-append slots (none ∷ [])) (ap reverse (append-nil (live slots)))
  live-reverse slots (some c) =
      rw (live-append slots (some c ∷ [])) (reverse-append (live slots) (c ∷ []))

  broadcast_from_lem :
      (i : ℕ) (s : Server)
      → i ≤ length s.clients
      → broadcast_from i line s ≡ lines (reverse (live (take i s.clients))) s
  unfolding broadcast_from
  broadcast_from_lem zero s h = sym (append_log-nil s)
  broadcast_from_lem (suc i) s h =
      let (slot, found, more) = take-suc i s.clients h in
      rw (found, write_slot_lem slot s, more, live-reverse (take i s.clients) slot)
        (broadcast_from_lem i (lines (live (slot ∷ [])) s) (omega arith)
          ∙ lines-append (live (slot ∷ [])) (reverse (live (take i s.clients))) s)

-- A broadcast writes the frame of its body to each socket in the table, the newest first, writes
-- nothing else, and leaves the table, the count and the listeners as they are.
pub broadcast_lem :
    (body : Option Text) (s : Server)
    → broadcast body s ≡ append_log s (map (λ c. write c (frame body)) (reverse (live s.clients)))
unfolding broadcast
broadcast_lem body s =
    broadcast_from_lem (frame body) (length s.clients) s (omega arith)
    ∙ ap (λ slots. lines (frame body) (reverse (live slots)) s) (take-length s.clients)
