-- ===== src/Reporter/Start/Command.antt =====
-- What the reporter spawns.
use sse_broadcast_benchmark.Common.{
  arith, ℕ, ◌≡◌, ◌≢◌, subst, refl, ◌∙◌, sym, ap, Bool, true, false, ◌&&◌, not, List, [], ◌∷◌, ◌++◌,
  Option, none, some, ◌==◌, ==_iff, Bool-cases, inl, inr, ◌⊎◌,
}
use sse_broadcast_benchmark.Common.Int.{ℤ, pos}
use sse_broadcast_benchmark.Js.Text.{Text, codes, split, is_falsy, show_text}
use sse_broadcast_benchmark.Js.Text.Laws.{split-cons}
use sse_broadcast_benchmark.Js.Number.{show_int}
use sse_broadcast_benchmark.Reporter.Start.{
  Options, Started, exits, watches, spawns, imp_file, no_pid, command, pid_of, watch_or_spawn,
  start_report,
}

-- The words with a separator between them.
unfoldable pub join : ℕ → Text → List Text → Text
join sep w [] = w
join sep w (v ∷ vs) = w ++ (sep ∷ join sep v vs)

join_first : (sep c : ℕ) (w : Text) (ws : List Text) → join sep (c ∷ w) ws ≡ c ∷ join sep w ws
unfolding join
join_first sep c w [] = refl
join_first sep c w (v ∷ vs) = refl

abbrev join_all : ℕ → List Text → Text
join_all sep [] = []
join_all sep (w ∷ ws) = join sep w ws

-- Splitting a text loses nothing.
join_all-split : (sep : ℕ) (s : Text) → join_all sep (split sep s) ≡ s
unfolding split join
join_all-split sep [] = refl
join_all-split sep (c ∷ s) =
    let (v, vs, f) = split-cons sep s in
    let ih : join sep v vs ≡ s = sym (ap (join_all sep) f) ∙ join_all-split sep s in
    elim (Bool-cases (c == sep)) [
      | inl h ↦ let same = (==_iff c sep).0 h in rw (h, f, ih) (ap (λ x. x ∷ s) (sym same))
      | inr h ↦ rw (h, f) (join_first sep c v vs ∙ ap (λ x. c ∷ x) ih)
    ]

-- If an implementation is given, its file exists.
abbrev pub HasFile : (Text → Bool) → Text → Options → Type 0
HasFile exists_sync dirname args =
    (is_falsy args.implementation ≡ true) ⊎ (exists_sync (imp_file dirname args) ≡ true)

HasFile-of : (a b : Bool) → (not a && not b) ≡ false → (a ≡ true) ⊎ (b ≡ true)
HasFile-of true b h = inl refl
HasFile-of false true h = inr refl
HasFile-of false false h = cc h

-- What each way to start rests on.
abbrev pub Justified : (Text → Bool) → Text → Options → Started → Type 0
Justified exists_sync dirname args (exits n) =
    ((n ≡ 1)
      × (no_pid args.pid ≡ true)
      × (is_falsy args.implementation ≡ true)
      × (is_falsy args.cmd ≡ true))
    ⊎ ((n ≡ 2)
        × (is_falsy args.implementation ≡ false)
        × (exists_sync (imp_file dirname args) ≡ false))
Justified exists_sync dirname args (watches n) =
    (args.pid ≡ some n) × (n ≢ pos 0) × HasFile exists_sync dirname args
Justified exists_sync dirname args (spawns c cs) =
    (no_pid args.pid ≡ true)
    × HasFile exists_sync dirname args
    × ((args.cmd ≡ some (join 32 c cs))
        ⊎ ((is_falsy args.cmd ≡ true)
            × (is_falsy args.implementation ≡ false)
            × (exists_sync c ≡ true)
            × (c ≡ imp_file dirname args)
            × (cs ≡ codes "--port" ∷ show_int args.port ∷ [])))

nonzero : true ≢ false
nonzero e = cc e

pid_given : (o : Option ℤ) → no_pid o ≡ false → (o ≡ some (pid_of o)) × (pid_of o ≢ pos 0)
unfolding no_pid
pid_given none h = cc h
pid_given (some n) h = (refl, λ e. nonzero (sym (ap (λ z. no_pid (some z)) e) ∙ h))

given : (o : Option Text) → is_falsy o ≡ false → o ≡ some (show_text o)
unfolding is_falsy show_text
given none h = cc h
given (some t) h = refl

command_given :
    (dirname : Text) (args : Options)
    → is_falsy args.cmd ≡ false
    → join 32 (command dirname args).0 (command dirname args).1 ≡ show_text args.cmd
unfolding command
command_given dirname args h =
    let (w, ws, e) = split-cons 32 (show_text args.cmd) in
    rw (h, e) (sym (ap (join_all 32) e) ∙ join_all-split 32 (show_text args.cmd))

watch_or_spawn-Justified :
    (exists_sync : Text → Bool) (dirname : Text) (args : Options)
    → (no_pid args.pid && (is_falsy args.implementation && is_falsy args.cmd)) ≡ false
    → (not (is_falsy args.implementation) && not (exists_sync (imp_file dirname args))) ≡ false
    → Justified exists_sync dirname args (watch_or_spawn dirname args)
unfolding watch_or_spawn command
watch_or_spawn-Justified exists_sync dirname args a b = elim (Bool-cases (no_pid args.pid)) [
  | inr p ↦
      let (same, other) = pid_given args.pid p in
      let e : watch_or_spawn dirname args ≡ watches (pid_of args.pid) =
        rw (p, watch_or_spawn) refl in
      subst (Justified exists_sync dirname args) (sym e) (same, other, HasFile-of _ _ b)
  | inl p ↦
      let run = command dirname args in
      let e : watch_or_spawn dirname args ≡ spawns run.0 run.1 = rw (p, watch_or_spawn) refl in
      subst (Justified exists_sync dirname args) (sym e) (
        p,
        HasFile-of _ _ b,
        elim (Bool-cases (is_falsy args.cmd)) [
          | inr c ↦ inl (given args.cmd c ∙ ap some (sym (command_given dirname args c)))
          | inl c ↦
              let i : is_falsy args.implementation ≡ false = grind arith in
              let x : exists_sync (imp_file dirname args) ≡ true = grind arith in
              let file : (command dirname args).0 ≡ imp_file dirname args = rw (c, command) refl in
              inr (c, i, ap exists_sync file ∙ x, file, rw (c, command) refl)
        ],
      )
]

-- However the reporter starts: it exits with 1 if it was given no process, no implementation and no
-- command; with 2 if it was given an implementation and its file does not exist, and in no other case;
-- it watches the process that it was given, other than 0; and if it spawns one it was given none, and
-- the words that it spawns, with spaces between them, are the command that it was given, or else it
-- was given an implementation and spawns its file with the port.
pub start_report-Justified :
    (exists_sync : Text → Bool) (dirname : Text) (args : Options)
    → Justified exists_sync dirname args (start_report exists_sync dirname args)
unfolding start_report
start_report-Justified exists_sync dirname args =
    elim (Bool-cases (no_pid args.pid && (is_falsy args.implementation && is_falsy args.cmd))) [
      | inl a ↦
          let p : no_pid args.pid ≡ true = grind arith in
          let e : start_report exists_sync dirname args ≡ exits 1 = rw (a, start_report) refl in
          subst (Justified exists_sync dirname args) (sym e)
            (inl (refl, p, grind arith, grind arith))
      | inr a ↦
          elim (Bool-cases
            (not (is_falsy args.implementation) && not (exists_sync (imp_file dirname args)))) [
              | inl b ↦
                  let e : start_report exists_sync dirname args ≡ exits 2 =
                    rw (a, b, start_report) refl in
                  subst (Justified exists_sync dirname args) (sym e)
                    (inr (refl, grind arith, grind arith))
              | inr b ↦
                  let e : start_report exists_sync dirname args ≡ watch_or_spawn dirname args =
                    rw (a, b, start_report) refl in
                  subst (Justified exists_sync dirname args) (sym e)
                    (watch_or_spawn-Justified exists_sync dirname args a b)
            ]
    ]
