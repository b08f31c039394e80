-- ===== src/Bench/Report/Saved.antt =====
-- The file of results over several runs of the benchmark.
use sse_broadcast_benchmark.Common.{
  ◌≡◌, refl, ◌∙◌, ap, Bool, true, false, List, [], ◌∷◌, ◌++◌, Option, none, some, if◌then◌else◌,
}
use sse_broadcast_benchmark.Js.Text.{Text, codes}
use sse_broadcast_benchmark.Bench.Report.{Result, Measured, result, stored, print_report}

-- Runs of the program, each with or without `--reset`.
unfoldable pub run_all :
    (Text → Option (List Result))
    → (List Result → Text)
    → List (Bool × Measured)
    → Option Text
    → Option Text
run_all parse stringify [] file = file
run_all parse stringify ((reset, m) ∷ runs) file =
    run_all parse stringify runs (print_report parse stringify reset (some m) file).0

-- The results since the last reset, in order, after those from before.
unfoldable pub kept : List (Bool × Measured) → List Result → List Result
kept [] before = before
kept ((reset, m) ∷ runs) before = kept runs ((if reset then [] else before) ++ result m ∷ [])

-- `JSON.parse` reads back what `JSON.stringify` wrote, in each of the runs.
abbrev pub ReadsBack :
    (Text → Option (List Result))
    → (List Result → Text)
    → List (Bool × Measured)
    → List Result
    → Type 0
ReadsBack parse stringify [] before = Unit
ReadsBack parse stringify ((reset, m) ∷ runs) before =
    let results = (if reset then [] else before) ++ result m ∷ [] in
    (parse (stringify results) ≡ some results) × ReadsBack parse stringify runs results

stored-reset :
    (parse : Text → Option (List Result)) (reset : Bool) (file : Option Text)
    → parse (codes "[]") ≡ some []
    → stored parse reset file ≡ (if reset then [] else stored parse false file)
unfolding stored
stored-reset parse true none e = rw (e, stored) refl
stored-reset parse true (some t) e = rw (e, stored) refl
stored-reset parse false none e = refl
stored-reset parse false (some t) e = refl

stored-some :
    (parse : Text → Option (List Result)) (t : Text) (results : List Result)
    → parse t ≡ some results
    → stored parse false (some t) ≡ results
unfolding stored
stored-some parse t results e = rw (e, stored) refl

stored-run_all :
    (parse : Text → Option (List Result)) (stringify : List Result → Text)
    (runs : List (Bool × Measured)) (file : Option Text) (before : List Result)
    → parse (codes "[]") ≡ some []
    → stored parse false file ≡ before
    → ReadsBack parse stringify runs before
    → stored parse false (run_all parse stringify runs file) ≡ kept runs before
unfolding run_all kept print_report
stored-run_all parse stringify [] file before e s r = s
stored-run_all parse stringify ((reset, m) ∷ runs) file before e s (r, rs) =
    let results = (if reset then [] else before) ++ result m ∷ [] in
    let w : stored parse reset file ++ result m ∷ [] ≡ results =
      ap (λ x. x ++ result m ∷ []) (stored-reset parse reset file e ∙ rw s refl) in
    stored-run_all parse stringify runs (print_report parse stringify reset (some m) file).0 results
      e
      (stored-some parse (stringify (stored parse reset file ++ result m ∷ [])) results
        (ap (λ x. parse (stringify x)) w ∙ r))
      rs

-- If JSON reads an empty array, and reads back what each run writes, then `--results` shows, after
-- any runs with or without `--reset`, the results of the runs since the last reset, in order and
-- none of them marked as the current one, after those that the file held before, and leaves the file.
pub print_report-run_all :
    (parse : Text → Option (List Result)) (stringify : List Result → Text)
    (runs : List (Bool × Measured)) (file : Option Text)
    → parse (codes "[]") ≡ some []
    → ReadsBack parse stringify runs (stored parse false file)
    → let after = run_all parse stringify runs file in
      print_report parse stringify false none after ≡ (after, kept runs (stored parse false file))
unfolding print_report
print_report-run_all parse stringify runs file e r =
    rw (stored-run_all parse stringify runs file (stored parse false file) e refl r) refl
