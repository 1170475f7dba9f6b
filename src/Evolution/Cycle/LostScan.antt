-- ===== src/Evolution/Cycle/LostScan.antt =====
-- A cycle of src/pyclaw/core/curator_cycle.py that loses its lock during the scan.
use pyclaw.Prelude.{
  ℕ, ◌+◌, ◌≤◌, Text, true, false, none, some, [], ◌∷◌, ◌≡◌, refl, sym, ap, ◌∙◌, if◌then◌else◌,
  text_key, arith,
}
use mathlib.Core.Path.{subst}
use pyclaw.Prelude.Dict.{Dict}
use pyclaw.Evolution.Procedures.{Table}
use pyclaw.Evolution.Cycle.{
  World, CuratorReport, scan_and_review, done, Cycle, Running, fine, broke, then_run, add_error,
  check_alive, empty_report, bounded_scan, scan_all, run_curator_scan, run_scan,
  run_review_if_permitted, does_scan, mark_scan_completed, mark_completion, begin_cycle, work,
  completed, build_report, execute,
}

module _ (c : Cycle) (dead : (n : ℕ) → 2 ≤ n → c.alive n ≡ false) where
  -- Each scan that is refused leaves its database.
  scan_all-lost :
      (dbs : Dict Text Table) (r : Running) (report : CuratorReport)
      → 2 ≤ r.checks
      → ((scan_all c dbs r report).0.world ≡ r.world)
        × ((scan_all c dbs r report).0.error ≡ r.error)
        × ((scan_all c dbs r report).0.unexpected_exception ≡ r.unexpected_exception)
        × ((scan_all c dbs r report).0.full_traversal ≡ r.full_traversal)
  unfolding scan_all
  scan_all-lost [] r report h = (refl, refl, refl, refl)
  scan_all-lost ((name, table) ∷ dbs) r report h =
      let checked = record r { checks = r.checks + 1 } in
      let refused : bounded_scan c name table r report ≡ (checked, add_error name report) =
        unfold bounded_scan in rw (dead r.checks h) refl in
      subst
        (λ (one : Running × CuratorReport).
          ((scan_all c dbs one.0 one.1).0.world ≡ r.world)
          × ((scan_all c dbs one.0 one.1).0.error ≡ r.error)
          × ((scan_all c dbs one.0 one.1).0.unexpected_exception ≡ r.unexpected_exception)
          × ((scan_all c dbs one.0 one.1).0.full_traversal ≡ r.full_traversal))
        (sym refused) (scan_all-lost dbs checked (add_error name report) (omega arith))

no_review :
    (c : Cycle)
    → c.llm_review_enabled ≡ true
    → c.has_model ≡ false
    → (r : Running) → run_review_if_permitted c r ≡ fine r
unfolding run_review_if_permitted
no_review c enabled model r = rw (enabled, model) refl

marks_scan :
    (c : Cycle) (r : Running)
    → does_scan c.mode ≡ true
    → c.scan_mark ≡ done
    → r.full_traversal ≡ false
    → mark_completion c r ≡ fine (record r { world = record r.world { last_run_at = some c.now } })
unfolding mark_completion mark_scan_completed then_run
marks_scan c r scans mark full = rw (scans, mark, full) refl

-- A cycle whose listing of the databases and mark of the scan succeed, whose review is enabled but has no client of the
-- model, so that none is made, and that loses the lock when its scan has begun, before any database is scanned, changes
-- no database, but reports neither an error nor an exception and marks the scan as completed now.
pub execute-lost_scan :
    (c : Cycle) (w : World)
    → c.mode ≡ scan_and_review
    → c.llm_review_enabled ≡ true
    → c.has_model ≡ false
    → c.scan_listing_raises ≡ false
    → c.scan_mark ≡ done
    → c.alive 0 ≡ true
    → c.alive 1 ≡ true
    → ((n : ℕ) → 2 ≤ n → c.alive n ≡ false)
    → ((execute c true w).0.databases ≡ w.databases)
      × ((execute c true w).0.last_run_at ≡ some c.now)
      × ((execute c true w).1.error ≡ none)
      × ((execute c true w).1.unexpected_exception ≡ false)
unfolding execute
execute-lost_scan c w mode enabled model listing mark first second dead =
    let r0 = begin_cycle w in
    let e0 : check_alive c r0 ≡ fine (record r0 { checks = 1 }) =
      unfold check_alive in unfold begin_cycle in rw first refl in
    let r1 = record r0 { checks = 1 } in
    let e1 : check_alive c r1 ≡ fine (record r0 { checks = 2 }) =
      unfold check_alive in unfold begin_cycle in rw second refl in
    let r2 = record r0 { checks = 2 } in
    let s = scan_all c r2.world.databases r2 (empty_report r2.world.databases) in
    let end = record s.0 { scan_report = some s.1 } in
    let scan : run_scan c r0 ≡ fine end =
      unfold run_scan in
      unfold run_curator_scan in
      (ap (λ l. then_run l (run_curator_scan c)) e0
        ∙ unfold then_run in
          ap
            (λ l. then_run l (λ q.
              let scanned = scan_all c q.world.databases q (empty_report q.world.databases) in
              if c.scan_listing_raises
              then broke q
              else fine (record scanned.0 { scan_report = some scanned.1 })))
            e1
          ∙ ap (λ b. if b then broke r2 else fine end) listing) in
    let scans : does_scan c.mode ≡ true = unfold does_scan in ap does_scan mode in
    let (same, clean, calm, full) =
      scan_all-lost c dead r2.world.databases r2 (empty_report r2.world.databases) (omega arith) in
    let marked = record end { world = record end.world { last_run_at = some c.now } } in
    let ended : work c r0 ≡ fine marked =
      unfold work in
      (ap
          (λ b.
            then_run (then_run (if b then run_scan c r0 else fine r0) (run_review_if_permitted c))
              (mark_completion c))
          scans
        ∙ ap (λ l. then_run (then_run l (run_review_if_permitted c)) (mark_completion c)) scan
        ∙ unfold then_run in
          (ap (λ l. then_run l (mark_completion c)) (no_review c enabled model end)
            ∙ marks_scan c end scans mark (full ∙ (unfold begin_cycle in refl)))) in
    subst
      (λ l.
        ((completed l).world.databases ≡ w.databases)
        × ((completed l).world.last_run_at ≡ some c.now)
        × ((build_report (completed l)).error ≡ none)
        × ((build_report (completed l)).unexpected_exception ≡ false))
      (sym ended)
      (unfold completed in
        unfold build_report in
        (
          ap (λ (x : World). x.databases) same ∙ (unfold begin_cycle in refl),
          refl,
          clean ∙ (unfold begin_cycle in refl),
          calm ∙ (unfold begin_cycle in refl),
        ))
