-- ===== src/Evolution/Cycle/Sections.antt =====
-- The parts of the critical section of a cycle in src/pyclaw/core/curator_cycle.py before its marks.
use pyclaw.Prelude.{
  Text, false, ◌||◌, not, Option, none, some, List, [], ◌∷◌, ◌≡◌, ◌≢◌, refl, sym, ◌∙◌, if_elim,
  text_key,
}
use pyclaw.Prelude.Dict
use pyclaw.Prelude.Dict.{Dict}
use pyclaw.Evolution.Procedures.{Table}
use pyclaw.Evolution.Review.{Ended, finished, lost}
use pyclaw.Evolution.Cycle.{
  World, CuratorReport, lock_lost, Cycle, Running, Left, fine, lost_lock, broke, then_run,
  check_alive, empty_report, bounded_scan, scan_all, run_curator_scan, run_scan, reviewed,
  review_table, review_one, review_all, should_run_llm_review, skip_review, review_databases,
  review_listed, review_if_due, run_review_if_permitted,
}

-- The times are those of the world, and neither a loss of the lock nor another exception is recorded.
pub record IsUnmarked (w : World) (r : Running) : Type 0 where
  pub last_run : r.world.last_run_at ≡ w.last_run_at
  pub review : r.world.llm_review_last_run_at ≡ w.llm_review_last_run_at
  pub error : r.error ≢ some lock_lost
  pub calm : r.unexpected_exception ≡ false

unfoldable pub LeavesMarks : World → Left → Type 0
LeavesMarks w (fine r) = IsUnmarked w r
LeavesMarks w (lost_lock r) = IsUnmarked w r
LeavesMarks w (broke r) = IsUnmarked w r

pub then_run-LeavesMarks :
    (w : World) (left : Left) (rest : Running → Left)
    → LeavesMarks w left
    → ((r : Running) → IsUnmarked w r → LeavesMarks w (rest r))
    → LeavesMarks w (then_run left rest)
unfolding then_run LeavesMarks
then_run-LeavesMarks w (fine r) rest h f = f r h
then_run-LeavesMarks w (lost_lock r) rest h f = h
then_run-LeavesMarks w (broke r) rest h f = h

module _ (c : Cycle) (w : World) where
  -- Other fields may change.
  unmarked :
      (r s : Running)
      → s.world.last_run_at ≡ r.world.last_run_at
      → s.world.llm_review_last_run_at ≡ r.world.llm_review_last_run_at
      → s.error ≡ r.error
      → s.unexpected_exception ≡ r.unexpected_exception
      → IsUnmarked w r
      → IsUnmarked w s
  unmarked r s a b e u h = record {
    last_run = a ∙ h.last_run;
    review = b ∙ h.review;
    error = λ q. h.error (sym e ∙ q);
    calm = u ∙ h.calm;
  }

  check_alive-LeavesMarks : (r : Running) → IsUnmarked w r → LeavesMarks w (check_alive c r)
  unfolding check_alive LeavesMarks
  check_alive-LeavesMarks r h =
      if_elim (LeavesMarks w) (c.alive r.checks) (λ _. unmarked r _ refl refl refl refl h)
        (λ _. unmarked r _ refl refl refl refl h)

  bounded_scan-IsUnmarked :
      (name : Text) (table : Table) (r : Running) (report : CuratorReport)
      → IsUnmarked w r
      → IsUnmarked w (bounded_scan c name table r report).0
  unfolding bounded_scan
  bounded_scan-IsUnmarked name table r report h =
      if_elim {A = Running × CuratorReport} (λ p. IsUnmarked w p.0)
        (not (c.alive r.checks) || c.breaks name) (λ _. unmarked r _ refl refl refl refl h)
        (λ _. unmarked r _ refl refl refl refl h)

  scan_all-IsUnmarked :
      (dbs : Dict Text Table) (r : Running) (report : CuratorReport)
      → IsUnmarked w r
      → IsUnmarked w (scan_all c dbs r report).0
  unfolding scan_all
  scan_all-IsUnmarked [] r report h = h
  scan_all-IsUnmarked ((name, table) ∷ dbs) r report h =
      scan_all-IsUnmarked dbs (bounded_scan c name table r report).0 _
        (bounded_scan-IsUnmarked name table r report h)

  scanned :
      (s : Running) (p : Running × CuratorReport)
      → IsUnmarked w p.0
      → LeavesMarks w (fine (record p.0 { scan_report = some p.1 }))
  unfolding LeavesMarks
  scanned s p h = unmarked p.0 _ refl refl refl refl h

  breaking : (r : Running) → IsUnmarked w r → LeavesMarks w (broke r)
  unfolding LeavesMarks
  breaking r h = h

  pub run_scan-LeavesMarks : (r : Running) → IsUnmarked w r → LeavesMarks w (run_scan c r)
  unfolding run_scan run_curator_scan empty_report
  run_scan-LeavesMarks r h =
      then_run-LeavesMarks w (check_alive c r) _ (check_alive-LeavesMarks r h) (λ q k.
        then_run-LeavesMarks w (check_alive c q) _ (check_alive-LeavesMarks q k) (λ s l.
          if_elim (LeavesMarks w) c.scan_listing_raises (λ _. breaking s l)
            (λ _.
              scanned s (scan_all c s.world.databases s (empty_report s.world.databases))
                (scan_all-IsUnmarked s.world.databases s (empty_report s.world.databases) l))))

  reviewed-LeavesMarks :
      (name : Text) (e : Ended) (r : Running) → IsUnmarked w r → LeavesMarks w (reviewed name e r)
  unfolding reviewed LeavesMarks
  reviewed-LeavesMarks name (finished v) r h = unmarked r _ refl refl refl refl h
  reviewed-LeavesMarks name (lost v) r h = unmarked r _ refl refl refl refl h

  review_table-LeavesMarks :
      (name : Text) (o : Option Table) (r : Running)
      → IsUnmarked w r
      → LeavesMarks w (review_table c name o r)
  unfolding review_table LeavesMarks
  review_table-LeavesMarks name none r h = h
  review_table-LeavesMarks name (some table) r h =
      unfold LeavesMarks in reviewed-LeavesMarks name _ r h

  review_one-LeavesMarks :
      (name : Text) (r : Running) → IsUnmarked w r → LeavesMarks w (review_one c name r)
  unfolding review_one
  review_one-LeavesMarks name r h =
      then_run-LeavesMarks w (check_alive c r) _ (check_alive-LeavesMarks r h) (λ q k.
        if_elim (LeavesMarks w) (c.review_breaks name) (λ _. unfold LeavesMarks in k)
          (λ _. review_table-LeavesMarks name _ q k))

  review_all-LeavesMarks :
      (names : List Text) (r : Running) → IsUnmarked w r → LeavesMarks w (review_all c names r)
  unfolding review_all
  review_all-LeavesMarks [] r h = unfold LeavesMarks in unmarked r _ refl refl refl refl h
  review_all-LeavesMarks (name ∷ names) r h =
      then_run-LeavesMarks w (review_one c name r) _ (review_one-LeavesMarks name r h)
        (λ q k. review_all-LeavesMarks names q k)

  review_databases-LeavesMarks :
      (dbs : Dict Text Table) (r : Running)
      → IsUnmarked w r
      → LeavesMarks w (review_databases c dbs r)
  unfolding review_databases
  review_databases-LeavesMarks [] r h = unfold LeavesMarks in h
  review_databases-LeavesMarks (db ∷ dbs) r h =
      then_run-LeavesMarks w (check_alive c r) _ (check_alive-LeavesMarks r h)
        (λ q k. review_all-LeavesMarks (Dict.keys (db ∷ dbs)) q k)

  skip_review-LeavesMarks : (r : Running) → IsUnmarked w r → LeavesMarks w (skip_review r)
  unfolding skip_review LeavesMarks
  skip_review-LeavesMarks r h = record {
    last_run = h.last_run;
    review = h.review;
    error = λ q. cc;
    calm = h.calm;
  }

  review_listed-LeavesMarks : (r : Running) → IsUnmarked w r → LeavesMarks w (review_listed c r)
  unfolding review_listed
  review_listed-LeavesMarks r h =
      if_elim (LeavesMarks w) c.review_listing_raises (λ _. breaking r h)
        (λ _. review_databases-LeavesMarks r.world.databases r h)

  review_if_due-LeavesMarks : (r : Running) → IsUnmarked w r → LeavesMarks w (review_if_due c r)
  unfolding review_if_due
  review_if_due-LeavesMarks r h =
      if_elim (LeavesMarks w) c.force_review (λ _. review_listed-LeavesMarks r h)
        (λ _.
          if_elim (LeavesMarks w) c.last_review_raises (λ _. breaking r h)
            (λ _.
              if_elim (LeavesMarks w) (should_run_llm_review c r.world)
                (λ _. review_listed-LeavesMarks r h) (λ _. skip_review-LeavesMarks r h)))

  pub run_review-LeavesMarks :
      (r : Running) → IsUnmarked w r → LeavesMarks w (run_review_if_permitted c r)
  unfolding run_review_if_permitted
  run_review-LeavesMarks r h =
      if_elim (LeavesMarks w) (not c.llm_review_enabled) (λ _. skip_review-LeavesMarks r h)
        (λ _.
          if_elim (LeavesMarks w) (not c.has_model) (λ _. unfold LeavesMarks in h)
            (λ _. review_if_due-LeavesMarks r h))
