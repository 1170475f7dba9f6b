-- ===== src/Evolution/Cycle.antt =====
-- `run_curator_scan` of src/pyclaw/core/curator.py and `CuratorCycle` of src/pyclaw/core/curator_cycle.py, with the
-- times that `CuratorStateStore` of src/pyclaw/core/curator_state.py keeps: a cycle under the distributed mutex scans all
-- databases, lets the language model review them, and marks what it has completed. `alive` says what the n-th check
-- of the mutex finds. The scans run together, each on its own database; here they are made one after another.

pub mod Sections
pub mod Marks
pub mod LostScan
use mathlib.Core.Option
use pyclaw.Prelude.{
  ℕ, zero, suc, ◌+◌, Text, codes, Bool, true, false, ◌&&◌, ◌||◌, not, Option, none, some, List, [],
  ◌∷◌, ◌++◌, map, length, if◌then◌else◌, ltb, text_key,
}
use pyclaw.Prelude.Dict
use pyclaw.Prelude.Dict.{Dict}
use pyclaw.Evolution.Procedures.{Table}
use pyclaw.Evolution.Graduation.{Files, Place}
use pyclaw.Evolution.Scan.{Settings, scan_single_db}
use pyclaw.Evolution.Review.{
  ReviewDecision, ReviewSettings, ReviewOutcome, Reviewing, Ended, finished, lost, run_llm_review,
  total_actions,
}

-- The databases in the order of their names, the files, and the two times that are shared through Redis.
pub record World : Type 0 where
  pub databases : Dict Text Table
  pub files : Files
  pub last_run_at : Option ℕ
  pub llm_review_last_run_at : Option ℕ

pub record CuratorReport : Type 0 where
  pub total_scanned : ℕ
  pub total_archived : ℕ
  pub total_graduated : ℕ
  pub errors : List Text

pub data CycleError : Type 0 where
  lock_lost review_skipped_interval : CycleError

pub record CycleReport : Type 0 where
  pub acquired : Bool
  pub scan_report : Option CuratorReport
  pub review_action_count : ℕ
  pub error : Option CycleError
  pub unexpected_exception : Bool

pub data CycleMode : Type 0 where
  scan_and_review review_only : CycleMode

-- What becomes of a SET on the server: it is done, or it raises, before it took place or after.
pub data Sent : Type 0 where
  done refused unanswered : Sent

-- What a cycle is given: `breaks` and `review_breaks` say whether the scan or the review of a database raises, before
-- it changes anything, `decisions`
-- what the model answers, and `has_model` that there are a client of the model and a directory for the workspaces.
pub record Cycle : Type 0 where
  pub place : Place
  pub alive : ℕ → Bool
  pub now : ℕ
  pub mode : CycleMode
  pub force_review : Bool
  pub settings : Settings
  pub review_settings : ReviewSettings
  pub llm_review_enabled : Bool
  pub llm_review_interval : ℕ
  pub has_model : Bool
  pub breaks : Text → Bool
  pub review_breaks : Text → Bool
  pub decisions : Text → Option (List ReviewDecision)
  -- whether the listings of the databases and the read of the last review raise, and how the marks are answered
  pub scan_listing_raises : Bool
  pub review_listing_raises : Bool
  pub last_review_raises : Bool
  pub scan_mark : Sent
  pub review_mark : Sent

-- The fields of `CuratorCycle` that a run sets, with the world and the number of checks made.
pub record Running : Type 0 where
  pub world : World
  pub checks : ℕ
  pub scan_report : Option CuratorReport
  pub review_outcomes : List ReviewOutcome
  pub error : Option CycleError
  pub unexpected_exception : Bool
  pub full_traversal : Bool

-- How a part of the critical section is left: normally, by a LockLostError, or by another exception.
pub data Left : Type 0 where
  fine : Running → Left
  lost_lock : Running → Left
  broke : Running → Left

unfoldable pub then_run : Left → (Running → Left) → Left
then_run (fine r) rest = rest r
then_run (lost_lock r) rest = lost_lock r
then_run (broke r) rest = broke r

unfoldable pub add_error : Text → CuratorReport → CuratorReport
add_error name report = record report { errors = report.errors ++ name ∷ [] }

unfoldable pub add_scan : ℕ → ℕ → CuratorReport → CuratorReport
add_scan archived graduated report = record report {
  total_archived = report.total_archived + archived;
  total_graduated = report.total_graduated + graduated;
}

unfoldable pub reviewed : Text → Ended → Running → Left
reviewed name (finished v) r = fine (record r {
  world = record r.world { databases = Dict.put r.world.databases name v.table; files = v.files };
  checks = v.checks;
  review_outcomes = r.review_outcomes ++ v.outcome ∷ [];
})
reviewed name (lost v) r = lost_lock (record r {
  world = record r.world { databases = Dict.put r.world.databases name v.table; files = v.files };
  checks = v.checks;
})

unfoldable pub skip_review : Running → Left
skip_review r = fine (record r { error = some review_skipped_interval })

unfoldable pub does_scan : CycleMode → Bool
does_scan scan_and_review = true
does_scan review_only = false

unfoldable pub begin_cycle : World → Running
begin_cycle world = record {
  world = world;
  checks = 0;
  scan_report = none;
  review_outcomes = [];
  error = none;
  unexpected_exception = false;
  full_traversal = false;
}

sum_actions : List ReviewOutcome → ℕ
sum_actions [] = 0
sum_actions (o ∷ os) = total_actions o + sum_actions os

unfoldable pub build_report : Running → CycleReport
unfolding sum_actions
build_report r = record {
  acquired = true;
  scan_report = r.scan_report;
  review_action_count = sum_actions r.review_outcomes;
  error = r.error;
  unexpected_exception = r.unexpected_exception;
}

abbrev pub busy : CycleReport
busy = record {
  acquired = false;
  scan_report = none;
  review_action_count = 0;
  error = none;
  unexpected_exception = false;
}

unfoldable pub empty_report : Dict Text Table → CuratorReport
empty_report dbs = record {
  total_scanned = length dbs;
  total_archived = 0;
  total_graduated = 0;
  errors = [];
}

-- The two `except` clauses of `_run_critical_section`.
unfoldable pub completed : Left → Running
completed (fine r) = r
completed (lost_lock r) = record r { error = some lock_lost }
completed (broke r) = record r { unexpected_exception = true }

module _ (c : Cycle) where
  unfoldable pub check_alive : Running → Left
  check_alive r =
      let after = record r { checks = r.checks + 1 } in
      if c.alive r.checks then fine after else lost_lock after

  -- One of the tasks of the gather: an exception, the loss of the lock included, becomes an error of the report.
  unfoldable pub bounded_scan : Text → Table → Running → CuratorReport → Running × CuratorReport
  unfolding add_error add_scan
  bounded_scan name table r report =
      let checked = record r { checks = r.checks + 1 } in
      if not (c.alive r.checks) || c.breaks name
      then (checked, add_error name report)
      else (let scanned = scan_single_db c.place c.now c.now c.settings table r.world.files in
          (
            record checked {
              world = record r.world {
                databases = Dict.put r.world.databases name scanned.0;
                files = scanned.1;
              };
            },
            add_scan scanned.2 scanned.3 report,
          ))

  unfoldable pub scan_all : Dict Text Table → Running → CuratorReport → Running × CuratorReport
  unfolding bounded_scan
  scan_all [] r report = (r, report)
  scan_all ((name, table) ∷ dbs) r report =
      let one = bounded_scan name table r report in scan_all dbs one.0 one.1

  unfoldable pub run_curator_scan : Running → Left
  unfolding scan_all check_alive then_run empty_report
  run_curator_scan r = then_run (check_alive r) λ q.
      let scanned = scan_all q.world.databases q (empty_report q.world.databases) in
      if c.scan_listing_raises
      then broke q
      else fine (record scanned.0 { scan_report = some scanned.1 })

  unfoldable pub run_scan : Running → Left
  unfolding run_curator_scan check_alive then_run
  run_scan r = then_run (check_alive r) run_curator_scan

  unfoldable pub review_table : Text → Option Table → Running → Left
  unfolding reviewed
  review_table name none r = fine r
  review_table name (some table) r =
      reviewed name
        (run_llm_review c.place c.alive c.now c.review_settings table r.world.files r.checks
          (c.decisions name))
        r

  -- An exception other than the loss of the lock is passed over.
  unfoldable pub review_one : Text → Running → Left
  unfolding review_table check_alive then_run
  review_one name r = then_run (check_alive r) λ q.
      if c.review_breaks name then fine q else review_table name (Dict.get q.world.databases name) q

  unfoldable pub review_all : List Text → Running → Left
  unfolding review_one then_run
  review_all [] r = fine (record r { full_traversal = true })
  review_all (name ∷ names) r = then_run (review_one name r) (review_all names)

  -- `should_run_llm_review`
  unfoldable pub should_run_llm_review : World → Bool
  should_run_llm_review world = c.llm_review_enabled && elim world.llm_review_last_run_at [
    | none ↦ true
    | some at ↦ not (ltb c.now (at + c.llm_review_interval))
  ]

  unfoldable pub review_databases : Dict Text Table → Running → Left
  unfolding review_all check_alive then_run
  review_databases [] r = fine r
  review_databases (db ∷ dbs) r = then_run (check_alive r) (review_all (Dict.keys (db ∷ dbs)))

  unfoldable pub review_listed : Running → Left
  unfolding review_databases
  review_listed r =
      if c.review_listing_raises then broke r else review_databases r.world.databases r

  -- The time of the last review is read unless the review is forced.
  unfoldable pub review_if_due : Running → Left
  unfolding skip_review review_listed should_run_llm_review
  review_if_due r =
      if c.force_review
      then review_listed r
      else if c.last_review_raises
      then broke r
      else if should_run_llm_review r.world
      then review_listed r
      else skip_review r

  unfoldable pub run_review_if_permitted : Running → Left
  unfolding skip_review review_if_due
  run_review_if_permitted r =
      if not c.llm_review_enabled
      then skip_review r
      else if not c.has_model
      then fine r
      else review_if_due r

  -- `mark_scan_completed`
  unfoldable pub mark_scan_completed : Running → Left
  mark_scan_completed r =
      let marked = record r { world = record r.world { last_run_at = some c.now } } in
      elim c.scan_mark [ done ↦ fine marked | refused ↦ broke r | unanswered ↦ broke marked ]

  -- `mark_review_fully_completed`
  unfoldable pub mark_review_fully_completed : Running → Left
  mark_review_fully_completed r =
      let marked = record r { world = record r.world { llm_review_last_run_at = some c.now } } in
      elim c.review_mark [ done ↦ fine marked | refused ↦ broke r | unanswered ↦ broke marked ]

  -- It is called while the lock is not known to be lost.
  unfoldable pub mark_completion : Running → Left
  unfolding does_scan then_run mark_scan_completed mark_review_fully_completed
  mark_completion r =
      then_run (if does_scan c.mode then mark_scan_completed r else fine r)
        λ q. if q.full_traversal then mark_review_fully_completed q else fine q

  unfoldable pub work : Running → Left
  unfolding run_scan run_review_if_permitted mark_completion does_scan then_run
  work r =
      then_run (then_run (if does_scan c.mode then run_scan r else fine r) run_review_if_permitted)
        mark_completion

  -- `execute`: `acquired` is whether the mutex was entered, or found busy. Where entering it or leaving it raises another
  -- error, `execute` raises too and makes no report; that is left out, and so is a second call on the same object.
  unfoldable pub execute : (acquired : Bool) → World → World × CycleReport
  unfolding work completed build_report begin_cycle
  execute acquired world =
      let end = completed (work (begin_cycle world)) in
      if acquired then (end.world, build_report end) else (world, busy)
