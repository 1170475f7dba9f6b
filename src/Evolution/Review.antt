-- ===== src/Evolution/Review.antt =====
-- `run_llm_review` of src/pyclaw/core/curator.py: the language model reviews the procedures of one database. The lock is
-- checked before each write; `alive` says what the n-th check of the cycle finds. The model's decisions are an
-- argument, none where its call fails; removals from the index of the memory are not modelled.
pub mod Named
use pyclaw.Prelude.{
  ℕ, zero, suc, ◌+◌, Text, codes, Bool, true, false, ◌&&◌, Option, none, some, List, [], ◌∷◌, ◌++◌,
  take, length, if◌then◌else◌, ltb, text_key,
}
use pyclaw.Prelude.Dict
use pyclaw.Evolution.Procedures.{Row, Table, archive_row, graduate_row, update, list_auto_sops}
use pyclaw.Evolution.Graduation.{Files, Place, graduate_single_sop}

pub data Action : Type 0 where
  keep promote archive : Action

pub record ReviewDecision : Type 0 where
  pub id : Text
  pub decision : Action
  pub reason : Text

pub record ReviewSettings : Type 0 where
  pub max_batch : ℕ
  pub allows_promote : Bool
  pub allows_archive : Bool
  pub graduation_enabled : Bool

pub record ReviewOutcome : Type 0 where
  pub entries_reviewed : ℕ
  pub promoted_count : ℕ
  pub archived_count : ℕ
  pub failed_count : ℕ

unfoldable pub total_actions : ReviewOutcome → ℕ
total_actions o = o.promoted_count + o.archived_count

-- The database, the files, how many checks were made, and the counts.
pub record Reviewing : Type 0 where
  pub table : Table
  pub files : Files
  pub checks : ℕ
  pub outcome : ReviewOutcome

-- Whether the lock was found lost.
pub data Ended : Type 0 where
  finished : Reviewing → Ended
  lost : Reviewing → Ended

-- ORDER BY use_count DESC; rows that are used equally often keep their order.
insert_used : Text × Row → List (Text × Row) → List (Text × Row)
insert_used r [] = r ∷ []
insert_used r (s ∷ rows) =
    let rest = insert_used r rows in
    if ltb r.1.use_count s.1.use_count then s ∷ rest else r ∷ s ∷ rows

most_used : List (Text × Row) → List (Text × Row)
unfolding insert_used
most_used [] = []
most_used (r ∷ rows) = insert_used r (most_used rows)

unfoldable pub get_entries : ReviewSettings → Table → List (Text × Row)
unfolding most_used list_auto_sops
get_entries settings table = take settings.max_batch (most_used (list_auto_sops table))

unfoldable pub count_failed : ReviewOutcome → ReviewOutcome
count_failed o = record o { failed_count = o.failed_count + 1 }

unfoldable pub count_promoted : ReviewOutcome → ReviewOutcome
count_promoted o = record o { promoted_count = o.promoted_count + 1 }

unfoldable pub count_archived : ReviewOutcome → ReviewOutcome
count_archived o = record o { archived_count = o.archived_count + 1 }

-- A lock that is lost ends the review.
unfoldable pub and_then : Ended → (Reviewing → Ended) → Ended
and_then (finished r) rest = rest r
and_then (lost r) rest = lost r

module _ (place : Place) (alive : ℕ → Bool) (now : ℕ) (settings : ReviewSettings) where
  -- check_alive(), then the update and its count
  unfoldable pub checked_update :
      (Row → Row) → Text → (ReviewOutcome → ReviewOutcome) → Reviewing → Ended
  checked_update f id count r =
      let after = record r { checks = r.checks + 1 } in
      if alive r.checks
      then finished (record after { table = update f r.table id; outcome = count r.outcome })
      else lost after

  unfoldable pub graduated : Text → Files × Option Text → Reviewing → Ended
  unfolding checked_update count_failed count_promoted
  graduated id (files, none) r =
      finished (record r { files = files; outcome = count_failed r.outcome })
  graduated id (files, some path) r =
      checked_update graduate_row id count_promoted (record r { files = files })

  unfoldable pub act : ReviewDecision → Row → Action → Reviewing → Ended
  unfolding graduated checked_update count_archived
  act d row keep r = finished r
  act d row promote r =
      if settings.allows_promote && settings.graduation_enabled
      then graduated d.id (graduate_single_sop place r.files row.content row.session_key) r
      else finished r
  act d row archive r =
      if settings.allows_archive
      then checked_update (archive_row now (codes "llm_review: " ++ take 100 d.reason)) d.id
          count_archived r
      else finished r

  unfoldable pub apply_decision : ReviewDecision → Option Row → Reviewing → Ended
  unfolding act
  apply_decision d none r = finished r
  apply_decision d (some row) r = act d row d.decision r

  unfoldable pub apply_decisions : List (Text × Row) → List ReviewDecision → Reviewing → Ended
  unfolding apply_decision and_then
  apply_decisions entries [] r = finished r
  apply_decisions entries (d ∷ ds) r =
      and_then (apply_decision d (Dict.get entries d.id) r) (apply_decisions entries ds)

  unfoldable pub begin : Table → Files → ℕ → Reviewing
  begin table files checks = record {
    table = table;
    files = files;
    checks = checks;
    outcome = record {
      entries_reviewed = 0;
      promoted_count = 0;
      archived_count = 0;
      failed_count = 0;
    };
  }

  unfoldable pub answered : List (Text × Row) → Option (List ReviewDecision) → Reviewing → Ended
  unfolding apply_decisions count_failed
  answered entries none r = finished (record r { outcome = count_failed r.outcome })
  answered entries (some ds) r = apply_decisions entries ds r

  -- The check before the call of the model, and what follows it.
  unfoldable pub ask_model : List (Text × Row) → Option (List ReviewDecision) → Reviewing → Ended
  unfolding answered
  ask_model [] decisions r = finished r
  ask_model (e ∷ es) decisions r =
      let asked = record r {
        checks = r.checks + 1;
        outcome = record r.outcome { entries_reviewed = length (e ∷ es) };
      } in
      if alive r.checks then answered (e ∷ es) decisions asked else lost asked

  -- `checks` is the number of checks that the cycle made before.
  unfoldable pub run_llm_review : Table → Files → ℕ → Option (List ReviewDecision) → Ended
  unfolding ask_model begin get_entries
  run_llm_review table files checks decisions =
      let r = begin table files checks in
      if alive checks
      then ask_model (get_entries settings table) decisions (record r { checks = checks + 1 })
      else lost (record r { checks = checks + 1 })
