-- ===== src/Evolution/Scan.antt =====
-- `_scan_single_db` of src/pyclaw/core/curator.py: what is unused for long is archived, what is
-- used often becomes a skill. `now` is the time of the archiving, `later` that of the graduation. The removals from the
-- index of the memory are not modelled.
pub mod Steps
use pyclaw.Prelude.{
  ℕ, ◌+◌, Text, codes, Bool, true, false, Option, none, some, List, [], ◌∷◌, ◌++◌, length,
  if◌then◌else◌, decimal,
}
use pyclaw.Evolution.Procedures.{
  Row, Table, is_stale, is_candidate, archive_row, graduate_row, update, update_all, rows_where,
  ids_of, list_stale_sops, preview_graduation,
}
use pyclaw.Evolution.Graduation.{Files, Place, graduate_single_sop}

pub record Settings : Type 0 where
  pub archive_days : ℕ
  pub graduation_enabled : Bool
  pub promotion_min_use_count : ℕ
  pub promotion_min_days : ℕ

-- f"curator:{archive_days}d_unused"
unfoldable pub unused_reason : ℕ → Text
unused_reason days = codes "curator:" ++ decimal days ++ codes "d_unused"

-- `_do_scan`: the table, and the rows that were archived
unfoldable pub archive_stale : (now : ℕ) → Settings → Table → Table × List (Text × Row)
unfolding unused_reason archive_row
archive_stale now settings table =
    let stale = list_stale_sops now settings.archive_days table in
    (update_all (archive_row now (unused_reason settings.archive_days)) table (ids_of stale), stale)

-- `graduate` is `graduate_single_sop` with what stands around it.
module _ (place : Place) where
  unfoldable pub graduate_one : Table → Files → Text → Row → Option Text → Files → Table × Files × ℕ
  graduate_one table files id row none after = (table, after, 0)
  graduate_one table files id row (some path) after = (update graduate_row table id, after, 1)

  -- The loop over the candidates.
  unfoldable pub graduate_rows : List (Text × Row) → Table → Files → Table × Files × ℕ
  unfolding graduate_one
  graduate_rows [] table files = (table, files, 0)
  graduate_rows ((id, row) ∷ rows) table files =
      let made = graduate_single_sop place files row.content row.session_key in
      let one = graduate_one table files id row made.1 made.0 in
      let rest = graduate_rows rows one.0 one.1 in (rest.0, rest.1, one.2 + rest.2)

  -- The table, the files, and how many rows were archived and graduated.
  unfoldable pub scan_single_db : (now later : ℕ) → Settings → Table → Files → Table × Files × ℕ × ℕ
  unfolding archive_stale graduate_rows
  scan_single_db now later settings table files =
      let archived = archive_stale now settings table in
      let candidates =
        if settings.graduation_enabled
        then preview_graduation later settings.promotion_min_use_count settings.promotion_min_days
            archived.0
        else [] in
      let graduated = graduate_rows candidates archived.0 files in
      (graduated.0, graduated.1, length archived.1, graduated.2)
