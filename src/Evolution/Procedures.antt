-- ===== src/Evolution/Procedures.antt =====
-- The table `procedures` of a memory database, as src/pyclaw/core/curator.py and src/pyclaw/core/curator_admin.py
-- read and write it: rows by their primary key. Times are in seconds.
use pyclaw.Prelude.{
  ℕ, ◌+◌, ◌*◌, Text, Bool, true, false, Option, none, some, List, [], ◌∷◌, map, any, ◌&&◌, leb, ltb,
  if◌then◌else◌, text_eq, text_key,
}
use pyclaw.Prelude.Dict
use pyclaw.Prelude.Dict.{Dict}

pub data Status : Type 0 where
  active archived graduated : Status
  other : Text → Status

pub record Row : Type 0 where
  pub session_key : Text
  pub content : Text
  pub is_auto_sop : Bool
  pub status : Status
  pub use_count : ℕ
  pub created_at : ℕ
  pub last_used_at : Option ℕ
  pub archived_at : Option ℕ
  pub archive_reason : Option Text

abbrev pub Table : Type 0
Table = Dict Text Row

unfoldable pub is_active : Status → Bool
is_active active = true
is_active _ = false

unfoldable pub is_archived : Status → Bool
is_archived archived = true
is_archived _ = false

-- COALESCE(last_used_at, created_at)
unfoldable pub last_use : Row → ℕ
last_use row = elim row.last_used_at [ none ↦ row.created_at | some at ↦ at ]

-- status='active' AND COALESCE(last_used_at, created_at) < now - days * 86400
unfoldable pub is_stale : (now days : ℕ) → Row → Bool
unfolding is_active last_use
is_stale now days row = is_active row.status && ltb (last_use row + days * 86400) now

-- type='auto_sop' AND status='active' AND use_count >= ? AND created_at <= now - days * 86400
unfoldable pub is_candidate : (now min_use min_days : ℕ) → Row → Bool
unfolding is_active
is_candidate now min_use min_days row =
    row.is_auto_sop
    && is_active row.status
    && leb min_use row.use_count
    && leb (row.created_at + min_days * 86400) now

-- UPDATE ... SET status='archived', archived_at=?, archive_reason=?
unfoldable pub archive_row : (now : ℕ) → (reason : Text) → Row → Row
archive_row now reason row = record row {
  status = archived;
  archived_at = some now;
  archive_reason = some reason;
}

-- UPDATE ... SET status='graduated'
unfoldable pub graduate_row : Row → Row
graduate_row row = record row { status = graduated }

-- UPDATE ... SET status='active', archived_at=NULL, archive_reason=NULL
unfoldable pub restore_row : Row → Row
restore_row row = record row { status = active; archived_at = none; archive_reason = none }

-- UPDATE procedures SET ... WHERE id = ?
unfoldable pub update : (Row → Row) → Table → Text → Table
update f [] id = []
update f ((k, row) ∷ t) id = (k, if text_eq k id then f row else row) ∷ update f t id

-- UPDATE procedures SET ... WHERE id IN (...)
unfoldable pub update_all : (Row → Row) → Table → List Text → Table
update_all f [] ids = []
update_all f ((k, row) ∷ t) ids =
    (k, if any (text_eq k) ids then f row else row) ∷ update_all f t ids

-- SELECT ... FROM procedures WHERE ...
unfoldable pub rows_where : (Row → Bool) → Table → List (Text × Row)
rows_where p [] = []
rows_where p ((k, row) ∷ t) = let rest = rows_where p t in if p row then (k, row) ∷ rest else rest

unfoldable pub ids_of : List (Text × Row) → List Text
ids_of rows = map (λ (r : Text × Row). r.0) rows

-- `list_auto_sops`, of one database
unfoldable pub list_auto_sops : Table → List (Text × Row)
unfolding rows_where is_active
list_auto_sops table = rows_where (λ row. row.is_auto_sop && is_active row.status) table

-- `list_stale_sops`
unfoldable pub list_stale_sops : (now days : ℕ) → Table → List (Text × Row)
unfolding rows_where is_stale
list_stale_sops now days table = rows_where (is_stale now days) table

-- `list_archived_sops`
unfoldable pub list_archived_sops : Table → List (Text × Row)
unfolding rows_where is_archived
list_archived_sops table = rows_where (λ row. is_archived row.status) table

-- `preview_graduation`
unfoldable pub preview_graduation : (now min_use min_days : ℕ) → Table → List (Text × Row)
unfolding rows_where is_candidate
preview_graduation now min_use min_days table = rows_where (is_candidate now min_use min_days) table

-- `restore_sop`, in one database: the table and whether the row was archived
unfoldable pub restore_sop : Table → Text → Table × Bool
unfolding update restore_row is_archived
restore_sop table id = elim (Dict.get table id) [
  | none ↦ (table, false)
  | some row ↦
      if is_archived row.status then (update restore_row table id, true) else (table, false)
]
