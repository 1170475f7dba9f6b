-- ===== src/Evolution/Scan/Steps.antt =====
-- What a scan of src/pyclaw/core/curator.py does to each row of the table.
use pyclaw.Prelude.{
  ℕ, Text, Bool, true, false, Option, none, some, List, [], ◌∷◌, any, ◌≡◌, refl, sym, ap, ◌∙◌, ◌⊎◌,
  inl, inr, if◌then◌else◌, text_eq, text_eq_iff, text_key, Bool-cases, arith,
}
use pyclaw.Prelude.Dict
use pyclaw.Evolution.Procedures.{
  Row, Table, is_active, is_stale, is_candidate, archive_row, graduate_row, update, update_all,
  rows_where, ids_of, list_stale_sops, preview_graduation,
}
use pyclaw.Evolution.Graduation.{Files, Place, graduate_single_sop}
use pyclaw.Evolution.Scan.{
  Settings, unused_reason, archive_stale, graduate_one, graduate_rows, scan_single_db,
}

get-update :
    (f : Row → Row) (t : Table) (id j : Text) (row : Row)
    → Dict.get t j ≡ some row
    → Dict.get (update f t id) j ≡ some (if text_eq j id then f row else row)
unfolding update Dict.get
get-update f [] id j row h = cc
get-update f ((k, r) ∷ t) id j row h = ground (arith, text_eq_iff k j, get-update f t id j row)

get-update_all :
    (f : Row → Row) (t : Table) (ids : List Text) (j : Text) (row : Row)
    → Dict.get t j ≡ some row
    → Dict.get (update_all f t ids) j ≡ some (if any (text_eq j) ids then f row else row)
unfolding update_all Dict.get
get-update_all f [] ids j row h = cc
get-update_all f ((k, r) ∷ t) ids j row h =
    ground (arith, text_eq_iff k j, get-update_all f t ids j row)

has-update_all :
    (f : Row → Row) (t : Table) (ids : List Text) (j : Text)
    → Dict.has (update_all f t ids) j ≡ Dict.has t j
unfolding update_all Dict.has
has-update_all f [] ids j = refl
has-update_all f ((k, r) ∷ t) ids j =
    ap (λ b. if text_eq k j then true else b) (has-update_all f t ids j)

update_all-IsDistinct :
    (f : Row → Row) (t : Table) (ids : List Text)
    → Dict.IsDistinct t
    → Dict.IsDistinct (update_all f t ids)
unfolding update_all
update_all-IsDistinct f [] ids h = tt
update_all-IsDistinct f ((k, r) ∷ t) ids (new, h) =
    (has-update_all f t ids k ∙ new, update_all-IsDistinct f t ids h)

-- A key that is not in the table is in no selection.
any-rows_where-false :
    (p : Row → Bool) (t : Table) (j : Text)
    → Dict.has t j ≡ false
    → any (text_eq j) (ids_of (rows_where p t)) ≡ false
unfolding rows_where ids_of Dict.has
any-rows_where-false p [] j h = refl
any-rows_where-false p ((k, r) ∷ t) j h =
    ground (arith, text_eq_iff k j, text_eq_iff j k, any-rows_where-false p t j)

-- A row is selected exactly if it passes the test.
any-rows_where :
    (p : Row → Bool) (t : Table) (j : Text) (row : Row)
    → Dict.IsDistinct t
    → Dict.get t j ≡ some row
    → any (text_eq j) (ids_of (rows_where p t)) ≡ p row
unfolding rows_where ids_of Dict.get
any-rows_where p [] j row d h = cc
any-rows_where p ((k, r) ∷ t) j row (new, d) h = ground (
  arith,
  text_eq_iff k j,
  text_eq_iff j k,
  any-rows_where p t j row d,
  any-rows_where-false p t j,
)

-- What a scan may make of a row.
pub data Scanned (now later : ℕ) (settings : Settings) (row : Row) : Row → Type 0 where
  unchanged : is_stale now settings.archive_days row ≡ false → Scanned now later settings row row
  archives :
      is_stale now settings.archive_days row ≡ true
      → Scanned now later settings row (archive_row now (unused_reason settings.archive_days) row)
  graduates :
      is_stale now settings.archive_days row ≡ false
      → settings.graduation_enabled ≡ true
      → is_candidate later settings.promotion_min_use_count settings.promotion_min_days row ≡ true
      → Scanned now later settings row (graduate_row row)

-- A row of the loop's table that may have been graduated, which only one of the rows of the loop can be.
Graduated : List (Text × Row) → Text → Row → Row → Type 0
Graduated rows id row after =
    (after ≡ row) ⊎ ((any (text_eq id) (ids_of rows) ≡ true) × (after ≡ graduate_row row))

graduate_one-Graduated :
    (place : Place) (id : Text) (row : Row) (rows : List (Text × Row)) (t : Table)
    (files after : Files) (made : Option Text) (j : Text) (r : Row)
    → Dict.get t j ≡ some r
    → (q : Row) × (Dict.get (graduate_one place t files id row made after).0 j ≡ some q)
      × Graduated ((id, row) ∷ rows) j r q
unfolding graduate_one Graduated ids_of
graduate_one-Graduated place id row rows t files after none j r h = (r, h, inl refl)
graduate_one-Graduated place id row rows t files after (some path) j r h =
    elim (Bool-cases (text_eq j id)) [
      | inl same ↦ (
        graduate_row r,
        get-update graduate_row t id j r h ∙ ap (λ b. some (if b then graduate_row r else r)) same,
        inr (rw same refl, refl),
      )
      | inr other ↦ (
        r,
        get-update graduate_row t id j r h ∙ ap (λ b. some (if b then graduate_row r else r)) other,
        inl refl,
      )
    ]

Graduated-trans :
    (id : Text) (row : Row) (rows : List (Text × Row)) (j : Text) (a b c : Row)
    → Graduated ((id, row) ∷ []) j a b
    → Graduated rows j b c
    → Graduated ((id, row) ∷ rows) j a c
unfolding Graduated ids_of graduate_row
Graduated-trans id row rows j a b c f g = ground (arith, f, g)

graduate_rows-Graduated :
    (place : Place) (rows : List (Text × Row)) (t : Table) (files : Files) (j : Text) (r : Row)
    → Dict.get t j ≡ some r
    → (q : Row) × (Dict.get (graduate_rows place rows t files).0 j ≡ some q) × Graduated rows j r q
unfolding graduate_rows
graduate_rows-Graduated place [] t files j r h = (r, h, unfold Graduated in inl refl)
graduate_rows-Graduated place ((id, row) ∷ rows) t files j r h =
    let made = graduate_single_sop place files row.content row.session_key in
    let one = graduate_one place t files id row made.1 made.0 in
    let (q, here, f) = graduate_one-Graduated place id row [] t files made.0 made.1 j r h in
    let (s, there, g) = graduate_rows-Graduated place rows one.0 one.1 j q here in
    (s, there, Graduated-trans id row rows j r q s f g)

archived-is_candidate :
    (now later min_use min_days : ℕ) (reason : Text) (row : Row)
    → is_candidate later min_use min_days (archive_row now reason row) ≡ false
unfolding is_candidate archive_row is_active
archived-is_candidate now later min_use min_days reason row = ground arith

module _ (place : Place) (now later : ℕ) (settings : Settings) where
  candidates : Table → List (Text × Row)
  candidates t =
      if settings.graduation_enabled
      then preview_graduation later settings.promotion_min_use_count settings.promotion_min_days t
      else []

  -- A candidate passes the test, and graduation is on.
  any-candidates :
      (t : Table) (id : Text) (row : Row)
      → Dict.IsDistinct t
      → Dict.get t id ≡ some row
      → any (text_eq id) (ids_of (candidates t)) ≡ true
      → (settings.graduation_enabled ≡ true)
        × (is_candidate later settings.promotion_min_use_count settings.promotion_min_days row
            ≡ true)
  unfolding candidates preview_graduation ids_of
  any-candidates t id row d h there =
      let test = is_candidate later settings.promotion_min_use_count settings.promotion_min_days in
      on settings.graduation_enabled (any-rows_where test t id row d h) there
    where
      on :
          (b : Bool)
          → any (text_eq id) (
              ids_of (
                rows_where
                  (is_candidate later settings.promotion_min_use_count settings.promotion_min_days)
                  t))
            ≡ is_candidate later settings.promotion_min_use_count settings.promotion_min_days row
          → any (text_eq id) (
              ids_of (
                if b
                then rows_where
                    (is_candidate later settings.promotion_min_use_count
                      settings.promotion_min_days)
                    t
                else []))
            ≡ true
          → (b ≡ true)
            × (is_candidate later settings.promotion_min_use_count settings.promotion_min_days row
                ≡ true)
      on true e h = (refl, sym e ∙ h)
      on false e h = absurd (ground (arith, h))

  archive : Row → Row
  archive = archive_row now (unused_reason settings.archive_days)

  unless_stale :
      (row q : Row) (ids : List (Text × Row)) (id : Text)
      → (any (text_eq id) (ids_of ids) ≡ true
          → (settings.graduation_enabled ≡ true)
            × (is_candidate later settings.promotion_min_use_count settings.promotion_min_days
                  (if is_stale now settings.archive_days row then archive row else row)
                ≡ true))
      → Graduated ids id (if is_stale now settings.archive_days row then archive row else row) q
      → Scanned now later settings row q
  unfolding Graduated archive
  unless_stale row q ids id test g = elim (Bool-cases (is_stale now settings.archive_days row)) [
    | inl s ↦ stale s (rw s at g) (rw s at test)
    | inr f ↦ fresh f (rw f at g) (rw f at test)
  ]
    where
      stale :
          is_stale now settings.archive_days row ≡ true
          → (q ≡ archive row)
            ⊎ ((any (text_eq id) (ids_of ids) ≡ true) × (q ≡ graduate_row (archive row)))
          → (any (text_eq id) (ids_of ids) ≡ true
              → (settings.graduation_enabled ≡ true)
                × (is_candidate later settings.promotion_min_use_count settings.promotion_min_days
                      (archive row)
                    ≡ true))
          → Scanned now later settings row q
      stale s (inl e) test = rw e (archives s)
      stale s (inr (there, e)) test = absurd (
          ground (
            arith,
            (test there).1,
            archived-is_candidate now later settings.promotion_min_use_count
                settings.promotion_min_days (unused_reason settings.archive_days) row,
          ))

      fresh :
          is_stale now settings.archive_days row ≡ false
          → (q ≡ row) ⊎ ((any (text_eq id) (ids_of ids) ≡ true) × (q ≡ graduate_row row))
          → (any (text_eq id) (ids_of ids) ≡ true
              → (settings.graduation_enabled ≡ true)
                × (is_candidate later settings.promotion_min_use_count settings.promotion_min_days
                      row
                    ≡ true))
          → Scanned now later settings row q
      fresh f (inl e) test = rw e (unchanged f)
      fresh f (inr (there, e)) test = let (on, fits) = test there in rw e (graduates f on fits)

  -- A scan of a table with distinct keys keeps every row, and makes of it what its test says: a row that is active
  -- and unused for longer than the limit is archived; another may be graduated, only if graduation is on and it is an
  -- active procedure of the agent's own that is used enough and old enough; else it stays as it is. No row that the scan
  -- archives is graduated.
  pub scan_single_db-Scanned :
      (table : Table) (files : Files) (id : Text) (row : Row)
      → Dict.IsDistinct table
      → Dict.get table id ≡ some row
      → (after : Row) × (Dict.get (scan_single_db place now later settings table files).0 id
          ≡ some after)
        × Scanned now later settings row after
  unfolding scan_single_db archive_stale list_stale_sops
  scan_single_db-Scanned table files id row d h =
      let ids = ids_of (rows_where (is_stale now settings.archive_days) table) in
      let t = update_all archive table ids in
      let r : Row = if is_stale now settings.archive_days row then archive row else row in
      let there : Dict.get t id ≡ some r =
        get-update_all archive table ids id row h
        ∙ ap (λ b. some (if b then archive row else row))
            (any-rows_where (is_stale now settings.archive_days) table id row d h) in
      let (q, here, g) = graduate_rows-Graduated place (candidates t) t files id r there in
      (
        q,
        unfold candidates in unfold archive in here,
        unless_stale row q (candidates t) id
            (any-candidates t id r (update_all-IsDistinct archive table ids d) there) g,
      )
