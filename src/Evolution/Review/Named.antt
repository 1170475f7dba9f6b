-- ===== src/Evolution/Review/Named.antt =====
-- Which rows a review of src/pyclaw/core/curator.py leaves alone.
use pyclaw.Prelude.{
  ℕ, Text, Bool, true, false, ◌&&◌, Option, none, some, List, [], ◌∷◌, any, ◌≡◌, ◌⊎◌, refl, ◌∙◌,
  if_elim, text_eq, text_eq_iff, text_key, Bool-cases, inl, inr, arith, ◌++◌, codes, take,
}
use pyclaw.Prelude.Dict
use pyclaw.Evolution.Procedures.{Row, Table, archive_row, graduate_row, update}
use pyclaw.Evolution.Graduation.{Files, Place, graduate_single_sop}
use pyclaw.Evolution.Review.{
  Action, keep, promote, archive, ReviewDecision, ReviewSettings, ReviewOutcome, Reviewing, Ended,
  finished, lost, get_entries, checked_update, graduated, apply_decision, apply_decisions, act,
  answered, and_then, count_promoted, count_archived, begin, ask_model, run_llm_review,
}

abbrev pub table_of : Ended → Table
table_of (finished r) = r.table
table_of (lost r) = r.table

unfoldable pub acts : Action → Bool
acts keep = false
acts promote = true
acts archive = true

-- Some decision names the id, and does more than keep it.
unfoldable pub names : Text → List ReviewDecision → Bool
names id ds = any (λ (d : ReviewDecision). text_eq d.id id && acts d.decision) ds

unfoldable pub decisions_of : Option (List ReviewDecision) → List ReviewDecision
decisions_of none = []
decisions_of (some ds) = ds

get-update_ne :
    (f : Row → Row) (t : Table) (id j : Text)
    → text_eq id j ≡ false
    → Dict.get (update f t id) j ≡ Dict.get t j
unfolding update Dict.get
get-update_ne f [] id j h = refl
get-update_ne f ((k, r) ∷ t) id j h =
    ground (arith, text_eq_iff k j, text_eq_iff k id, text_eq_iff id j, get-update_ne f t id j)

module _ (place : Place) (alive : ℕ → Bool) (now : ℕ) (settings : ReviewSettings) (j : Text) where
  -- The row of the id is what it was.
  Same : Reviewing → Ended → Type 0
  Same r e = Dict.get (table_of e) j ≡ Dict.get r.table j

  checked_update-Same :
      (f : Row → Row) (id : Text) (count : ReviewOutcome → ReviewOutcome) (r : Reviewing)
      → text_eq id j ≡ false
      → Same r (checked_update place alive now settings f id count r)
  unfolding checked_update Same
  checked_update-Same f id count r h =
      if_elim (λ e. Dict.get (table_of e) j ≡ Dict.get r.table j) (alive r.checks)
        (λ _. get-update_ne f r.table id j h) (λ _. refl)

  graduated-Same :
      (id : Text) (made : Files × Option Text) (r : Reviewing)
      → text_eq id j ≡ false
      → Same r (graduated place alive now settings id made r)
  unfolding graduated Same
  graduated-Same id (files, none) r h = refl
  graduated-Same id (files, some path) r h =
      unfold Same in
      checked_update-Same graduate_row id count_promoted (record r { files = files }) h

  act-Same :
      (d : ReviewDecision) (row : Row) (a : Action) (r : Reviewing)
      → (text_eq d.id j && acts a) ≡ false
      → Same r (act place alive now settings d row a r)
  unfolding act acts Same
  act-Same d row keep r h = refl
  act-Same d row promote r h =
      if_elim (λ e. Dict.get (table_of e) j ≡ Dict.get r.table j)
        (settings.allows_promote && settings.graduation_enabled)
        (λ _.
          graduated-Same d.id (graduate_single_sop place r.files row.content row.session_key) r
            (ground arith))
        (λ _. refl)
  act-Same d row archive r h =
      if_elim (λ e. Dict.get (table_of e) j ≡ Dict.get r.table j) settings.allows_archive
        (λ _.
          checked_update-Same (archive_row now (codes "llm_review: " ++ take 100 d.reason)) d.id
            count_archived r (ground arith))
        (λ _. refl)

  -- An id that no decision of a list acts on, or that is not among the entries.
  abbrev Untouched : List (Text × Row) → List ReviewDecision → Type 0
  Untouched entries ds = (names j ds ≡ false) ⊎ (Dict.get entries j ≡ none)

  apply_decision-Same :
      (entries : List (Text × Row)) (d : ReviewDecision) (ds : List ReviewDecision) (r : Reviewing)
      → Untouched entries (d ∷ ds)
      → Same r (apply_decision place alive now settings d (Dict.get entries d.id) r)
  unfolding apply_decision names
  apply_decision-Same entries d ds r (inl h) = by_row (Dict.get entries d.id)
    where
      by_row : (o : Option Row) → Same r (apply_decision place alive now settings d o r)
      by_row none = unfold Same in refl
      by_row (some row) = act-Same d row d.decision r (ground (arith, h))
  apply_decision-Same entries d ds r (inr h) = elim (Bool-cases (text_eq d.id j)) [
    | inl same ↦
        let e : Dict.get entries d.id ≡ none = rw ((text_eq_iff d.id j).0 same) h in
        rw e (unfold Same in refl)
    | inr other ↦ by_row other (Dict.get entries d.id)
  ]
    where
      by_row :
          text_eq d.id j ≡ false
          → (o : Option Row) → Same r (apply_decision place alive now settings d o r)
      by_row other none = unfold Same in refl
      by_row other (some row) = act-Same d row d.decision r (rw other refl)

  Untouched-rest :
      (entries : List (Text × Row)) (d : ReviewDecision) (ds : List ReviewDecision)
      → Untouched entries (d ∷ ds)
      → Untouched entries ds
  unfolding names
  Untouched-rest entries d ds (inl h) = inl (ground (arith, h))
  Untouched-rest entries d ds (inr h) = inr h

  apply_decisions-Same :
      (entries : List (Text × Row)) (ds : List ReviewDecision) (r : Reviewing)
      → Untouched entries ds
      → Same r (apply_decisions place alive now settings entries ds r)
  unfolding apply_decisions
  apply_decisions-Same entries [] r h = unfold Same in refl
  apply_decisions-Same entries (d ∷ ds) r h =
      after (apply_decision place alive now settings d (Dict.get entries d.id) r)
        (apply_decision-Same entries d ds r h)
        (λ q. apply_decisions-Same entries ds q (Untouched-rest entries d ds h))
    where
      after :
          (e : Ended)
          → Same r e
          → ((q : Reviewing) → Same q (apply_decisions place alive now settings entries ds q))
          → Same r (and_then e (apply_decisions place alive now settings entries ds))
      after (finished q) same rest = unfold and_then in (unfold Same in (rest q ∙ same))
      after (lost q) same rest = unfold and_then in same

  ask_model-Same :
      (entries : List (Text × Row)) (decisions : Option (List ReviewDecision)) (r : Reviewing)
      → Untouched entries (decisions_of decisions)
      → Same r (ask_model place alive now settings entries decisions r)
  unfolding ask_model Same answered decisions_of
  ask_model-Same [] decisions r h = refl
  ask_model-Same (e ∷ es) none r h =
      if_elim (λ x. Dict.get (table_of x) j ≡ Dict.get r.table j) (alive r.checks) (λ _. refl)
        (λ _. refl)
  ask_model-Same (e ∷ es) (some ds) r h =
      if_elim (λ x. Dict.get (table_of x) j ≡ Dict.get r.table j) (alive r.checks)
        (λ _. apply_decisions-Same (e ∷ es) ds _ h) (λ _. refl)

-- A review changes no row that is not among the entries it gave to the model, and none that the model's decisions do
-- not name for promotion or archiving; this holds also where the lock is lost on the way. If the first check finds the
-- lock lost, no row is changed.
pub run_llm_review-untouched :
    (place : Place) (alive : ℕ → Bool) (now : ℕ) (settings : ReviewSettings) (table : Table)
    (files : Files) (checks : ℕ) (decisions : Option (List ReviewDecision)) (j : Text)
    → ((alive checks ≡ false)
        ⊎ (names j (decisions_of decisions) ≡ false)
        ⊎ (Dict.get (get_entries settings table) j ≡ none))
    → Dict.get (table_of (run_llm_review place alive now settings table files checks decisions)) j
      ≡ Dict.get table j
unfolding run_llm_review begin
run_llm_review-untouched place alive now settings table files checks decisions j (inl dead) =
    if_elim (λ x. Dict.get (table_of x) j ≡ Dict.get table j) (alive checks) (λ t. cc) (λ _. refl)
run_llm_review-untouched place alive now settings table files checks decisions j (inr h) =
    if_elim (λ x. Dict.get (table_of x) j ≡ Dict.get table j) (alive checks)
      (λ _.
        unfold Same in
        ask_model-Same place alive now settings j (get_entries settings table) decisions _ h)
      (λ _. refl)
