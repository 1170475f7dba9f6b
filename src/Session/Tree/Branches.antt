-- ===== src/Session/Tree/Branches.antt =====
-- Branches as a relation, which the loop of `get_branch` computes; in a tree whose parents come before
-- their children the loop ends.
use mathlib.Core.List.{append_assoc}
use mathlib.Core.Path.{subst}
use pyclaw.Prelude.{
  ℕ, zero, suc, ◌+◌, ◌≤◌, ◌<◌, Text, ◌≡◌, refl, sym, ap, ◌∙◌, true, false, Option, none, some, List,
  [], ◌∷◌, ◌++◌, All, All-imp, length, arith, if◌then◌else◌, text_eq, text_eq_iff, text_key,
  Bool-cases, Option-cases, inl, inr,
}
use pyclaw.Prelude.Dict
use pyclaw.Prelude.Dict.{Dict}
use pyclaw.Session.Types.{Entry}
use pyclaw.Session.Tree.{walk}

-- The entries on the way from an id to the root, the entry of the id first.
pub data Branch (d : Dict Text Entry) : Option Text → List Entry → Type 0 where
  root : Branch d none []
  dangling : {id : Text} → Dict.get d id ≡ none → Branch d (some id) []
  link :
      {id : Text} {e : Entry} {rest : List Entry}
      → Dict.get d id ≡ some e
      → Branch d e.parent_id rest
      → Branch d (some id) (e ∷ rest)

-- The path of a branch, put before what the loop has collected: the root comes first.
abbrev pub root_first : List Entry → List Entry → List Entry
root_first [] path = path
root_first (e ∷ es) path = root_first es (e ∷ path)

pub walk-Branch :
    (fuel : ℕ) (d : Dict Text Entry) {current : Option Text} {es : List Entry} (path : List Entry)
    → Branch d current es
    → length es < fuel
    → walk fuel d current path ≡ some (root_first es path)
unfolding walk
walk-Branch zero d path b h = absurd (omega arith)
walk-Branch (suc fuel) d path root h = refl
walk-Branch (suc fuel) d path (dangling g) h = ground arith
walk-Branch (suc fuel) d path (link {e = e} g b) h =
    ground (arith, g, walk-Branch fuel d (e ∷ path) b (omega arith))

-- The place of a key in the order of insertion; the number of entries where it is missing.
abbrev pub position : Dict Text Entry → Text → ℕ
position [] k = 0
position ((j, e) ∷ d) k = if text_eq j k then 0 else suc (position d k)

abbrev pub HasParent : Dict Text Entry → Option Text → Type 0
HasParent d none = Unit
HasParent d (some p) = Dict.has d p ≡ true

-- Each entry of `d` stands under its own id, once, and its parent is among the entries before it, which
-- are those of `before` and of `d`.
abbrev pub IsOrdered : Dict Text Entry → Dict Text Entry → Type 0
IsOrdered before [] = Unit
IsOrdered before ((k, e) ∷ d) =
    (k ≡ e.id)
    × (Dict.has before k ≡ false)
    × HasParent before e.parent_id
    × IsOrdered (before ++ (k, e) ∷ []) d

pub has-append :
    (d c : Dict Text Entry) (k : Text)
    → Dict.has (d ++ c) k ≡ (if Dict.has d k then true else Dict.has c k)
unfolding Dict.has
has-append [] c k = refl
has-append ((j, e) ∷ d) c k = ground (arith, has-append d c k)

position-lt :
    (d c : Dict Text Entry) (k : Text) → Dict.has d k ≡ true → position (d ++ c) k < length d
unfolding Dict.has
position-lt [] c k h = cc
position-lt ((j, e) ∷ d) c k h = ground (arith, position-lt d c k)

position-append :
    (d c : Dict Text Entry) (k : Text)
    → Dict.has d k ≡ false
    → position (d ++ c) k ≡ length d + position c k
unfolding Dict.has
position-append [] c k h = omega arith
position-append ((j, e) ∷ d) c k h = ground (arith, position-append d c k)

pub position-le : (d : Dict Text Entry) (k : Text) → position d k ≤ length d
position-le [] k = omega arith
position-le ((j, e) ∷ d) k = ground (arith, position-le d k)

pub position-get :
    (d : Dict Text Entry) (k : Text) {e : Entry} → Dict.get d k ≡ some e → position d k < length d
unfolding Dict.get
position-get [] k h = cc
position-get ((j, x) ∷ d) k {e} h = ground (arith, position-get d k {e = e})

-- In order, a parent comes before its child.
pub parent-position :
    (before d : Dict Text Entry) (k p : Text) {e : Entry}
    → IsOrdered before d
    → Dict.has before k ≡ false
    → Dict.get d k ≡ some e
    → e.parent_id ≡ some p
    → position (before ++ d) p < position (before ++ d) k
unfolding Dict.get
parent-position before [] k p o f g q = cc
parent-position before ((j, x) ∷ d) k p {e} o f g q = elim (Bool-cases (text_eq j k)) [
  | inl same ↦
      let is_x : x ≡ e = ground arith in
      let parent : HasParent before (some p) =
        subst (HasParent before) (ap (λ (x : Entry). x.parent_id) is_x ∙ q) o.2 in
      omega
        (arith, position-lt before ((j, x) ∷ d) p parent, position-append before ((j, x) ∷ d) k f)
  | inr other ↦
      subst (λ (c : Dict Text Entry). position c p < position c k)
        (append_assoc before ((j, x) ∷ []) d)
        (parent-position (before ++ (j, x) ∷ []) d k p o.3
          (rw (has-append before ((j, x) ∷ []) k, f) (unfold Dict.has in ground arith))
          (rw other at g) q)
]

pub get-id :
    (before d : Dict Text Entry) (k : Text) {e : Entry}
    → IsOrdered before d
    → Dict.get d k ≡ some e
    → k ≡ e.id
unfolding Dict.get
get-id before [] k o g = cc
get-id before ((j, x) ∷ d) k {e} o g = elim (Bool-cases (text_eq j k)) [
  | inl same ↦
      let is_x : x ≡ e = ground arith in
      sym ((text_eq_iff j k).0 same) ∙ o.0 ∙ ap (λ (x : Entry). x.id) is_x
  | inr other ↦ get-id (before ++ (j, x) ∷ []) d k o.3 (rw other at g)
]

-- A branch that an id has, with no more entries than come up to the id, all of them in such places.
pub record BranchAt (d : Dict Text Entry) (k : Text) : Type 0 where
  pub path : List Entry
  pub is_branch : Branch d (some k) path
  pub bounded : length path ≤ suc (position d k)
  pub places : All (λ e. position d e.id ≤ position d k) path

branch_below :
    (d : Dict Text Entry) (n : ℕ) (k : Text) → IsOrdered [] d → position d k < n → BranchAt d k
branch_below d zero k o h = absurd (omega arith)
branch_below d (suc n) k o h = elim (Option-cases (Dict.get d k)) [
  | inl missing ↦ record {
    path = [];
    is_branch = dangling missing;
    bounded = omega arith;
    places = tt;
  }
  | inr (e, found) ↦ from_parent (λ p l. branch_below d n p o l) e found e.parent_id refl
]
  where
    at_head : (e : Entry) → Dict.get d k ≡ some e → position d e.id ≤ position d k
    at_head e found = rw (get-id [] d k o found) (omega arith)

    from_parent :
        ((p : Text) → position d p < n → BranchAt d p)
        → (e : Entry) → Dict.get d k ≡ some e
        → (parent : Option Text) → e.parent_id ≡ parent
        → BranchAt d k
    from_parent below e found none q = record {
      path = e ∷ [];
      is_branch = link found (rw q root);
      bounded = omega arith;
      places = (at_head e found, tt);
    }
    from_parent below e found (some p) q =
        let earlier = parent-position [] d k p o (unfold Dict.has in refl) found q in
        let b = below p (omega arith) in
        record {
          path = e ∷ b.path;
          is_branch = link found (rw q b.is_branch);
          bounded = omega (arith, b.bounded);
          places = (
            at_head e found,
            All-imp (λ (x : Entry) (l : position d x.id ≤ position d p). omega arith) b.path
                b.places,
          );
        }

pub branch_of : (d : Dict Text Entry) (k : Text) → IsOrdered [] d → BranchAt d k
branch_of d k o = branch_below d (suc (position d k)) k o (omega arith)

-- Every id has a branch, with no more entries than there are, and the loop of `get_branch` finds it.
pub some-Branch :
    (d : Dict Text Entry) (current : Option Text)
    → IsOrdered [] d
    → (es : List Entry) × Branch d current es × (length es ≤ length d)
some-Branch d none o = ([], root, omega arith)
some-Branch d (some k) o = elim (Option-cases (Dict.get d k)) [
  | inl missing ↦ ([], dangling missing, omega arith)
  | inr (e, found) ↦
      let b = branch_of d k o in
      (b.path, b.is_branch, omega (arith, b.bounded, position-get d k {e = e} found))
]

pub walk-enough :
    (d : Dict Text Entry) {current : Option Text} {es : List Entry}
    → Branch d current es
    → length es ≤ length d
    → walk (suc (length d)) d current [] ≡ some (root_first es [])
walk-enough d b h = walk-Branch (suc (length d)) d [] b (omega arith)
