-- ===== src/Session/Tree/Growth.antt =====
-- How a session tree grows: an entry whose parent is the leaf keeps the tree well formed, and is the end
-- of the branch afterwards.
use mathlib.Core.List.{append_assoc, append-nil, map-append}
use mathlib.Core.Path.{subst}
use pyclaw.Prelude.{
  Text, ◌≡◌, refl, sym, ap, ◌∙◌, true, false, Option, none, some, List, [], ◌∷◌, ◌++◌,
  length-append, arith, text_eq, text_eq_refl, text_key, Bool-cases, ◌↔◌, inl, inr, ok, err,
}
use pyclaw.Prelude.Dict
use pyclaw.Prelude.Dict.{Dict}
use pyclaw.Session.Types.{Entry, Header, SessionTree}
use pyclaw.Session.Tree.{id_exists, new_tree, put_entry, append, start_id, get_branch}
use pyclaw.Session.Tree.Branches.{
  Branch, root, dangling, link, root_first, IsOrdered, HasParent, has-append, some-Branch,
  walk-enough,
}

-- The invariant of a tree to which entries are only appended below the leaf.
pub record IsWellFormed (tree : SessionTree) : Type 0 where
  pub ordered : IsOrdered [] tree.entries
  pub leaf : HasParent tree.entries tree.leaf_id
  pub in_order : tree.order ≡ Dict.keys tree.entries

pub new_tree-IsWellFormed : (header : Header) → IsWellFormed (new_tree header)
unfolding new_tree
new_tree-IsWellFormed header = record { ordered = tt; leaf = tt; in_order = refl }

IsOrdered-append :
    (before d : Dict Text Entry) (k : Text) (e : Entry)
    → IsOrdered before d
    → k ≡ e.id
    → Dict.has (before ++ d) k ≡ false
    → HasParent (before ++ d) e.parent_id
    → IsOrdered before (d ++ (k, e) ∷ [])
IsOrdered-append before [] k e o q f p =
    let same : before ++ [] ≡ before = append-nil before in
    (q, rw same at f, subst (λ (c : Dict Text Entry). HasParent c e.parent_id) same p, tt)
IsOrdered-append before ((j, x) ∷ d) k e o q f p =
    let same : (before ++ (j, x) ∷ []) ++ d ≡ before ++ (j, x) ∷ d =
      append_assoc before ((j, x) ∷ []) d in
    (
      o.0,
      o.1,
      o.2,
      IsOrdered-append (before ++ (j, x) ∷ []) d k e o.3 q (rw same f)
          (subst (λ (c : Dict Text Entry). HasParent c e.parent_id) (sym same) p),
    )

pub put_entry-eq :
    (tree : SessionTree) (entry : Entry)
    → Dict.has tree.entries entry.id ≡ false
    → put_entry tree entry ≡ record tree {
      entries = tree.entries ++ (entry.id, entry) ∷ [];
      order = tree.order ++ entry.id ∷ [];
      leaf_id = some entry.id;
    }
unfolding put_entry
put_entry-eq tree entry f = rw (Dict.put-eq-append tree.entries entry.id entry f)

pub put_entry-IsWellFormed :
    (tree : SessionTree) (entry : Entry)
    → IsWellFormed tree
    → Dict.has tree.entries entry.id ≡ false
    → entry.parent_id ≡ tree.leaf_id
    → IsWellFormed (put_entry tree entry)
put_entry-IsWellFormed tree entry w f q = rw (put_entry-eq tree entry f) (record {
  ordered = IsOrdered-append [] tree.entries entry.id entry w.ordered refl f (rw q w.leaf);
  leaf =
      rw (has-append tree.entries ((entry.id, entry) ∷ []) entry.id)
        (unfold Dict.has in ground (arith, text_eq_refl entry.id));
  in_order =
      rw w.in_order
        (sym (map-append (λ (e : Text × Entry). e.0) tree.entries ((entry.id, entry) ∷ [])));
})

get-append :
    (d c : Dict Text Entry) (k : Text) {e : Entry}
    → Dict.get d k ≡ some e
    → Dict.get (d ++ c) k ≡ some e
unfolding Dict.get
get-append [] c k h = cc
get-append ((j, x) ∷ d) c k {e} h = ground (arith, get-append d c k {e = e})

HasParent-append : (d c : Dict Text Entry) (p : Option Text) → HasParent d p → HasParent (d ++ c) p
HasParent-append d c none h = tt
HasParent-append d c (some p) h = rw (has-append d c p, h)

-- In an ordered tree no parent is missing.
has_parent :
    (before d : Dict Text Entry) (k : Text) {e : Entry}
    → IsOrdered before d
    → Dict.get d k ≡ some e
    → HasParent (before ++ d) e.parent_id
unfolding Dict.get
has_parent before [] k o g = cc
has_parent before ((j, x) ∷ d) k {e} o g = elim (Bool-cases (text_eq j k)) [
  | inl same ↦
      let is_x : x ≡ e = ground arith in
      subst (λ (y : Entry). HasParent (before ++ (j, x) ∷ d) y.parent_id) is_x
        (HasParent-append before ((j, x) ∷ d) x.parent_id o.2)
  | inr other ↦
      subst (λ (c : Dict Text Entry). HasParent c e.parent_id) (append_assoc before ((j, x) ∷ []) d)
        (has_parent (before ++ (j, x) ∷ []) d k o.3 (rw other at g))
]

-- Later entries do not change the branch of an id that is there.
Branch-append :
    (d c : Dict Text Entry) {current : Option Text} {es : List Entry}
    → IsOrdered [] d
    → HasParent d current
    → Branch d current es
    → Branch (d ++ c) current es
Branch-append d c o h root = root
Branch-append d c o h (dangling {id = id} g) = let (e, q) = Dict.has-get-some d id h in cc
Branch-append d c o h (link {id = id} {e = e} g b) =
    link (get-append d c id g) (Branch-append d c o (has_parent [] d id o g) b)

pub root_first-append : (es path : List Entry) → root_first es path ≡ root_first es [] ++ path
root_first-append [] path = refl
root_first-append (e ∷ es) path =
    root_first-append es (e ∷ path)
    ∙ sym (append_assoc (root_first es []) (e ∷ []) path)
    ∙ ap (λ (l : List Entry). l ++ path) (sym (root_first-append es (e ∷ [])))

-- In a well-formed tree `get_branch` returns, from any id: its loop ends. The path is the one from the
-- root down to the entry of the id, or of the leaf where no id is given.
pub get_branch-total :
    (tree : SessionTree) (from_id : Option Text)
    → IsWellFormed tree
    → (es : List Entry) × Branch tree.entries (start_id tree from_id) es
      × (get_branch tree from_id ≡ some (root_first es []))
unfolding get_branch
get_branch-total tree from_id w =
    let (es, b, h) = some-Branch tree.entries (start_id tree from_id) w.ordered in
    (es, b, walk-enough tree.entries b h)

pub Branch-put_entry :
    (tree : SessionTree) (entry : Entry) {es : List Entry}
    → IsWellFormed tree
    → Dict.has tree.entries entry.id ≡ false
    → entry.parent_id ≡ tree.leaf_id
    → Branch tree.entries tree.leaf_id es
    → Branch (tree.entries ++ (entry.id, entry) ∷ []) (some entry.id) (entry ∷ es)
Branch-put_entry tree entry {es} w f q b = link (get_last tree.entries f) (
    subst (λ (p : Option Text). Branch (tree.entries ++ (entry.id, entry) ∷ []) p es) (sym q)
      (Branch-append tree.entries ((entry.id, entry) ∷ []) w.ordered w.leaf b))
  where
    get_last :
        (d : Dict Text Entry)
        → Dict.has d entry.id ≡ false
        → Dict.get (d ++ (entry.id, entry) ∷ []) entry.id ≡ some entry
    get_last d g =
        rw (sym (Dict.put-eq-append d entry.id entry g)) (Dict.get-put_self d entry.id entry)

-- `append` of an entry whose parent is the leaf, to a well-formed tree, keeps the tree well formed and
-- makes the new branch the old one with the entry at its end.
pub get_branch-append :
    (tree : SessionTree) (entry : Entry) {after : SessionTree} {id : Text}
    → IsWellFormed tree
    → entry.parent_id ≡ tree.leaf_id
    → append tree entry ≡ ok (after, id)
    → IsWellFormed after
      × ((path : List Entry) × (get_branch tree none ≡ some path)
          × (get_branch after none ≡ some (path ++ entry ∷ [])))
unfolding get_branch start_id append
get_branch-append tree entry {after} {id} w q h =
    elim (Bool-cases (Dict.has tree.entries entry.id)) [
      | inl there ↦ absurd (ground arith)
      | inr new ↦
          let (es, b, l) = some-Branch tree.entries tree.leaf_id w.ordered in
          let stored : after ≡ put_entry tree entry = ground arith in
          let b' = Branch-put_entry tree entry w new q b in
          let size = length-append tree.entries ((entry.id, entry) ∷ []) in
          (
            rw stored (put_entry-IsWellFormed tree entry w new q),
            (
              root_first es [],
              walk-enough tree.entries b l,
              rw (stored, put_entry-eq tree entry new)
                  (walk-enough (tree.entries ++ (entry.id, entry) ∷ []) b' (omega arith)
                    ∙ ap some (root_first-append es (entry ∷ []))),
            ),
          )
    ]

-- `append` refuses exactly an id that is there.
pub append-err_iff :
    (tree : SessionTree) (entry : Entry)
    → (append tree entry ≡ err (id_exists entry.id)) ↔ (Dict.has tree.entries entry.id ≡ true)
unfolding append
append-err_iff tree entry = ground arith
