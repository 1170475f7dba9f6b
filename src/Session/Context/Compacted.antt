-- ===== src/Session/Context/Compacted.antt =====
-- What the language model is shown of a branch, without and after a compaction.
use mathlib.Core.Path.{subst}
use mathlib.Core.List.{append_assoc}
use pyclaw.Prelude.{
  ℕ, ◌+◌, ◌≤◌, ◌<◌, Text, ◌≡◌, refl, sym, ap, ◌∙◌, false, Option, none, some, List, [], ◌∷◌, ◌++◌,
  drop, All, All-imp, length, length-append, arith, text_eq, text_eq_iff, text_eq_refl, text_key,
  Bool-cases, inl, inr,
}
use pyclaw.Prelude.Dict
use pyclaw.Prelude.Dict.{Dict}
use pyclaw.Messages.{LlmMessage}
use pyclaw.Session.Types.{
  Compaction, Body, message, compaction, model_change, custom, Entry, SessionTree,
}
use pyclaw.Session.Tree.{start_id, get_branch, get_entry, put_entry}
use pyclaw.Session.Tree.Branches.{
  Branch, root, link, root_first, position, position-get, parent-position, get-id, IsOrdered,
  branch_of, walk-enough,
}
use pyclaw.Session.Tree.Growth.{IsWellFormed, put_entry-eq, root_first-append, Branch-put_entry}
use pyclaw.Session.Context.{
  message_dicts, kept_dicts, Latest, latest_compaction, index_of, summary_message, context_from,
  context_of_branch, build_session_context,
}

-- The entries above one that is in the tree, none of which has its id.
record Above (d : Dict Text Entry) (k : Text) (e : Entry) : Type 0 where
  path : List Entry
  is_branch : Branch d (some k) (e ∷ path)
  bounded : length (e ∷ path) ≤ length d
  others : All (λ x. text_eq x.id k ≡ false) path

apart :
    (d : Dict Text Entry) (x k p : Text)
    → position d x ≤ position d p
    → position d p < position d k
    → text_eq x k ≡ false
apart d x k p l m = elim (Bool-cases (text_eq x k)) [
  | inl same ↦
      let at_k : position d x ≡ position d k = ap (position d) ((text_eq_iff x k).0 same) in
      absurd (omega (arith, l, m, at_k))
  | inr other ↦ other
]

above :
    (d : Dict Text Entry) (k : Text) {e : Entry}
    → IsOrdered [] d
    → Dict.get d k ≡ some e
    → Above d k e
above d k {e} o g = from_parent e.parent_id refl
  where
    from_parent : (parent : Option Text) → e.parent_id ≡ parent → Above d k e
    from_parent none q = record {
      path = [];
      is_branch = link g (rw q root);
      bounded = omega (arith, position-get d k {e = e} g);
      others = tt;
    }
    from_parent (some p) q =
        let earlier = parent-position [] d k p o (unfold Dict.has in refl) g q in
        let b = branch_of d p o in
        record {
          path = b.path;
          is_branch = link g (rw q b.is_branch);
          bounded = omega (arith, b.bounded, earlier, position-get d k {e = e} g);
          others =
              All-imp
                (λ (x : Entry) (l : position d x.id ≤ position d p). apart d x.id k p l earlier)
                b.path b.places;
        }

index_of-append :
    (i : ℕ) (k : Text) (path : List Entry) (e : Entry) (rest : List Entry)
    → All (λ x. text_eq x.id k ≡ false) path
    → k ≡ e.id
    → index_of i k (path ++ e ∷ rest) ≡ some (i + length path)
unfolding index_of
index_of-append i k [] e rest o q = rw (q, text_eq_refl e.id) (ap some (omega arith))
index_of-append i k (x ∷ path) e rest o q =
    rw (o.0, index_of-append (i + 1) k path e rest o.1 q) (ap some (omega arith))

latest_compaction-last :
    (i : ℕ) (path : List Entry) (e : Entry) (found : Option Latest) {c : Compaction}
    → e.body ≡ compaction c
    → latest_compaction i (path ++ e ∷ []) found
      ≡ some (record { index = i + length path; id = e.id; content = c })
unfolding latest_compaction
latest_compaction-last i [] e found {c} q =
    rw q (ap (λ (n : ℕ). some (record { index = n; id = e.id; content = c })) (omega arith))
latest_compaction-last i (x ∷ path) e found {c} q =
    latest_compaction-last (i + 1) path e _ q
    ∙ ap (λ (n : ℕ). some (record { index = n; id = e.id; content = c })) (omega arith)

drop-length : (path rest : List Entry) → drop (length path) (path ++ rest) ≡ rest
drop-length [] rest = refl
drop-length (x ∷ path) rest = drop-length path rest

kept_dicts-pair :
    (e entry : Entry) {c : Compaction}
    → text_eq e.id entry.id ≡ false
    → entry.body ≡ compaction c
    → kept_dicts entry.id (e ∷ entry ∷ []) ≡ message_dicts (e ∷ [])
unfolding kept_dicts message_dicts
kept_dicts-pair e entry f q = by_body e.body refl
  where
    by_body :
        (b : Body) → e.body ≡ b → kept_dicts entry.id (e ∷ entry ∷ []) ≡ message_dicts (e ∷ [])
    by_body (message m) r = rw (r, q, f) refl
    by_body (compaction d) r = rw (r, q) refl
    by_body (model_change p m) r = rw (r, q) refl
    by_body (custom t) r = rw (r, q) refl

All-root_first :
    (P : Entry → Type 0) (es path : List Entry) → All P es → All P path → All P (root_first es path)
All-root_first P [] path a b = b
All-root_first P (e ∷ es) path a b = All-root_first P es (e ∷ path) a.1 (a.0, b)

context-compaction :
    (path : List Entry) (e entry : Entry) {c : Compaction}
    → All (λ x. text_eq x.id e.id ≡ false) path
    → text_eq e.id entry.id ≡ false
    → entry.body ≡ compaction c
    → c.first_kept_entry_id ≡ e.id
    → context_of_branch (path ++ e ∷ entry ∷ []) ≡ summary_message c ∷ message_dicts (e ∷ [])
unfolding context_of_branch context_from message_dicts kept_dicts
context-compaction path e entry {c} o f q k =
    let latest : latest_compaction 0 (path ++ e ∷ entry ∷ []) none
        ≡ some (record { index = 0 + length (path ++ e ∷ []); id = entry.id; content = c }) =
      subst
        (λ (l : List Entry).
          latest_compaction 0 l none
          ≡ some (record { index = 0 + length (path ++ e ∷ []); id = entry.id; content = c }))
        (append_assoc path (e ∷ []) (entry ∷ []))
        (latest_compaction-last 0 (path ++ e ∷ []) entry none q) in
    let first : index_of 0 c.first_kept_entry_id (path ++ e ∷ entry ∷ []) ≡ some (0 + length path) =
      index_of-append 0 c.first_kept_entry_id path e (entry ∷ [])
        (subst (λ (i : Text). All (λ (x : Entry). text_eq x.id i ≡ false) path) (sym k) o) k in
    rw (latest, first)
      (ap (λ (l : List LlmMessage). summary_message c ∷ l)
        (ap (λ (n : ℕ). kept_dicts entry.id (drop n (path ++ e ∷ entry ∷ []))) (omega arith)
          ∙ ap (kept_dicts entry.id) (drop-length path (e ∷ entry ∷ []))
          ∙ kept_dicts-pair e entry f q))

-- After a compaction below the leaf `e` that keeps `e` as its first entry, the model is shown the summary and
-- `e`, where it is a message, and nothing that came before.
pub build_session_context-compaction :
    (tree : SessionTree) (entry : Entry) {k : Text} {e : Entry} {c : Compaction}
    → IsWellFormed tree
    → tree.leaf_id ≡ some k
    → get_entry tree k ≡ some e
    → Dict.has tree.entries entry.id ≡ false
    → entry.parent_id ≡ some k
    → entry.body ≡ compaction c
    → c.first_kept_entry_id ≡ k
    → build_session_context (put_entry tree entry)
      ≡ some (summary_message c ∷ message_dicts (e ∷ []))
unfolding build_session_context get_branch start_id get_entry
build_session_context-compaction tree entry {k} {e} {c} w leaf g new q body kept =
    let a = above tree.entries k w.ordered g in
    let b =
      Branch-put_entry tree entry {es = e ∷ a.path} w new (q ∙ sym leaf) (rw leaf a.is_branch) in
    let there = Dict.get-has tree.entries k g in
    let apart_from_new : text_eq e.id entry.id ≡ false = elim (Bool-cases (text_eq e.id entry.id)) [
      | inl same ↦ absurd (
          ground (
            arith,
            there,
            ap (Dict.has tree.entries)
                (get-id [] tree.entries k w.ordered g ∙ (text_eq_iff e.id entry.id).0 same),
          ))
      | inr other ↦ other
    ] in
    let is_k : k ≡ e.id = get-id [] tree.entries k w.ordered g in
    let size = length-append tree.entries ((entry.id, entry) ∷ []) in
    rw
      (
        put_entry-eq tree entry new,
        walk-enough (tree.entries ++ (entry.id, entry) ∷ []) b (omega (arith, a.bounded)),
        root_first-append a.path (e ∷ entry ∷ []),
      )
      (ap some (
        context-compaction (root_first a.path []) e entry
          (All-root_first _ a.path []
            (subst (λ (i : Text). All (λ (x : Entry). text_eq x.id i ≡ false) a.path) is_k a.others)
            tt)
          apart_from_new body (kept ∙ is_k)))
