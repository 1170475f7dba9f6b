-- ===== src/Runner/Compaction/Shown.antt =====
-- What the language model is shown after a run has compacted its session.
use pyclaw.Prelude.{
  ℕ, Text, ◌≡◌, refl, ap, ◌∙◌, true, false, not, Option, none, some, List, [], ◌∷◌, ok,
  if◌then◌else◌, text_key,
}
use pyclaw.Prelude.Dict
use pyclaw.Session.Types.{compaction, Entry, SessionTree}
use pyclaw.Session.Tree.{put_entry, all_entry_ids, get_entry}
use pyclaw.Session.Context.{message_dicts, summary_message, build_session_context}
use pyclaw.Session.Context.Compacted.{build_session_context-compaction}
use pyclaw.Session.Store.{Store}
use pyclaw.Session.Store.Mirror.{IsSound, Mirrors, append_entry-Mirrors}
use pyclaw.Runner.Compaction.{
  generate_entry_id, restore_into, CompactResult, returned, failed_with, succeeded,
  compaction_entry, recorded, record_summary, try_compaction,
}
use pyclaw.Runner.Compaction.Persisted.{generate_entry_id-has}

to_summary :
    (draws : List Text) (longer timestamp : Text) (r : CompactResult) (tree : SessionTree)
    (store : Store) (summary : Text)
    → r.ok ≡ true
    → r.compacted ≡ true
    → r.summary ≡ some summary
    → try_compaction draws longer timestamp (returned r) (λ t. t) tree store
      ≡ record_summary draws longer timestamp tree store r (some summary)
unfolding try_compaction
to_summary draws longer timestamp r tree store summary fine compacted q =
    ap
      (λ b.
        if not b
        then ok (failed_with r, restore_into tree tree, store)
        else (if r.compacted
            then record_summary draws longer timestamp tree store r r.summary
            else ok (succeeded false r, tree, store)))
      fine
    ∙ ap
        (λ b.
          if b
          then record_summary draws longer timestamp tree store r r.summary
          else ok (succeeded false r, tree, store))
        compacted
    ∙ ap (record_summary draws longer timestamp tree store r) q

-- A run whose session has the leaf `e` compacts it, with a summary that is not empty. The next context is the summary
-- and `e`, where it is a message: no other message of the session is shown, whichever the summary is of.
pub try_compaction-shown :
    (draws : List Text) (longer timestamp : Text) (r : CompactResult) (tree : SessionTree)
    (store : Store) {k : Text} {e : Entry} {c : ℕ} {text : Text}
    → IsSound store
    → Mirrors store tree
    → Dict.has tree.entries longer ≡ false
    → tree.leaf_id ≡ some k
    → get_entry tree k ≡ some e
    → r.ok ≡ true
    → r.compacted ≡ true
    → r.summary ≡ some (c ∷ text)
    → (after : SessionTree) × (stored : Store) × (try_compaction draws longer timestamp
          (returned r)
          (λ t. t)
          tree
          store
        ≡ ok (succeeded true r, after, stored))
      × (build_session_context after
          ≡ some (
              summary_message (record {
                summary = c ∷ text;
                first_kept_entry_id = k;
                tokens_before = r.tokens_before;
              })
              ∷ message_dicts (e ∷ [])))
unfolding record_summary recorded compaction_entry
try_compaction-shown draws longer timestamp r tree store {k} {e} {c} {text} s m new leaf g fine
      compacted q =
    let id = generate_entry_id (all_entry_ids tree) draws longer in
    let entry = compaction_entry id timestamp (c ∷ text) r.tokens_before tree in
    let is_new : Dict.has tree.entries id ≡ false =
      unfold all_entry_ids in generate_entry_id-has tree.entries draws longer new in
    let (stored, accepted, mirrors, sound) =
      append_entry-Mirrors store tree entry s m is_new refl in
    (
      put_entry tree entry,
      stored,
      to_summary draws longer timestamp r tree store (c ∷ text) fine compacted q
          ∙ ap (recorded r (put_entry tree entry)) accepted,
      build_session_context-compaction tree entry {k = k} {e = e}
          {c = record {
            summary = c ∷ text;
            first_kept_entry_id = k;
            tokens_before = r.tokens_before;
          }}
          (s tree.header.id tree m).1 leaf g is_new leaf
          (ap
            (λ (l : Option Text). compaction (record {
              summary = c ∷ text;
              first_kept_entry_id = elim l [ none ↦ [] | some i ↦ i ];
              tokens_before = r.tokens_before;
            }))
            leaf)
          refl,
    )
