-- ===== src/Evolution/Segments/Private.antt =====
-- What a user writes is not shown to the model that extracts procedures.
use mathlib.Core.Option
use pyclaw.Prelude.{
  Text, codes, Option, none, some, List, [], ◌∷◌, ◌≡◌, refl, ap, Bool-cases, inl, inr, text_eq,
  text_key,
}
use pyclaw.Prelude.Dict
use pyclaw.Prelude.Dict.{Dict}
use pyclaw.Session.Types.{
  Entry, Message, Content, Body, message, compaction, model_change, custom, SessionTree, Role, user,
  assistant, tool,
}
use pyclaw.Evolution.Segments.{
  Segments, message_of, body_message, follow, follow_role, visit_role, tool_results, add_segment,
  visit_message, visit, visit_all, build_segments, join, call_ids, or_nothing, after_last,
}

abbrev pub rewrite_content : (Content → Content) → Role → Content → Content
rewrite_content f user c = f c
rewrite_content f assistant c = c
rewrite_content f tool c = c

-- The message with another content, where a user wrote it.
abbrev pub rewritten : (Content → Content) → Message → Message
rewritten f m = record m { content = rewrite_content f m.role m.content }

abbrev pub rewrite_body : (Content → Content) → Body → Body
rewrite_body f (message m) = message (rewritten f m)
rewrite_body f (compaction c) = compaction c
rewrite_body f (model_change p m) = model_change p m
rewrite_body f (custom t) = custom t

abbrev pub rewrite_entry : (Content → Content) → Entry → Entry
rewrite_entry f e = record e { body = rewrite_body f e.body }

abbrev pub rewrite_entries : (Content → Content) → Dict Text Entry → Dict Text Entry
rewrite_entries f [] = []
rewrite_entries f ((k, e) ∷ es) = (k, rewrite_entry f e) ∷ rewrite_entries f es

-- The tree with other contents in all messages of the user.
abbrev pub rewrite_user : (Content → Content) → SessionTree → SessionTree
rewrite_user f tree = record tree { entries = rewrite_entries f tree.entries }

module _ (f : Content → Content) where
  get-rewrite :
      (es : Dict Text Entry) (k : Text)
      → Dict.get (rewrite_entries f es) k ≡ Option.map (rewrite_entry f) (Dict.get es k)
  unfolding Dict.get
  get-rewrite [] k = refl
  get-rewrite ((j, e) ∷ es) k = elim (Bool-cases (text_eq j k)) [
    | inl t ↦ rw t refl
    | inr t ↦ rw t (get-rewrite es k)
  ]

  follow_role-rewrite :
      (r : Role) (ids : List Text) (m : Message) (rest : List Text)
      → follow_role r ids (record m { content = rewrite_content f r m.content }) rest
        ≡ follow_role r ids m rest
  unfolding follow_role
  follow_role-rewrite user ids m rest = refl
  follow_role-rewrite assistant ids m rest = refl
  follow_role-rewrite tool ids m rest = refl

  follow_body-rewrite :
      (ids : List Text) (b : Body) (rest : List Text)
      → follow ids (body_message (rewrite_body f b)) rest ≡ follow ids (body_message b) rest
  unfolding follow body_message
  follow_body-rewrite ids (message m) rest = follow_role-rewrite m.role ids m rest
  follow_body-rewrite ids (compaction c) rest = refl
  follow_body-rewrite ids (model_change p m) rest = refl
  follow_body-rewrite ids (custom t) rest = refl

  follow-rewrite :
      (ids : List Text) (e : Option Entry) (rest : List Text)
      → follow ids (message_of (Option.map (rewrite_entry f) e)) rest
        ≡ follow ids (message_of e) rest
  unfolding message_of
  follow-rewrite ids none rest = refl
  follow-rewrite ids (some e) rest = follow_body-rewrite ids e.body rest

  module _ (tree : SessionTree) (candidates : List Text) where
    tool_results-rewrite :
        (ids order : List Text)
        → tool_results (rewrite_user f tree) candidates ids order
          ≡ tool_results tree candidates ids order
    unfolding tool_results
    tool_results-rewrite ids [] = refl
    tool_results-rewrite ids (id ∷ order) =
        rw (get-rewrite tree.entries id, tool_results-rewrite ids order)
          (follow-rewrite ids (Dict.get tree.entries id) (tool_results tree candidates ids order))

    visit_role-rewrite :
        (r : Role) (key id : Text) (m : Message) (s : Segments)
        → visit_role
            (rewrite_user f tree)
            candidates
            r
            key
            id
            (record m { content = rewrite_content f r m.content })
            s
          ≡ visit_role tree candidates r key id m s
    unfolding visit_role add_segment
    visit_role-rewrite user key id m s = refl
    visit_role-rewrite assistant key id m s =
        rw (tool_results-rewrite (call_ids m.tool_calls) (or_nothing (after_last key tree.order)))
          refl
    visit_role-rewrite tool key id m s = refl

    visit_body-rewrite :
        (key id : Text) (b : Body) (s : Segments)
        → visit_message (rewrite_user f tree) candidates key id (body_message (rewrite_body f b)) s
          ≡ visit_message tree candidates key id (body_message b) s
    unfolding visit_message body_message
    visit_body-rewrite key id (message m) s = visit_role-rewrite m.role key id m s
    visit_body-rewrite key id (compaction c) s = refl
    visit_body-rewrite key id (model_change p m) s = refl
    visit_body-rewrite key id (custom t) s = refl

    visit-rewrite :
        (key : Text) (e : Option Entry) (s : Segments)
        → visit (rewrite_user f tree) candidates key (Option.map (rewrite_entry f) e) s
          ≡ visit tree candidates key e s
    unfolding visit
    visit-rewrite key none s = refl
    visit-rewrite key (some e) s = visit_body-rewrite key e.id e.body s

    visit_all-rewrite :
        (order : List Text) (s : Segments)
        → visit_all (rewrite_user f tree) candidates order s ≡ visit_all tree candidates order s
    unfolding visit_all
    visit_all-rewrite [] s = refl
    visit_all-rewrite (id ∷ order) s =
        rw (get-rewrite tree.entries id, visit-rewrite id (Dict.get tree.entries id) s)
          (visit_all-rewrite order (visit tree candidates id (Dict.get tree.entries id) s))

-- Whatever is written in place of the messages of the user, the text that the model is shown stays the same.
pub build_segments-rewrite_user :
    (f : Content → Content) (tree : SessionTree) (candidates : List Text)
    → build_segments (rewrite_user f tree) candidates ≡ build_segments tree candidates
unfolding build_segments
build_segments-rewrite_user f tree candidates =
    ap (λ (s : Segments). join (codes "\n\n---\n\n") s.segments)
      (visit_all-rewrite f tree candidates tree.order (record { seen = []; segments = [] }))
