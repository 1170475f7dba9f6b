-- ===== src/Evolution/Graduation.antt =====
-- `graduate_single_sop` of src/pyclaw/core/skill_graduation.py: a stored procedure becomes a file SKILL.md. The files are a
-- dict from paths to contents; the clock, what `discover_skills` finds and how a write ends are arguments.
-- A text that UTF-8 cannot encode is left out.
pub mod Written
use pyclaw.Prelude.{
  ℕ, Text, codes, Bool, true, false, Option, none, some, List, [], ◌∷◌, ◌++◌, map, any,
  if◌then◌else◌, ◌==◌, text_eq, text_key,
}
use pyclaw.Prelude.Dict
use pyclaw.Prelude.Dict.{Dict}
use pyclaw.Evolution.Sop.{Sop, parse_sop_content}

abbrev pub Files : Type 0
Files = Dict Text Text

-- description.replace('"', '\\"')
unfoldable pub escape_quotes : Text → Text
escape_quotes [] = []
escape_quotes (c ∷ t) = if c == 34 then 92 ∷ 34 ∷ escape_quotes t else c ∷ escape_quotes t

-- session_key.replace(":", "_")
unfoldable pub replace_colons : Text → Text
replace_colons t = map (λ c. if c == 58 then 95 else c) t

unfoldable pub generate_skill_md_template : (now_iso : Text) → Sop → (session_key : Text) → Text
unfolding escape_quotes
generate_skill_md_template now_iso sop session_key =
    codes "---\nname: "
    ++ sop.name
    ++ codes "\ndescription: \""
    ++ escape_quotes sop.description
    ++ codes "\"\nauto_generated: true\nlifecycle: active\ngenerated_at: \""
    ++ now_iso
    ++ codes "\"\nsource_session: \""
    ++ session_key
    ++ codes "\"\n---\n\n# "
    ++ sop.name
    ++ codes "\n\n"
    ++ sop.description
    ++ codes "\n\n## Procedure\n\n"
    ++ sop.procedure
    ++ codes "\n"

-- How `mkdir` and `write_text` end: the text is written; or an OSError, which leaves what has been written of the file, none
-- where it has not been opened; or no error, but no file is found afterwards.
pub data WriteEnd : Type 0 where
  wrote : WriteEnd
  failed : Option Text → WriteEnd
  vanished : WriteEnd

-- What stands around a run of the graduation.
pub record Place : Type 0 where
  pub now_iso : Text
  pub workspace_base_dir : Text
  -- the names of the skills of a workspace, or none where the discovery raises
  pub discover_skills : Files → Text → Option (List Text)
  pub write_text : Text → Text → WriteEnd

unfoldable pub workspace_path : Place → (session_key : Text) → Text
unfolding replace_colons
workspace_path place session_key =
    place.workspace_base_dir ++ codes "/" ++ replace_colons session_key

unfoldable pub skill_file : Place → (session_key name : Text) → Text
unfolding workspace_path
skill_file place session_key name =
    workspace_path place session_key ++ codes "/skills/" ++ name ++ codes "/SKILL.md"

-- any(s.name == name for s in existing_skills); a discovery that fails does not block.
unfoldable pub is_taken : Option (List Text) → Text → Bool
is_taken none name = false
is_taken (some names) name = any (text_eq name) names

-- The files after the write, and the path that is reported.
unfoldable pub after_write : Files → (path text : Text) → WriteEnd → Files × Option Text
after_write files path text wrote = (Dict.put files path text, some path)
after_write files path text (failed (some part)) = (Dict.put files path part, none)
after_write files path text (failed none) = (files, none)
after_write files path text vanished = (files, none)

-- mkdir and write_text, and the check that the file is there
unfoldable pub write_skill : Place → Files → (session_key : Text) → Sop → Files × Option Text
unfolding skill_file generate_skill_md_template after_write
write_skill place files session_key sop =
    let path = skill_file place session_key sop.name in
    let text = generate_skill_md_template place.now_iso sop session_key in
    after_write files path text (place.write_text path text)

graduate_parsed : Place → Files → (session_key : Text) → Option Sop → Files × Option Text
unfolding write_skill skill_file is_taken workspace_path
graduate_parsed place files session_key none = (files, none)
graduate_parsed place files session_key (some sop) =
    if Dict.has files (skill_file place session_key sop.name)
    then (files, none)
    else if is_taken (place.discover_skills files (workspace_path place session_key)) sop.name
    then (files, none)
    else write_skill place files session_key sop

-- The path of the new file, or none: `success` is that there is one.
unfoldable pub graduate_single_sop :
    Place → Files → (content session_key : Text) → Files × Option Text
unfolding graduate_parsed
graduate_single_sop place files content session_key =
    graduate_parsed place files session_key (parse_sop_content content)
