-- ===== src/Evolution/Graduation/Written.antt =====
-- What a graduation writes.
use pyclaw.Prelude.{
  ◌⊎◌, inl, inr, Text, true, false, not, Option, none, some, ◌≡◌, ◌≢◌, refl, if_elim, text_key,
  arith,
}
use pyclaw.Prelude.Dict
use pyclaw.Messages.{is_blank, strip}
use pyclaw.Evolution.Sop.{
  Sop, parse_sop_content, is_slug, cut_line, checked_sop, after_cut, after_first,
}
use pyclaw.Evolution.Graduation.{
  Files, Place, skill_file, write_skill, graduate_parsed, graduate_single_sop,
  generate_skill_md_template, is_taken, workspace_path, WriteEnd, wrote, failed, vanished,
  after_write,
}

-- The name is a slug, so that it has no dot and no slash, and there are steps.
abbrev pub IsParsed : Option Sop → Type 0
IsParsed none = Unit
IsParsed (some sop) = (is_slug sop.name ≡ true) × (is_blank sop.procedure ≡ false)

checked_sop-IsParsed :
    (name description procedure : Text) → IsParsed (checked_sop name description procedure)
unfolding checked_sop
checked_sop-IsParsed name description procedure =
    if_elim IsParsed (not (is_slug name)) (λ _. tt)
      (λ slug. if_elim IsParsed (is_blank procedure) (λ _. tt) (λ filled. (ground arith, filled)))

after_first-IsParsed : (name : Text) (o : Option (Text × Text)) → IsParsed (after_first name o)
unfolding after_first
after_first-IsParsed name none = tt
after_first-IsParsed name (some (description, procedure)) =
    checked_sop-IsParsed (strip name) (strip description) (strip procedure)

after_cut-IsParsed : (o : Option (Text × Text)) → IsParsed (after_cut o)
unfolding after_cut
after_cut-IsParsed none = tt
after_cut-IsParsed (some (name, rest)) = after_first-IsParsed name (cut_line rest)

pub parse_sop_content-IsParsed : (content : Text) → IsParsed (parse_sop_content content)
unfolding parse_sop_content
parse_sop_content-IsParsed content =
    if_elim IsParsed (is_blank content) (λ _. tt) (λ _. after_cut-IsParsed (cut_line content))

-- A graduation that succeeds has made one new file, SKILL.md under the slug of the procedure in the workspace of the
-- session, from the template; one that does not has changed no file that was there, and made at most that one.
abbrev pub IsGraduated :
    Place → Files → (session_key : Text) → Option Sop → Files × Option Text → Type 0
IsGraduated place files session_key parsed (after, none) =
    (after ≡ files)
    ⊎ ((sop : Sop) × (parsed ≡ some sop)
        × (Dict.has files (skill_file place session_key sop.name) ≡ false)
        × ((other : Text)
            → skill_file place session_key sop.name ≢ other
            → Dict.get after other ≡ Dict.get files other))
IsGraduated place files session_key parsed (after, some path) =
    (sop : Sop) × (parsed ≡ some sop)
    × (is_slug sop.name ≡ true)
    × (path ≡ skill_file place session_key sop.name)
    × (Dict.has files path ≡ false)
    × (Dict.get after path ≡ some (generate_skill_md_template place.now_iso sop session_key))
    × ((other : Text) → path ≢ other → Dict.get after other ≡ Dict.get files other)

after_write-IsGraduated :
    (place : Place) (files : Files) (session_key : Text) (sop : Sop) (e : WriteEnd)
    → is_slug sop.name ≡ true
    → Dict.has files (skill_file place session_key sop.name) ≡ false
    → IsGraduated place files session_key (some sop) (
        after_write files
          (skill_file place session_key sop.name)
          (generate_skill_md_template place.now_iso sop session_key)
          e)
unfolding after_write
after_write-IsGraduated place files session_key sop wrote slug absent =
    let path = skill_file place session_key sop.name in
    let text = generate_skill_md_template place.now_iso sop session_key in
    (
      sop,
      refl,
      slug,
      refl,
      absent,
      Dict.get-put_self files path text,
      λ other ne. Dict.get-put_ne files path other text ne,
    )
after_write-IsGraduated place files session_key sop (failed (some part)) slug absent = inr (
  sop,
  refl,
  absent,
  λ other ne. Dict.get-put_ne files (skill_file place session_key sop.name) other part ne,
)
after_write-IsGraduated place files session_key sop (failed none) slug absent = inl refl
after_write-IsGraduated place files session_key sop vanished slug absent = inl refl

graduate_parsed-IsGraduated :
    (place : Place) (files : Files) (session_key : Text) (parsed : Option Sop)
    → IsParsed parsed
    → IsGraduated place files session_key parsed (graduate_parsed place files session_key parsed)
unfolding graduate_parsed write_skill
graduate_parsed-IsGraduated place files session_key none p = inl refl
graduate_parsed-IsGraduated place files session_key (some sop) p =
    let path = skill_file place session_key sop.name in
    let text = generate_skill_md_template place.now_iso sop session_key in
    if_elim (IsGraduated place files session_key (some sop)) (Dict.has files path) (λ _. inl refl)
      (λ absent.
        if_elim (IsGraduated place files session_key (some sop))
          (is_taken (place.discover_skills files (workspace_path place session_key)) sop.name)
          (λ _. inl refl)
          (λ _.
            after_write-IsGraduated place files session_key sop (place.write_text path text) p.0
              absent))

-- Whatever the stored text is: a graduation that succeeds has made one new file, SKILL.md in the directory of the
-- procedure's name, which is a slug, in the workspace of the session, from the template, and left the other files; one that
-- does not succeed has changed nothing, or left every other file and made that one, which was not there and may be
-- incomplete.
pub graduate_single_sop-IsGraduated :
    (place : Place) (files : Files) (content session_key : Text)
    → IsGraduated place files session_key
        (parse_sop_content content)
        (graduate_single_sop place files content session_key)
unfolding graduate_single_sop
graduate_single_sop-IsGraduated place files content session_key =
    graduate_parsed-IsGraduated place files session_key (parse_sop_content content)
      (parse_sop_content-IsParsed content)
