-- ===== src/Evolution/Examples.antt =====
-- Tests and witnesses on the curator and the skills.
use pyclaw.Prelude.{
  ℕ, ◌≤◌, codes, true, false, none, some, List, [], ◌∷◌, ◌++◌, ◌≡◌, inl, inr, refl, arith, ltb,
  text_key, text_eq,
}
use pyclaw.Prelude.Dict
use pyclaw.Messages.{strip}
use pyclaw.Evolution.Sop.{Sop, format_sop_content, parse_sop_content, is_slug}
use pyclaw.Evolution.Sop.Stored.{
  stripped, parse_sop_content-format_sop_content, parse_sop_content-many_lines,
}
use pyclaw.Evolution.Graduation.{Place, wrote, graduate_single_sop}
use pyclaw.Evolution.Graduation.Written.{IsGraduated, graduate_single_sop-IsGraduated}
use pyclaw.Evolution.Procedures.{Row, Table, active}
use pyclaw.Evolution.Scan.{Settings, scan_single_db}
use pyclaw.Evolution.Scan.Steps.{Scanned, scan_single_db-Scanned}
use pyclaw.Evolution.Review.{ReviewSettings, ReviewDecision, promote, archive, keep, run_llm_review}
use pyclaw.Evolution.Review.Named.{table_of, run_llm_review-untouched, names, decisions_of}
use pyclaw.Evolution.Cycle.{World, Cycle, scan_and_review, done, execute}
use pyclaw.Evolution.Cycle.Marks.{IsMarked, execute-IsMarked}
use pyclaw.Evolution.Cycle.LostScan.{execute-lost_scan}

abbrev deploy : Sop
deploy = record {
  name = codes "deploy-helm ";
  description = codes "Do it";
  procedure = codes "1. Build\n2. Push";
}

parse_sop_content-format_sop_content_example :
    parse_sop_content (format_sop_content deploy) ≡ some (stripped deploy)
unfolding strip is_slug pyclaw.Messages.is_blank
parse_sop_content-format_sop_content_example =
    parse_sop_content-format_sop_content deploy refl (refl, (refl, (refl, (refl, (refl, tt))))) refl

abbrev two_lines : Sop
two_lines = record deploy { description = codes "Do\nit" }

parse_sop_content-many_lines_example :
    parse_sop_content (format_sop_content two_lines)
    ≡ some (record {
      name = strip (codes "deploy-helm ");
      description = strip (codes "Do");
      procedure = strip (codes "it" ++ 10 ∷ strip (codes "1. Build\n2. Push"));
    })
unfolding strip is_slug pyclaw.Messages.is_blank
parse_sop_content-many_lines_example =
    parse_sop_content-many_lines two_lines (codes "Do") (codes "it") refl refl (refl, (refl, tt))
      refl

abbrev place : Place
place = record {
  now_iso = codes "2025-01-01T00:00:00Z";
  workspace_base_dir = codes "/w";
  discover_skills = λ files ws. some [];
  write_text = λ path text. wrote;
}

graduate_single_sop-IsGraduated_example :
    IsGraduated place []
      (codes "web:ann")
      (parse_sop_content (codes "deploy-helm\nDeploy\n1. Build"))
      (graduate_single_sop place [] (codes "deploy-helm\nDeploy\n1. Build") (codes "web:ann"))
graduate_single_sop-IsGraduated_example =
    graduate_single_sop-IsGraduated place [] (codes "deploy-helm\nDeploy\n1. Build")
      (codes "web:ann")

abbrev row : Row
row = record {
  session_key = codes "web:ann";
  content = codes "deploy-helm\nDeploy\n1. Build";
  is_auto_sop = true;
  status = active;
  use_count = 9;
  created_at = 0;
  last_used_at = some 99_000_000;
  archived_at = none;
  archive_reason = none;
}

abbrev table : Table
table = (codes "a", row) ∷ (codes "b", record row { last_used_at = none }) ∷ []

abbrev settings : Settings
settings = record {
  archive_days = 90;
  graduation_enabled = true;
  promotion_min_use_count = 5;
  promotion_min_days = 7;
}

scan_single_db-Scanned_example :
    (after : Row) × (Dict.get
        (scan_single_db place 100_000_000 100_000_001 settings table []).0
        (codes "a")
      ≡ some after)
    × Scanned 100_000_000 100_000_001 settings row after
scan_single_db-Scanned_example =
    scan_single_db-Scanned place 100_000_000 100_000_001 settings table [] (codes "a") row
      (unfold Dict.has in unfold text_eq in (refl, (refl, tt)))
      (unfold Dict.get in unfold text_eq in refl)

abbrev review_settings : ReviewSettings
review_settings = record {
  max_batch = 20;
  allows_promote = true;
  allows_archive = true;
  graduation_enabled = true;
}

abbrev drop_b : List ReviewDecision
drop_b =
    record { id = codes "b"; decision = archive; reason = codes "old" }
    ∷ record { id = codes "a"; decision = keep; reason = [] }
    ∷ []

run_llm_review-untouched_example :
    Dict.get
      (table_of (run_llm_review place (λ n. true) 7 review_settings table [] 0 (some drop_b)))
      (codes "a")
    ≡ Dict.get table (codes "a")
unfolding text_eq pyclaw.Evolution.Review.Named.acts
run_llm_review-untouched_example =
    run_llm_review-untouched place (λ n. true) 7 review_settings table [] 0 (some drop_b)
      (codes "a") (inr (inl (unfold names in unfold decisions_of in refl)))

abbrev world : World
world = record {
  databases = (codes "web_ann.db", table) ∷ [];
  files = [];
  last_run_at = some 5;
  llm_review_last_run_at = none;
}

abbrev cycle : Cycle
cycle = record {
  place = place;
  alive = λ n. ltb n 2;
  now = 100_000_000;
  mode = scan_and_review;
  force_review = false;
  settings = settings;
  review_settings = review_settings;
  llm_review_enabled = true;
  llm_review_interval = 60;
  has_model = false;
  breaks = λ name. false;
  review_breaks = λ name. false;
  decisions = λ name. some drop_b;
  scan_listing_raises = false;
  review_listing_raises = false;
  last_review_raises = false;
  scan_mark = done;
  review_mark = done;
}

execute-IsMarked_example :
    (((execute cycle false world).0 ≡ world) × ((execute cycle false world).1.acquired ≡ false))
    × IsMarked cycle world (execute cycle true world)
execute-IsMarked_example = execute-IsMarked cycle world

cycle_dead : (n : ℕ) → 2 ≤ n → cycle.alive n ≡ false
cycle_dead n h = ground arith

execute-lost_scan_example :
    ((execute cycle true world).0.databases ≡ world.databases)
    × ((execute cycle true world).0.last_run_at ≡ some cycle.now)
    × ((execute cycle true world).1.error ≡ none)
    × ((execute cycle true world).1.unexpected_exception ≡ false)
execute-lost_scan_example =
    execute-lost_scan cycle world refl refl refl refl refl refl refl cycle_dead
