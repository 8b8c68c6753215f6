-- ===== src/Continuity/Scenarios.antt =====
-- Runs of the continuity service on a plan of ten seconds.
use ppt_video_workbench_v.Base.{
  ℕ, ◌+◌, ◌≡◌, refl, List, [], ◌∷◌, Option, none, some, Bool, true, arith,
}
use ppt_video_workbench_v.Continuity.Plan.{
  ContinuityPlan, ContinuityPlanCommand, ChapterMarker, upsert_chapter,
}
use ppt_video_workbench_v.Continuity.Commands.{ok, err, error, conflict}
use ppt_video_workbench_v.Continuity.Applied.{IsPlan}
use ppt_video_workbench_v.Continuity.State.{Page, ContinuityService, plan_of, latest, write_file}
use ppt_video_workbench_v.Continuity.Service.{create, get, apply}
use ppt_video_workbench_v.Continuity.Turns.{restarted, Turned, apply-Turned}
use ppt_video_workbench_v.Continuity.Restart.{create_resets}

abbrev chapter : ℕ → ℕ → ℕ → ChapterMarker
chapter id start end = record {
  id = id;
  title = "part";
  start_ms = start;
  end_ms = end;
  page_ids = 1 ∷ [];
}

abbrev plan : ContinuityPlan
plan = record {
  version = 1;
  revision = 4;
  project_id = 3;
  duration_ms = 10000;
  transitions = [];
  overlays = [];
  chapters = [];
  content_hash = 0;
}

abbrev service : ContinuityService
service = record {
  plans = plan ∷ [];
  applied = [];
  files = plan ∷ record plan { revision = 3 } ∷ [];
}

abbrev hash : ContinuityPlan → ℕ
hash p = p.revision + 100

abbrev inside : ℕ → Bool
inside project = true

abbrev no_pages : ℕ → Option (List Page)
no_pages project = none

abbrev ids : ℕ → ℕ
ids n = n

abbrev add_chapter : ℕ → ℕ → ContinuityPlanCommand
add_chapter revision end = record {
  command_id = 9;
  expected_revision = revision;
  kind = upsert_chapter (chapter 2 100 end);
}

chapter_added :
    (apply hash inside no_pages ids 3 (add_chapter 4 5000) service).0
    ≡ ok (record plan { revision = 5; chapters = chapter 2 100 5000 ∷ []; content_hash = 105 })
unfolding apply
chapter_added = refl

chapter_too_late :
    (apply hash inside no_pages ids 3 (add_chapter 4 10001) service) ≡ (err error, service)
unfolding apply
chapter_too_late = refl

old_revision :
    (apply hash inside no_pages ids 3 (add_chapter 3 5000) service) ≡ (err conflict, service)
unfolding apply
old_revision = refl

plan-IsPlan : IsPlan plan
plan-IsPlan = record {
  transition_ids = tt;
  overlay_ids = tt;
  chapter_ids = tt;
  transitions_good = tt;
  overlays_good = tt;
  chapters_good = tt;
  in_order = tt;
}

apply-Turned_example :
    Turned hash inside no_pages ids service 3
      (add_chapter 4 5000)
      plan
      (apply hash inside no_pages ids 3 (add_chapter 4 5000) service)
apply-Turned_example =
    apply-Turned hash inside no_pages ids service 3 (add_chapter 4 5000) plan refl plan-IsPlan
      ((λ t. omega arith), ((λ t. omega arith), tt))

latest_plan : latest 3 service.files ≡ some plan
unfolding latest
latest_plan = refl

create_resets_example :
    ((get hash inside no_pages ids 3 (restarted service)).0 ≡ ok plan)
    × (q : ContinuityPlan) × ((create hash inside no_pages ids 3 10000 (restarted service)).0
        ≡ ok q)
    × (plan_of 3 (create hash inside no_pages ids 3 10000 (restarted service)).1.plans ≡ some q)
    × ((create hash inside no_pages ids 3 10000 (restarted service)).1.files
        ≡ write_file q service.files)
    × (q.revision ≡ 1)
    × (q.transitions ≡ [])
    × (q.overlays ≡ [])
    × (q.chapters ≡ [])
create_resets_example =
    create_resets hash inside no_pages ids service 3 10000 plan latest_plan refl refl
