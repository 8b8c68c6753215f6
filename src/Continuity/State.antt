-- ===== src/Continuity/State.antt =====
-- The state of ContinuityService (continuity/service.py): the plans and applied commands in
-- memory, and the files of the revisions; and what `create` reads of the pages.
use ppt_video_workbench_v.Base.{
  ℕ, ◌+◌, List, [], ◌∷◌, Option, none, some, Bool, true, false, not, ◌&&◌, ◌==◌, ltb, max, find,
  keep, if◌then◌else◌,
}
use ppt_video_workbench_v.Base.Int.{pos}
use ppt_video_workbench_v.Continuity.Plan.{
  TransitionSpec, cut, plain_cut, ContinuityPlan, ContinuityPlanCommand,
}
use ppt_video_workbench_v.Continuity.Commands.{validation, Result, ok, err}

-- The fields of a project's page that `create` reads.
pub record Page : Type 0 where
  pub id : ℕ
  pub order : ℕ
  pub timeline_end : Option ℕ

pub record AppliedCommand : Type 0 where
  pub project_id : ℕ
  pub command_id : ℕ
  pub plan : ContinuityPlan

-- `_plans`, `_applied`, and the files `revision-*.json`; `current.json` is not read by the service.
pub record ContinuityService : Type 0 where
  pub plans : List ContinuityPlan
  pub applied : List AppliedCommand
  pub files : List ContinuityPlan

abbrev pub of_project : ℕ → ContinuityPlan → Bool
of_project project p = p.project_id == project

abbrev pub plan_of : ℕ → List ContinuityPlan → Option ContinuityPlan
plan_of project ps = find (of_project project) ps

-- `self._plans[project_id] = plan`, for the plan's own project.
abbrev pub set_plan : ContinuityPlan → List ContinuityPlan → List ContinuityPlan
set_plan p ps = p ∷ keep (λ x. not (of_project p.project_id x)) ps

abbrev pub same_file : ContinuityPlan → ContinuityPlan → Bool
same_file p x = of_project p.project_id x && (x.revision == p.revision)

-- The file of the revision is written, or overwritten.
abbrev pub write_file : ContinuityPlan → List ContinuityPlan → List ContinuityPlan
write_file p fs = p ∷ keep (λ x. not (same_file p x)) fs

abbrev pub later_of : ℕ → ContinuityPlan → Option ContinuityPlan → Option ContinuityPlan
later_of project x none = if of_project project x then some x else none
later_of project x (some y) =
    if of_project project x && ltb y.revision x.revision then some x else some y

-- The last file by name, whose name has the revision in eight digits.
unfoldable pub latest : ℕ → List ContinuityPlan → Option ContinuityPlan
latest project [] = none
latest project (x ∷ xs) = later_of project x (latest project xs)

abbrev pub command_of : ℕ → ℕ → List AppliedCommand → Option AppliedCommand
command_of project command cs =
    find (λ c. (c.project_id == project) && (c.command_id == command)) cs

abbrev pub in_memory : ContinuityPlan → ContinuityService → ContinuityService
in_memory p s = record s { plans = set_plan p s.plans }

abbrev pub remembered :
    ContinuityPlanCommand → ContinuityPlan → ContinuityService → ContinuityService
remembered c p s = record s {
  applied = record { project_id = p.project_id; command_id = c.command_id; plan = p } ∷ s.applied;
}

abbrev pub page_before : Page → Page → Bool
page_before a b = ltb a.order b.order

-- `TransitionSpec(from_page_id=left.id, to_page_id=right.id)`
abbrev pub new_transition : ℕ → ℕ → ℕ → TransitionSpec
new_transition id left right = record {
  id = id;
  from_page_id = left;
  to_page_id = right;
  kind = cut;
  duration_ms = 0;
  audio_mode = plain_cut;
  audio_offset_ms = pos 0;
  easing = "ease_in_out";
  enabled = true;
  chapter_boundary = false;
  parameters = "{}";
}

abbrev pub add_transition :
    TransitionSpec → Result (List TransitionSpec) → Result (List TransitionSpec)
add_transition t (ok ts) = ok (t ∷ ts)
add_transition t (err e) = err e

-- One transition between each page and the next, refused between a page and itself.
unfoldable pub transitions_between : (ℕ → ℕ) → ℕ → List Page → Result (List TransitionSpec)
transitions_between ids n [] = ok []
transitions_between ids n (a ∷ []) = ok []
transitions_between ids n (a ∷ b ∷ ps) =
    let rest = transitions_between ids (n + 1) (b ∷ ps) in
    if a.id == b.id then err validation else add_transition (new_transition (ids n) a.id b.id) rest

-- `max((...), default=duration_ms)` over the timelines that are there.
unfoldable pub last_end : Option ℕ → List Page → Option ℕ
last_end best [] = best
last_end none (p ∷ ps) = last_end p.timeline_end ps
last_end (some b) (p ∷ ps) = elim p.timeline_end [
  | none ↦ last_end (some b) ps
  | some e ↦ last_end (some (max b e)) ps
]
