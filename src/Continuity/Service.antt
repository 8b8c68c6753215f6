-- ===== src/Continuity/Service.antt =====
-- The methods of ContinuityService in continuity/service.py. Parameters: the SHA-256 of a plan's
-- JSON, whether a project's folder is inside the workspace, and the pages that the project service
-- answers, if there is one.
use ppt_video_workbench_v.Base.{
  ℕ, ◌+◌, List, [], Option, none, some, Bool, not, ◌==◌, sorted, if◌then◌else◌,
}
use ppt_video_workbench_v.Continuity.Plan.{TransitionSpec, ContinuityPlan, ContinuityPlanCommand}
use ppt_video_workbench_v.Continuity.Commands.{conflict, error, Result, ok, err, apply_command}
use ppt_video_workbench_v.Continuity.State.{
  Page, AppliedCommand, ContinuityService, plan_of, write_file, latest, command_of, in_memory,
  remembered, page_before, transitions_between, last_end,
}

module _ (sha256 : ContinuityPlan → ℕ) (contained : ℕ → Bool)
    (pages_of : ℕ → Option (List Page)) where
  -- `_with_hash`: the hash is that of the plan without its hash.
  abbrev pub with_hash : ContinuityPlan → ContinuityPlan
  with_hash p = record p { content_hash = sha256 (record p { content_hash = 0 }) }

  abbrev pub empty_plan : ℕ → ℕ → List TransitionSpec → ContinuityPlan
  empty_plan project duration ts = record {
    version = 1;
    revision = 1;
    project_id = project;
    duration_ms = duration;
    transitions = ts;
    overlays = [];
    chapters = [];
    content_hash = 0;
  }

  -- The transitions and the duration, from the sorted pages.
  abbrev pub from_pages : ℕ → ℕ → Option ℕ → Result (List TransitionSpec) → Result ContinuityPlan
  from_pages project duration end (err e) = err e
  from_pages project duration none (ok ts) = ok (with_hash (empty_plan project duration ts))
  from_pages project duration (some end) (ok ts) = ok (with_hash (empty_plan project end ts))

  abbrev pub new_plan : (ℕ → ℕ) → ℕ → ℕ → Option (List Page) → Result ContinuityPlan
  new_plan ids project duration none = from_pages project duration none (ok [])
  new_plan ids project duration (some ps) =
      from_pages project duration (last_end none (sorted page_before ps))
        (transitions_between ids 0 (sorted page_before ps))

  -- `_persist`, which raises where the folder is not inside the workspace.
  abbrev pub persist :
      ContinuityPlan → ContinuityService → Result ContinuityPlan × ContinuityService
  persist p s =
      if contained p.project_id
      then (ok p, record s { files = write_file p s.files })
      else (err error, s)

  abbrev pub store_new :
      Result ContinuityPlan → ContinuityService → Result ContinuityPlan × ContinuityService
  store_new (err e) s = (err e, s)
  store_new (ok p) s = persist p (in_memory p s)

  abbrev pub create_unless :
      (ℕ → ℕ)
      → ℕ
      → ℕ
      → Option ContinuityPlan
      → ContinuityService
      → Result ContinuityPlan × ContinuityService
  create_unless ids project duration (some p) s = (ok p, s)
  create_unless ids project duration none s =
      store_new (new_plan ids project duration (pages_of project)) s

  unfoldable pub create :
      (ℕ → ℕ) → ℕ → ℕ → ContinuityService → Result ContinuityPlan × ContinuityService
  unfolding transitions_between last_end
  create ids project duration s = create_unless ids project duration (plan_of project s.plans) s

  abbrev pub loaded :
      (ℕ → ℕ)
      → ℕ
      → Option ContinuityPlan
      → ContinuityService
      → Result ContinuityPlan × ContinuityService
  loaded ids project (some p) s = (ok p, in_memory p s)
  loaded ids project none s = create ids project 0 s

  abbrev pub get_unless :
      (ℕ → ℕ)
      → ℕ
      → Option ContinuityPlan
      → ContinuityService
      → Result ContinuityPlan × ContinuityService
  get_unless ids project (some p) s = (ok p, s)
  get_unless ids project none s =
      if contained project then loaded ids project (latest project s.files) s else (err error, s)

  unfoldable pub get : (ℕ → ℕ) → ℕ → ContinuityService → Result ContinuityPlan × ContinuityService
  unfolding create latest
  get ids project s = get_unless ids project (plan_of project s.plans) s

  abbrev pub next_revision : ContinuityPlan → ContinuityPlan
  next_revision p = with_hash (record p { revision = p.revision + 1 })

  abbrev pub committed :
      ContinuityPlanCommand
      → Result ContinuityPlan
      → ContinuityService
      → Result ContinuityPlan × ContinuityService
  committed c (err e) s = (err e, s)
  committed c (ok p) s =
      persist (next_revision p) (remembered c (next_revision p) (in_memory (next_revision p) s))

  abbrev pub apply_new :
      ContinuityPlanCommand
      → ContinuityPlan
      → ContinuityService
      → Result ContinuityPlan × ContinuityService
  apply_new c current s =
      if not (c.expected_revision == current.revision)
      then (err conflict, s)
      else committed c (apply_command current c.kind) s

  abbrev pub apply_unless :
      ContinuityPlanCommand
      → ContinuityPlan
      → Option AppliedCommand
      → ContinuityService
      → Result ContinuityPlan × ContinuityService
  apply_unless c current (some a) s = (ok a.plan, s)
  apply_unless c current none s = apply_new c current s

  abbrev pub apply_to :
      ℕ
      → ContinuityPlanCommand
      → Result ContinuityPlan × ContinuityService
      → Result ContinuityPlan × ContinuityService
  apply_to project c (err e, s) = (err e, s)
  apply_to project c (ok current, s) =
      apply_unless c current (command_of project c.command_id s.applied) s

  unfoldable pub apply :
      (ℕ → ℕ)
      → ℕ
      → ContinuityPlanCommand
      → ContinuityService
      → Result ContinuityPlan × ContinuityService
  unfolding get apply_command
  apply ids project c s = apply_to project c (get ids project s)
