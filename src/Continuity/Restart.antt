-- ===== src/Continuity/Restart.antt =====
-- A continuity service (continuity/service.py) that starts on the files of an earlier one.
use ppt_video_workbench_v.Base.{ℕ, ◌≡◌, refl, List, [], Option, none, some, Bool, true, ==_refl}
use ppt_video_workbench_v.Continuity.Plan.{ContinuityPlan}
use ppt_video_workbench_v.Continuity.Commands.{ok}
use ppt_video_workbench_v.Continuity.State.{Page, ContinuityService, plan_of, latest, write_file}
use ppt_video_workbench_v.Continuity.Service.{with_hash, create, get}
use ppt_video_workbench_v.Continuity.Turns.{restarted}

module _ (sha256 : ContinuityPlan → ℕ) (contained : ℕ → Bool) (pages_of : ℕ → Option (List Page))
    (ids : ℕ → ℕ) where
  -- Where the files of a project inside the workspace have a latest plan and there is no project
  -- service, a restarted service that is first asked for the plan answers that plan, but one that is
  -- first asked to create it answers, keeps in memory and writes a new plan of revision 1 without
  -- transitions, overlays or chapters, in place of the file of the first revision.
  pub create_resets :
      (s : ContinuityService) (project duration : ℕ) (p : ContinuityPlan)
      → latest project s.files ≡ some p
      → contained project ≡ true
      → pages_of project ≡ none
      → ((get sha256 contained pages_of ids project (restarted s)).0 ≡ ok p)
        × (q : ContinuityPlan) × ((create sha256 contained pages_of ids project duration
              (restarted s)).0
            ≡ ok q)
        × (plan_of project
              (create sha256 contained pages_of ids project duration (restarted s)).1.plans
            ≡ some q)
        × ((create sha256 contained pages_of ids project duration (restarted s)).1.files
            ≡ write_file q s.files)
        × (q.revision ≡ 1)
        × (q.transitions ≡ [])
        × (q.overlays ≡ [])
        × (q.chapters ≡ [])
  unfolding get create
  create_resets s project duration p f c n =
      let q : ContinuityPlan = with_hash sha256 contained pages_of (record {
        version = 1;
        revision = 1;
        project_id = project;
        duration_ms = duration;
        transitions = [];
        overlays = [];
        chapters = [];
        content_hash = 0;
      }) in
      (
        rw (c, f) refl,
        q,
        rw (n, c) refl,
        rw (n, c) (rw (==_refl project) refl),
        rw (n, c) refl,
        refl,
        refl,
        refl,
        refl,
      )
