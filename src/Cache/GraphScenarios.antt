-- ===== src/Cache/GraphScenarios.antt =====
-- A project of two pages whose narration changes.
use ppt_video_workbench_v.Base.{ℕ, ◌≡◌, refl, List, [], ◌∷◌, none, some, true, false, not, ◌&&◌}
use ppt_video_workbench_v.Cache.Graph.{
  PageStage, narration, audio, timeline, subtitle, segment, Node, source, extraction, match, final,
  page, page_narration_changed, runtime_upgraded, stage_name, no_text, InvalidationEvent,
  ProjectPage, InvalidationPlan, in_ids, in_stages, in_nodes, page_ids, nodes_of,
  invalidate_project,
}
use ppt_video_workbench_v.Cache.GraphScope.{scope, invalidate_scope}

abbrev two_pages : List ProjectPage
two_pages = record { id = 5; order = 2 } ∷ record { id = 4; order = 1 } ∷ []

abbrev narrated : InvalidationEvent
narrated = record {
  kind = page_narration_changed;
  page_id = some 5;
  affected_page_ids = [];
  incompatible_nodes = some [];
}

-- The timeline of the page is preserved.
narration_plan :
    invalidate_project two_pages narrated
    ≡ some (record {
      preserve =
          source
          ∷ extraction
          ∷ match
          ∷ page narration 4
          ∷ page audio 4
          ∷ page timeline 4
          ∷ page subtitle 4
          ∷ page segment 4
          ∷ page timeline 5
          ∷ [];
      rebuild = page narration 5 ∷ page audio 5 ∷ page subtitle 5 ∷ page segment 5 ∷ final ∷ [];
    })
unfolding invalidate_project
narration_plan = refl

runtime_refused :
    invalidate_project two_pages (record narrated {
      kind = runtime_upgraded;
      incompatible_nodes = some (stage_name audio ∷ no_text ∷ []);
    })
    ≡ none
unfolding invalidate_project
runtime_refused = refl

invalidate_scope_example :
    (plan : InvalidationPlan) × (invalidate_project two_pages narrated ≡ some plan)
    × ((s : PageStage) (p : ℕ)
        → in_nodes (page s p) plan.rebuild ≡ (
            (in_ids p (scope false (page_ids two_pages) narrated)
              && in_stages s (narration ∷ audio ∷ subtitle ∷ segment ∷ []))
            && in_ids p (page_ids two_pages)))
    × ((s : PageStage) (p : ℕ)
        → in_nodes (page s p) plan.rebuild ≡ true
        → in_nodes final plan.rebuild ≡ true)
    × ((n : Node)
        → in_nodes n plan.preserve
          ≡ (in_nodes n (nodes_of (page_ids two_pages)) && not (in_nodes n plan.rebuild)))
invalidate_scope_example =
    invalidate_scope two_pages narrated false (narration ∷ audio ∷ subtitle ∷ segment ∷ []) refl
