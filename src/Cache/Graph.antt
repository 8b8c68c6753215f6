-- ===== src/Cache/Graph.antt =====
-- cache/dependency_graph.py: which nodes of a project a change makes to be rebuilt. A node's text
-- names a stage of the project, a stage of a page, or the final video.
use ppt_video_workbench_v.Base.{
  ℕ, List, [], ◌∷◌, ◌++◌, Option, none, some, Bool, true, false, not, ◌&&◌, ◌==◌, ltb, any, keep,
  map, sorted,
}

-- `_page_stages`.
pub data PageStage : Type 0 where
  narration audio timeline subtitle segment : PageStage

-- The nodes of a project, and any text with a colon that names none of them.
pub data Node : Type 0 where
  source extraction match final elsewhere : Node
  page : PageStage → ℕ → Node

unfoldable pub same_stage : PageStage → PageStage → Bool
same_stage narration narration = true
same_stage audio audio = true
same_stage timeline timeline = true
same_stage subtitle subtitle = true
same_stage segment segment = true
same_stage _ _ = false

unfoldable pub same_node : Node → Node → Bool
unfolding same_stage
same_node source source = true
same_node extraction extraction = true
same_node match match = true
same_node final final = true
same_node elsewhere elsewhere = true
same_node (page s p) (page t q) = same_stage s t && (p == q)
same_node _ _ = false

-- The event kinds, and any other text.
pub data EventKind : Type 0 where
  page_narration_changed page_audio_changed content_changed template_changed : EventKind
  effect_plan_changed effect_plan_regenerated effect_policy_changed : EventKind
  effect_catalog_upgraded heygen_voice_changed runtime_upgraded other_kind : EventKind

-- An entry of `incompatible_nodes`: a text that names a node or has a colon, one that names a
-- stage of all pages, any other text, or no text.
pub data RuntimeName : Type 0 where
  node_name : Node → RuntimeName
  stage_name : PageStage → RuntimeName
  other_text no_text : RuntimeName

pub record InvalidationEvent : Type 0 where
  pub kind : EventKind
  pub page_id : Option ℕ
  pub affected_page_ids : List ℕ
  pub incompatible_nodes : Option (List RuntimeName)

pub record ProjectPage : Type 0 where
  pub id : ℕ
  pub order : ℕ

pub record InvalidationPlan : Type 0 where
  pub preserve : List Node
  pub rebuild : List Node

abbrev pub in_ids : ℕ → List ℕ → Bool
in_ids p ps = any (λ q. q == p) ps

abbrev pub in_stages : PageStage → List PageStage → Bool
in_stages s ss = any (λ t. same_stage t s) ss

abbrev pub in_nodes : Node → List Node → Bool
in_nodes n ns = any (λ m. same_node m n) ns

abbrev pub order_before : ProjectPage → ProjectPage → Bool
order_before a b = ltb a.order b.order

-- `_page_ids`
abbrev pub page_ids : List ProjectPage → List ℕ
page_ids ps = map (λ p. p.id) (sorted order_before ps)

abbrev pub nodes_of_page : ℕ → List PageStage → List Node
nodes_of_page p ss = map (λ s. page s p) ss

-- `self._page_node(page_id, stage) for page_id in pages for stage in stages`
unfoldable pub page_nodes : List ℕ → List PageStage → List Node
page_nodes [] ss = []
page_nodes (p ∷ ps) ss = nodes_of_page p ss ++ page_nodes ps ss

abbrev pub page_stages : List PageStage
page_stages = narration ∷ audio ∷ timeline ∷ subtitle ∷ segment ∷ []

-- `_nodes`
abbrev pub nodes_of : List ℕ → List Node
nodes_of ids = source ∷ extraction ∷ match ∷ (page_nodes ids page_stages ++ final ∷ [])

abbrev pub one_page : Option ℕ → List ℕ
one_page none = []
one_page (some p) = p ∷ []

abbrev pub requested : InvalidationEvent → List ℕ
requested e = e.affected_page_ids ++ one_page e.page_id

abbrev pub or_all : List ℕ → List ℕ → List ℕ
or_all [] ids = ids
or_all (p ∷ ps) ids = p ∷ ps

-- `_selected_pages`
abbrev pub selected_pages : List ℕ → InvalidationEvent → List ℕ
selected_pages ids e = or_all (keep (λ p. in_ids p ids) (requested e)) ids

-- The page stages that an incompatible stage takes with it.
unfoldable pub from_stage : PageStage → List PageStage
from_stage narration = narration ∷ audio ∷ subtitle ∷ segment ∷ []
from_stage audio = audio ∷ timeline ∷ subtitle ∷ segment ∷ []
from_stage timeline = timeline ∷ subtitle ∷ segment ∷ []
from_stage subtitle = subtitle ∷ segment ∷ []
from_stage segment = segment ∷ []

unfoldable pub from_node : List ℕ → Node → List Node
unfolding page_nodes
from_node ids source = source ∷ extraction ∷ match ∷ page_nodes ids page_stages
from_node ids extraction = extraction ∷ match ∷ page_nodes ids page_stages
from_node ids match = match ∷ page_nodes ids page_stages
from_node ids final = final ∷ []
from_node ids elsewhere = elsewhere ∷ []
from_node ids (page s p) = page s p ∷ []

abbrev pub more : List Node → Option (List Node) → Option (List Node)
more ns none = none
more ns (some ms) = some (ns ++ ms)

-- `_runtime_nodes`, which raises where an entry is no text.
unfoldable pub runtime_nodes : List ℕ → List RuntimeName → Option (List Node)
unfolding from_node from_stage
runtime_nodes ids [] = some []
runtime_nodes ids (no_text ∷ rs) = none
runtime_nodes ids (other_text ∷ rs) = runtime_nodes ids rs
runtime_nodes ids (node_name n ∷ rs) = more (from_node ids n) (runtime_nodes ids rs)
runtime_nodes ids (stage_name s ∷ rs) = more (page_nodes ids (from_stage s)) (runtime_nodes ids rs)

abbrev pub runtime_rebuild : List ℕ → Option (List RuntimeName) → Option (List Node)
runtime_rebuild ids none = none
runtime_rebuild ids (some rs) = runtime_nodes ids rs

-- The branches of `invalidate`: the nodes to rebuild, or a `ValueError`.
unfoldable pub rebuild_set : List ℕ → InvalidationEvent → EventKind → Option (List Node)
unfolding page_nodes runtime_nodes
rebuild_set ids e page_narration_changed =
    some (page_nodes (selected_pages ids e) (narration ∷ audio ∷ subtitle ∷ segment ∷ []))
rebuild_set ids e page_audio_changed =
    some (page_nodes (selected_pages ids e) (timeline ∷ subtitle ∷ segment ∷ []))
rebuild_set ids e content_changed =
    some (extraction ∷ match ∷ page_nodes (selected_pages ids e) page_stages)
rebuild_set ids e template_changed = some (page_nodes ids (segment ∷ []))
rebuild_set ids e effect_plan_changed = some (page_nodes (selected_pages ids e) (segment ∷ []))
rebuild_set ids e effect_plan_regenerated = some (page_nodes (selected_pages ids e) (segment ∷ []))
rebuild_set ids e effect_policy_changed = some (page_nodes ids (segment ∷ []))
rebuild_set ids e effect_catalog_upgraded = some (page_nodes ids (segment ∷ []))
rebuild_set ids e heygen_voice_changed =
    some (page_nodes (selected_pages ids e) (audio ∷ timeline ∷ subtitle ∷ segment ∷ []))
rebuild_set ids e runtime_upgraded = runtime_rebuild ids e.incompatible_nodes
rebuild_set ids e other_kind = none

abbrev pub with_final : List Node → List Node
with_final [] = []
with_final (n ∷ ns) = final ∷ n ∷ ns

abbrev pub plan_of : List Node → List Node → InvalidationPlan
plan_of nodes rebuild = record {
  preserve = keep (λ n. not (in_nodes n rebuild)) nodes;
  rebuild = keep (λ n. in_nodes n rebuild) nodes;
}

abbrev pub planned : List Node → Option (List Node) → Option InvalidationPlan
planned nodes none = none
planned nodes (some rebuild) = some (plan_of nodes (with_final rebuild))

unfoldable pub invalidate_project : List ProjectPage → InvalidationEvent → Option InvalidationPlan
unfolding rebuild_set same_node
invalidate_project pages e =
    planned (nodes_of (page_ids pages)) (rebuild_set (page_ids pages) e e.kind)
