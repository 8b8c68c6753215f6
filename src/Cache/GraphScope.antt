-- ===== src/Cache/GraphScope.antt =====
-- Which pages and stages a change of a project makes to be rebuilt (cache/dependency_graph.py).
use ppt_video_workbench_v.Base.{
  ℕ, ◌≡◌, refl, sym, ap, subst, ◌∙◌, List, [], ◌∷◌, ◌++◌, Option, none, some, Bool, true, false,
  not, ◌&&◌, ◌||◌, ◌==◌, keep, if◌then◌else◌, arith, Bool-cases, inl, inr, ==_iff, and-eq_true,
}
use ppt_video_workbench_v.Cache.Graph.{
  PageStage, narration, audio, timeline, subtitle, segment, Node, source, extraction, match, final,
  elsewhere, page, same_stage, same_node, EventKind, page_narration_changed, page_audio_changed,
  content_changed, template_changed, effect_plan_changed, effect_plan_regenerated,
  effect_policy_changed, effect_catalog_upgraded, heygen_voice_changed, runtime_upgraded,
  other_kind, InvalidationEvent, ProjectPage, InvalidationPlan, in_ids, in_stages, in_nodes,
  page_ids, nodes_of_page, page_nodes, page_stages, nodes_of, selected_pages, rebuild_set,
  with_final, plan_of, invalidate_project,
}

same_stage_eq : (s t : PageStage) → same_stage s t ≡ true → s ≡ t
unfolding same_stage
same_stage_eq s t h = ground arith

same_node_eq : (a b : Node) → same_node a b ≡ true → a ≡ b
unfolding same_node
same_node_eq (page s p) (page t q) h =
    let (x, y) = and-eq_true (same_stage s t) (p == q) h in
    ap (λ z. page z p) (same_stage_eq s t x) ∙ ap (page t) ((==_iff p q).0 y)
same_node_eq (page s p) source h = ground arith
same_node_eq (page s p) extraction h = ground arith
same_node_eq (page s p) match h = ground arith
same_node_eq (page s p) final h = ground arith
same_node_eq (page s p) elsewhere h = ground arith
same_node_eq source b h = ground arith
same_node_eq extraction b h = ground arith
same_node_eq match b h = ground arith
same_node_eq final b h = ground arith
same_node_eq elsewhere b h = ground arith

in_nodes-append :
    (n : Node) (xs ys : List Node) → in_nodes n (xs ++ ys) ≡ (in_nodes n xs || in_nodes n ys)
in_nodes-append n [] ys = refl
in_nodes-append n (x ∷ xs) ys = rw (in_nodes-append n xs ys) (ground arith)

in_nodes-nodes_of_page :
    (s : PageStage) (p q : ℕ) (ss : List PageStage)
    → in_nodes (page s p) (nodes_of_page q ss) ≡ ((q == p) && in_stages s ss)
unfolding same_node
in_nodes-nodes_of_page s p q [] = ground arith
in_nodes-nodes_of_page s p q (t ∷ ss) = rw (in_nodes-nodes_of_page s p q ss) (ground arith)

in_nodes-page_nodes :
    (s : PageStage) (p : ℕ) (ps : List ℕ) (ss : List PageStage)
    → in_nodes (page s p) (page_nodes ps ss) ≡ (in_ids p ps && in_stages s ss)
unfolding page_nodes
in_nodes-page_nodes s p [] ss = refl
in_nodes-page_nodes s p (q ∷ ps) ss =
    in_nodes-append (page s p) (nodes_of_page q ss) (page_nodes ps ss)
    ∙ rw (in_nodes-nodes_of_page s p q ss, in_nodes-page_nodes s p ps ss) (ground arith)

every_stage : (s : PageStage) → in_stages s page_stages ≡ true
unfolding same_stage
every_stage narration = refl
every_stage audio = refl
every_stage timeline = refl
every_stage subtitle = refl
every_stage segment = refl

in_nodes-nodes_of :
    (s : PageStage) (p : ℕ) (ids : List ℕ) → in_nodes (page s p) (nodes_of ids) ≡ in_ids p ids
unfolding same_node
in_nodes-nodes_of s p ids =
    in_nodes-append (page s p) (page_nodes ids page_stages) (final ∷ [])
    ∙ rw (in_nodes-page_nodes s p ids page_stages, every_stage s) (ground arith)

in_nodes-keep :
    (m : Node) (q : Node → Bool) (ns : List Node) → in_nodes m (keep q ns) ≡ (q m && in_nodes m ns)
in_nodes-keep m q [] = ground arith
in_nodes-keep m q (n ∷ ns) = elim (Bool-cases (same_node n m)) [
  | inl t ↦ let same = ap q (same_node_eq n m t) in ground (arith, same, t, in_nodes-keep m q ns)
  | inr f ↦ ground (arith, f, in_nodes-keep m q ns)
]

-- Whether the change concerns all pages, and the stages that it concerns.
abbrev pub touches : EventKind → Option (Bool × List PageStage)
touches page_narration_changed = some (false, narration ∷ audio ∷ subtitle ∷ segment ∷ [])
touches page_audio_changed = some (false, timeline ∷ subtitle ∷ segment ∷ [])
touches content_changed = some (false, page_stages)
touches template_changed = some (true, segment ∷ [])
touches effect_plan_changed = some (false, segment ∷ [])
touches effect_plan_regenerated = some (false, segment ∷ [])
touches effect_policy_changed = some (true, segment ∷ [])
touches effect_catalog_upgraded = some (true, segment ∷ [])
touches heygen_voice_changed = some (false, audio ∷ timeline ∷ subtitle ∷ segment ∷ [])
touches runtime_upgraded = none
touches other_kind = none

-- The pages in question.
abbrev pub scope : Bool → List ℕ → InvalidationEvent → List ℕ
scope whole ids e = if whole then ids else selected_pages ids e

pair_eq : {a b : Bool × List PageStage} → some a ≡ some b → a ≡ b
pair_eq h = cc

no_pair : {A : Type 0} {b : Bool × List PageStage} → none ≡ some b → A
no_pair h = absurd (cc h)

-- The nodes of a change's branch, where they are those of some pages and stages.
abbrev Branch : List ℕ → InvalidationEvent → EventKind → Bool × List PageStage → Type 0
Branch ids e k (whole, ss) =
    (ns : List Node) × (rebuild_set ids e k ≡ some ns)
    × ((s : PageStage) (p : ℕ)
        → in_nodes (page s p) ns ≡ (in_ids p (scope whole ids e) && in_stages s ss))

of_pages :
    (ids : List ℕ) (e : InvalidationEvent) (k : EventKind) (whole : Bool) (ss : List PageStage)
    → rebuild_set ids e k ≡ some (page_nodes (scope whole ids e) ss)
    → Branch ids e k (whole, ss)
of_pages ids e k whole ss r =
    (page_nodes (scope whole ids e) ss, r, λ s p. in_nodes-page_nodes s p (scope whole ids e) ss)

branch :
    (ids : List ℕ) (e : InvalidationEvent) (k : EventKind) (x : Bool × List PageStage)
    → touches k ≡ some x
    → Branch ids e k x
unfolding rebuild_set same_node
branch ids e page_narration_changed x h =
    subst (Branch ids e page_narration_changed) (pair_eq h) (
      of_pages ids e page_narration_changed false (narration ∷ audio ∷ subtitle ∷ segment ∷ [])
        refl)
branch ids e page_audio_changed x h =
    subst (Branch ids e page_audio_changed) (pair_eq h)
      (of_pages ids e page_audio_changed false (timeline ∷ subtitle ∷ segment ∷ []) refl)
branch ids e content_changed x h =
    subst (Branch ids e content_changed) (pair_eq h)
      (_, refl, λ s p. in_nodes-page_nodes s p (selected_pages ids e) page_stages)
branch ids e template_changed x h =
    subst (Branch ids e template_changed) (pair_eq h)
      (of_pages ids e template_changed true (segment ∷ []) refl)
branch ids e effect_plan_changed x h =
    subst (Branch ids e effect_plan_changed) (pair_eq h)
      (of_pages ids e effect_plan_changed false (segment ∷ []) refl)
branch ids e effect_plan_regenerated x h =
    subst (Branch ids e effect_plan_regenerated) (pair_eq h)
      (of_pages ids e effect_plan_regenerated false (segment ∷ []) refl)
branch ids e effect_policy_changed x h =
    subst (Branch ids e effect_policy_changed) (pair_eq h)
      (of_pages ids e effect_policy_changed true (segment ∷ []) refl)
branch ids e effect_catalog_upgraded x h =
    subst (Branch ids e effect_catalog_upgraded) (pair_eq h)
      (of_pages ids e effect_catalog_upgraded true (segment ∷ []) refl)
branch ids e heygen_voice_changed x h =
    subst (Branch ids e heygen_voice_changed) (pair_eq h)
      (of_pages ids e heygen_voice_changed false (audio ∷ timeline ∷ subtitle ∷ segment ∷ []) refl)
branch ids e runtime_upgraded x h = no_pair h
branch ids e other_kind x h = no_pair h

with_final-page :
    (s : PageStage) (p : ℕ) (ns : List Node)
    → in_nodes (page s p) (with_final ns) ≡ in_nodes (page s p) ns
unfolding same_node
with_final-page s p [] = refl
with_final-page s p (n ∷ ns) = refl

with_final-final :
    (s : PageStage) (p : ℕ) (ns : List Node)
    → in_nodes (page s p) ns ≡ true
    → in_nodes final (with_final ns) ≡ true
unfolding same_node
with_final-final s p [] h = absurd (cc h)
with_final-final s p (n ∷ ns) h = refl

final_listed : (ids : List ℕ) → in_nodes final (nodes_of ids) ≡ true
unfolding same_node
final_listed ids = in_nodes-append final (page_nodes ids page_stages) (final ∷ []) ∙ ground arith

-- For every kind of change that is supported, but an upgrade of the runtime, there is a plan. A
-- stage of a page is rebuilt exactly where the kind concerns the stage and the page is one of the
-- project's and in question, which is all of them for a change of the template, the policy or the
-- catalog, and else those that the event names, or all where it names none of the project's. Where
-- a stage of a page is rebuilt, so is the final video. A node of the project is preserved exactly
-- where it is not rebuilt.
pub invalidate_scope :
    (pages : List ProjectPage) (e : InvalidationEvent) (whole : Bool) (ss : List PageStage)
    → touches e.kind ≡ some (whole, ss)
    → (plan : InvalidationPlan) × (invalidate_project pages e ≡ some plan)
      × ((s : PageStage) (p : ℕ)
          → in_nodes (page s p) plan.rebuild ≡ (
              (in_ids p (scope whole (page_ids pages) e) && in_stages s ss)
              && in_ids p (page_ids pages)))
      × ((s : PageStage) (p : ℕ)
          → in_nodes (page s p) plan.rebuild ≡ true
          → in_nodes final plan.rebuild ≡ true)
      × ((n : Node)
          → in_nodes n plan.preserve
            ≡ (in_nodes n (nodes_of (page_ids pages)) && not (in_nodes n plan.rebuild)))
unfolding invalidate_project
invalidate_scope pages e whole ss h =
    let ids = page_ids pages in
    let (ns, k, f) = branch ids e e.kind (whole, ss) h in
    let rebuilt : (n : Node)
        → in_nodes n (keep (λ m. in_nodes m (with_final ns)) (nodes_of ids))
          ≡ (in_nodes n (with_final ns) && in_nodes n (nodes_of ids)) =
      λ n. in_nodes-keep n (λ m. in_nodes m (with_final ns)) (nodes_of ids) in
    rw k (
      plan_of (nodes_of ids) (with_final ns),
      refl,
      λ s p.
          rebuilt (page s p) ∙ rw (with_final-page s p ns, f s p, in_nodes-nodes_of s p ids) refl,
      λ s p t.
          let u =
            and-eq_true (in_nodes (page s p) (with_final ns)) (in_nodes (page s p) (nodes_of ids))
              (sym (rebuilt (page s p)) ∙ t) in
          rebuilt final
          ∙ rw (with_final-final s p ns (sym (with_final-page s p ns) ∙ u.0), final_listed ids)
              refl,
      λ n.
          in_nodes-keep n (λ m. not (in_nodes m (with_final ns))) (nodes_of ids)
          ∙ rw (rebuilt n) (ground arith),
    )
