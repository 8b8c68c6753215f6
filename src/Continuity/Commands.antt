-- ===== src/Continuity/Commands.antt =====
-- `_apply_command` of continuity/service.py.
use ppt_video_workbench_v.Base.{
  ℕ, ◌+◌, List, [], ◌∷◌, ◌++◌, Bool, not, ◌&&◌, ◌==◌, ltb, keep, sorted, if◌then◌else◌,
}
use ppt_video_workbench_v.Continuity.Plan.{
  TransitionSpec, OverlayPlacement, ChapterMarker, ContinuityPlan, CommandKind, upsert_transition,
  remove_transition, upsert_overlay, remove_overlay, upsert_chapter, remove_chapter, malformed,
  valid_transition, valid_overlay, valid_chapter,
}

-- `ContinuityConflict`, `ContinuityError`, a pydantic `ValidationError`.
pub data ContinuityFault : Type 0 where
  conflict error validation : ContinuityFault

pub data Result (A : Type 0) : Type 0 where
  ok : A → Result A
  err : ContinuityFault → Result A

module _ {A : Type 0} (id_of : A → ℕ) where
  -- `[item for item in items if item.id != id]`
  abbrev pub without : ℕ → List A → List A
  without id xs = keep (λ x. not (id_of x == id)) xs

  abbrev pub put_last : A → List A → List A
  put_last x xs = without (id_of x) xs ++ x ∷ []

abbrev pub transition_id : TransitionSpec → ℕ
transition_id t = t.id

abbrev pub overlay_id : OverlayPlacement → ℕ
overlay_id o = o.id

abbrev pub chapter_id : ChapterMarker → ℕ
chapter_id c = c.id

abbrev pub starts_before : ChapterMarker → ChapterMarker → Bool
starts_before a b = ltb a.start_ms b.start_ms

-- `plan.duration_ms > 0 and end > plan.duration_ms`
abbrev pub exceeds : ContinuityPlan → ℕ → Bool
exceeds p end = ltb 0 p.duration_ms && ltb p.duration_ms end

unfoldable pub apply_command : ContinuityPlan → CommandKind → Result ContinuityPlan
unfolding valid_transition valid_overlay valid_chapter
apply_command p (upsert_transition t) =
    if not (valid_transition t)
    then err validation
    else ok (record p { transitions = put_last transition_id t p.transitions })
apply_command p (remove_transition id) =
    ok (record p { transitions = without transition_id id p.transitions })
apply_command p (upsert_overlay o) =
    if not (valid_overlay o)
    then err validation
    else if exceeds p (o.start_ms + o.duration_ms)
    then err error
    else ok (record p { overlays = put_last overlay_id o p.overlays })
apply_command p (remove_overlay id) = ok (record p { overlays = without overlay_id id p.overlays })
apply_command p (upsert_chapter c) =
    if not (valid_chapter c)
    then err validation
    else if exceeds p c.end_ms
    then err error
    else ok (record p { chapters = sorted starts_before (put_last chapter_id c p.chapters) })
apply_command p (remove_chapter id) = ok (record p { chapters = without chapter_id id p.chapters })
apply_command p malformed = err validation
