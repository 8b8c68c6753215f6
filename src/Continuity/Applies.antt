-- ===== src/Continuity/Applies.antt =====
-- A command keeps a continuity plan right (continuity/service.py).
use ppt_video_workbench_v.Base.{
  ℕ, ◌+◌, ◌≤◌, ◌≡◌, refl, List, [], ◌∷◌, true, false, ◌==◌, All, sorted, arith, Bool-cases, inl,
  inr, All-sorted, sorted-Distinct, Ordered, sorted-Ordered,
}
use ppt_video_workbench_v.Continuity.Plan.{
  ChapterMarker, ContinuityPlan, CommandKind, upsert_transition, remove_transition, upsert_overlay,
  remove_overlay, upsert_chapter, remove_chapter, malformed, valid_transition, valid_overlay,
  valid_chapter,
}
use ppt_video_workbench_v.Continuity.Commands.{
  ContinuityFault, Result, ok, err, without, put_last, transition_id, overlay_id, chapter_id,
  starts_before, exceeds, apply_command,
}
use ppt_video_workbench_v.Continuity.Applied.{
  Fits, GoodOverlay, GoodChapter, InOrder, IsPlan, without-Distinct, put_last-Distinct, without-All,
  put_last-All,
}

Ordered-InOrder : (cs : List ChapterMarker) → Ordered starts_before cs → InOrder cs
Ordered-InOrder [] o = tt
Ordered-InOrder (c ∷ []) o = tt
Ordered-InOrder (c ∷ d ∷ cs) o = (ground (arith, o.0), Ordered-InOrder (d ∷ cs) o.1)

asymmetric : (a b : ChapterMarker) → starts_before a b ≡ true → starts_before b a ≡ false
asymmetric a b h = ground arith

abbrev After : ℕ → List ChapterMarker → Type 0
After n cs = All (λ c. n ≤ c.start_ms) cs

After-mono : (n m : ℕ) (cs : List ChapterMarker) → n ≤ m → After m cs → After n cs
After-mono n m [] l h = tt
After-mono n m (c ∷ cs) l h = (omega (arith, h.0), After-mono n m cs l h.1)

tail-InOrder : (c : ChapterMarker) (cs : List ChapterMarker) → InOrder (c ∷ cs) → InOrder cs
tail-InOrder c [] o = tt
tail-InOrder c (d ∷ cs) o = o.1

InOrder-After :
    (c : ChapterMarker) (cs : List ChapterMarker) → InOrder (c ∷ cs) → After c.start_ms cs
InOrder-After c [] o = tt
InOrder-After c (d ∷ cs) o = (o.0, After-mono c.start_ms d.start_ms cs o.0 (InOrder-After d cs o.1))

After-InOrder :
    (c : ChapterMarker) (cs : List ChapterMarker)
    → After c.start_ms cs
    → InOrder cs
    → InOrder (c ∷ cs)
After-InOrder c [] h o = tt
After-InOrder c (d ∷ cs) h o = (h.0, o)

without-InOrder : (k : ℕ) (cs : List ChapterMarker) → InOrder cs → InOrder (without chapter_id k cs)
without-InOrder k [] o = tt
without-InOrder k (c ∷ cs) o = elim (Bool-cases (chapter_id c == k)) [
  | inl t ↦ rw t (without-InOrder k cs (tail-InOrder c cs o))
  | inr f ↦ rw f (
      After-InOrder c (without chapter_id k cs)
        (without-All chapter_id (λ d. c.start_ms ≤ d.start_ms) k cs (InOrder-After c cs o))
        (without-InOrder k cs (tail-InOrder c cs o)))
]

exceeds-Fits : (p : ContinuityPlan) (end : ℕ) → exceeds p end ≡ false → Fits p.duration_ms end
exceeds-Fits p end h = ground arith

-- A command that is carried out leaves a right plan, with the same project, revision and length.
pub data Carried (p : ContinuityPlan) : Result ContinuityPlan → Type 0 where
  failed : {e : ContinuityFault} → Carried p (err e)
  carried :
      {q : ContinuityPlan}
      → IsPlan q
      → q.project_id ≡ p.project_id
      → q.revision ≡ p.revision
      → q.duration_ms ≡ p.duration_ms
      → Carried p (ok q)

pub apply_command-Carried :
    (p : ContinuityPlan) (k : CommandKind) → IsPlan p → Carried p (apply_command p k)
unfolding apply_command
apply_command-Carried p (upsert_transition t) i = elim (Bool-cases (valid_transition t)) [
  | inr f ↦ rw f failed
  | inl v ↦ rw v (
      carried
        (record {
          transition_ids = put_last-Distinct transition_id t p.transitions i.transition_ids;
          overlay_ids = i.overlay_ids;
          chapter_ids = i.chapter_ids;
          transitions_good =
              put_last-All transition_id (λ x. valid_transition x ≡ true) t p.transitions v
                i.transitions_good;
          overlays_good = i.overlays_good;
          chapters_good = i.chapters_good;
          in_order = i.in_order;
        })
        refl refl refl)
]
apply_command-Carried p (remove_transition id) i =
    carried
      (record {
        transition_ids = without-Distinct transition_id id p.transitions i.transition_ids;
        overlay_ids = i.overlay_ids;
        chapter_ids = i.chapter_ids;
        transitions_good =
            without-All transition_id (λ x. valid_transition x ≡ true) id p.transitions
              i.transitions_good;
        overlays_good = i.overlays_good;
        chapters_good = i.chapters_good;
        in_order = i.in_order;
      })
      refl refl refl
apply_command-Carried p (upsert_overlay o) i = elim (Bool-cases (valid_overlay o)) [
  | inr f ↦ rw f failed
  | inl v ↦ rw v (elim (Bool-cases (exceeds p (o.start_ms + o.duration_ms))) [
    | inl x ↦ rw x failed
    | inr x ↦ rw x (
        carried
          (record {
            transition_ids = i.transition_ids;
            overlay_ids = put_last-Distinct overlay_id o p.overlays i.overlay_ids;
            chapter_ids = i.chapter_ids;
            transitions_good = i.transitions_good;
            overlays_good =
                put_last-All overlay_id (GoodOverlay p.duration_ms) o p.overlays
                  (v, exceeds-Fits p (o.start_ms + o.duration_ms) x) i.overlays_good;
            chapters_good = i.chapters_good;
            in_order = i.in_order;
          })
          refl refl refl)
  ])
]
apply_command-Carried p (remove_overlay id) i =
    carried
      (record {
        transition_ids = i.transition_ids;
        overlay_ids = without-Distinct overlay_id id p.overlays i.overlay_ids;
        chapter_ids = i.chapter_ids;
        transitions_good = i.transitions_good;
        overlays_good =
            without-All overlay_id (GoodOverlay p.duration_ms) id p.overlays i.overlays_good;
        chapters_good = i.chapters_good;
        in_order = i.in_order;
      })
      refl refl refl
apply_command-Carried p (upsert_chapter c) i = elim (Bool-cases (valid_chapter c)) [
  | inr f ↦ rw f failed
  | inl v ↦ rw v (elim (Bool-cases (exceeds p c.end_ms)) [
    | inl x ↦ rw x failed
    | inr x ↦
        let cs = put_last chapter_id c p.chapters in
        rw x (
          carried
            (record {
              transition_ids = i.transition_ids;
              overlay_ids = i.overlay_ids;
              chapter_ids =
                  sorted-Distinct chapter_id starts_before cs
                    (put_last-Distinct chapter_id c p.chapters i.chapter_ids);
              transitions_good = i.transitions_good;
              overlays_good = i.overlays_good;
              chapters_good = All-sorted (GoodChapter p.duration_ms) starts_before cs (
                  put_last-All chapter_id (GoodChapter p.duration_ms) c p.chapters
                    (v, exceeds-Fits p c.end_ms x) i.chapters_good);
              in_order =
                  Ordered-InOrder (sorted starts_before cs)
                    (sorted-Ordered starts_before asymmetric cs);
            })
            refl refl refl)
  ])
]
apply_command-Carried p (remove_chapter id) i =
    carried
      (record {
        transition_ids = i.transition_ids;
        overlay_ids = i.overlay_ids;
        chapter_ids = without-Distinct chapter_id id p.chapters i.chapter_ids;
        transitions_good = i.transitions_good;
        overlays_good = i.overlays_good;
        chapters_good =
            without-All chapter_id (GoodChapter p.duration_ms) id p.chapters i.chapters_good;
        in_order = without-InOrder id p.chapters i.in_order;
      })
      refl refl refl
apply_command-Carried p malformed i = failed
