-- ===== src/Continuity/Applied.antt =====
-- What a command does to a continuity plan (continuity/service.py).
use ppt_video_workbench_v.Base.{
  ℕ, ◌+◌, ◌≤◌, ◌≡◌, ◌⊎◌, refl, List, [], ◌∷◌, ◌++◌, none, Bool, true, false, not, ◌==◌, keep, find,
  All, Distinct, arith, Bool-cases, inl, inr,
}
use ppt_video_workbench_v.Continuity.Plan.{
  OverlayPlacement, ChapterMarker, ContinuityPlan, valid_transition, valid_overlay, valid_chapter,
}
use ppt_video_workbench_v.Continuity.Commands.{
  without, put_last, transition_id, overlay_id, chapter_id,
}

-- The end of an item within the plan, where the plan has a length.
abbrev pub Fits : ℕ → ℕ → Type 0
Fits duration end = (duration ≡ 0) ⊎ (end ≤ duration)

abbrev pub GoodOverlay : ℕ → OverlayPlacement → Type 0
GoodOverlay duration o = (valid_overlay o ≡ true) × Fits duration (o.start_ms + o.duration_ms)

abbrev pub GoodChapter : ℕ → ChapterMarker → Type 0
GoodChapter duration c = (valid_chapter c ≡ true) × Fits duration c.end_ms

-- Each chapter starts no earlier than the one before it.
abbrev pub InOrder : List ChapterMarker → Type 0
InOrder [] = Unit
InOrder (c ∷ []) = Unit
InOrder (c ∷ d ∷ cs) = (c.start_ms ≤ d.start_ms) × InOrder (d ∷ cs)

-- Ids are distinct, every part is valid and within the plan, and the chapters are in order.
pub record IsPlan (p : ContinuityPlan) : Type 0 where
  pub transition_ids : Distinct transition_id p.transitions
  pub overlay_ids : Distinct overlay_id p.overlays
  pub chapter_ids : Distinct chapter_id p.chapters
  pub transitions_good : All (λ t. valid_transition t ≡ true) p.transitions
  pub overlays_good : All (GoodOverlay p.duration_ms) p.overlays
  pub chapters_good : All (GoodChapter p.duration_ms) p.chapters
  pub in_order : InOrder p.chapters

module _ {A : Type 0} (key : A → ℕ) where
  absent_keep :
      (q : A → Bool) (k : ℕ) (xs : List A)
      → find (λ x. key x == k) xs ≡ none
      → find (λ x. key x == k) (keep q xs) ≡ none
  absent_keep q k [] h = refl
  absent_keep q k (x ∷ xs) h = ground (arith, absent_keep q k xs)

  pub without-Distinct : (k : ℕ) (xs : List A) → Distinct key xs → Distinct key (without key k xs)
  without-Distinct k [] d = tt
  without-Distinct k (x ∷ xs) d = elim (Bool-cases (key x == k)) [
    | inl t ↦ rw t (without-Distinct k xs d.1)
    | inr f ↦ rw f (absent_keep (λ y. not (key y == k)) (key x) xs d.0, without-Distinct k xs d.1)
  ]

  absent_last :
      (a : A) (k : ℕ) (xs : List A)
      → find (λ x. key x == k) xs ≡ none
      → (key a == k) ≡ false
      → find (λ x. key x == k) (xs ++ a ∷ []) ≡ none
  absent_last a k [] h f = rw f refl
  absent_last a k (x ∷ xs) h f = ground (arith, absent_last a k xs)

  pub put_last-Distinct : (a : A) (xs : List A) → Distinct key xs → Distinct key (put_last key a xs)
  put_last-Distinct a [] d = (refl, tt)
  put_last-Distinct a (x ∷ xs) d = elim (Bool-cases (key x == key a)) [
    | inl t ↦ rw t (put_last-Distinct a xs d.1)
    | inr f ↦ rw f (
      absent_last a (key x) (without key (key a) xs)
          (absent_keep (λ y. not (key y == key a)) (key x) xs d.0) (ground (arith, f)),
      put_last-Distinct a xs d.1,
    )
  ]

  pub without-All : (P : A → Type 0) (k : ℕ) (xs : List A) → All P xs → All P (without key k xs)
  without-All P k [] h = tt
  without-All P k (x ∷ xs) h = elim (Bool-cases (key x == k)) [
    | inl t ↦ rw t (without-All P k xs h.1)
    | inr f ↦ rw f (h.0, without-All P k xs h.1)
  ]

  pub put_last-All :
      (P : A → Type 0) (a : A) (xs : List A) → P a → All P xs → All P (put_last key a xs)
  put_last-All P a [] g h = (g, tt)
  put_last-All P a (x ∷ xs) g h = elim (Bool-cases (key x == key a)) [
    | inl t ↦ rw t (put_last-All P a xs g h.1)
    | inr f ↦ rw f (h.0, put_last-All P a xs g h.1)
  ]
