-- ===== src/Audio/Edits.antt =====
-- `update_boundary` of audio/alignment.py on a timeline that tiles its recording.
use ppt_video_workbench_v.Base.{
  ℕ, suc, ◌+◌, ◌≤◌, ◌≡◌, ◌≢◌, refl, sym, subst, ap, ◌∙◌, List, [], ◌∷◌, Option, none, some, ◌&&◌,
  ◌==◌, leb, length, find, Distinct, arith, Bool-cases, inl, inr, ==_iff,
}
use ppt_video_workbench_v.Audio.Timeline.{
  AudioTimelineBoundary, AudioTimelineSegment, AudioTimeline, Result, ok, err, times_of, around,
  move_all, pages_of, rebuild, place_at, update_boundary, conflict, unknown_key, rejected,
}
use ppt_video_workbench_v.Audio.Tiling.{Spaced, Tiles, segments-Tiles}

abbrev pub boundary_id : AudioTimelineBoundary → ℕ
boundary_id b = b.id

pub record IsTiled (t : AudioTimeline) : Type 0 where
  pub distinct : Distinct boundary_id t.boundaries
  pub spaced : Spaced t.min_page_ms 0 (times_of t.boundaries) t.duration_ms
  pub tiled : Tiles t.min_page_ms 0 (pages_of t.segments) t.segments t.duration_ms
  pub counted : length t.segments ≡ suc (length t.boundaries)

move_absent :
    (id time : ℕ) (bs : List AudioTimelineBoundary)
    → find (λ b. b.id == id) bs ≡ none
    → move_all id time bs ≡ bs
move_absent id time [] h = refl
move_absent id time (b ∷ bs) h = elim (Bool-cases (b.id == id)) [
  | inl t ↦ absurd (cc (rw t at h))
  | inr f ↦ rw (f, move_absent id time bs (rw f at h)) refl
]

move-find :
    (k id time : ℕ) (bs : List AudioTimelineBoundary)
    → find (λ b. b.id == k) bs ≡ none
    → find (λ b. b.id == k) (move_all id time bs) ≡ none
move-find k id time [] h = refl
move-find k id time (b ∷ bs) h = ground (arith, move-find k id time bs)

move-Distinct :
    (id time : ℕ) (bs : List AudioTimelineBoundary)
    → Distinct boundary_id bs
    → Distinct boundary_id (move_all id time bs)
move-Distinct id time [] h = tt
move-Distinct id time (b ∷ bs) h = elim (Bool-cases (b.id == id)) [
  | inl t ↦ rw t (move-find b.id id time bs h.0, move-Distinct id time bs h.1)
  | inr f ↦ rw f (move-find b.id id time bs h.0, move-Distinct id time bs h.1)
]

pair_eq : {a b c d : ℕ} → ◌≡◌ {A = Option (ℕ × ℕ)} (some (a, b)) (some (c, d)) → (a ≡ c) × (b ≡ d)
pair_eq h = (cc, cc)

-- A boundary moved between its neighbours leaves the times spaced.
move-Spaced :
    (least id time prev : ℕ) (bs : List AudioTimelineBoundary) (end before after : ℕ)
    → Distinct boundary_id bs
    → Spaced least prev (times_of bs) end
    → around id prev bs end ≡ some (before, after)
    → before + least ≤ time
    → time + least ≤ after
    → Spaced least prev (times_of (move_all id time bs)) end
unfolding around
move-Spaced least id time prev [] end before after d s e l u = absurd (cc e)
move-Spaced least id time prev (b ∷ []) end before after d s e l u =
    elim (Bool-cases (b.id == id)) [
      | inl t ↦ let (p, q) = pair_eq (rw t at e) in rw t (omega arith)
      | inr f ↦ absurd (cc (rw f at e))
    ]
move-Spaced least id time prev (b ∷ c ∷ bs) end before after d s e l u =
    elim (Bool-cases (b.id == id)) [
      | inl t ↦
          let (p, q) = pair_eq (rw t at e) in
          let same : b.id ≡ id = (==_iff b.id id).0 t in
          let gone : find (λ x. x.id == id) (c ∷ bs) ≡ none =
            subst (λ k. find (λ x. x.id == k) (c ∷ bs) ≡ none) same d.0 in
          rw t (
            omega arith,
            subst (λ xs. Spaced least time (times_of xs) end)
                (sym (move_absent id time (c ∷ bs) gone)) (omega arith, s.1.1),
          )
      | inr f ↦ rw f (
        s.0,
        move-Spaced least id time b.time_ms (c ∷ bs) end before after d.1 s.1 (rw f at e) l u,
      )
    ]

length-move :
    (id time : ℕ) (bs : List AudioTimelineBoundary)
    → length (times_of (move_all id time bs)) ≡ length bs
length-move id time [] = refl
length-move id time (b ∷ bs) = ap suc (length-move id time bs)

length-moved :
    (id time : ℕ) (bs : List AudioTimelineBoundary) → length (move_all id time bs) ≡ length bs
length-moved id time [] = refl
length-moved id time (b ∷ bs) = ap suc (length-moved id time bs)

pub length-pages : (ss : List AudioTimelineSegment) → length (pages_of ss) ≡ length ss
length-pages [] = refl
length-pages (s ∷ ss) = ap suc (length-pages ss)

-- Segments that tile for some pages are of those pages.
pub pages-Tiles :
    (least start : ℕ) (ps : List ℕ) (ss : List AudioTimelineSegment) (end : ℕ)
    → Tiles least start ps ss end
    → pages_of ss ≡ ps
pages-Tiles least start [] [] end h = refl
pages-Tiles least start [] (s ∷ ss) end h = absurd h
pages-Tiles least start (p ∷ ps) [] end h = absurd h
pages-Tiles least start (p ∷ ps) (s ∷ ss) end h =
    rw (h.0, pages-Tiles least s.end_ms ps ss end h.3) refl

-- The answer to an edit: what is refused, and what an accepted edit makes of the timeline.
pub data Edited (t : AudioTimeline) (id time version : ℕ) : Result AudioTimeline → Type 0 where
  stale : version ≢ t.version → Edited t id time version (err conflict)
  unknown :
      version ≡ t.version
      → around id 0 t.boundaries t.duration_ms ≡ none
      → Edited t id time version (err unknown_key)
  refused :
      {before after : ℕ}
      → version ≡ t.version
      → around id 0 t.boundaries t.duration_ms ≡ some (before, after)
      → ¬ ((before + t.min_page_ms ≤ time) × (time + t.min_page_ms ≤ after))
      → Edited t id time version (err rejected)
  accepted :
      {before after : ℕ} {t' : AudioTimeline}
      → version ≡ t.version
      → around id 0 t.boundaries t.duration_ms ≡ some (before, after)
      → before + t.min_page_ms ≤ time
      → time + t.min_page_ms ≤ after
      → t'.boundaries ≡ move_all id time t.boundaries
      → t'.version ≡ t.version + 1
      → t'.duration_ms ≡ t.duration_ms
      → pages_of t'.segments ≡ pages_of t.segments
      → IsTiled t'
      → Edited t id time version (ok t')

rebuilt :
    (t : AudioTimeline) (id time version before after : ℕ)
    → IsTiled t
    → version ≡ t.version
    → around id 0 t.boundaries t.duration_ms ≡ some (before, after)
    → before + t.min_page_ms ≤ time
    → time + t.min_page_ms ≤ after
    → Edited t id time version (rebuild t (move_all id time t.boundaries))
rebuilt t id time version before after w v e l u =
    let bs = move_all id time t.boundaries in
    let s =
      move-Spaced t.min_page_ms id time 0 t.boundaries t.duration_ms before after w.distinct
        w.spaced e l u in
    let (ss, k, tiles) =
      segments-Tiles t.min_page_ms 0 (pages_of t.segments) (times_of bs) t.duration_ms s
        (length-pages t.segments ∙ w.counted ∙ ap suc (sym (length-move id time t.boundaries))) in
    let pages = pages-Tiles t.min_page_ms 0 (pages_of t.segments) ss t.duration_ms tiles in
    rw k (
      accepted v e l u refl refl refl pages (record {
        distinct = move-Distinct id time t.boundaries w.distinct;
        spaced = s;
        tiled = subst (λ ps. Tiles t.min_page_ms 0 ps ss t.duration_ms) (sym pages) tiles;
        counted =
            sym (length-pages ss)
            ∙ ap length pages
            ∙ length-pages t.segments
            ∙ w.counted
            ∙ ap suc (sym (length-moved id time t.boundaries));
      }))

-- Every edit of a boundary of a timeline whose segments tile the recording is answered thus: with an
-- old version by a conflict; for an unknown boundary by a key error; where it would leave a page
-- shorter than the least length by a rejection; and else by the timeline at the next version with
-- that boundary moved, the same duration and pages, whose segments again tile the recording.
pub update_boundary-Edited :
    (t : AudioTimeline) (id time version : ℕ)
    → IsTiled t
    → Edited t id time version (update_boundary t id time version)
unfolding update_boundary
update_boundary-Edited t id time version w = elim (Bool-cases (version == t.version)) [
  | inr f ↦ rw f (stale (λ e. absurd (ground arith)))
  | inl v ↦ rw v (go ((==_iff version t.version).0 v) (around id 0 t.boundaries t.duration_ms) refl)
]
  where
    go :
        version ≡ t.version
        → (o : Option (ℕ × ℕ)) → around id 0 t.boundaries t.duration_ms ≡ o
        → Edited t id time version (place_at t id time o)
    go v none e = unknown v e
    go v (some (before, after)) e =
        elim (Bool-cases (leb (before + t.min_page_ms) time && leb (time + t.min_page_ms) after)) [
          | inl h ↦
              rw h (rebuilt t id time version before after w v e (ground arith) (ground arith))
          | inr h ↦ rw h (refused v e (λ k. absurd (ground (arith, k.0, k.1))))
        ]
