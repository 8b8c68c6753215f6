-- ===== src/Audio/Timeline.antt =====
-- domain/audio.py and the edits of audio/alignment.py: boundaries, the segments between them,
-- `_clamp_times`, `_segments` and `update_boundary`. Times are milliseconds.
use ppt_video_workbench_v.Base.{
  ℕ, ◌+◌, ◌-◌, ◌*◌, min, max, List, [], ◌∷◌, ◌++◌, Option, none, some, not, ◌&&◌, ◌==◌, leb, length,
  map, if◌then◌else◌,
}

-- `BoundaryConflict`, `BoundaryRejected`, `ValueError`, `KeyError`, `IndexError`.
pub data AudioError : Type 0 where
  conflict rejected value_error unknown_key out_of_range : AudioError

pub data Result {ℓ} (A : Type ℓ) : Type ℓ where
  ok : A → Result A
  err : AudioError → Result A

infixl 5 ◌>>=◌
abbrev pub ◌>>=◌ {ℓ κ} : {A : Type ℓ} {B : Type κ} → Result A → (A → Result B) → Result B
ok a >>= f = f a
err e >>= f = err e

pub record AudioTimelineBoundary : Type 0 where
  pub id : ℕ
  pub time_ms : ℕ

pub record AudioTimelineSegment : Type 0 where
  pub page_id : ℕ
  pub start_ms : ℕ
  pub end_ms : ℕ

pub record AudioTimeline : Type 0 where
  pub id : ℕ
  pub version : ℕ
  pub duration_ms : ℕ
  pub min_page_ms : ℕ
  pub boundaries : List AudioTimelineBoundary
  pub segments : List AudioTimelineSegment

abbrev pub segment : ℕ → ℕ → ℕ → AudioTimelineSegment
segment page start end = record { page_id = page; start_ms = start; end_ms = end }

abbrev pub add_segment :
    AudioTimelineSegment → Result (List AudioTimelineSegment) → Result (List AudioTimelineSegment)
add_segment s r = r >>= λ rest. ok (s ∷ rest)

-- The comprehension of `_segments`, over the edges that are left; an edge too few is an IndexError.
unfoldable pub segments_between : List ℕ → List ℕ → Result (List AudioTimelineSegment)
segments_between [] edges = ok []
segments_between (p ∷ ps) [] = err out_of_range
segments_between (p ∷ ps) (a ∷ []) = err out_of_range
segments_between (p ∷ ps) (a ∷ b ∷ edges) =
    add_segment (segment p a b) (segments_between ps (b ∷ edges))

-- `_segments`: the edges are 0, the times and the duration.
abbrev pub segments_of : List ℕ → List ℕ → ℕ → Result (List AudioTimelineSegment)
segments_of pages times duration = segments_between pages (0 ∷ (times ++ duration ∷ []))

-- The loop of `_clamp_times`, after the previous result (0 before the first). `align_pages` calls it
-- only where the duration has room for every page, so that the upper bound is not negative.
unfoldable pub clamp_after : ℕ → List ℕ → ℕ → ℕ → List ℕ
clamp_after prev [] duration minimum = []
clamp_after prev (v ∷ vs) duration minimum =
    let upper = duration - length (v ∷ vs) * minimum in
    let t = min (max v (prev + minimum)) upper in t ∷ clamp_after t vs duration minimum

abbrev pub clamp_times : List ℕ → ℕ → ℕ → List ℕ
clamp_times times duration minimum = clamp_after 0 times duration minimum

abbrev pub times_of : List AudioTimelineBoundary → List ℕ
times_of bs = map (λ b. b.time_ms) bs

-- Where the boundary stands: the time before it and the time after it, which are 0 and the duration
-- at the ends.
unfoldable pub around : ℕ → ℕ → List AudioTimelineBoundary → ℕ → Option (ℕ × ℕ)
around id prev [] duration = none
around id prev (b ∷ []) duration = if b.id == id then some (prev, duration) else none
around id prev (b ∷ c ∷ bs) duration =
    let rest = around id b.time_ms (c ∷ bs) duration in
    if b.id == id then some (prev, c.time_ms) else rest

abbrev pub moved : ℕ → ℕ → AudioTimelineBoundary → AudioTimelineBoundary
moved id time b = if b.id == id then record b { time_ms = time } else b

abbrev pub move_all : ℕ → ℕ → List AudioTimelineBoundary → List AudioTimelineBoundary
move_all id time bs = map (moved id time) bs

abbrev pub pages_of : List AudioTimelineSegment → List ℕ
pages_of ss = map (λ s. s.page_id) ss

abbrev pub with_boundaries :
    AudioTimeline → List AudioTimelineBoundary → List AudioTimelineSegment → AudioTimeline
with_boundaries t bs ss = record t { version = t.version + 1; boundaries = bs; segments = ss }

-- The timeline with its segments built again.
abbrev pub rebuild : AudioTimeline → List AudioTimelineBoundary → Result AudioTimeline
rebuild t bs = segments_of (pages_of t.segments) (times_of bs) t.duration_ms >>= λ ss.
    ok (with_boundaries t bs ss)

-- `lower <= time_ms <= upper`, and the new timeline.
abbrev pub place : AudioTimeline → ℕ → ℕ → ℕ × ℕ → Result AudioTimeline
place t id time (before, after) =
    if leb (before + t.min_page_ms) time && leb (time + t.min_page_ms) after
    then rebuild t (move_all id time t.boundaries)
    else err rejected

abbrev pub place_at : AudioTimeline → ℕ → ℕ → Option (ℕ × ℕ) → Result AudioTimeline
place_at t id time none = err unknown_key
place_at t id time (some bounds) = place t id time bounds

unfoldable pub update_boundary : AudioTimeline → ℕ → ℕ → ℕ → Result AudioTimeline
unfolding around segments_between
update_boundary t id time version =
    if not (version == t.version)
    then err conflict
    else place_at t id time (around id 0 t.boundaries t.duration_ms)
