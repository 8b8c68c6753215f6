-- ===== src/Audio/Tiling.antt =====
-- What is right about an audio timeline: its boundaries leave every page its least length, and its
-- segments tile the recording, one for each page in order.
use ppt_video_workbench_v.Base.{
  ℕ, suc, ◌+◌, ◌-◌, ◌*◌, ◌≤◌, ◌≡◌, refl, ap, min, max, List, [], ◌∷◌, ◌++◌, length, arith,
}
use ppt_video_workbench_v.Audio.Timeline.{
  AudioTimelineSegment, ok, segment, segments_between, clamp_after, clamp_times,
}

-- Each time is at least a page after the one before it, and the end is after the last.
abbrev pub Spaced : ℕ → ℕ → List ℕ → ℕ → Type 0
Spaced least prev [] end = prev + least ≤ end
Spaced least prev (t ∷ ts) end = (prev + least ≤ t) × Spaced least t ts end

-- The segments run from the start to the end without a gap, each of the least length, for the pages.
abbrev pub Tiles : ℕ → ℕ → List ℕ → List AudioTimelineSegment → ℕ → Type 0
Tiles least start [] [] end = start ≡ end
Tiles least start [] (s ∷ ss) end = ⊥
Tiles least start (p ∷ ps) [] end = ⊥
Tiles least start (p ∷ ps) (s ∷ ss) end =
    (s.page_id ≡ p)
    × (s.start_ms ≡ start)
    × (start + least ≤ s.end_ms)
    × Tiles least s.end_ms ps ss end

suc_mul : (n m : ℕ) → suc n * m ≡ n * m + m
suc_mul n m = grind arith

clamped :
    (prev v n duration minimum : ℕ)
    → prev + suc (suc n) * minimum ≤ duration
    → (prev + minimum ≤ min (max v (prev + minimum)) (duration - suc n * minimum))
      × (min (max v (prev + minimum)) (duration - suc n * minimum) + suc n * minimum ≤ duration)
clamped prev v n duration minimum h = omega (arith, suc_mul n minimum, suc_mul (suc n) minimum)

clamp_after-Spaced :
    (prev : ℕ) (ts : List ℕ) (duration minimum : ℕ)
    → prev + suc (length ts) * minimum ≤ duration
    → Spaced minimum prev (clamp_after prev ts duration minimum) duration
unfolding clamp_after
clamp_after-Spaced prev [] duration minimum h = omega (arith, suc_mul 0 minimum)
clamp_after-Spaced prev (v ∷ vs) duration minimum h =
    let (a, b) = clamped prev v (length vs) duration minimum h in
    (
      a,
      clamp_after-Spaced (min (max v (prev + minimum)) (duration - suc (length vs) * minimum)) vs
          duration minimum b,
    )

Spaced-room :
    (least prev : ℕ) (ts : List ℕ) (end : ℕ)
    → Spaced least prev ts end
    → prev + suc (length ts) * least ≤ end
Spaced-room least prev [] end h = omega (arith, suc_mul 0 least)
Spaced-room least prev (t ∷ ts) end h =
    omega (arith, suc_mul (suc (length ts)) least, Spaced-room least t ts end h.1)

clamp_after-same :
    (prev : ℕ) (ts : List ℕ) (duration minimum : ℕ)
    → Spaced minimum prev ts duration
    → clamp_after prev ts duration minimum ≡ ts
unfolding clamp_after
clamp_after-same prev [] duration minimum h = refl
clamp_after-same prev (v ∷ vs) duration minimum h =
    let e : min (max v (prev + minimum)) (duration - suc (length vs) * minimum) ≡ v =
      omega (arith, Spaced-room minimum v vs duration h.1) in
    rw (e, clamp_after-same v vs duration minimum h.1) refl

length-clamp_after :
    (prev : ℕ) (ts : List ℕ) (duration minimum : ℕ)
    → length (clamp_after prev ts duration minimum) ≡ length ts
unfolding clamp_after
length-clamp_after prev [] duration minimum = refl
length-clamp_after prev (v ∷ vs) duration minimum = ap suc (
    length-clamp_after (min (max v (prev + minimum)) (duration - suc (length vs) * minimum)) vs
      duration minimum)

-- Where the duration has room for one page more than there are times, clamping gives as many times,
-- each page is at least the minimum long, and a list that already leaves every page the minimum is
-- not changed, so to clamp again changes nothing.
pub clamp_times_lem :
    (times : List ℕ) (duration minimum : ℕ)
    → suc (length times) * minimum ≤ duration
    → Spaced minimum 0 (clamp_times times duration minimum) duration
      × (length (clamp_times times duration minimum) ≡ length times)
      × (clamp_times (clamp_times times duration minimum) duration minimum
          ≡ clamp_times times duration minimum)
clamp_times_lem times duration minimum h =
    let s = clamp_after-Spaced 0 times duration minimum (omega (arith, h)) in
    (
      s,
      length-clamp_after 0 times duration minimum,
      clamp_after-same 0 (clamp_after 0 times duration minimum) duration minimum s,
    )

-- What `_segments` makes of spaced times, for one page more than there are times.
pub segments-Tiles :
    (least start : ℕ) (pages ts : List ℕ) (end : ℕ)
    → Spaced least start ts end
    → length pages ≡ suc (length ts)
    → (ss : List AudioTimelineSegment) × (segments_between pages (start ∷ (ts ++ end ∷ [])) ≡ ok ss)
      × Tiles least start pages ss end
unfolding segments_between
segments-Tiles least start [] ts end h n = absurd (omega arith)
segments-Tiles least start (p ∷ []) [] end h n =
    (segment p start end ∷ [], refl, (refl, refl, h, refl))
segments-Tiles least start (p ∷ q ∷ ps) [] end h n = absurd (omega arith)
segments-Tiles least start (p ∷ ps) (t ∷ ts) end h n =
    let (ss, e, k) = segments-Tiles least t ps ts end h.1 (omega arith) in
    (segment p start t ∷ ss, rw e refl, (refl, refl, h.0, k))
