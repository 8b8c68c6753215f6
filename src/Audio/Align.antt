-- ===== src/Audio/Align.antt =====
-- `align_pages` of audio/alignment.py: from the words of a transcript and the pages to a timeline.
-- The ids that the call draws are a parameter.
use ppt_video_workbench_v.Base.{
  ℕ, zero, suc, ◌+◌, ◌*◌, ◌/◌, ◌%◌, List, [], ◌∷◌, Option, none, some, Bool, ◌&&◌, ◌==◌, ltb, leb,
  length, keep, get_elem?, last?, nonzero_or, if◌then◌else◌,
}
use ppt_video_workbench_v.Audio.Timeline.{
  AudioTimelineBoundary, AudioTimelineSegment, AudioTimeline, Result, ok, err, ◌>>=◌, value_error,
  out_of_range, clamp_after, clamp_times, segments_between, segments_of,
}
use ppt_video_workbench_v.Audio.Cuts.{Costs, dynamic_programming_cuts}

-- The fields of a transcript's word that the alignment reads beside the costs.
pub record Word : Type 0 where
  pub start_ms : ℕ
  pub end_ms : ℕ

-- `round(total / 2)`: a half is rounded to the even neighbour.
unfoldable pub half : ℕ → ℕ
half total = let k = total / 2 in if total % 2 == 0 then k else if k % 2 == 0 then k else k + 1

-- The first silence of the greatest length, `max(candidates, key=...)`.
unfoldable pub longest : ℕ × ℕ → List (ℕ × ℕ) → ℕ × ℕ
longest best [] = best
longest (start, end) ((a, b) ∷ rest) =
    longest (if ltb (end + a) (b + start) then (a, b) else (start, end)) rest

-- A silence within 200 ms of the gap between two words.
abbrev pub near : Word → Word → ℕ × ℕ → Bool
near left right (start, end) = leb left.end_ms (end + 200) && leb start (right.start_ms + 200)

abbrev pub middle : ℕ × ℕ → ℕ
middle (start, end) = half (start + end)

unfoldable pub gap_time : Word → Word → List (ℕ × ℕ) → ℕ
unfolding half longest
gap_time left right [] = half (left.end_ms + right.start_ms)
gap_time left right (s ∷ ss) = middle (longest s ss)

abbrev pub between_words : List (ℕ × ℕ) → Option Word → Option Word → Result ℕ
between_words silences none right = err out_of_range
between_words silences (some l) none = err out_of_range
between_words silences (some l) (some r) = ok (gap_time l r (keep (near l r) silences))

-- `words[cut - 1]`, where Python takes the last word for a cut of 0.
abbrev pub word_before : List Word → ℕ → Option Word
word_before words zero = last? words
word_before words (suc i) = get_elem? words i

-- `_boundary_time`
unfoldable pub boundary_time : List Word → List (ℕ × ℕ) → ℕ → Result ℕ
unfolding gap_time
boundary_time words silences cut =
    between_words silences (word_before words cut) (get_elem? words cut)

abbrev pub add_time : Result (List ℕ) → ℕ → Result (List ℕ)
add_time rest t = rest >>= λ ts. ok (t ∷ ts)

unfoldable pub boundary_times : List Word → List (ℕ × ℕ) → List ℕ → Result (List ℕ)
unfolding boundary_time
boundary_times words silences [] = ok []
boundary_times words silences (c ∷ cs) =
    let rest = boundary_times words silences cs in boundary_time words silences c >>= add_time rest

-- The boundaries, with the ids drawn from the n-th on.
abbrev pub numbered : (ℕ → ℕ) → ℕ → List ℕ → List AudioTimelineBoundary
numbered ids n [] = []
numbered ids n (t ∷ ts) = record { id = ids n; time_ms = t } ∷ numbered ids (n + 1) ts

abbrev pub end_of : Option Word → ℕ
end_of none = 0
end_of (some w) = w.end_ms

-- `min_page_ms` is at least 1 in the record.
abbrev pub new_timeline :
    ℕ → (ℕ → ℕ) → ℕ → ℕ → List ℕ → List AudioTimelineSegment → Result AudioTimeline
new_timeline id ids duration minimum times segments =
    if minimum == 0
    then err value_error
    else ok (record {
      id = id;
      version = 1;
      duration_ms = duration;
      min_page_ms = minimum;
      boundaries = numbered ids 0 times;
      segments = segments;
    })

module _ {Cost : Type 0} (k : Costs Cost) (id : ℕ) (ids : ℕ → ℕ) where
  -- From the clamped times on.
  abbrev pub build : List ℕ → ℕ → ℕ → List ℕ → Result AudioTimeline
  build pages duration minimum times =
      segments_of pages times duration >>= new_timeline id ids duration minimum times

  abbrev pub align_within : List Word → List ℕ → List (ℕ × ℕ) → ℕ → ℕ → Result AudioTimeline
  align_within words pages silences duration minimum =
      dynamic_programming_cuts k (length words) (length pages) >>= λ cuts.
      boundary_times words silences cuts >>= λ times.
      build pages duration minimum (clamp_times times duration minimum)

  unfoldable pub align_pages :
      List Word → List ℕ → List (ℕ × ℕ) → Option ℕ → ℕ → Result AudioTimeline
  unfolding dynamic_programming_cuts boundary_times clamp_after segments_between
  align_pages words pages silences duration minimum =
      let total = nonzero_or duration (end_of (last? words)) in
      if length pages == 0
      then err value_error
      else if ltb (length words) (length pages)
      then err value_error
      else if ltb total (minimum * length pages)
      then err value_error
      else align_within words pages silences total minimum
