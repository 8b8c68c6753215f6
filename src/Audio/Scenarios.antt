-- ===== src/Audio/Scenarios.antt =====
-- Runs of the alignment on a recording of four words over two pages.
use ppt_video_workbench_v.Base.{
  ℕ, ◌+◌, ◌-◌, ◌*◌, ◌<◌, ◌≡◌, refl, List, [], ◌∷◌, none, false, ◌==◌, ltb, arith, nonzero_or, last?,
}
use ppt_video_workbench_v.Audio.Timeline.{
  AudioTimeline, ok, err, update_boundary, segment, rejected, conflict,
}
use ppt_video_workbench_v.Audio.Edits.{IsTiled, Edited, update_boundary-Edited}
use ppt_video_workbench_v.Audio.Cuts.{Costs, candidate_ends, dynamic_programming_cuts}
use ppt_video_workbench_v.Audio.Reach.{Chosen, dynamic_programming_cuts-found}
use ppt_video_workbench_v.Audio.Align.{Word, half, end_of, align_pages}
use ppt_video_workbench_v.Audio.Pages.{Answered, align_pages-Answered}

-- Pages of like length are cheap.
abbrev squares : Costs ℕ
squares = record {
  start_cost = 0;
  page_cost = λ cost page start end. cost + (end - start) * (end - start);
  cheaper = ltb;
  expected_end = λ page. 2 * (page + 1);
  radius = 4;
}

abbrev word : ℕ → ℕ → Word
word start end = record { start_ms = start; end_ms = end }

abbrev four_words : List Word
four_words = word 0 400 ∷ word 400 800 ∷ word 1200 1600 ∷ word 1600 2000 ∷ []

abbrev id_of : ℕ → ℕ
id_of n = n + 10

id_of-fresh : (i j : ℕ) → i < j → (id_of j == id_of i) ≡ false
id_of-fresh i j h = ground arith

abbrev two_pages : AudioTimeline
two_pages = record {
  id = 1;
  version = 1;
  duration_ms = 2000;
  min_page_ms = 300;
  boundaries = record { id = 10; time_ms = 1000 } ∷ [];
  segments = segment 7 0 1000 ∷ segment 8 1000 2000 ∷ [];
}

two_pages-IsTiled : IsTiled two_pages
two_pages-IsTiled = record {
  distinct = (refl, tt);
  spaced = (omega arith, omega arith);
  tiled = (refl, refl, omega arith, (refl, refl, omega arith, refl));
  counted = refl;
}

align_four : align_pages squares 1 id_of four_words (7 ∷ 8 ∷ []) [] none 300 ≡ ok two_pages
unfolding align_pages
align_four = refl

align_silence :
    align_pages squares 1 id_of four_words (7 ∷ 8 ∷ []) ((900, 1100) ∷ (500, 901) ∷ []) none 300
    ≡ ok (record two_pages {
      boundaries = record { id = 10; time_ms = 700 } ∷ [];
      segments = segment 7 0 700 ∷ segment 8 700 2000 ∷ [];
    })
unfolding align_pages
align_silence = refl

half_even : (half 5 ≡ 2) × (half 7 ≡ 4)
unfolding half
half_even = (refl, refl)

move_late : update_boundary two_pages 10 1701 1 ≡ err rejected
unfolding update_boundary
move_late = refl

move_old : update_boundary two_pages 10 1500 2 ≡ err conflict
unfolding update_boundary
move_old = refl

update_boundary-Edited_example : Edited two_pages 10 1500 1 (update_boundary two_pages 10 1500 1)
update_boundary-Edited_example = update_boundary-Edited two_pages 10 1500 1 two_pages-IsTiled

align_pages-Answered_example :
    Answered squares four_words
      (7 ∷ 8 ∷ [])
      (nonzero_or none (end_of (last? four_words)))
      300
      (align_pages squares 1 id_of four_words (7 ∷ 8 ∷ []) [] none 300)
align_pages-Answered_example =
    align_pages-Answered squares 1 id_of id_of-fresh four_words (7 ∷ 8 ∷ []) [] none 300

four-Chosen : Chosen squares 4 0 2 0 (2 ∷ 4 ∷ [])
unfolding candidate_ends
four-Chosen = (refl, omega arith, (refl, omega arith, refl))

dynamic_programming_cuts-found_example :
    (ds : List ℕ) × (dynamic_programming_cuts squares 4 2 ≡ ok ds)
dynamic_programming_cuts-found_example =
    dynamic_programming_cuts-found squares 4 2 (2 ∷ 4 ∷ []) four-Chosen

four_cuts : dynamic_programming_cuts squares 4 2 ≡ ok (2 ∷ [])
unfolding dynamic_programming_cuts
four_cuts = refl
