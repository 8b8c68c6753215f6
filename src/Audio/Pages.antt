-- ===== src/Audio/Pages.antt =====
-- What `align_pages` of audio/alignment.py makes of a transcript and its pages.
use ppt_video_workbench_v.Base.{
  ℕ, zero, suc, ◌+◌, ◌*◌, ◌≤◌, ◌<◌, ◌≡◌, ◌≢◌, refl, sym, ap, ◌∙◌, subst, List, [], ◌∷◌, Option,
  none, false, ◌==◌, ltb, find, arith, length, Bool-cases, inl, inr, ◌⊎◌, get_elem?_of_lt,
  drop_last, Option-cases, keep, last?, nonzero_or, Distinct,
}
use native.Mathlib.Nat.{mul_comm}
use ppt_video_workbench_v.Audio.Timeline.{
  AudioTimeline, Result, ok, err, value_error, clamp_times, times_of, pages_of,
}
use ppt_video_workbench_v.Audio.Tiling.{Spaced, Tiles, segments-Tiles, clamp_times_lem}
use ppt_video_workbench_v.Audio.Edits.{IsTiled, boundary_id, pages-Tiles, length-pages}
use ppt_video_workbench_v.Audio.Cuts.{Costs, rounds, start_route, dynamic_programming_cuts}
use ppt_video_workbench_v.Audio.Routes.{Inside, dynamic_programming_cuts_lem}
use ppt_video_workbench_v.Audio.Align.{
  Word, gap_time, near, boundary_time, boundary_times, numbered, end_of, build, align_within,
  align_pages,
}

Inside-bound : (lo : ℕ) (cs : List ℕ) (hi : ℕ) → Inside lo cs hi → lo < hi
Inside-bound lo [] hi h = h
Inside-bound lo (c ∷ cs) hi h = omega (arith, h.0, Inside-bound c cs hi h.1)

boundary_time-ok :
    (words : List Word) (silences : List (ℕ × ℕ)) (c : ℕ)
    → 0 < c
    → c < length words
    → (t : ℕ) × (boundary_time words silences c ≡ ok t)
unfolding boundary_time
boundary_time-ok words silences zero l h = absurd (omega arith)
boundary_time-ok words silences (suc i) l h =
    let (a, e) = get_elem?_of_lt words i (omega arith) in
    let (b, f) = get_elem?_of_lt words (suc i) h in
    (gap_time a b (keep (near a b) silences), rw (e, f) refl)

boundary_times-ok :
    (words : List Word) (silences : List (ℕ × ℕ)) (lo : ℕ) (cs : List ℕ)
    → Inside lo cs (length words)
    → (ts : List ℕ) × (boundary_times words silences cs ≡ ok ts) × (length ts ≡ length cs)
unfolding boundary_times
boundary_times-ok words silences lo [] h = ([], refl, refl)
boundary_times-ok words silences lo (c ∷ cs) h =
    let (ts, e, n) = boundary_times-ok words silences c cs h.1 in
    let (t, f) =
      boundary_time-ok words silences c (omega (arith, h.0))
        (Inside-bound c cs (length words) h.1) in
    (t ∷ ts, rw (f, e) refl, ap suc n)

times_of-numbered : (ids : ℕ → ℕ) (n : ℕ) (ts : List ℕ) → times_of (numbered ids n ts) ≡ ts
times_of-numbered ids n [] = refl
times_of-numbered ids n (t ∷ ts) = ap (λ xs. t ∷ xs) (times_of-numbered ids (n + 1) ts)

length-numbered : (ids : ℕ → ℕ) (n : ℕ) (ts : List ℕ) → length (numbered ids n ts) ≡ length ts
length-numbered ids n [] = refl
length-numbered ids n (t ∷ ts) = ap suc (length-numbered ids (n + 1) ts)

module _ (ids : ℕ → ℕ) (fresh : (i j : ℕ) → i < j → (ids j == ids i) ≡ false) where
  numbered-find :
      (i n : ℕ) (ts : List ℕ)
      → i < n
      → find (λ b. boundary_id b == ids i) (numbered ids n ts) ≡ none
  numbered-find i n [] l = refl
  numbered-find i n (t ∷ ts) l = rw (fresh i n l, numbered-find i (n + 1) ts (omega arith)) refl

  numbered-Distinct : (n : ℕ) (ts : List ℕ) → Distinct boundary_id (numbered ids n ts)
  numbered-Distinct n [] = tt
  numbered-Distinct n (t ∷ ts) =
      (numbered-find n (n + 1) ts (omega arith), numbered-Distinct (n + 1) ts)

-- A timeline that was just aligned for the pages.
pub record IsAligned (pages : List ℕ) (duration minimum : ℕ) (t : AudioTimeline) : Type 0 where
  pub tiled : IsTiled t
  pub of_pages : pages_of t.segments ≡ pages
  pub first : t.version ≡ 1
  pub whole : t.duration_ms ≡ duration
  pub least : t.min_page_ms ≡ minimum

-- The answer of `align_pages`: what it refuses, and what it makes else.
pub data Answered {Cost : Type 0} (k : Costs Cost) (words : List Word) (pages : List ℕ)
    (total minimum : ℕ) : Result AudioTimeline → Type 0 where
  no_pages : length pages ≡ 0 → Answered k words pages total minimum (err value_error)
  few_words : length words < length pages → Answered k words pages total minimum (err value_error)
  too_short :
      total < minimum * length pages → Answered k words pages total minimum (err value_error)
  no_least : minimum ≡ 0 → Answered k words pages total minimum (err value_error)
  no_cuts :
      dynamic_programming_cuts k (length words) (length pages) ≡ err value_error
      → Answered k words pages total minimum (err value_error)
  aligned :
      {t : AudioTimeline}
      → IsAligned pages total minimum t
      → Answered k words pages total minimum (ok t)

cuts-cases :
    {Cost : Type 0} (k : Costs Cost) (words pages : ℕ)
    → (dynamic_programming_cuts k words pages ≡ err value_error)
      ⊎ ((cs : List ℕ) × (dynamic_programming_cuts k words pages ≡ ok cs))
unfolding dynamic_programming_cuts
cuts-cases k words pages =
    elim (Option-cases (find (λ r. r.end == words) (rounds k words 0 pages (start_route k ∷ [])))) [
      | inl e ↦ rw e (inl refl)
      | inr (r, e) ↦ rw e (inr (drop_last r.cuts, refl))
    ]

mul_swap : (a b c : ℕ) → b ≡ suc c → a * b ≡ suc c * a
mul_swap a b c h = subst (λ m. a * m ≡ suc c * a) (sym h) (mul_comm a (suc c))

module _ {Cost : Type 0} (k : Costs Cost) (id : ℕ) (ids : ℕ → ℕ)
    (fresh : (i j : ℕ) → i < j → (ids j == ids i) ≡ false) where
  built :
      (words : List Word) (pages : List ℕ) (duration minimum : ℕ) (times : List ℕ)
      → length pages ≡ suc (length times)
      → Spaced minimum 0 times duration
      → Answered k words pages duration minimum (build k id ids pages duration minimum times)
  built words pages duration minimum times n s =
      let (ss, e, tiles) = segments-Tiles minimum 0 pages times duration s n in
      let same = pages-Tiles minimum 0 pages ss duration tiles in
      elim (Bool-cases (minimum == 0)) [
        | inl z ↦ rw (e, z) (no_least (ground (arith, z)))
        | inr z ↦
            rw (e, z)
              (aligned (record {
                tiled = record {
                  distinct = numbered-Distinct ids fresh 0 times;
                  spaced =
                      subst (λ ts. Spaced minimum 0 ts duration)
                        (sym (times_of-numbered ids 0 times)) s;
                  tiled = subst (λ ps. Tiles minimum 0 ps ss duration) (sym same) tiles;
                  counted =
                      sym (length-pages ss)
                      ∙ ap length same
                      ∙ n
                      ∙ ap suc (sym (length-numbered ids 0 times));
                };
                of_pages = same;
                first = refl;
                whole = refl;
                least = refl;
              }))
      ]

  within_cases :
      (words : List Word) (pages : List ℕ) (silences : List (ℕ × ℕ)) (total minimum : ℕ)
      → length pages ≢ 0
      → minimum * length pages ≤ total
      → Answered k words pages total minimum
          (align_within k id ids words pages silences total minimum)
  within_cases words [] silences total minimum n room = absurd (n refl)
  within_cases words (p ∷ ps) silences total minimum n room =
      elim (cuts-cases k (length words) (suc (length ps))) [
        | inl e ↦ rw e (no_cuts e)
        | inr (cs, e) ↦
            let (count, inside) = dynamic_programming_cuts_lem k (length words) (length ps) cs e in
            let (ts, f, same) = boundary_times-ok words silences 0 cs inside in
            let n : suc (length ps) ≡ suc (length ts) = ap suc (sym (same ∙ count)) in
            let (s, l, again) =
              clamp_times_lem ts total minimum
                (omega (arith, room, mul_swap minimum (suc (length ps)) (length ts) n)) in
            rw (e, f)
              (built words (p ∷ ps) total minimum (clamp_times ts total minimum)
                (n ∙ ap suc (sym l)) s)
      ]

  -- The total duration is the given one, or else the end of the last word. The call raises a value
  -- error only where there are no pages, where there are fewer words than pages, where the
  -- duration is too short for the pages at the least length, where that length is 0, or where the
  -- dynamic program finds no cuts. Else it makes a timeline of that duration at version 1, for the
  -- pages in order, whose segments tile the recording with each page at least the least length,
  -- under the condition that the ids it draws differ. No other error is possible, an index out of
  -- range included.
  pub align_pages-Answered :
      (words : List Word) (pages : List ℕ) (silences : List (ℕ × ℕ)) (duration : Option ℕ)
      (minimum : ℕ)
      → Answered k words pages
          (nonzero_or duration (end_of (last? words)))
          minimum
          (align_pages k id ids words pages silences duration minimum)
  unfolding align_pages
  align_pages-Answered words pages silences duration minimum =
      let total = nonzero_or duration (end_of (last? words)) in
      elim (Bool-cases (length pages == 0)) [
        | inl t ↦ rw t (no_pages (ground arith))
        | inr f ↦ rw f (elim (Bool-cases (ltb (length words) (length pages))) [
          | inl t ↦ rw t (few_words (ground arith))
          | inr g ↦ rw g (elim (Bool-cases (ltb total (minimum * length pages))) [
            | inl t ↦ rw t (too_short (ground arith))
            | inr h ↦
                rw h (within_cases words pages silences total minimum (ground arith) (ground arith))
          ])
        ])
      ]
