-- ===== src/Audio/Cuts.antt =====
-- `_dynamic_programming_cuts` of audio/alignment.py: which word each page ends at. The costs are
-- floating-point numbers that rest on a similarity ratio of the standard library, so their type, the
-- cost of a page and the comparison are parameters; so are the expected end of a page and the search
-- radius, which are rounded floating-point numbers.
use ppt_video_workbench_v.Base.{
  ℕ, zero, suc, ◌+◌, ◌-◌, min, max, List, [], ◌∷◌, ◌++◌, Option, none, some, Bool, ◌==◌, leb, find,
  drop_last, if◌then◌else◌,
}
use ppt_video_workbench_v.Audio.Timeline.{Result, ok, err, value_error}

-- `range(lower, lower + n)`
unfoldable pub range_from : ℕ → ℕ → List ℕ
range_from lower zero = []
range_from lower (suc n) = lower ∷ range_from (lower + 1) n

module _ (Cost : Type 0) where
  -- An entry of `costs`: the page index of its key is that of the round.
  pub record Route : Type 0 where
    pub end : ℕ
    pub cost : Cost
    pub cuts : List ℕ

pub record Costs (Cost : Type 0) : Type 0 where
  pub start_cost : Cost
  pub page_cost : Cost → ℕ → ℕ → ℕ → Cost
  pub cheaper : Cost → Cost → Bool
  pub expected_end : ℕ → ℕ
  pub radius : ℕ

module _ {Cost : Type 0} (k : Costs Cost) where
  -- The candidate is stored where its key is new or it is cheaper.
  unfoldable pub put_route : Route Cost → List (Route Cost) → List (Route Cost)
  put_route r [] = r ∷ []
  put_route r (x ∷ xs) =
      let rest = put_route r xs in
      if x.end == r.end then (if k.cheaper r.cost x.cost then r ∷ xs else x ∷ xs) else x ∷ rest

  abbrev pub extended : ℕ → Route Cost → ℕ → Route Cost
  extended page r end = record {
    end = end;
    cost = k.page_cost r.cost page r.end end;
    cuts = r.cuts ++ end ∷ [];
  }

  -- The loop over the candidate ends, for one route of the round before.
  unfoldable pub extend_route : ℕ → Route Cost → List ℕ → List (Route Cost) → List (Route Cost)
  unfolding put_route
  extend_route page r [] next = next
  extend_route page r (end ∷ ends) next =
      extend_route page r ends
        (if leb end r.end then next else put_route (extended page r end) next)

  unfoldable pub extend_routes :
      ℕ → List ℕ → List (Route Cost) → List (Route Cost) → List (Route Cost)
  unfolding extend_route
  extend_routes page ends [] next = next
  extend_routes page ends (r ∷ rs) next = extend_routes page ends rs (extend_route page r ends next)

  -- The ends to try for a page; the last page ends at the last word.
  unfoldable pub candidate_ends : ℕ → ℕ → ℕ → List ℕ
  unfolding range_from
  candidate_ends words page zero = words ∷ []
  candidate_ends words page (suc n) =
      let lower = max (page + 1) (k.expected_end page - k.radius) in
      let upper = min (words - suc n) (k.expected_end page + k.radius) in
      range_from lower (upper + 1 - lower)

  -- The rounds: `left` pages from `page` on.
  unfoldable pub rounds : ℕ → ℕ → ℕ → List (Route Cost) → List (Route Cost)
  unfolding extend_routes candidate_ends
  rounds words page zero routes = routes
  rounds words page (suc left) routes =
      rounds words (page + 1) left (extend_routes page (candidate_ends words page left) routes [])

  abbrev pub start_route : Route Cost
  start_route = record { end = 0; cost = k.start_cost; cuts = [] }

  abbrev pub cuts_of : Option (Route Cost) → Result (List ℕ)
  cuts_of none = err value_error
  cuts_of (some r) = ok (drop_last r.cuts)

  unfoldable pub dynamic_programming_cuts : ℕ → ℕ → Result (List ℕ)
  unfolding rounds
  dynamic_programming_cuts words pages =
      cuts_of (find (λ r. r.end == words) (rounds words 0 pages (start_route ∷ [])))
