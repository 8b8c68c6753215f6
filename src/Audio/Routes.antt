-- ===== src/Audio/Routes.antt =====
-- The routes that `_dynamic_programming_cuts` of audio/alignment.py keeps, and the cuts it answers.
use ppt_video_workbench_v.Base.{
  ℕ, zero, suc, ◌+◌, ◌<◌, ◌≡◌, refl, subst, List, [], ◌∷◌, ◌++◌, Option, none, some, ◌==◌, leb,
  find, drop_last, All, All-find, arith, length, length-append, length-drop_last, Bool-cases, inl,
  inr, find-key,
}
use ppt_video_workbench_v.Audio.Timeline.{ok, err, value_error}
use ppt_video_workbench_v.Audio.Cuts.{
  Route, Costs, put_route, extended, extend_route, extend_routes, candidate_ends, rounds,
  start_route, cuts_of, dynamic_programming_cuts,
}

-- From `lo` up to `hi` in strict steps, the last of which ends at `hi`.
abbrev pub Rising : ℕ → List ℕ → ℕ → Type 0
Rising lo [] hi = lo ≡ hi
Rising lo (c ∷ cs) hi = (lo < c) × Rising c cs hi

-- Strict steps that stay below `hi`.
abbrev pub Inside : ℕ → List ℕ → ℕ → Type 0
Inside lo [] hi = lo < hi
Inside lo (c ∷ cs) hi = (lo < c) × Inside c cs hi

Rising-append :
    (lo : ℕ) (cs : List ℕ) (mid hi : ℕ) → Rising lo cs mid → mid < hi → Rising lo (cs ++ hi ∷ []) hi
Rising-append lo [] mid hi h l = (omega arith, refl)
Rising-append lo (c ∷ cs) mid hi h l = (h.0, Rising-append c cs mid hi h.1 l)

Rising-drop_last :
    (lo c : ℕ) (cs : List ℕ) (hi : ℕ) → Rising lo (c ∷ cs) hi → Inside lo (drop_last (c ∷ cs)) hi
Rising-drop_last lo c [] hi h = omega arith
Rising-drop_last lo c (d ∷ cs) hi h = (h.0, Rising-drop_last c d cs hi h.1)

module _ {Cost : Type 0} where
  -- A route over the first `n` pages.
  abbrev pub IsRoute : ℕ → Route Cost → Type 0
  IsRoute n r = Rising 0 r.cuts r.end × (length r.cuts ≡ n)

module _ {Cost : Type 0} (k : Costs Cost) where
  put_route-All :
      (n : ℕ) (r : Route Cost) (xs : List (Route Cost))
      → IsRoute n r
      → All (IsRoute n) xs
      → All (IsRoute n) (put_route k r xs)
  unfolding put_route
  put_route-All n r [] i h = (i, tt)
  put_route-All n r (x ∷ xs) i h = elim (Bool-cases (x.end == r.end)) [
    | inr f ↦ rw f (h.0, put_route-All n r xs i h.1)
    | inl t ↦
        rw t
          (elim (Bool-cases (k.cheaper r.cost x.cost)) [ inl c ↦ rw c (i, h.1) | inr c ↦ rw c h ])
  ]

  extended-IsRoute :
      (n page : ℕ) (r : Route Cost) (end : ℕ)
      → IsRoute n r
      → r.end < end
      → IsRoute (suc n) (extended k page r end)
  extended-IsRoute n page r end i l =
      (Rising-append 0 r.cuts r.end end i.0 l, omega (arith, i.1, length-append r.cuts (end ∷ [])))

  extend_route-All :
      (n page : ℕ) (r : Route Cost) (ends : List ℕ) (next : List (Route Cost))
      → IsRoute n r
      → All (IsRoute (suc n)) next
      → All (IsRoute (suc n)) (extend_route k page r ends next)
  unfolding extend_route
  extend_route-All n page r [] next i h = h
  extend_route-All n page r (end ∷ ends) next i h = elim (Bool-cases (leb end r.end)) [
    | inl t ↦ rw t (extend_route-All n page r ends next i h)
    | inr f ↦ rw f (
        extend_route-All n page r ends (put_route k (extended k page r end) next) i (
          put_route-All (suc n) (extended k page r end) next
            (extended-IsRoute n page r end i (ground arith)) h))
  ]

  extend_routes-All :
      (n page : ℕ) (ends : List ℕ) (rs next : List (Route Cost))
      → All (IsRoute n) rs
      → All (IsRoute (suc n)) next
      → All (IsRoute (suc n)) (extend_routes k page ends rs next)
  unfolding extend_routes
  extend_routes-All n page ends [] next i h = h
  extend_routes-All n page ends (r ∷ rs) next i h =
      extend_routes-All n page ends rs (extend_route k page r ends next) i.1
        (extend_route-All n page r ends next i.0 h)

  rounds-All :
      (n words page left : ℕ) (rs : List (Route Cost))
      → All (IsRoute n) rs
      → All (IsRoute (left + n)) (rounds k words page left rs)
  unfolding rounds
  rounds-All n words page zero rs i = subst (λ m. All (IsRoute m) rs) (omega arith) i
  rounds-All n words page (suc left) rs i =
      subst
        (λ m. All (IsRoute m) (
          rounds k words (page + 1) left
            (extend_routes k page (candidate_ends k words page left) rs [])))
        (omega arith)
        (rounds-All (suc n) words (page + 1) left
          (extend_routes k page (candidate_ends k words page left) rs [])
          (extend_routes-All n page (candidate_ends k words page left) rs [] i tt))

  cut :
      (words pages : ℕ) (cs : List ℕ)
      → length cs ≡ suc pages
      → Rising 0 cs words
      → (length (drop_last cs) ≡ pages) × Inside 0 (drop_last cs) words
  cut words pages [] n r = absurd (omega arith)
  cut words pages (c ∷ cs) n r =
      (omega (arith, length-drop_last c cs), Rising-drop_last 0 c cs words r)

  -- The cuts that the dynamic program answers are one fewer than the pages and rise strictly from
  -- above 0 to below the number of words.
  pub dynamic_programming_cuts_lem :
      (words pages : ℕ) (cs : List ℕ)
      → dynamic_programming_cuts k words (suc pages) ≡ ok cs
      → (length cs ≡ pages) × Inside 0 cs words
  unfolding dynamic_programming_cuts
  dynamic_programming_cuts_lem words pages cs e = go (find (λ r. r.end == words) found) refl e
    where
      found : List (Route Cost)
      found = rounds k words 0 (suc pages) (start_route k ∷ [])

      ok_eq : {a b : List ℕ} → ok a ≡ ok b → a ≡ b
      ok_eq q = cc

      no : {a : List ℕ} → err value_error ≡ ok a → ⊥
      no q = cc

      go :
          (o : Option (Route Cost))
          → find (λ r. r.end == words) found ≡ o
          → cuts_of k o ≡ ok cs
          → (length cs ≡ pages) × Inside 0 cs words
      go none f q = absurd (no q)
      go (some r) f q =
          let i =
            All-find (IsRoute (suc pages + 0)) (λ r. r.end == words) found r
              (rounds-All 0 words 0 (suc pages) (start_route k ∷ []) ((refl, refl), tt)) f in
          let at_end : r.end ≡ words = find-key (λ r. r.end) words found r f in
          subst (λ xs. (length xs ≡ pages) × Inside 0 xs words) (ok_eq q)
            (cut words pages r.cuts (omega (arith, i.1)) (subst (Rising 0 r.cuts) at_end i.0))
