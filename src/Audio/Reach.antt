-- ===== src/Audio/Reach.antt =====
-- When `_dynamic_programming_cuts` of audio/alignment.py finds an alignment.
use ppt_video_workbench_v.Base.{
  ℕ, zero, suc, ◌+◌, ◌<◌, ◌≡◌, refl, subst, List, [], ◌∷◌, some, Bool, true, false, ◌==◌, leb, find,
  any, arith, Bool-cases, inl, inr, ==_iff, ==_refl, drop_last, if◌then◌else◌,
}
use ppt_video_workbench_v.Audio.Timeline.{ok}
use ppt_video_workbench_v.Audio.Cuts.{
  Route, Costs, put_route, extended, extend_route, extend_routes, candidate_ends, rounds,
  start_route, dynamic_programming_cuts,
}

abbrev pub has : ℕ → List ℕ → Bool
has c xs = any (λ x. x == c) xs

-- A route that ends there.
abbrev pub ends_at : {Cost : Type 0} → ℕ → List (Route Cost) → Bool
ends_at e rs = any (λ r. r.end == e) rs

find-any :
    {A : Type 0} (p : A → Bool) (xs : List A) → any p xs ≡ true → (x : A) × (find p xs ≡ some x)
find-any p [] h = absurd (cc h)
find-any p (x ∷ xs) h = elim (Bool-cases (p x)) [
  | inl t ↦ (x, rw t refl)
  | inr f ↦ let (y, e) = find-any p xs (rw f at h) in (y, rw f e)
]

module _ {Cost : Type 0} (k : Costs Cost) where
  -- A strictly rising choice of one candidate end for each of the pages, up to the last word.
  abbrev pub Chosen : ℕ → ℕ → ℕ → ℕ → List ℕ → Type 0
  Chosen words page zero lo [] = lo ≡ words
  Chosen words page zero lo (c ∷ cs) = ⊥
  Chosen words page (suc left) lo [] = ⊥
  Chosen words page (suc left) lo (c ∷ cs) =
      (has c (candidate_ends k words page left) ≡ true)
      × (lo < c)
      × Chosen words (page + 1) left c cs

  put_route-new :
      (r : Route Cost) (xs : List (Route Cost)) → ends_at r.end (put_route k r xs) ≡ true
  unfolding put_route
  put_route-new r [] = rw (==_refl r.end) refl
  put_route-new r (x ∷ xs) = elim (Bool-cases (x.end == r.end)) [
    | inr f ↦ rw (f, f) (put_route-new r xs)
    | inl t ↦ rw t (elim (Bool-cases (k.cheaper r.cost x.cost)) [
      | inl c ↦ rw (c, ==_refl r.end) refl
      | inr c ↦ rw (c, t) refl
    ])
  ]

  put_route-old :
      (e : ℕ) (r : Route Cost) (xs : List (Route Cost))
      → ends_at e xs ≡ true
      → ends_at e (put_route k r xs) ≡ true
  unfolding put_route
  put_route-old e r [] h = absurd (cc h)
  put_route-old e r (x ∷ xs) h = ground (arith, put_route-old e r xs)

  extend_route-old :
      (page e : ℕ) (r : Route Cost) (ends : List ℕ) (next : List (Route Cost))
      → ends_at e next ≡ true
      → ends_at e (extend_route k page r ends next) ≡ true
  unfolding extend_route
  extend_route-old page e r [] next h = h
  extend_route-old page e r (end ∷ ends) next h = elim (Bool-cases (leb end r.end)) [
    | inl t ↦ rw t (extend_route-old page e r ends next h)
    | inr f ↦ rw f (
        extend_route-old page e r ends (put_route k (extended k page r end) next)
          (put_route-old e (extended k page r end) next h))
  ]

  extend_route-new :
      (page e : ℕ) (r : Route Cost) (ends : List ℕ) (next : List (Route Cost))
      → has e ends ≡ true
      → r.end < e
      → ends_at e (extend_route k page r ends next) ≡ true
  unfolding extend_route
  extend_route-new page e r [] next h l = absurd (cc h)
  extend_route-new page e r (end ∷ ends) next h l = elim (Bool-cases (end == e)) [
    | inr f ↦
        extend_route-new page e r ends
          (if leb end r.end then next else put_route k (extended k page r end) next) (rw f at h) l
    | inl t ↦
        let same : end ≡ e = (==_iff end e).0 t in
        let above : leb end r.end ≡ false = ground arith in
        rw above (
          extend_route-old page e r ends (put_route k (extended k page r end) next) (
            subst (λ m. ends_at m (put_route k (extended k page r end) next) ≡ true) same
              (put_route-new (extended k page r end) next)))
  ]

  extend_routes-old :
      (page e : ℕ) (ends : List ℕ) (rs next : List (Route Cost))
      → ends_at e next ≡ true
      → ends_at e (extend_routes k page ends rs next) ≡ true
  unfolding extend_routes
  extend_routes-old page e ends [] next h = h
  extend_routes-old page e ends (r ∷ rs) next h =
      extend_routes-old page e ends rs (extend_route k page r ends next)
        (extend_route-old page e r ends next h)

  extend_routes-new :
      (page lo e : ℕ) (ends : List ℕ) (rs next : List (Route Cost))
      → ends_at lo rs ≡ true
      → has e ends ≡ true
      → lo < e
      → ends_at e (extend_routes k page ends rs next) ≡ true
  unfolding extend_routes
  extend_routes-new page lo e ends [] next h m l = absurd (cc h)
  extend_routes-new page lo e ends (r ∷ rs) next h m l = elim (Bool-cases (r.end == lo)) [
    | inr f ↦ extend_routes-new page lo e ends rs (extend_route k page r ends next) (rw f at h) m l
    | inl t ↦
        extend_routes-old page e ends rs (extend_route k page r ends next)
          (extend_route-new page e r ends next m (ground (arith, t, l)))
  ]

  rounds-reach :
      (words page left lo : ℕ) (cs : List ℕ) (rs : List (Route Cost))
      → Chosen words page left lo cs
      → ends_at lo rs ≡ true
      → ends_at words (rounds k words page left rs) ≡ true
  unfolding rounds
  rounds-reach words page zero lo [] rs c h = subst (λ m. ends_at m rs ≡ true) c h
  rounds-reach words page zero lo (c ∷ cs) rs h g = absurd h
  rounds-reach words page (suc left) lo [] rs h g = absurd h
  rounds-reach words page (suc left) lo (c ∷ cs) rs h g =
      rounds-reach words (page + 1) left c cs
        (extend_routes k page (candidate_ends k words page left) rs []) h.2
        (extend_routes-new page lo c (candidate_ends k words page left) rs [] g h.0 h.1)

  -- Where some strictly rising choice of candidate ends leads to the last word, whatever the costs,
  -- the dynamic program answers cuts and does not raise.
  pub dynamic_programming_cuts-found :
      (words pages : ℕ) (cs : List ℕ)
      → Chosen words 0 pages 0 cs
      → (ds : List ℕ) × (dynamic_programming_cuts k words pages ≡ ok ds)
  unfolding dynamic_programming_cuts
  dynamic_programming_cuts-found words pages cs h =
      let (r, e) =
        find-any (λ r. r.end == words) (rounds k words 0 pages (start_route k ∷ []))
          (rounds-reach words 0 pages 0 cs (start_route k ∷ []) h refl) in
      (drop_last r.cuts, rw e refl)
