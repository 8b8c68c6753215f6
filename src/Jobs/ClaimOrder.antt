-- ===== src/Jobs/ClaimOrder.antt =====
-- The queries of `claim_next` in jobs/repository.py: the earliest row, and the last generation.
use ppt_video_workbench_v.Base.{
  ℕ, ◌≤◌, ◌≡◌, refl, sym, subst, ◌∙◌, inl, inr, List, [], ◌∷◌, Option, none, some, Bool, true,
  false, ◌==◌, any, All, Distinct, find, arith, Bool-cases, ==_refl, ==_iff, le_trans,
}
use ppt_video_workbench_v.Jobs.Record.{Job, Attempt}
use ppt_video_workbench_v.Jobs.Claim.{
  Claim, earlier, sooner, first_row, last_generation, new_attempt, attempt_clashes,
}
use ppt_video_workbench_v.Jobs.Lifecycle.{id_of}

-- What `first_row` returns: a row that passes the test, and that no other such row precedes.
pub record IsFirst (hit : Job → Bool) (xs : List Job) (j : Job) : Type 0 where
  pub passes : hit j ≡ true
  pub first : All (λ x. hit x ≡ true → earlier x j ≡ false) xs

earlier_irreflexive : (j : Job) → earlier j j ≡ false
unfolding earlier
earlier_irreflexive j = ground arith

earlier_not : (a b : Job) → earlier b a ≡ true → earlier a b ≡ false
unfolding earlier
earlier_not a b h = ground arith

-- If x does not precede b, and b does not precede a, then x does not precede a.
earlier_chain : (x b a : Job) → earlier x b ≡ false → earlier b a ≡ false → earlier x a ≡ false
unfolding earlier
earlier_chain x b a h k = ground arith

chain-All :
    (hit : Job → Bool) (b a : Job) (xs : List Job)
    → earlier b a ≡ false
    → All (λ x. hit x ≡ true → earlier x b ≡ false) xs
    → All (λ x. hit x ≡ true → earlier x a ≡ false) xs
chain-All hit b a [] n h = tt
chain-All hit b a (x ∷ xs) n h = (λ t. earlier_chain x b a (h.0 t) n, chain-All hit b a xs n h.1)

pub no_row :
    (hit : Job → Bool) (xs : List Job) → first_row hit xs ≡ none → All (λ x. hit x ≡ false) xs
unfolding first_row
no_row hit [] h = tt
no_row hit (x ∷ xs) h = elim (Bool-cases (hit x)) [
  | inl t ↦ absurd (cc (rw t at h))
  | inr f ↦ (f, no_row hit xs (rw f at h))
]

vacuous :
    (hit : Job → Bool) (j : Job) (xs : List Job)
    → All (λ x. hit x ≡ false) xs
    → All (λ x. hit x ≡ true → earlier x j ≡ false) xs
vacuous hit j [] h = tt
vacuous hit j (x ∷ xs) h = (λ t. cc h.0, vacuous hit j xs h.1)

sooner-IsFirst :
    (hit : Job → Bool) (x : Job) (xs : List Job) (o : Option Job)
    → hit x ≡ true
    → first_row hit xs ≡ o
    → ((b : Job) → o ≡ some b → IsFirst hit xs b)
    → IsFirst hit (x ∷ xs) (sooner x o)
sooner-IsFirst hit x xs none t e ih = record {
  passes = t;
  first = (λ _. earlier_irreflexive x, vacuous hit x xs (no_row hit xs e));
}
sooner-IsFirst hit x xs (some b) t e ih = elim (Bool-cases (earlier b x)) [
  | inl s ↦
      rw s (record {
        passes = (ih b refl).passes;
        first = (λ _. earlier_not x b s, (ih b refl).first);
      })
  | inr n ↦ rw n (record {
    passes = t;
    first = (λ _. earlier_irreflexive x, chain-All hit b x xs n (ih b refl).first);
  })
]

some_eq : {a b : Job} → some a ≡ some b → a ≡ b
some_eq e = cc

pub first_row-IsFirst :
    (hit : Job → Bool) (xs : List Job) (j : Job) → first_row hit xs ≡ some j → IsFirst hit xs j
unfolding first_row
first_row-IsFirst hit [] j h = absurd (cc h)
first_row-IsFirst hit (x ∷ xs) j h = elim (Bool-cases (hit x)) [
  | inl t ↦
      subst (IsFirst hit (x ∷ xs)) (some_eq (rw t at h))
        (sooner-IsFirst hit x xs (first_row hit xs) t refl (first_row-IsFirst hit xs))
  | inr f ↦
      let r = first_row-IsFirst hit xs j (rw f at h) in
      record { passes = r.passes; first = (λ t. cc f, r.first) }
]

find_tail :
    (x j : Job) (xs : List Job)
    → find (λ y. y.id == x.id) xs ≡ none
    → find (λ y. y.id == j.id) xs ≡ some j
    → find (λ y. y.id == j.id) (x ∷ xs) ≡ some j
find_tail x j xs h k = elim (Bool-cases (x.id == j.id)) [
  | inl e ↦ let q : x.id ≡ j.id = (==_iff x.id j.id).0 e in absurd (cc (sym (rw q at h) ∙ k))
  | inr e ↦ rw e k
]

pub find_row :
    (hit : Job → Bool) (xs : List Job) (j : Job)
    → Distinct id_of xs
    → first_row hit xs ≡ some j
    → find (λ x. x.id == j.id) xs ≡ some j
unfolding first_row
find_row hit [] j d h = absurd (cc h)
find_row hit (x ∷ xs) j d h = elim (Bool-cases (hit x)) [
  | inl t ↦ go (first_row hit xs) refl (rw t at h) (find_row hit xs j d.1)
  | inr f ↦ find_tail x j xs d.0 (find_row hit xs j d.1 (rw f at h))
]
  where
    here : x ≡ j → find (λ y. y.id == j.id) (x ∷ xs) ≡ some j
    here e = subst (λ y. find (λ z. z.id == y.id) (x ∷ xs) ≡ some y) e (rw (==_refl x.id))

    go :
        (o : Option Job)
        → first_row hit xs ≡ o
        → some (sooner x o) ≡ some j
        → (first_row hit xs ≡ some j → find (λ y. y.id == j.id) xs ≡ some j)
        → find (λ y. y.id == j.id) (x ∷ xs) ≡ some j
    go none e k r = here (some_eq k)
    go (some b) e k r = elim (Bool-cases (earlier b x)) [
      | inl s ↦ find_tail x j xs d.0 (r (e ∙ rw s at k))
      | inr n ↦ here (some_eq (rw n at k))
    ]

weaken :
    (job n m : ℕ) (xs : List Attempt)
    → n ≤ m
    → All (λ a. (a.job_id == job) ≡ true → a.generation ≤ n) xs
    → All (λ a. (a.job_id == job) ≡ true → a.generation ≤ m) xs
weaken job n m [] l h = tt
weaken job n m (x ∷ xs) l h = (λ t. le_trans (h.0 t) l, weaken job n m xs l h.1)

-- No generation of the job passes the last one.
pub last_generation-bounds :
    (job : ℕ) (xs : List Attempt)
    → All (λ a. (a.job_id == job) ≡ true → a.generation ≤ last_generation job xs) xs
unfolding last_generation
last_generation-bounds job [] = tt
last_generation-bounds job (x ∷ xs) = (
  λ t. rw t (omega arith),
  weaken job (last_generation job xs) _ xs (ground arith) (last_generation-bounds job xs),
)

-- A fresh attempt id clashes with no attempt, since its generation is past all others of the job.
pub no_clash :
    (c : Claim) (j : Job) (all_attempts xs : List Attempt)
    → All (λ a. (a.id == c.attempt_id) ≡ false) xs
    → All (λ a. (a.job_id == j.id) ≡ true → a.generation ≤ last_generation j.id all_attempts) xs
    → any (attempt_clashes (new_attempt c j all_attempts)) xs ≡ false
unfolding new_attempt
no_clash c j all_attempts [] f b = refl
no_clash c j all_attempts (x ∷ xs) f b =
    ground (arith, f.0, b.0, no_clash c j all_attempts xs f.1 b.1)
