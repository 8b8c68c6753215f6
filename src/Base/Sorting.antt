-- ===== src/Base/Sorting.antt =====
-- What a stable insertion sort keeps of a list.
use Prim.Native.Nat.{ℕ, ◌+◌}
use mathlib.Core.Path.{◌≡◌, refl, sym, ap, ◌∙◌, subst}
use mathlib.Core.Logic.{inl, inr}
use mathlib.Core.Bool.{Bool, true, false}
use mathlib.Core.List.{List, [], ◌∷◌}
use mathlib.Core.Option.{Option, none, some}
use native.Mathlib.Omega.{arith}
use ppt_video_workbench_v.Base.Tests.{if◌then◌else◌, ◌==◌, Bool-cases}
use ppt_video_workbench_v.Base.Lists.{All, find, sum_of, insert_sorted, sorted}
use ppt_video_workbench_v.Base.Tables.{Distinct}

module _ {A : Type 0} (key : A → ℕ) (before : A → A → Bool) where
  abbrev lookup : ℕ → List A → Option A
  lookup k xs = find (λ y. key y == k) xs

  find-insert_sorted :
      (k : ℕ) (a : A) (xs : List A)
      → lookup (key a) xs ≡ none
      → lookup k (insert_sorted before a xs) ≡ lookup k (a ∷ xs)
  find-insert_sorted k a [] h = refl
  find-insert_sorted k a (x ∷ xs) h = elim (Bool-cases (before x a)) [
    | inr f ↦ rw f refl
    | inl t ↦ rw t (ground (arith, find-insert_sorted k a xs))
  ]

  insert_sorted-Distinct :
      (a : A) (xs : List A)
      → lookup (key a) xs ≡ none
      → Distinct key xs
      → Distinct key (insert_sorted before a xs)
  insert_sorted-Distinct a [] h d = (refl, tt)
  insert_sorted-Distinct a (x ∷ xs) h d = elim (Bool-cases (before x a)) [
    | inr f ↦ rw f (h, d)
    | inl t ↦ rw t (
      (find-insert_sorted (key x) a xs (ground (arith, h)) ∙ ground (arith, h, d.0)),
      insert_sorted-Distinct a xs (ground (arith, h)) d.1,
    )
  ]

  pub find-sorted :
      (k : ℕ) (xs : List A) → Distinct key xs → lookup k (sorted before xs) ≡ lookup k xs
  find-sorted k [] d = refl
  find-sorted k (x ∷ xs) d =
      find-insert_sorted k x (sorted before xs) (find-sorted (key x) xs d.1 ∙ d.0)
      ∙ ap (λ o. if key x == k then some x else o) (find-sorted k xs d.1)

  pub sorted-Distinct : (xs : List A) → Distinct key xs → Distinct key (sorted before xs)
  sorted-Distinct [] d = tt
  sorted-Distinct (x ∷ xs) d =
      insert_sorted-Distinct x (sorted before xs) (find-sorted (key x) xs d.1 ∙ d.0)
        (sorted-Distinct xs d.1)

module _ {A : Type 0} (P : A → Type 0) (before : A → A → Bool) where
  All-insert_sorted : (a : A) (xs : List A) → P a → All P xs → All P (insert_sorted before a xs)
  All-insert_sorted a [] g h = (g, tt)
  All-insert_sorted a (x ∷ xs) g h = elim (Bool-cases (before x a)) [
    | inr f ↦ rw f (g, h)
    | inl t ↦ rw t (h.0, All-insert_sorted a xs g h.1)
  ]

  pub All-sorted : (xs : List A) → All P xs → All P (sorted before xs)
  All-sorted [] h = tt
  All-sorted (x ∷ xs) h = All-insert_sorted x (sorted before xs) h.0 (All-sorted xs h.1)

module _ {A : Type 0} (before : A → A → Bool) where
  sum_of-insert_sorted :
      (f : A → ℕ) (a : A) (xs : List A) → sum_of f (insert_sorted before a xs) ≡ f a + sum_of f xs
  sum_of-insert_sorted f a [] = refl
  sum_of-insert_sorted f a (x ∷ xs) = elim (Bool-cases (before x a)) [
    | inr g ↦ rw g refl
    | inl t ↦ rw t (omega (arith, sum_of-insert_sorted f a xs))
  ]

  pub sum_of-sorted : (f : A → ℕ) (xs : List A) → sum_of f (sorted before xs) ≡ sum_of f xs
  sum_of-sorted f [] = refl
  sum_of-sorted f (x ∷ xs) =
      sum_of-insert_sorted f x (sorted before xs) ∙ ap (λ n. f x + n) (sum_of-sorted f xs)

  -- Each element stands before none that follows it at once.
  abbrev pub Ordered : List A → Type 0
  Ordered [] = Unit
  Ordered (x ∷ []) = Unit
  Ordered (x ∷ y ∷ ys) = (before y x ≡ false) × Ordered (y ∷ ys)

  sorted_same : (xs : List A) → Ordered xs → sorted before xs ≡ xs
  sorted_same [] o = refl
  sorted_same (x ∷ []) o = refl
  sorted_same (x ∷ y ∷ ys) o =
      subst (λ zs. insert_sorted before x zs ≡ x ∷ y ∷ ys) (sym (sorted_same (y ∷ ys) o.1))
        (rw o.0 refl)

  module _ (asymmetric : (a b : A) → before a b ≡ true → before b a ≡ false) where
    insert_sorted-Ordered : (a : A) (xs : List A) → Ordered xs → Ordered (insert_sorted before a xs)
    insert_sorted-Ordered a [] o = tt
    insert_sorted-Ordered a (x ∷ []) o = elim (Bool-cases (before x a)) [
      | inr f ↦ rw f (f, tt)
      | inl t ↦ rw t (asymmetric x a t, tt)
    ]
    insert_sorted-Ordered a (x ∷ y ∷ ys) o = elim (Bool-cases (before x a)) [
      | inr f ↦ rw f (f, o)
      | inl t ↦ rw t (elim (Bool-cases (before y a)) [
        | inr g ↦ rw g (asymmetric x a t, (g, o.1))
        | inl g ↦ let rest = insert_sorted-Ordered a (y ∷ ys) o.1 in rw g (o.0, rw g at rest)
      ])
    ]

    pub sorted-Ordered : (xs : List A) → Ordered (sorted before xs)
    sorted-Ordered [] = tt
    sorted-Ordered (x ∷ xs) = insert_sorted-Ordered x (sorted before xs) (sorted-Ordered xs)

    -- To sort again changes nothing.
    pub sorted_again : (xs : List A) → sorted before (sorted before xs) ≡ sorted before xs
    sorted_again xs = sorted_same (sorted before xs) (sorted-Ordered xs)
