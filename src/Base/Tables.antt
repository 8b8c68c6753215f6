-- ===== src/Base/Tables.antt =====
-- Tables of rows: the SQL statements that the program issues, over lists of rows.
use Prim.Native.Nat.{ℕ, ◌+◌}
use mathlib.Core.Path.{◌≡◌, refl}
use mathlib.Core.Bool.{Bool, ◌&&◌}
use mathlib.Core.List.{List, [], ◌∷◌}
use mathlib.Core.Option.{none, some}
use native.Mathlib.Omega.{arith}
use ppt_video_workbench_v.Base.Tests.{if◌then◌else◌, ◌==◌}
use ppt_video_workbench_v.Base.Lists.{find}

module _ {ℓ} {A : Type ℓ} where
  -- UPDATE ... SET change WHERE hit
  abbrev pub update_where : (A → Bool) → (A → A) → List A → List A
  update_where hit change [] = []
  update_where hit change (x ∷ xs) = (if hit x then change x else x) ∷ update_where hit change xs

  -- The `rowcount` of such an UPDATE.
  abbrev pub count_where : (A → Bool) → List A → ℕ
  count_where hit [] = 0
  count_where hit (x ∷ xs) = (if hit x then 1 else 0) + count_where hit xs

  -- No two rows share the key.
  abbrev pub Distinct : (A → ℕ) → List A → Type ℓ
  Distinct key [] = Unit
  Distinct key (x ∷ xs) = (find (λ y. key y == key x) xs ≡ none) × Distinct key xs

  -- An UPDATE that keeps the key sends the row of a key to its updated form.
  pub find-update_where :
      (key : A → ℕ) (hit : A → Bool) (change : A → A) (k : ℕ) (xs : List A)
      → ((x : A) → key (change x) ≡ key x)
      → find (λ y. key y == k) (update_where hit change xs) ≡ elim (find (λ y. key y == k) xs) [
        | none ↦ none
        | some r ↦ some (if hit r then change r else r)
      ]
  find-update_where key hit change k [] h = refl
  find-update_where key hit change k (x ∷ xs) h =
      ground (arith, h x, find-update_where key hit change k xs h)

  -- An UPDATE that keeps the key keeps keys distinct.
  pub update_where-Distinct :
      (key : A → ℕ) (hit : A → Bool) (change : A → A) (xs : List A)
      → ((x : A) → key (change x) ≡ key x)
      → Distinct key xs
      → Distinct key (update_where hit change xs)
  update_where-Distinct key hit change [] h d = tt
  update_where-Distinct key hit change (x ∷ xs) h d = ground (
    arith,
    h x,
    find-update_where key hit change (key x) xs h,
    update_where-Distinct key hit change xs h d.1,
  )

  -- With distinct keys, the UPDATE of one key that also tests the row counts that row alone.
  pub count_where-absent :
      (key : A → ℕ) (test : A → Bool) (k : ℕ) (xs : List A)
      → find (λ y. key y == k) xs ≡ none
      → count_where (λ y. (key y == k) && test y) xs ≡ 0
  count_where-absent key test k [] h = refl
  count_where-absent key test k (x ∷ xs) h = ground (arith, count_where-absent key test k xs)

  pub count_where-found :
      (key : A → ℕ) (test : A → Bool) (k : ℕ) (xs : List A) (r : A)
      → Distinct key xs
      → find (λ y. key y == k) xs ≡ some r
      → count_where (λ y. (key y == k) && test y) xs ≡ (if test r then 1 else 0)
  count_where-found key test k [] r d h = cc
  count_where-found key test k (x ∷ xs) r d h =
      ground (arith, count_where-absent key test k xs, count_where-found key test k xs r d.1)

  pub find-key :
      (key : A → ℕ) (k : ℕ) (xs : List A) (r : A) → find (λ y. key y == k) xs ≡ some r → key r ≡ k
  find-key key k [] r h = cc
  find-key key k (x ∷ xs) r h = ground (arith, find-key key k xs r)

  pub find-update_found :
      (key : A → ℕ) (hit : A → Bool) (change : A → A) (k : ℕ) (xs : List A) (r : A)
      → ((x : A) → key (change x) ≡ key x)
      → find (λ y. key y == k) xs ≡ some r
      → find (λ y. key y == k) (update_where hit change xs) ≡ some (if hit r then change r else r)
  find-update_found key hit change k xs r h e = rw (find-update_where key hit change k xs h, e)

  pub find-update_none :
      (key : A → ℕ) (hit : A → Bool) (change : A → A) (k : ℕ) (xs : List A)
      → ((x : A) → key (change x) ≡ key x)
      → find (λ y. key y == k) xs ≡ none
      → find (λ y. key y == k) (update_where hit change xs) ≡ none
  find-update_none key hit change k xs h e = rw (find-update_where key hit change k xs h, e)

  -- Row by row, with rows added at the end: `R` relates an old row to its new form, and `N` holds
  -- of an added one.
  abbrev pub Grows : (A → A → Type 0) → (A → Type 0) → List A → List A → Type 0
  Grows R N [] [] = Unit
  Grows R N [] (y ∷ ys) = N y × Grows R N [] ys
  Grows R N (x ∷ xs) [] = ⊥
  Grows R N (x ∷ xs) (y ∷ ys) = R x y × Grows R N xs ys
