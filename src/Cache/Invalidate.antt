-- ===== src/Cache/Invalidate.antt =====
-- `invalidate` of cache/persistent_repository.py against the entries that an event concerns.
use ppt_video_workbench_v.Base.{
  ℕ, ◌≡◌, refl, sym, ap, ◌∙◌, List, [], ◌∷◌, Option, none, some, Bool, false, ◌&&◌, ◌||◌, ◌==◌, any,
  keep, insert_sorted, sorted, if◌then◌else◌, arith, Bool-cases, Option-cases, inl, inr, find-key,
  find-update_found, find-update_none,
}
use ppt_video_workbench_v.Cache.Contracts.{CacheInvalidationEvent, StaleReason}
use ppt_video_workbench_v.Cache.Persistent.{
  EntryRow, DependencyRow, CacheDb, row_key, row_at, affected_row, by_cache_key,
  reverse_dependencies, add_key, key_set, key_in, made_stale, update_entries, invalidate_keys,
  invalidate,
}

-- Some dependency of the entry is one that the event affects.
abbrev pub concerned : CacheInvalidationEvent → CacheDb → ℕ → Bool
concerned event db k = any (λ d. affected_row event d && (d.cache_key == k)) db.dependencies

-- The row, made stale where it is concerned.
abbrev pub stale_if : Bool → StaleReason → Option EntryRow → Option EntryRow
stale_if b reason none = none
stale_if b reason (some r) = some (if b then made_stale reason r else r)

any-insert_sorted :
    {A : Type 0} (p : A → Bool) (before : A → A → Bool) (a : A) (xs : List A)
    → any p (insert_sorted before a xs) ≡ any p (a ∷ xs)
any-insert_sorted p before a [] = refl
any-insert_sorted p before a (x ∷ xs) = elim (Bool-cases (before x a)) [
  | inr f ↦ rw f refl
  | inl t ↦ rw (t, any-insert_sorted p before a xs) (ground arith)
]

any-sorted :
    {A : Type 0} (p : A → Bool) (before : A → A → Bool) (xs : List A)
    → any p (sorted before xs) ≡ any p xs
any-sorted p before [] = refl
any-sorted p before (x ∷ xs) =
    any-insert_sorted p before x (sorted before xs) ∙ ap (λ b. p x || b) (any-sorted p before xs)

any-keep :
    {A : Type 0} (p q : A → Bool) (xs : List A) → any p (keep q xs) ≡ any (λ x. q x && p x) xs
any-keep p q [] = refl
any-keep p q (x ∷ xs) = elim (Bool-cases (q x)) [
  | inl t ↦ rw (t, any-keep p q xs) refl
  | inr f ↦ rw (f, any-keep p q xs) refl
]

any-add_key :
    (k j : ℕ) (xs : List ℕ) → any (λ x. x == k) (add_key j xs) ≡ ((j == k) || any (λ x. x == k) xs)
unfolding add_key
any-add_key k j [] = refl
any-add_key k j (x ∷ xs) = ground (arith, any-add_key k j xs)

any-key_set :
    (k : ℕ) (ds : List DependencyRow)
    → any (λ x. x == k) (key_set ds) ≡ any (λ d. d.cache_key == k) ds
unfolding key_set
any-key_set k [] = refl
any-key_set k (d ∷ ds) =
    any-add_key k d.cache_key (key_set ds) ∙ ap (λ b. (d.cache_key == k) || b) (any-key_set k ds)

keys-concerned :
    (event : CacheInvalidationEvent) (db : CacheDb) (k : ℕ)
    → any (λ x. x == k) (key_set (reverse_dependencies event db)) ≡ concerned event db k
unfolding reverse_dependencies
keys-concerned event db k =
    any-key_set k (sorted by_cache_key (keep (affected_row event) db.dependencies))
    ∙ any-sorted (λ d. d.cache_key == k) by_cache_key (keep (affected_row event) db.dependencies)
    ∙ any-keep (λ d. d.cache_key == k) (affected_row event) db.dependencies

updated :
    (reason : StaleReason) (ks : List ℕ) (db : CacheDb) (k : ℕ)
    → row_at k (update_entries (key_in ks) (made_stale reason) db)
      ≡ stale_if (any (λ x. x == k) ks) reason (row_at k db)
updated reason ks db k = elim (Option-cases (row_at k db)) [
  | inl n ↦
      rw n (find-update_none row_key (key_in ks) (made_stale reason) k db.entries (λ r. refl) n)
  | inr (r, f) ↦
      let at : r.cache_key ≡ k = find-key row_key k db.entries r f in
      rw f (
        find-update_found row_key (key_in ks) (made_stale reason) k db.entries r (λ x. refl) f
        ∙ ap (λ m. some (if any (λ x. x == m) ks then made_stale reason r else r)) at)
]

stale_if-false : (reason : StaleReason) (o : Option EntryRow) → stale_if false reason o ≡ o
stale_if-false reason none = refl
stale_if-false reason (some r) = refl

keys_exact :
    (reason : StaleReason) (ks : List ℕ) (db : CacheDb) (k : ℕ)
    → (row_at k (invalidate_keys reason ks db).1
        ≡ stale_if (any (λ x. x == k) ks) reason (row_at k db))
      × ((invalidate_keys reason ks db).0 ≡ ks)
      × ((invalidate_keys reason ks db).1.dependencies ≡ db.dependencies)
keys_exact reason [] db k = (sym (stale_if-false reason (row_at k db)), refl, refl)
keys_exact reason (x ∷ xs) db k = (updated reason (x ∷ xs) db k, refl, refl)

-- An event makes stale exactly the entries of which some dependency is affected: such an entry
-- gets the event's reason and the next revision, every other entry is as it was, the keys that are
-- answered are those of the tables' dependencies that are affected, and no dependency changes.
pub invalidate_exact :
    (event : CacheInvalidationEvent) (db : CacheDb) (k : ℕ)
    → (row_at k (invalidate event db).1
        ≡ stale_if (concerned event db k) event.reason (row_at k db))
      × (any (λ x. x == k) (invalidate event db).0 ≡ concerned event db k)
      × ((invalidate event db).1.dependencies ≡ db.dependencies)
unfolding invalidate
invalidate_exact event db k =
    let same = keys-concerned event db k in
    let (row, keys, deps) =
      keys_exact event.reason (key_set (reverse_dependencies event db)) db k in
    (
      row ∙ ap (λ b. stale_if b event.reason (row_at k db)) same,
      ap (any (λ x. x == k)) keys ∙ same,
      deps,
    )
