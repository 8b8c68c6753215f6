-- ===== src/Cache/Put.antt =====
-- What is read back of what `put` of cache/persistent_repository.py stores.
use ppt_video_workbench_v.Base.{
  ℕ, ◌+◌, ◌≡◌, ◌≢◌, find-key, refl, ap, ◌∙◌, List, [], ◌∷◌, ◌++◌, Option, none, some, Bool, true,
  false, not, ◌==◌, find, keep, map, sorted, if◌then◌else◌, arith, Bool-cases, inl, inr, ==_refl,
}
use ppt_video_workbench_v.Cache.Contracts.{CacheDependency, normalize_dependencies}
use ppt_video_workbench_v.Cache.Persistent.{
  EntryRow, PersistentCacheEntry, DependencyRow, CacheDb, Result, ok, err, integrity, row_key,
  row_at, upsert, of_entry, by_digest, dependency_of, dependencies_at, entry_with, get, repeats,
  new_row, stored, put,
}

-- The row that an upsert leaves: a new row as it is, an old one replaced at the next revision.
abbrev pub upserted : EntryRow → Option EntryRow → EntryRow
upserted r none = r
upserted r (some old) = record r { revision = old.revision + 1 }

upserted-key : (r : EntryRow) (o : Option EntryRow) → (upserted r o).cache_key ≡ r.cache_key
upserted-key r none = refl
upserted-key r (some old) = refl

find-upsert_other :
    (k : ℕ) (r : EntryRow) (rs : List EntryRow)
    → (row_key r == k) ≡ false
    → find (λ x. row_key x == k) (upsert r rs) ≡ find (λ x. row_key x == k) rs
unfolding upsert
find-upsert_other k r [] h = rw h refl
find-upsert_other k r (x ∷ xs) h = ground (arith, find-upsert_other k r xs)

find-upsert_same :
    (r : EntryRow) (rs : List EntryRow)
    → find (λ x. row_key x == row_key r) (upsert r rs)
      ≡ some (upserted r (find (λ x. row_key x == row_key r) rs))
unfolding upsert
find-upsert_same r [] = rw (==_refl (row_key r)) refl
find-upsert_same r (x ∷ xs) = elim (Bool-cases (row_key x == row_key r)) [
  | inl t ↦ rw (t, ==_refl (row_key r)) refl
  | inr f ↦ rw (f, f) (find-upsert_same r xs)
]

abbrev others : ℕ → DependencyRow → Bool
others key d = not (of_entry key d)

keep_old :
    (k key : ℕ) (ds es : List DependencyRow)
    → (key == k) ≡ false
    → keep (of_entry k) (keep (others key) ds ++ es) ≡ keep (of_entry k) (ds ++ es)
keep_old k key [] es h = refl
keep_old k key (d ∷ ds) es h = ground (arith, keep_old k key ds es)

keep_gone :
    (key : ℕ) (ds es : List DependencyRow)
    → keep (of_entry key) (keep (others key) ds ++ es) ≡ keep (of_entry key) es
keep_gone key [] es = refl
keep_gone key (d ∷ ds) es = ground (arith, keep_gone key ds es)

module _ (digest : CacheDependency → ℕ) where
  keep_new :
      (key : ℕ) (cs : List CacheDependency)
      → keep (of_entry key) (map (new_row digest key) cs) ≡ map (new_row digest key) cs
  keep_new key [] = refl
  keep_new key (c ∷ cs) = rw (==_refl key, keep_new key cs) refl

  keep_none :
      (k key : ℕ) (ds : List DependencyRow) (cs : List CacheDependency)
      → (key == k) ≡ false
      → keep (of_entry k) (ds ++ map (new_row digest key) cs) ≡ keep (of_entry k) ds
  keep_none k key [] [] h = refl
  keep_none k key [] (c ∷ cs) h = rw (h, keep_none k key [] cs h) refl
  keep_none k key (d ∷ ds) cs h =
      ap (λ rest. if of_entry k d then d ∷ rest else rest) (keep_none k key ds cs h)

  -- The entry that `put` leaves in the tables. A new row has the dependency at the default version.
  abbrev pub put_entry : PersistentCacheEntry → CacheDb → PersistentCacheEntry
  put_entry e db = record {
    row = upserted e.row (row_at e.row.cache_key db);
    dependencies = map dependency_of (
        sorted by_digest
          (map (new_row digest e.row.cache_key) (normalize_dependencies e.dependencies)));
  }

  stored_row :
      (e : PersistentCacheEntry) (db : CacheDb)
      → get e.row.cache_key (stored digest e db)
        ≡ some (record {
          row = upserted e.row (row_at e.row.cache_key db);
          dependencies =
              map dependency_of
                (sorted by_digest (map (new_row digest e.row.cache_key) e.dependencies));
        })
  unfolding get
  stored_row e db =
      let row = upserted e.row (row_at e.row.cache_key db) in
      let kept =
        ap (λ ds. map dependency_of (sorted by_digest ds))
          (keep_gone e.row.cache_key db.dependencies
              (map (new_row digest e.row.cache_key) e.dependencies)
            ∙ keep_new e.row.cache_key e.dependencies) in
      let read =
        ap (λ k. dependencies_at k (stored digest e db))
          (upserted-key e.row (row_at e.row.cache_key db))
        ∙ kept in
      rw (find-upsert_same e.row db.entries)
        (ap (λ ds. some (record { row = row; dependencies = ds })) read)

  some_key :
      (k key : ℕ) (e : PersistentCacheEntry) (db : CacheDb) (o : Option EntryRow)
      → row_at k db ≡ o
      → (e.row.cache_key == k) ≡ false
      → entry_with (stored digest e db) o ≡ entry_with db o
  some_key k key e db none f h = refl
  some_key k key e db (some r) f h =
      let at : r.cache_key ≡ k = find-key row_key k db.entries r f in
      let other : (e.row.cache_key == r.cache_key) ≡ false = rw at h in
      ap (λ ds. some (record { row = r; dependencies = map dependency_of (sorted by_digest ds) }))
        (keep_old r.cache_key e.row.cache_key db.dependencies
            (map (new_row digest e.row.cache_key) e.dependencies) other
          ∙ keep_none r.cache_key e.row.cache_key db.dependencies e.dependencies other)

  stored_other :
      (k : ℕ) (e : PersistentCacheEntry) (db : CacheDb)
      → (e.row.cache_key == k) ≡ false
      → get k (stored digest e db) ≡ get k db
  unfolding get
  stored_other k e db h =
      rw (find-upsert_other k e.row db.entries h) (some_key k k e db (row_at k db) refl h)

  abbrev pub new_rows : PersistentCacheEntry → List DependencyRow
  new_rows e = map (new_row digest e.row.cache_key) (normalize_dependencies e.dependencies)

  -- The answer of `put` and the tables after it.
  pub data Written (e : PersistentCacheEntry) (db : CacheDb)
      : Result PersistentCacheEntry × CacheDb → Type 0 where
    refused : repeats (new_rows e) ≡ true → Written e db (err integrity, db)
    written :
        {db' : CacheDb}
        → repeats (new_rows e) ≡ false
        → get e.row.cache_key db' ≡ some (put_entry e db)
        → ((k : ℕ) → k ≢ e.row.cache_key → get k db' ≡ get k db)
        → Written e db (ok (put_entry e db), db')

  -- Where no two of an entry's dependencies have one digest, `put` answers the entry as the tables
  -- now have it, and `get` of its key gives just that: the columns are those given, at the next
  -- revision where the key was there, the lease count among them, and the dependencies are the given
  -- ones in the order of their digests, but each with the schema version "1.0", whatever version it
  -- had. What `get` gives for any other key is as before. Where two dependencies have one digest,
  -- `put` raises an integrity error and changes nothing.
  pub put-get : (e : PersistentCacheEntry) (db : CacheDb) → Written e db (put digest e db)
  unfolding put
  put-get e db =
      let n : PersistentCacheEntry = record e {
        dependencies = normalize_dependencies e.dependencies;
      } in
      elim (Bool-cases (repeats (new_rows e))) [
        | inl t ↦ rw t (refused t)
        | inr f ↦
            rw (f, stored_row n db)
              (written f (stored_row n db) (λ k h. stored_other k n db (ground (arith, h))))
      ]
