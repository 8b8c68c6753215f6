-- ===== src/Cache/Persistent.antt =====
-- cache/persistent_repository.py over the tables `cache_entries` and `cache_dependencies` of
-- storage/workspace_db.py. The digest of a dependency's JSON text is a parameter.
use ppt_video_workbench_v.Base.{
  ℕ, ◌+◌, List, [], ◌∷◌, ◌++◌, Option, none, some, Bool, true, false, not, ◌&&◌, ◌||◌, ◌==◌, ltb,
  find, any, keep, map, sorted, update_where, String, if◌then◌else◌,
}
use ppt_video_workbench_v.Base.Int.{ℤ, pos, negsuc}
use ppt_video_workbench_v.Cache.Contracts.{
  CacheDomain, CacheEntryState, stale, StaleReason, CacheDependency, CacheInvalidationEvent,
  affected, normalize_dependencies, dependency_before,
}

-- A row of `cache_entries`.
pub record EntryRow : Type 0 where
  pub cache_key : ℕ
  pub project_id : ℕ
  pub domain : CacheDomain
  pub node_key : String
  pub state : CacheEntryState
  pub artifact_manifest : String
  pub artifact_manifest_hash : ℕ
  pub relative_path : String
  pub artifact_hash : ℕ
  pub size_bytes : ℕ
  pub runtime_fingerprint : String
  pub license_status : String
  pub rebuildable : Bool
  pub protected : Bool
  pub lease_count : ℕ
  pub stale_reason : Option StaleReason
  pub created_at : ℕ
  pub last_accessed_at : ℕ
  pub revision : ℕ

-- The fields of a record that are columns, and its dependencies.
pub record PersistentCacheEntry : Type 0 where
  pub row : EntryRow
  pub dependencies : List CacheDependency

-- A row of `cache_dependencies`.
pub record DependencyRow : Type 0 where
  pub dependency_key : ℕ
  pub cache_key : ℕ
  pub dependency : CacheDependency

pub record CacheDb : Type 0 where
  pub entries : List EntryRow
  pub dependencies : List DependencyRow

-- `IntegrityError`, `ValueError`.
pub data StoreError : Type 0 where
  integrity value_error : StoreError

pub data Result (A : Type 0) : Type 0 where
  ok : A → Result A
  err : StoreError → Result A

abbrev pub row_key : EntryRow → ℕ
row_key r = r.cache_key

abbrev pub row_at : ℕ → CacheDb → Option EntryRow
row_at key db = find (λ r. row_key r == key) db.entries

-- An UPDATE of `cache_entries`.
abbrev pub update_entries : (EntryRow → Bool) → (EntryRow → EntryRow) → CacheDb → CacheDb
update_entries hit change db = record db { entries = update_where hit change db.entries }

-- INSERT ... ON CONFLICT (cache_key) DO UPDATE.
unfoldable pub upsert : EntryRow → List EntryRow → List EntryRow
upsert r [] = r ∷ []
upsert r (x ∷ xs) =
    let rest = upsert r xs in
    if row_key x == row_key r then record r { revision = x.revision + 1 } ∷ xs else x ∷ rest

abbrev pub of_entry : ℕ → DependencyRow → Bool
of_entry key d = d.cache_key == key

abbrev pub by_digest : DependencyRow → DependencyRow → Bool
by_digest a b = ltb a.dependency_key b.dependency_key

abbrev pub dependency_of : DependencyRow → CacheDependency
dependency_of d = d.dependency

-- The SELECT of an entry's dependencies.
abbrev pub dependencies_at : ℕ → CacheDb → List CacheDependency
dependencies_at key db = map dependency_of (sorted by_digest (keep (of_entry key) db.dependencies))

abbrev pub entry_with : CacheDb → Option EntryRow → Option PersistentCacheEntry
entry_with db none = none
entry_with db (some r) = some (record { row = r; dependencies = dependencies_at r.cache_key db })

unfoldable pub get : ℕ → CacheDb → Option PersistentCacheEntry
get key db = entry_with db (row_at key db)

abbrev pub or_else : PersistentCacheEntry → Option PersistentCacheEntry → PersistentCacheEntry
or_else e none = e
or_else e (some found) = found

-- Two new rows of one entry with one dependency key break the primary key.
unfoldable pub repeats : List DependencyRow → Bool
repeats [] = false
repeats (d ∷ ds) = any (λ x. x.dependency_key == d.dependency_key) ds || repeats ds

-- What the columns keep of a dependency: there is none for its schema version, so the model that is
-- built of a row has the default.
abbrev pub default_version : CacheDependency → CacheDependency
default_version d = record d { schema_version = "1.0" }

module _ (digest : CacheDependency → ℕ) where
  abbrev pub new_row : ℕ → CacheDependency → DependencyRow
  new_row key d = record {
    dependency_key = digest d;
    cache_key = key;
    dependency = default_version d;
  }

  -- The tables after the transaction of `put`.
  abbrev pub stored : PersistentCacheEntry → CacheDb → CacheDb
  stored e db = record {
    entries = upsert e.row db.entries;
    dependencies =
        keep (λ d. not (of_entry e.row.cache_key d)) db.dependencies
        ++ map (new_row e.row.cache_key) e.dependencies;
  }

  abbrev pub put_normalized : PersistentCacheEntry → CacheDb → Result PersistentCacheEntry × CacheDb
  put_normalized e db =
      if repeats (map (new_row e.row.cache_key) e.dependencies)
      then (err integrity, db)
      else (ok (or_else e (get e.row.cache_key (stored e db))), stored e db)

  unfoldable pub put : PersistentCacheEntry → CacheDb → Result PersistentCacheEntry × CacheDb
  unfolding upsert get repeats dependency_before
  put e db = put_normalized (record e { dependencies = normalize_dependencies e.dependencies }) db

abbrev pub affected_row : CacheInvalidationEvent → DependencyRow → Bool
affected_row event d = affected event d.dependency

abbrev pub by_cache_key : DependencyRow → DependencyRow → Bool
by_cache_key a b = ltb a.cache_key b.cache_key

unfoldable pub reverse_dependencies : CacheInvalidationEvent → CacheDb → List DependencyRow
unfolding affected
reverse_dependencies event db = sorted by_cache_key (keep (affected_row event) db.dependencies)

-- `sorted` of a set of keys.
unfoldable pub add_key : ℕ → List ℕ → List ℕ
add_key k [] = k ∷ []
add_key k (x ∷ xs) =
    let rest = add_key k xs in if x == k then x ∷ xs else if ltb x k then x ∷ rest else k ∷ x ∷ xs

unfoldable pub key_set : List DependencyRow → List ℕ
unfolding add_key
key_set [] = []
key_set (d ∷ ds) = add_key d.cache_key (key_set ds)

abbrev pub key_in : List ℕ → EntryRow → Bool
key_in ks r = any (λ k. k == r.cache_key) ks

abbrev pub made_stale : StaleReason → EntryRow → EntryRow
made_stale reason r = record r {
  state = stale;
  stale_reason = some reason;
  revision = r.revision + 1;
}

abbrev pub invalidate_keys : StaleReason → List ℕ → CacheDb → List ℕ × CacheDb
invalidate_keys reason [] db = ([], db)
invalidate_keys reason (k ∷ ks) db =
    (k ∷ ks, update_entries (key_in (k ∷ ks)) (made_stale reason) db)

unfoldable pub invalidate : CacheInvalidationEvent → CacheDb → List ℕ × CacheDb
unfolding reverse_dependencies key_set
invalidate event db = invalidate_keys event.reason (key_set (reverse_dependencies event db)) db

abbrev pub is_row : ℕ → EntryRow → Bool
is_row key r = row_key r == key

abbrev pub counted : ℕ → EntryRow → EntryRow
counted count r = record r { lease_count = count; revision = r.revision + 1 }

unfoldable pub set_lease_count : ℕ → ℤ → CacheDb → Result Unit × CacheDb
set_lease_count key (negsuc n) db = (err value_error, db)
set_lease_count key (pos count) db = (ok tt, update_entries (is_row key) (counted count) db)

abbrev pub row_before : EntryRow → EntryRow → Bool
row_before a b =
    ltb a.last_accessed_at b.last_accessed_at
    || ((a.last_accessed_at == b.last_accessed_at) && ltb a.cache_key b.cache_key)

abbrev pub of_project : Option ℕ → EntryRow → Bool
of_project none r = true
of_project (some id) r = r.project_id == id

-- The rows of `list`: each entry is read again by its key.
abbrev pub get_rows : CacheDb → List EntryRow → List PersistentCacheEntry
get_rows db [] = []
get_rows db (r ∷ rs) = elim (get r.cache_key db) [
  | none ↦ get_rows db rs
  | some e ↦ e ∷ get_rows db rs
]

unfoldable pub list : Option ℕ → CacheDb → List PersistentCacheEntry
unfolding get
list project db = get_rows db (sorted row_before (keep (of_project project) db.entries))
