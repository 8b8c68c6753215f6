-- ===== src/Cache/LeaseLife.antt =====
-- The read lease of a lookup (cache/persistent_repository.py) against the transactions that may run
-- between its acquisition and its release.
use ppt_video_workbench_v.Base.{
  ℕ, suc, ◌≡◌, ◌⊎◌, refl, sym, ◌∙◌, List, [], ◌∷◌, none, some, Bool, true, false, ◌==◌, find, keep,
  if◌then◌else◌, arith, Bool-cases, inl, inr, find-update_found, update_where-Distinct, Distinct,
}
use ppt_video_workbench_v.Cache.Contracts.{
  CacheEntryState, quarantined, same_state, StaleReason, CacheInvalidationEvent,
}
use ppt_video_workbench_v.Cache.Persistent.{
  EntryRow, CacheDb, row_key, row_at, update_entries, invalidate,
}
use ppt_video_workbench_v.Cache.Lookup.{
  mark_state, is_ready, acquire_read_lease, release_read_lease, touched, reserve_gc,
  remove_quarantined,
}

-- A transaction of another lookup, a collector or an invalidation. `n` counts the read leases on the
-- key that others hold; a lookup gives back only a lease that it holds, and marks an entry stale or
-- corrupted. `put` and `set_lease_count` are not among them: they set the lease count.
pub data Step (key : ℕ) : ℕ → CacheDb → ℕ → CacheDb → Type 0 where
  acquired :
      {n : ℕ} {db : CacheDb}
      → (acquire_read_lease key db).0 ≡ true
      → Step key n db (suc n) (acquire_read_lease key db).1
  turned_away :
      {n : ℕ} {db : CacheDb}
      → (acquire_read_lease key db).0 ≡ false
      → Step key n db n (acquire_read_lease key db).1
  released : {n : ℕ} {db : CacheDb} → Step key (suc n) db n (release_read_lease key db)
  elsewhere_acquired :
      {n : ℕ} {db : CacheDb} (k : ℕ)
      → (k == key) ≡ false
      → Step key n db n (acquire_read_lease k db).1
  elsewhere_released :
      {n : ℕ} {db : CacheDb} (k : ℕ)
      → (k == key) ≡ false
      → Step key n db n (release_read_lease k db)
  reserving : {n : ℕ} {db : CacheDb} (k revision : ℕ) → Step key n db n (reserve_gc k revision db).1
  removal : {n : ℕ} {db : CacheDb} (k : ℕ) → Step key n db n (remove_quarantined k db).1
  invalidated :
      {n : ℕ} {db : CacheDb} (event : CacheInvalidationEvent)
      → Step key n db n (invalidate event db).1
  marking :
      {n : ℕ} {db : CacheDb} (k : ℕ) (state : CacheEntryState) (reason : StaleReason)
      → same_state state quarantined ≡ false
      → Step key n db n (mark_state k state reason db)
  touching :
      {n : ℕ} {db : CacheDb} (k now : ℕ)
      → Step key n db n (update_entries (is_ready k) (touched now) db)

pub data Steps (key : ℕ) : ℕ → CacheDb → ℕ → CacheDb → Type 0 where
  none_more : {n : ℕ} {db : CacheDb} → Steps key n db n db
  step_more :
      {n m l : ℕ} {db db' db'' : CacheDb}
      → Step key n db m db'
      → Steps key m db' l db''
      → Steps key n db l db''

-- The entry under a read lease of ours and `n` of others, with the artifact it had.
pub record Held (key : ℕ) (first : EntryRow) (n : ℕ) (db : CacheDb) : Type 0 where
  pub now : EntryRow
  pub there : row_at key db ≡ some now
  pub leases : now.lease_count ≡ suc n
  pub path : now.relative_path ≡ first.relative_path
  pub artifact : now.artifact_hash ≡ first.artifact_hash
  pub free : same_state now.state quarantined ≡ false
  pub distinct : Distinct row_key db.entries

-- An UPDATE after which the row of the key still has its artifact and its state is not quarantined.
pub changed :
    (key : ℕ) (first : EntryRow) (n m : ℕ) (db : CacheDb) (hit : EntryRow → Bool)
    (change : EntryRow → EntryRow)
    → ((r : EntryRow) → row_key (change r) ≡ row_key r)
    → ((r : EntryRow) → (change r).relative_path ≡ r.relative_path)
    → ((r : EntryRow) → (change r).artifact_hash ≡ r.artifact_hash)
    → (h : Held key first n db)
    → (hit h.now ≡ false) ⊎ (same_state (change h.now).state quarantined ≡ false)
    → (if hit h.now then change h.now else h.now).lease_count ≡ suc m
    → Held key first m (update_entries hit change db)
changed key first n m db hit change same p a h state leases = record {
  now = if hit h.now then change h.now else h.now;
  there = find-update_found row_key hit change key db.entries h.now same h.there;
  leases = leases;
  path = elim (Bool-cases (hit h.now)) [ inl t ↦ rw t (p h.now ∙ h.path) | inr f ↦ rw f h.path ];
  artifact = elim (Bool-cases (hit h.now)) [
    | inl t ↦ rw t (a h.now ∙ h.artifact)
    | inr f ↦ rw f h.artifact
  ];
  free = elim (Bool-cases (hit h.now)) [
    | inr f ↦ rw f h.free
    | inl t ↦ rw t (elim state [ inl f ↦ absurd (cc (sym t ∙ f)) | inr f ↦ f ])
  ];
  distinct = update_where-Distinct row_key hit change db.entries same h.distinct;
}

pub same_leases :
    (n : ℕ) (hit : Bool) (r s : EntryRow)
    → s.lease_count ≡ r.lease_count
    → r.lease_count ≡ suc n
    → (if hit then s else r).lease_count ≡ suc n
same_leases n true r s e h = e ∙ h
same_leases n false r s e h = h

pub find-keep :
    (p : EntryRow → Bool) (key : ℕ) (rs : List EntryRow) (r : EntryRow)
    → find (λ x. row_key x == key) rs ≡ some r
    → p r ≡ true
    → find (λ x. row_key x == key) (keep p rs) ≡ some r
find-keep p key [] r f t = absurd (cc f)
find-keep p key (x ∷ xs) r f t = ground (arith, find-keep p key xs r)

find-keep-none :
    (p : EntryRow → Bool) (key : ℕ) (rs : List EntryRow)
    → find (λ x. row_key x == key) rs ≡ none
    → find (λ x. row_key x == key) (keep p rs) ≡ none
find-keep-none p key [] f = refl
find-keep-none p key (x ∷ xs) f = ground (arith, find-keep-none p key xs)

pub keep-Distinct :
    (p : EntryRow → Bool) (rs : List EntryRow) → Distinct row_key rs → Distinct row_key (keep p rs)
keep-Distinct p [] d = tt
keep-Distinct p (x ∷ xs) d = elim (Bool-cases (p x)) [
  | inl t ↦ rw t (find-keep-none p (row_key x) xs d.0, keep-Distinct p xs d.1)
  | inr f ↦ rw f (keep-Distinct p xs d.1)
]
