-- ===== src/Cache/LookupNet.antt =====
-- A lookup of cache/persistent_repository.py as one change of the tables.
use ppt_video_workbench_v.Base.{
  ℕ, ◌+◌, ◌-◌, ◌≡◌, refl, sym, ap, subst, ◌∙◌, Option, none, some, Bool, true, false, not, ◌&&◌,
  ltb, String, str_eq, if◌then◌else◌, arith, Bool-cases, Option-cases, inl, inr, find-key,
  find-update_found, find-update_none, ==_iff,
}
use ppt_video_workbench_v.Cache.Contracts.{
  CacheEntryState, ready, stale, corrupted, same_state, StaleReason, runtime_incompatible,
  license_invalid, artifact_mismatch,
}
use ppt_video_workbench_v.Cache.Persistent.{
  EntryRow, CacheDb, row_key, row_at, is_row, update_entries,
}
use ppt_video_workbench_v.Cache.Lookup.{
  CacheLookupResult, marked, is_ready, leased_more, is_leased, leased_less, touched, license_bad,
}

module _ (intact : EntryRow → Bool) where
  -- What a lookup makes of a row.
  abbrev pub looked : ℕ → String → ℕ → EntryRow → EntryRow
  looked key fingerprint now r =
      if not (is_row key r && same_state r.state ready)
      then r
      else if not (str_eq r.runtime_fingerprint fingerprint)
      then marked stale runtime_incompatible r
      else if license_bad r
      then marked stale license_invalid r
      else if intact r
      then touched now r
      else marked corrupted artifact_mismatch r

  abbrev pub looked_up : ℕ → String → ℕ → Option EntryRow → Option EntryRow
  looked_up key fingerprint now none = none
  looked_up key fingerprint now (some r) = some (looked key fingerprint now r)

  -- Which row is a hit.
  abbrev pub hits : String → Option EntryRow → Bool
  hits fingerprint none = false
  hits fingerprint (some r) =
      same_state r.state ready
      && (str_eq r.runtime_fingerprint fingerprint && (not (license_bad r) && intact r))

abbrev pub after_update :
    (EntryRow → Bool) → (EntryRow → EntryRow) → Option EntryRow → Option EntryRow
after_update hit change none = none
after_update hit change (some r) = some (if hit r then change r else r)

pub row_at-update :
    (k : ℕ) (hit : EntryRow → Bool) (change : EntryRow → EntryRow) (db : CacheDb)
    → ((r : EntryRow) → row_key (change r) ≡ row_key r)
    → row_at k (update_entries hit change db) ≡ after_update hit change (row_at k db)
row_at-update k hit change db same = elim (Option-cases (row_at k db)) [
  | inl n ↦ rw n (find-update_none row_key hit change k db.entries same n)
  | inr (r, f) ↦ rw f (find-update_found row_key hit change k db.entries r same f)
]

-- The updates of a lookup that reads the artifact.
abbrev pub leased_updates : ℕ → (EntryRow → Bool) → (EntryRow → EntryRow) → CacheDb → CacheDb
leased_updates key hit change db =
    update_entries (is_leased key) leased_less
      (update_entries hit change (update_entries (is_ready key) leased_more db))

pub row_at-leased :
    (k key : ℕ) (hit : EntryRow → Bool) (change : EntryRow → EntryRow) (db : CacheDb)
    → ((r : EntryRow) → row_key (change r) ≡ row_key r)
    → row_at k (leased_updates key hit change db)
      ≡ after_update
          (is_leased key)
          leased_less
          (after_update hit change (after_update (is_ready key) leased_more (row_at k db)))
row_at-leased k key hit change db same =
    let one = update_entries (is_ready key) leased_more db in
    row_at-update k (is_leased key) leased_less (update_entries hit change one) (λ r. refl)
    ∙ ap (after_update (is_leased key) leased_less) (
        row_at-update k hit change one same
        ∙ ap (after_update hit change) (row_at-update k (is_ready key) leased_more db (λ r. refl)))

add_less : (n : ℕ) → n + 1 - 1 ≡ n
add_less n = omega arith

pub leased_touched :
    (key now : ℕ) (r : EntryRow)
    → is_row key r ≡ true
    → same_state r.state ready ≡ true
    → after_update (is_leased key) leased_less (
        after_update
          (is_ready key)
          (touched now)
          (after_update (is_ready key) leased_more (some r)))
      ≡ some (touched now r)
leased_touched key now r k s =
    let more : ltb 0 (r.lease_count + 1) ≡ true = ground arith in
    rw (k, s)
      (rw (k, s, more)
        (rw k (
          ap (λ n. some (record r { last_accessed_at = now; lease_count = n }))
            (add_less r.lease_count))))

pub leased_marked :
    (key : ℕ) (state : CacheEntryState) (reason : StaleReason) (r : EntryRow)
    → is_row key r ≡ true
    → same_state r.state ready ≡ true
    → after_update (is_leased key) leased_less (
        after_update
          (is_row key)
          (marked state reason)
          (after_update (is_ready key) leased_more (some r)))
      ≡ some (marked state reason r)
leased_marked key state reason r k s =
    let more : ltb 0 (r.lease_count + 1) ≡ true = ground arith in
    rw (k, s)
      (rw (k, more)
        (rw k (
          ap
            (λ n. some (record r {
              state = state;
              stale_reason = some reason;
              lease_count = n;
              revision = r.revision + 1;
            }))
            (add_less r.lease_count))))

module _ (intact : EntryRow → Bool) (key : ℕ) (fingerprint : String) (now : ℕ) where
  -- The answer and the tables of a lookup are those of one conditional change of the row.
  abbrev pub Nets : CacheDb → CacheLookupResult × CacheDb → Type 0
  Nets db x =
      (x.0.hit ≡ hits intact fingerprint (row_at key db))
      × ((k : ℕ) → row_at k x.1 ≡ looked_up intact key fingerprint now (row_at k db))

  pub elsewhere : (r : EntryRow) → is_row key r ≡ false → looked intact key fingerprint now r ≡ r
  elsewhere r h = rw h refl

  -- A change that leaves every other row alone and makes of the row what a lookup should.
  pub on_row :
      (db : CacheDb) (r : EntryRow) (change : Option EntryRow → Option EntryRow)
      → row_at key db ≡ some r
      → change none ≡ none
      → ((x : EntryRow) → is_row key x ≡ false → change (some x) ≡ some x)
      → change (some r) ≡ some (looked intact key fingerprint now r)
      → (k : ℕ) → change (row_at k db) ≡ looked_up intact key fingerprint now (row_at k db)
  on_row db r change f n o h k = go (row_at k db) refl
    where
      go :
          (x : Option EntryRow)
          → row_at k db ≡ x
          → change x ≡ looked_up intact key fingerprint now x
      go none e = n
      go (some x) e = elim (Bool-cases (is_row key x)) [
        | inr g ↦ o x g ∙ ap some (sym (elsewhere x g))
        | inl g ↦
            let at : k ≡ key =
              sym (find-key row_key k db.entries x e) ∙ (==_iff (row_key x) key).0 g in
            let same : r ≡ x = some_row (sym f ∙ ap (λ m. row_at m db) (sym at) ∙ e) in
            subst (λ z. change (some z) ≡ some (looked intact key fingerprint now z)) same h
      ]
        where
          some_row : {a b : EntryRow} → some a ≡ some b → a ≡ b
          some_row q = cc
