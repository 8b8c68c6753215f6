-- ===== src/Cache/Lookup.antt =====
-- The lookups of cache/persistent_repository.py with their read lease, and the reservation and
-- removal of an entry by the collector. Whether the manifest and the file of an entry match their
-- hashes is a parameter: it is false too where the file cannot be read or its path is refused.
use ppt_video_workbench_v.Base.{
  ℕ, ◌+◌, ◌-◌, Option, none, some, Bool, true, false, not, ◌&&◌, ◌||◌, ◌==◌, ltb, keep, count_where,
  String, str_eq, if◌then◌else◌,
}
use ppt_video_workbench_v.Cache.Contracts.{
  CacheEntryState, ready, stale, corrupted, quarantined, same_state, StaleReason,
  runtime_incompatible, license_invalid, artifact_mismatch,
}
use ppt_video_workbench_v.Cache.Persistent.{
  EntryRow, PersistentCacheEntry, CacheDb, is_row, update_entries, of_entry, get,
}

-- The `reason` of a result.
pub data LookupReason : Type 0 where
  missing runtime_changed license_refused concurrent_invalidation artifact_corrupted found :
      LookupReason
  in_state : CacheEntryState → LookupReason

pub record CacheLookupResult : Type 0 where
  pub hit : Bool
  pub reason : LookupReason
  pub entry : Option PersistentCacheEntry

abbrev pub miss : LookupReason → CacheLookupResult
miss reason = record { hit = false; reason = reason; entry = none }

abbrev pub marked : CacheEntryState → StaleReason → EntryRow → EntryRow
marked state reason r = record r {
  state = state;
  stale_reason = some reason;
  revision = r.revision + 1;
}

-- `_mark_state`
abbrev pub mark_state : ℕ → CacheEntryState → StaleReason → CacheDb → CacheDb
mark_state key state reason db = update_entries (is_row key) (marked state reason) db

abbrev pub is_ready : ℕ → EntryRow → Bool
is_ready key r = is_row key r && same_state r.state ready

abbrev pub leased_more : EntryRow → EntryRow
leased_more r = record r { lease_count = r.lease_count + 1 }

-- `_acquire_read_lease`
unfoldable pub acquire_read_lease : ℕ → CacheDb → Bool × CacheDb
unfolding same_state
acquire_read_lease key db =
    (count_where (is_ready key) db.entries == 1, update_entries (is_ready key) leased_more db)

abbrev pub is_leased : ℕ → EntryRow → Bool
is_leased key r = is_row key r && ltb 0 r.lease_count

abbrev pub leased_less : EntryRow → EntryRow
leased_less r = record r { lease_count = r.lease_count - 1 }

-- `_release_read_lease`
unfoldable pub release_read_lease : ℕ → CacheDb → CacheDb
release_read_lease key db = update_entries (is_leased key) leased_less db

abbrev pub touched : ℕ → EntryRow → EntryRow
touched now r = record r { last_accessed_at = now }

abbrev pub license_bad : EntryRow → Bool
license_bad r = str_eq r.license_status "expired" || str_eq r.license_status "blocked"

module _ (intact : EntryRow → Bool) where
  -- Under the read lease, which is given back at the end.
  abbrev pub read : ℕ → ℕ → PersistentCacheEntry → CacheDb → CacheLookupResult × CacheDb
  read key now e db =
      if intact e.row
      then (
        record { hit = true; reason = found; entry = some e },
        release_read_lease key (update_entries (is_ready key) (touched now) db),
      )
      else (
        miss artifact_corrupted,
        release_read_lease key (mark_state key corrupted artifact_mismatch db),
      )

  abbrev pub read_leased :
      ℕ → ℕ → PersistentCacheEntry → Bool × CacheDb → CacheLookupResult × CacheDb
  read_leased key now e (acquired, db) =
      if acquired then read key now e db else (miss concurrent_invalidation, db)

  abbrev pub lookup_found :
      ℕ → String → ℕ → Option PersistentCacheEntry → CacheDb → CacheLookupResult × CacheDb
  lookup_found key fingerprint now none db = (miss missing, db)
  lookup_found key fingerprint now (some e) db =
      if not (same_state e.row.state ready)
      then (record { hit = false; reason = in_state e.row.state; entry = some e }, db)
      else if not (str_eq e.row.runtime_fingerprint fingerprint)
      then (miss runtime_changed, mark_state key stale runtime_incompatible db)
      else if license_bad e.row
      then (miss license_refused, mark_state key stale license_invalid db)
      else read_leased key now e (acquire_read_lease key db)

  unfoldable pub lookup : ℕ → String → ℕ → CacheDb → CacheLookupResult × CacheDb
  unfolding acquire_read_lease release_read_lease get same_state
  lookup key fingerprint now db = lookup_found key fingerprint now (get key db) db

abbrev pub reservable : ℕ → ℕ → EntryRow → Bool
reservable key revision r =
    is_row key r && ((r.revision == revision) && ((r.lease_count == 0) && not r.protected))

abbrev pub reserved : EntryRow → EntryRow
reserved r = record r { state = quarantined; revision = r.revision + 1 }

unfoldable pub reserve_gc : ℕ → ℕ → CacheDb → Bool × CacheDb
reserve_gc key revision db = (
  count_where (reservable key revision) db.entries == 1,
  update_entries (reservable key revision) reserved db,
)

abbrev pub removable : ℕ → EntryRow → Bool
removable key r = is_row key r && (same_state r.state quarantined && (r.lease_count == 0))

unfoldable pub remove_quarantined : ℕ → CacheDb → Bool × CacheDb
unfolding same_state
remove_quarantined key db =
    let one = count_where (removable key) db.entries == 1 in
    (
      one,
      record {
        entries = keep (λ r. not (removable key r)) db.entries;
        dependencies =
            if one then keep (λ d. not (of_entry key d)) db.dependencies else db.dependencies;
      },
    )
