-- ===== src/Cache/PersistentGc.antt =====
-- cache/persistent_gc.py: the collector of the cache in the database. Whether the path of an entry is
-- accepted, and whether its file can be unlinked, are parameters.
use ppt_video_workbench_v.Base.{
  ℕ, ◌+◌, ◌-◌, List, [], ◌∷◌, none, Bool, true, false, not, ◌&&◌, ◌||◌, ◌==◌, ltb, leb, sum_of,
  keep, sorted, String, if◌then◌else◌,
}
use ppt_video_workbench_v.Cache.Contracts.{CacheEntryState, stale, corrupted, same_state}
use ppt_video_workbench_v.Cache.Persistent.{
  EntryRow, PersistentCacheEntry, CacheDb, value_error, Result, ok, err, list,
}
use ppt_video_workbench_v.Cache.Lookup.{reserve_gc, remove_quarantined}

-- The reason of a candidate names its state.
pub record Candidate : Type 0 where
  pub cache_key : ℕ
  pub relative_path : String
  pub size_bytes : ℕ
  pub reason : CacheEntryState

pub record GcResult : Type 0 where
  pub dry_run : Bool
  pub bytes_before : ℕ
  pub bytes_reclaimed : ℕ
  pub candidates : List Candidate

abbrev pub entry_size : PersistentCacheEntry → ℕ
entry_size e = e.row.size_bytes

abbrev pub eligible : PersistentCacheEntry → Bool
eligible e = e.row.rebuildable && (not e.row.protected && (e.row.lease_count == 0))

-- `entry.state.value in {"stale", "corrupted"}`
abbrev pub is_spoilt : PersistentCacheEntry → Bool
is_spoilt e = same_state e.row.state stale || same_state e.row.state corrupted

abbrev pub accessed_before : PersistentCacheEntry → PersistentCacheEntry → Bool
accessed_before a b =
    ltb a.row.last_accessed_at b.row.last_accessed_at
    || ((a.row.last_accessed_at == b.row.last_accessed_at) && ltb a.row.cache_key b.row.cache_key)

-- The order of the keys `(0 or 1, last access, key)`.
unfoldable pub goes_first : PersistentCacheEntry → PersistentCacheEntry → Bool
unfolding same_state
goes_first a b =
    if is_spoilt a
    then not (is_spoilt b) || accessed_before a b
    else not (is_spoilt b) && accessed_before a b

abbrev pub candidate_of : PersistentCacheEntry → Candidate
candidate_of e = record {
  cache_key = e.row.cache_key;
  relative_path = e.row.relative_path;
  size_bytes = e.row.size_bytes;
  reason = e.row.state;
}

-- What the loop has at its end.
pub record Sweep : Type 0 where
  pub candidates : List Candidate
  pub projected : ℕ
  pub reclaimed : ℕ

abbrev pub with_candidate :
    PersistentCacheEntry → ℕ → Result Sweep × CacheDb → Result Sweep × CacheDb
with_candidate e freed (ok w, db) = (
  ok (record w { candidates = candidate_of e ∷ w.candidates; reclaimed = freed + w.reclaimed }),
  db,
)
with_candidate e freed (err x, db) = (err x, db)

abbrev pub swept : Bool → ℕ → Result Sweep × CacheDb → Result GcResult × CacheDb
swept dry_run before (ok w, db) = (
  ok (record {
    dry_run = dry_run;
    bytes_before = before;
    bytes_reclaimed = if dry_run then before - w.projected else w.reclaimed;
    candidates = w.candidates;
  }),
  db,
)
swept dry_run before (err x, db) = (err x, db)

-- The rest of the loop, where the path was not refused.
abbrev pub then_rest :
    PersistentCacheEntry
    → Result ℕ × CacheDb
    → (CacheDb → Result Sweep × CacheDb)
    → Result Sweep × CacheDb
then_rest e (ok freed, db) rest = with_candidate e freed (rest db)
then_rest e (err x, db) rest = (err x, db)

-- What follows the candidate in a real run: the bytes that it reclaims and the tables, or nothing
-- where the path is refused, which raises.
module _ (contained unlinks : EntryRow → Bool) where
  abbrev pub take_out : PersistentCacheEntry → Bool × CacheDb → ℕ × CacheDb
  take_out e (removed, db) = (if removed then e.row.size_bytes else 0, db)

  abbrev pub after_reserve : PersistentCacheEntry → Bool × CacheDb → Result ℕ × CacheDb
  after_reserve e (held, db) =
      if not held
      then (ok 0, db)
      else if not (contained e.row)
      then (err value_error, db)
      else if not (unlinks e.row)
      then (ok 0, db)
      else (
        ok (take_out e (remove_quarantined e.row.cache_key db)).0,
        (take_out e (remove_quarantined e.row.cache_key db)).1,
      )

  abbrev pub sweep_one : Bool → PersistentCacheEntry → CacheDb → Result ℕ × CacheDb
  sweep_one dry_run e db =
      if dry_run then (ok 0, db) else after_reserve e (reserve_gc e.row.cache_key e.row.revision db)

  unfoldable pub sweep : Bool → ℕ → List PersistentCacheEntry → ℕ → CacheDb → Result Sweep × CacheDb
  unfolding reserve_gc remove_quarantined
  sweep dry_run low [] projected db =
      (ok (record { candidates = []; projected = projected; reclaimed = 0 }), db)
  sweep dry_run low (e ∷ es) projected db = elim (leb projected low) [
    | true ↦ (ok (record { candidates = []; projected = projected; reclaimed = 0 }), db)
    | false ↦
        then_rest e (sweep_one dry_run e db) (sweep dry_run low es (projected - e.row.size_bytes))
  ]

  unfoldable pub collect : ℕ → ℕ → Bool → CacheDb → Result GcResult × CacheDb
  unfolding sweep goes_first list
  collect high low dry_run db =
      let entries = list none db in
      let before = sum_of entry_size entries in
      if leb before high
      then (
        ok (record {
          dry_run = dry_run;
          bytes_before = before;
          bytes_reclaimed = 0;
          candidates = [];
        }),
        db,
      )
      else swept dry_run before
          (sweep dry_run low (sorted goes_first (keep eligible entries)) before db)
