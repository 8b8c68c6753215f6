-- ===== src/Cache/Gc.antt =====
-- cache/gc.py: the collector of the cache index. A path that pathlib resolves is a parameter: it is
-- absent where the path is refused, which is a `CacheGcError`. So is whether a file can be unlinked.
use ppt_video_workbench_v.Base.{
  ℕ, ◌-◌, List, [], ◌∷◌, Option, none, some, Bool, true, false, not, ◌||◌, ◌&&◌, any, ◌==◌, ltb,
  leb, sum_of, keep, String, if◌then◌else◌,
}
use ppt_video_workbench_v.Cache.Index.{
  CacheEntry, size_of, CacheRepository, Disk, value_error, gc_error, os_error, Result, ok, err,
  list, remove,
}

-- The reason is the same for each candidate.
pub record CacheGcCandidate : Type 0 where
  pub cache_key : ℕ
  pub relative_path : String
  pub size_bytes : ℕ

pub record CacheGcResult : Type 0 where
  pub dry_run : Bool
  pub bytes_before : ℕ
  pub bytes_reclaimed : ℕ
  pub candidates : List CacheGcCandidate

pub record CacheGarbageCollector : Type 0 where
  pub high_watermark_bytes : ℕ
  pub low_watermark_bytes : ℕ

-- `__init__`
unfoldable pub new_collector : ℕ → ℕ → Result CacheGarbageCollector
new_collector high low =
    if ltb high low
    then err value_error
    else ok (record { high_watermark_bytes = high; low_watermark_bytes = low })

-- The repository and the files that exist.
pub record Store (File : Type 0) : Type 0 where
  pub repository : CacheRepository File
  pub files : List ℕ

-- The candidates and the projected size.
abbrev pub Chosen : Type 0
Chosen = List CacheGcCandidate × ℕ

abbrev pub skipped : CacheEntry → Bool
skipped e = e.protected || (not e.rebuildable || ltb 0 e.lease_count)

abbrev pub candidate_of : CacheEntry → CacheGcCandidate
candidate_of e = record {
  cache_key = e.cache_key;
  relative_path = e.relative_path;
  size_bytes = e.size_bytes;
}

-- The rest of the loop, behind the candidate.
abbrev pub with_candidate :
    {File : Type 0} → CacheEntry → Result Chosen × Store File → Result Chosen × Store File
with_candidate e (ok (cs, projected), s) = (ok (candidate_of e ∷ cs, projected), s)
with_candidate e (err x, s) = (err x, s)

abbrev pub is_ok : {A : Type 0} → Result A → Bool
is_ok (ok a) = true
is_ok (err e) = false

abbrev pub collected :
    {File : Type 0} → Bool → ℕ → Result Chosen × Store File → Result CacheGcResult × Store File
collected dry_run before (ok (cs, projected), s) = (
  ok (record {
    dry_run = dry_run;
    bytes_before = before;
    bytes_reclaimed = before - projected;
    candidates = cs;
  }),
  s,
)
collected dry_run before (err x, s) = (err x, s)

-- The file is there and cannot be unlinked.
unfoldable pub is_stuck : {File : Type 0} → (ℕ → Bool) → ℕ → Store File → Bool
is_stuck unlinks path s = any (λ f. f == path) s.files && not (unlinks path)

-- The file is unlinked where it exists, and the entry removed, which may fail to write the index.
unfoldable pub evict : {File : Type 0} → Disk File → CacheEntry → ℕ → Store File → Store File
unfolding remove
evict disk e path s = record {
  repository = (remove disk e.cache_key s.repository).1;
  files = keep (λ f. not (f == path)) s.files;
}

unfoldable pub is_removed : {File : Type 0} → Disk File → CacheEntry → Store File → Bool
unfolding remove
is_removed disk e s = is_ok (remove disk e.cache_key s.repository).0

module _ {File : Type 0} (disk : Disk File) (resolve : String → Option ℕ) (unlinks : ℕ → Bool) where
  unfoldable pub gc_loop : Bool → ℕ → List CacheEntry → ℕ → Store File → Result Chosen × Store File
  unfolding evict is_stuck is_removed
  gc_loop dry_run low [] projected s = (ok ([], projected), s)
  gc_loop dry_run low (e ∷ es) projected s = elim (leb projected low) [
    | true ↦ (ok ([], projected), s)
    | false ↦ elim (skipped e) [
      | true ↦ gc_loop dry_run low es projected s
      | false ↦ elim dry_run [
        | true ↦ with_candidate e (gc_loop dry_run low es (projected - e.size_bytes) s)
        | false ↦ elim (resolve e.relative_path) [
          | none ↦ (err gc_error, s)
          | some path ↦ elim (is_stuck unlinks path s) [
            | true ↦ (err os_error, s)
            | false ↦ elim (is_removed disk e s) [
              | true ↦
                  with_candidate e
                    (gc_loop dry_run low es (projected - e.size_bytes) (evict disk e path s))
              | false ↦ (err os_error, evict disk e path s)
            ]
          ]
        ]
      ]
    ]
  ]

  unfoldable pub collect :
      CacheGarbageCollector → Bool → Store File → Result CacheGcResult × Store File
  unfolding gc_loop
  collect c dry_run s =
      let entries = list s.repository in
      let before = sum_of size_of entries in
      if leb before c.high_watermark_bytes
      then collected dry_run before (ok ([], before), s)
      else collected dry_run before (gc_loop dry_run c.low_watermark_bytes entries before s)
