-- ===== src/Cache/Reopen.antt =====
-- The file of the cache index (cache/repository.py) against the dictionary in memory.
use ppt_video_workbench_v.Base.{ℕ, ◌≡◌, List, some, true, sorted, Distinct}
use ppt_video_workbench_v.Cache.Index.{
  CacheEntry, CacheRepository, Disk, key_of, entry_at, older, list, load,
}

module _ {File : Type 0} (disk : Disk File)
    (reads_back : (es : List CacheEntry) → disk.parse (disk.dump es) ≡ some es)
    (always_writes : (file : File) → disk.writes file ≡ true) where
  -- The dictionary has each key once, and the file gives the same entries.
  pub record IsSaved (r : CacheRepository File) : Type 0 where
    pub distinct : Distinct key_of r.entries
    pub listed : sorted older (load disk r.index) ≡ list r
    pub found : (k : ℕ) → entry_at k (load disk r.index) ≡ entry_at k r.entries
