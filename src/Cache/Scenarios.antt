-- ===== src/Cache/Scenarios.antt =====
-- Runs of the cache index and its collector on three entries.
use ppt_video_workbench_v.Base.{
  ℕ, ◌+◌, ◌≡◌, refl, Bool, List, [], ◌∷◌, Option, none, some, true, false, Distinct, String, arith,
}
use ppt_video_workbench_v.Base.Int.{pos}
use ppt_video_workbench_v.Cache.Index.{
  CacheEntry, Disk, value_error, ok, err, key_of, list, at_start, Call, put_call, get_call,
  remove_call, lease_call, after_calls, load,
}
use ppt_video_workbench_v.Cache.Gc.{
  CacheGarbageCollector, CacheGcResult, Store, collect, new_collector,
}
use ppt_video_workbench_v.Cache.GcPlan.{dry_run_plan}
use ppt_video_workbench_v.Cache.GcPending.{total, Leaves}
use ppt_video_workbench_v.Cache.GcReturns.{Unhindered, collect-Leaves}

abbrev entry : ℕ → ℕ → ℕ → ℕ → CacheEntry
entry key size leases accessed = record {
  cache_key = key;
  project_id = 1;
  artifact_hash = 7;
  relative_path = "clip.mp4";
  size_bytes = size;
  dependencies = [];
  rebuildable = true;
  protected = false;
  lease_count = leases;
  created_at = 0;
  last_accessed_at = accessed;
}

-- The oldest entry is leased.
abbrev three : List CacheEntry
three = entry 1 10 0 50 ∷ entry 2 20 1 40 ∷ entry 3 30 0 60 ∷ []

-- The text of a list of entries, and what is read of it, are the list itself here.
abbrev disk : Disk (List CacheEntry)
disk = record { dump = λ es. es; parse = λ es. some es; writes = λ es. true }

abbrev all_unlink : ℕ → Bool
all_unlink path = true

unhindered : Unhindered disk all_unlink
unhindered = record { removable = λ p. refl; writable = λ es. refl }

abbrev full : Store (List CacheEntry)
full = record { repository = record { entries = three; index = some three }; files = 8 ∷ 9 ∷ [] }

abbrev one_path : String → Option ℕ
one_path path = some 9

abbrev collector : CacheGarbageCollector
collector = record { high_watermark_bytes = 55; low_watermark_bytes = 50 }

three-Distinct : Distinct key_of three
three-Distinct = (refl, (refl, (refl, tt)))

bad_watermarks : (new_collector 40 50 ≡ err value_error)
unfolding new_collector
bad_watermarks = refl

-- The entry of key 1 goes, in the order of the last access, and no more is needed.
collect_three : collect disk one_path all_unlink collector false full ≡ (
  ok (record {
    dry_run = false;
    bytes_before = 60;
    bytes_reclaimed = 10;
    candidates = record { cache_key = 1; relative_path = "clip.mp4"; size_bytes = 10 } ∷ [];
  }),
  record {
    repository = record {
      entries = entry 2 20 1 40 ∷ entry 3 30 0 60 ∷ [];
      index = some (entry 2 20 1 40 ∷ entry 3 30 0 60 ∷ []);
    };
    files = 8 ∷ [];
  },
)
unfolding collect
collect_three = refl

abbrev calls : List Call
calls =
    put_call (entry 1 10 0 50)
    ∷ put_call (entry 2 20 1 40)
    ∷ get_call 2 true 70
    ∷ lease_call 1 (pos 2)
    ∷ remove_call 3
    ∷ []

after_five :
    list (after_calls disk calls (at_start disk none)) ≡ entry 1 10 2 50 ∷ entry 2 20 1 70 ∷ []
unfolding after_calls load
after_five = refl

dry_run_plan_example :
    (r : CacheGcResult) × (collect disk one_path all_unlink collector true full ≡ (ok r, full))
    × ((real : CacheGcResult)
        → (collect disk one_path all_unlink collector false full).0 ≡ ok real
        → real ≡ record r { dry_run = false })
dry_run_plan_example = dry_run_plan disk one_path all_unlink collector full

collect-Leaves_example :
    (r : CacheGcResult) × ((collect disk one_path all_unlink collector false full).0 ≡ ok r)
    × Leaves 50 full (collect disk one_path all_unlink collector false full).1
    × (r.bytes_reclaimed + total (collect disk one_path all_unlink collector false full).1 ≡ 60)
collect-Leaves_example =
    collect-Leaves disk one_path all_unlink collector full three-Distinct unhindered
      (refl, (refl, (refl, tt))) (omega arith)
