-- ===== src/Cache/GcReturns.antt =====
-- A real run of the collector (cache/gc.py) returns, and what it leaves in the cache.
use ppt_video_workbench_v.Base.{
  All-sorted, Bool, false, sorted, ℕ, ◌+◌, ◌-◌, ◌<◌, ◌≡◌, refl, List, [], ◌∷◌, Option, true, false,
  leb, sum_of, Distinct, String, arith, All, Bool-cases, Option-cases, inl, inr, is_some,
  sum_of-sorted,
}
use ppt_video_workbench_v.Cache.Index.{
  CacheEntry, Disk, entry_at, pop_entry, Result, ok, err, key_of, size_of, older, list,
}
use ppt_video_workbench_v.Cache.Gc.{
  CacheGcResult, CacheGarbageCollector, Store, Chosen, skipped, with_candidate, evict, is_stuck,
  is_removed, gc_loop, collected, collect,
}
use ppt_video_workbench_v.Cache.GcPending.{Leaves, Frees-Leaves, entries_of, total}
use ppt_video_workbench_v.Cache.GcFrees.{real-Frees}

-- Every path of the entries can be resolved.
abbrev pub Resolvable : (String → Option ℕ) → List CacheEntry → Type 0
Resolvable resolve es = All (λ e. is_some (resolve e.relative_path) ≡ true) es

-- Every file can be unlinked, and the index can be written.
pub record Unhindered {File : Type 0} (disk : Disk File) (unlinks : ℕ → Bool) : Type 0 where
  pub removable : (path : ℕ) → unlinks path ≡ true
  pub writable : (file : File) → disk.writes file ≡ true

unlinked :
    {File : Type 0} (disk : Disk File) (unlinks : ℕ → Bool) (path : ℕ) (s : Store File)
    → Unhindered disk unlinks
    → is_stuck unlinks path s ≡ false
unfolding is_stuck
unlinked disk unlinks path s u = rw (u.removable path) (ground arith)

removed :
    {File : Type 0} (disk : Disk File) (unlinks : ℕ → Bool) (e : CacheEntry) (s : Store File)
    → Unhindered disk unlinks
    → is_removed disk e s ≡ true
unfolding is_removed
removed disk unlinks e s u =
    elim (Bool-cases (is_some (entry_at e.cache_key s.repository.entries))) [
      | inl t ↦
          rw (t, u.writable (disk.dump (sorted older (pop_entry e.cache_key s.repository.entries))))
            refl
      | inr f ↦ rw f refl
    ]

with_returns :
    {File : Type 0} (e : CacheEntry) (x : Result Chosen × Store File) (ds : Chosen)
    → x.0 ≡ ok ds
    → (cs : Chosen) × ((with_candidate e x).0 ≡ ok cs)
with_returns e (ok cs, s) ds h = (_, refl)
with_returns e (err z, s) ds h = absurd (cc h)

loop_returns :
    {File : Type 0} (disk : Disk File) (resolve : String → Option ℕ) (unlinks : ℕ → Bool) (low : ℕ)
    (es : List CacheEntry) (projected : ℕ) (s : Store File)
    → Unhindered disk unlinks
    → Resolvable resolve es
    → (ds : Chosen) × ((gc_loop disk resolve unlinks false low es projected s).0 ≡ ok ds)
unfolding gc_loop
loop_returns disk resolve unlinks low [] projected s u h = (_, refl)
loop_returns disk resolve unlinks low (e ∷ es) projected s u h =
    elim (Bool-cases (leb projected low)) [
      | inl a ↦ rw (gc_loop, a) (([], projected), refl)
      | inr a ↦
          rw (gc_loop, a)
            (elim (Bool-cases (skipped e)) [
              | inl b ↦ rw b (loop_returns disk resolve unlinks low es projected s u h.1)
              | inr b ↦ elim (Option-cases (resolve e.relative_path)) [
                | inl n ↦ let no = h.0 in absurd (cc (rw n at no))
                | inr (path, n) ↦
                    let (ds, f) =
                      loop_returns disk resolve unlinks low es (projected - e.size_bytes)
                        (evict disk e path s) u h.1 in
                    let m = unlinked disk unlinks path s u in
                    let w = removed disk unlinks e s u in
                    rw (b, n, m, w)
                      (with_returns e
                        (gc_loop disk resolve unlinks false low es (projected - e.size_bytes)
                          (evict disk e path s))
                        ds f)
              ]
            ])
    ]

collected_returns :
    {File : Type 0} (before : ℕ) (x : Result Chosen × Store File) (ds : Chosen)
    → x.0 ≡ ok ds
    → (r : CacheGcResult) × ((collected false before x).0 ≡ ok r)
collected_returns before (ok cs, s) ds h = (_, refl)
collected_returns before (err z, s) ds h = absurd (cc h)

-- On a store whose entries have distinct keys and resolvable paths and together are above the high
-- watermark, where every file can be unlinked and the index written, a real run returns. After it
-- an entry that is protected, leased or cannot be rebuilt is still there; no entry is new or
-- changed; the bytes reported as reclaimed are those that are gone; and the entries that are left
-- fit the low watermark, or each of them is one that may not be evicted.
pub collect-Leaves :
    {File : Type 0} (disk : Disk File) (resolve : String → Option ℕ) (unlinks : ℕ → Bool)
    (c : CacheGarbageCollector) (s : Store File)
    → Distinct key_of (entries_of s)
    → Unhindered disk unlinks
    → Resolvable resolve (entries_of s)
    → c.high_watermark_bytes < total s
    → (r : CacheGcResult) × ((collect disk resolve unlinks c false s).0 ≡ ok r)
      × Leaves c.low_watermark_bytes s (collect disk resolve unlinks c false s).1
      × (r.bytes_reclaimed + total (collect disk resolve unlinks c false s).1 ≡ total s)
unfolding collect
collect-Leaves disk resolve unlinks c s d u h above =
    let entries = list s.repository in
    let before = sum_of size_of entries in
    let same : before ≡ total s = sum_of-sorted older size_of (entries_of s) in
    let high : leb before c.high_watermark_bytes ≡ false = ground arith in
    let (ds, f) =
      loop_returns disk resolve unlinks c.low_watermark_bytes entries before s u
        (All-sorted (λ e. is_some (resolve e.relative_path) ≡ true) older (entries_of s) h) in
    let (r, g) =
      collected_returns before
        (gc_loop disk resolve unlinks false c.low_watermark_bytes entries before s) ds f in
    let e : (collect disk resolve unlinks c false s).0 ≡ ok r = rw high g in
    let (frees, sum) = real-Frees disk resolve unlinks c s r d above e in
    let t = (collect disk resolve unlinks c false s).1 in
    (r, e, Frees-Leaves c.low_watermark_bytes s (total t) t frees, sum)
