-- ===== src/Cache/GcFrees.antt =====
-- What a real run of the collector (cache/gc.py) leaves in the cache.
use ppt_video_workbench_v.Base.{
  ℕ, ◌+◌, ◌-◌, ◌<◌, ◌≡◌, ◌⊎◌, Bool, refl, sym, ap, subst, ◌∙◌, List, [], ◌∷◌, Option, true, false,
  leb, sum_of, Distinct, String, arith, Bool-cases, Option-cases, inl, inr, find-sorted,
  sorted-Distinct, sum_of-sorted,
}
use ppt_video_workbench_v.Cache.Index.{
  CacheEntry, Disk, Result, ok, err, key_of, size_of, entry_at, older, list,
}
use ppt_video_workbench_v.Cache.Gc.{
  CacheGcResult, CacheGarbageCollector, Store, Chosen, skipped, with_candidate, evict, is_stuck,
  is_removed, gc_loop, collected, collect,
}
use ppt_video_workbench_v.Cache.GcPending.{
  entries_of, total, Pending, Frees, none_some, pass, drop, evict-Frees,
}

abbrev Ends : {File : Type 0} → ℕ → Store File → Result Chosen × Store File → Type 0
Ends low s x = (ds : Chosen) → x.0 ≡ ok ds → Frees low s ds.1 x.1

chosen_eq : {a b : Chosen} → ok a ≡ ok b → a ≡ b
chosen_eq h = cc

stop :
    {File : Type 0} (low : ℕ) (es : List CacheEntry) (projected : ℕ) (s : Store File)
    → Pending es projected s
    → (leb projected low ≡ true) ⊎ (es ≡ [])
    → Ends low s (ok ([], projected), s)
stop low es projected s p o ds h =
    subst (λ c. Frees low s c.1 s) (chosen_eq h)
      (record {
        kept = λ k e f w. f;
        only = λ k e f. f;
        size = p.size;
        smaller = omega arith;
        enough = elim o [
          | inl l ↦ inl (ground (arith, l, p.size))
          | inr n ↦ inr (λ k e f. elim (p.seen k e f) [
            | inl t ↦ t
            | inr t ↦ none_some (ap (entry_at k) (sym n) ∙ t)
          ])
        ];
      })

with_Ends :
    {File : Type 0} (e : CacheEntry) (low : ℕ) (s : Store File) (x : Result Chosen × Store File)
    → Ends low s x
    → Ends low s (with_candidate e x)
with_Ends e low s (ok (cs, n), t) f ds h =
    subst (λ c. Frees low s c.1 t) (chosen_eq h) (f (cs, n) refl)
with_Ends e low s (err z, t) f ds h = absurd (cc h)

module _ {File : Type 0} (disk : Disk File) (resolve : String → Option ℕ) (unlinks : ℕ → Bool) where
  loop-Ends :
      (low : ℕ) (es : List CacheEntry) (projected : ℕ) (s : Store File)
      → Pending es projected s
      → Ends low s (gc_loop disk resolve unlinks false low es projected s)
  unfolding gc_loop
  loop-Ends low [] projected s p = stop low [] projected s p (inr refl)
  loop-Ends low (e ∷ es) projected s p = elim (Bool-cases (leb projected low)) [
    | inl a ↦ rw (gc_loop, a) (stop low (e ∷ es) projected s p (inl a))
    | inr a ↦
        rw (gc_loop, a)
          (elim (Bool-cases (skipped e)) [
            | inl b ↦ rw b (loop-Ends low es projected s (pass e es projected s b p))
            | inr b ↦ elim (Option-cases (resolve e.relative_path)) [
              | inl n ↦ rw (b, n) (λ ds h. absurd (cc h))
              | inr (path, n) ↦ elim (Bool-cases (is_stuck unlinks path s)) [
                | inl m ↦ rw (b, n, m) (λ ds h. absurd (cc h))
                | inr m ↦ elim (Bool-cases (is_removed disk e s)) [
                  | inr w ↦ rw (b, n, m, w) (λ ds h. absurd (cc h))
                  | inl w ↦
                      let rest =
                        loop-Ends low es (projected - e.size_bytes) (evict disk e path s)
                          (drop disk e es projected path s p) in
                      rw (b, n, m, w)
                        (with_Ends e low s
                          (gc_loop disk resolve unlinks false low es (projected - e.size_bytes)
                            (evict disk e path s))
                          (λ ds h.
                            evict-Frees disk e es projected low path ds.1 s
                              (gc_loop disk resolve unlinks false low es (projected - e.size_bytes)
                                (evict disk e path s)).1
                              b p (rest ds h)))
                ]
              ]
            ]
          ])
  ]

  -- A run that returns: an entry that is protected, leased or cannot be rebuilt is still there; no
  -- entry is new or changed; the bytes reported as reclaimed are those that are gone; and the entries
  -- that are left fit the low watermark, or every one of them is one that may not be evicted.
  pub real-Frees :
      (c : CacheGarbageCollector) (s : Store File) (r : CacheGcResult)
      → Distinct key_of (entries_of s)
      → c.high_watermark_bytes < total s
      → (collect disk resolve unlinks c false s).0 ≡ ok r
      → Frees c.low_watermark_bytes s
          (total (collect disk resolve unlinks c false s).1)
          (collect disk resolve unlinks c false s).1
        × (r.bytes_reclaimed + total (collect disk resolve unlinks c false s).1 ≡ total s)
  unfolding collect
  real-Frees c s r d above h =
      let entries = list s.repository in
      let before = sum_of size_of entries in
      let same : before ≡ total s = sum_of-sorted older size_of (entries_of s) in
      let high : leb before c.high_watermark_bytes ≡ false = ground arith in
      let p : Pending entries before s = record {
        distinct = d;
        apart = sorted-Distinct key_of older (entries_of s) d;
        stored = λ k e f. sym (find-sorted key_of older k (entries_of s) d) ∙ f;
        seen = λ k e f. inr (find-sorted key_of older k (entries_of s) d ∙ f);
        size = same;
      } in
      rw high (
        go before same (gc_loop disk resolve unlinks false c.low_watermark_bytes entries before s)
          (loop-Ends c.low_watermark_bytes entries before s p) (rw high at h))
    where
      go :
          (before : ℕ)
          → before ≡ total s
          → (x : Result Chosen × Store File) → Ends c.low_watermark_bytes s x
          → (collected false before x).0 ≡ ok r
          → Frees c.low_watermark_bytes s
              (total (collected false before x).1)
              (collected false before x).1
            × (r.bytes_reclaimed + total (collected false before x).1 ≡ total s)
      go before same (err z, t) f q = absurd (cc q)
      go before same (ok (cs, n), t) f q =
          let e = f (cs, n) refl in
          let b : r.bytes_reclaimed ≡ before - n = cc q in
          (
            subst (λ m. Frees c.low_watermark_bytes s m t) e.size e,
            omega (arith, b, e.size, e.smaller),
          )
