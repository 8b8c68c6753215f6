-- ===== src/Cache/GcPlan.antt =====
-- A dry run of the collector (cache/gc.py) against a real one.
use ppt_video_workbench_v.Base.{
  ℕ, ◌-◌, ◌≡◌, refl, Bool, List, [], ◌∷◌, Option, true, false, leb, sum_of, String, Bool-cases,
  Option-cases, inl, inr, ◌∙◌, ap, sym,
}
use ppt_video_workbench_v.Cache.Index.{CacheEntry, Disk, size_of, list, Result, ok, err}
use ppt_video_workbench_v.Cache.Gc.{
  CacheGcResult, CacheGarbageCollector, Store, Chosen, skipped, candidate_of, with_candidate, evict,
  is_stuck, is_removed, gc_loop, collected, collect,
}

with_ok :
    {File : Type 0} (e : CacheEntry) (x : Result Chosen × Store File) (cs : Chosen)
    → (with_candidate e x).0 ≡ ok cs
    → (ds : Chosen) × (x.0 ≡ ok ds)
with_ok e (ok ds, s) cs h = (ds, refl)
with_ok e (err z, s) cs h = absurd (cc h)

with_same :
    {File : Type 0} (e : CacheEntry) (x y : Result Chosen × Store File)
    → x.0 ≡ y.0
    → (with_candidate e x).0 ≡ (with_candidate e y).0
with_same e (ok a, s) (ok b, t) h = ap (λ r. (with_candidate e (r, s)).0) h
with_same e (err a, s) (err b, t) h = ap (λ r. (with_candidate e (r, s)).0) h
with_same e (ok a, s) (err b, t) h = absurd (cc h)
with_same e (err a, s) (ok b, t) h = absurd (cc h)

ok_eq : {a b : Chosen} → ok a ≡ ok b → a ≡ b
ok_eq h = cc

real_run :
    {File : Type 0} (before : ℕ) (x : Result Chosen × Store File) (real : CacheGcResult)
    → (collected false before x).0 ≡ ok real
    → (ds : Chosen) × (x.0 ≡ ok ds)
      × (real ≡ record {
        dry_run = false;
        bytes_before = before;
        bytes_reclaimed = before - ds.1;
        candidates = ds.0;
      })
real_run before (ok (cs, projected), s) real q = ((cs, projected), refl, cc q)
real_run before (err x, s) real q = absurd (cc q)

module _ {File : Type 0} (disk : Disk File) (resolve : String → Option ℕ) (unlinks : ℕ → Bool) where
  -- The plan of the loop: a dry run does not change the store, and where a real run ends, it ends
  -- with the candidates of a dry run on whatever store.
  plan_loop :
      (low : ℕ) (es : List CacheEntry) (projected : ℕ) (s t : Store File)
      → (cs : Chosen) × (gc_loop disk resolve unlinks true low es projected t ≡ (ok cs, t))
        × ((ds : Chosen)
            → (gc_loop disk resolve unlinks false low es projected s).0 ≡ ok ds
            → ds ≡ cs)
  unfolding gc_loop
  plan_loop low [] projected s t = (([], projected), refl, λ ds h. cc h)
  plan_loop low (e ∷ es) projected s t = elim (Bool-cases (leb projected low)) [
    | inl a ↦ rw (gc_loop, a) (([], projected), refl, λ ds h. cc h)
    | inr a ↦
        rw (gc_loop, a)
          (elim (Bool-cases (skipped e)) [
            | inl b ↦ rw b (plan_loop low es projected s t)
            | inr b ↦ elim (Option-cases (resolve e.relative_path)) [
              | inl n ↦
                  let (cs, k, h) = plan_loop low es (projected - e.size_bytes) s t in
                  rw (b, n, k) ((candidate_of e ∷ cs.0, cs.1), refl, λ ds q. absurd (cc q))
              | inr (path, n) ↦ elim (Bool-cases (is_stuck unlinks path s)) [
                | inl m ↦
                    let (cs, k, h) = plan_loop low es (projected - e.size_bytes) s t in
                    rw (b, n, m, k) ((candidate_of e ∷ cs.0, cs.1), refl, λ ds q. absurd (cc q))
                | inr m ↦ elim (Bool-cases (is_removed disk e s)) [
                  | inr w ↦
                      let (cs, k, h) = plan_loop low es (projected - e.size_bytes) s t in
                      rw (b, n, m, w, k)
                        ((candidate_of e ∷ cs.0, cs.1), refl, λ ds q. absurd (cc q))
                  | inl w ↦
                      let (cs, k, h) =
                        plan_loop low es (projected - e.size_bytes) (evict disk e path s) t in
                      rw (b, n, m, w, k)
                        (
                          (candidate_of e ∷ cs.0, cs.1),
                          refl,
                          λ ds q.
                              let (found, f) =
                                with_ok e
                                  (gc_loop disk resolve unlinks false low es
                                    (projected - e.size_bytes) (evict disk e path s))
                                  ds q in
                              ok_eq (
                                sym q
                                ∙ with_same e
                                    (gc_loop disk resolve unlinks false low es
                                      (projected - e.size_bytes) (evict disk e path s))
                                    (ok cs, t) (f ∙ ap ok (h found f))),
                        )
                ]
              ]
            ]
          ])
  ]

  -- A dry run of the collector never raises and never changes the repository or the files. Where a
  -- real run on the same store returns, a dry run returns the same sizes and the same candidates in
  -- the same order, and differs in its flag alone.
  pub dry_run_plan :
      (c : CacheGarbageCollector) (s : Store File)
      → (r : CacheGcResult) × (collect disk resolve unlinks c true s ≡ (ok r, s))
        × ((real : CacheGcResult)
            → (collect disk resolve unlinks c false s).0 ≡ ok real
            → real ≡ record r { dry_run = false })
  unfolding collect
  dry_run_plan c s =
      let before = sum_of size_of (list s.repository) in
      elim (Bool-cases (leb before c.high_watermark_bytes)) [
        | inl a ↦ rw a (
          record {
            dry_run = true;
            bytes_before = before;
            bytes_reclaimed = before - before;
            candidates = [];
          },
          refl,
          λ real h. cc h,
        )
        | inr a ↦
            let (cs, k, h) = plan_loop c.low_watermark_bytes (list s.repository) before s s in
            rw (a, k)
              (
                record {
                  dry_run = true;
                  bytes_before = before;
                  bytes_reclaimed = before - cs.1;
                  candidates = cs.0;
                },
                refl,
                λ real q.
                    let (ds, f, same) =
                      real_run before
                        (gc_loop disk resolve unlinks false c.low_watermark_bytes
                          (list s.repository) before s)
                        real q in
                    rw (← h ds f) same,
              )
      ]
