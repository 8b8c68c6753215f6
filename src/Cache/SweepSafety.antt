-- ===== src/Cache/SweepSafety.antt =====
-- What the collector of the cache in the database (cache/persistent_gc.py) leaves alone.
use ppt_video_workbench_v.Base.{
  ℕ, ◌-◌, ◌≡◌, refl, sym, ap, subst, ◌∙◌, List, [], ◌∷◌, none, some, Bool, true, false, not, ◌&&◌,
  ◌||◌, ◌==◌, ltb, leb, keep, sorted, sum_of, if◌then◌else◌, arith, Bool-cases, inl, inr,
  count_where-found, find-key, find-update_found, update_where-Distinct, Distinct, ==_iff,
}
use ppt_video_workbench_v.Cache.Persistent.{
  EntryRow, PersistentCacheEntry, CacheDb, row_key, row_at, Result, ok, err, list,
}
use ppt_video_workbench_v.Cache.Lookup.{
  reservable, reserved, reserve_gc, removable, remove_quarantined,
}
use ppt_video_workbench_v.Cache.LeaseLife.{find-keep, keep-Distinct}
use ppt_video_workbench_v.Cache.PersistentGc.{
  Sweep, with_candidate, then_rest, after_reserve, sweep_one, sweep, swept, collect, entry_size,
  eligible, goes_first,
}

-- The collector's SQL may not touch the row.
abbrev pub shielded : EntryRow → Bool
shielded r = r.protected || ltb 0 r.lease_count

-- The row of the key is there, shielded, in a table with distinct keys.
record Guarded (k : ℕ) (r : EntryRow) (db : CacheDb) : Type 0 where
  there : row_at k db ≡ some r
  shield : shielded r ≡ true
  distinct : Distinct row_key db.entries

not_reservable :
    (key revision : ℕ) (r : EntryRow) → shielded r ≡ true → reservable key revision r ≡ false
not_reservable key revision r h = ground (arith, h)

reserve-Guarded :
    (k key revision : ℕ) (r : EntryRow) (db : CacheDb)
    → Guarded k r db
    → Guarded k r (reserve_gc key revision db).1
unfolding reserve_gc
reserve-Guarded k key revision r db g = record {
  there =
      find-update_found row_key (reservable key revision) reserved k db.entries r (λ x. refl)
        g.there
      ∙ rw (not_reservable key revision r g.shield) refl;
  shield = g.shield;
  distinct =
      update_where-Distinct row_key (reservable key revision) reserved db.entries (λ x. refl)
        g.distinct;
}

-- A reservation that is held is of another row.
reserved_other :
    (k key revision : ℕ) (r : EntryRow) (db : CacheDb)
    → Guarded k r db
    → (reserve_gc key revision db).0 ≡ true
    → (key == k) ≡ false
unfolding reserve_gc
reserved_other k key revision r db g h = elim (Bool-cases (key == k)) [
  | inr f ↦ f
  | inl t ↦
      let at : row_at key db ≡ some r =
        subst (λ m. row_at m db ≡ some r) (sym ((==_iff key k).0 t)) g.there in
      let test : ((r.revision == revision) && ((r.lease_count == 0) && not r.protected)) ≡ false =
        ground (arith, g.shield) in
      let none_hit : (if (r.revision == revision) && ((r.lease_count == 0) && not r.protected)
            then 1
            else 0)
          ≡ 0 =
        rw test refl in
      let count =
        count_where-found row_key
          (λ x. (x.revision == revision) && ((x.lease_count == 0) && not x.protected)) key
          db.entries r g.distinct at
        ∙ none_hit in
      absurd (cc (sym (ap (λ n. n == 1) count) ∙ h))
]

remove-Guarded :
    (k key : ℕ) (r : EntryRow) (db : CacheDb)
    → (key == k) ≡ false
    → Guarded k r db
    → Guarded k r (remove_quarantined key db).1
unfolding remove_quarantined
remove-Guarded k key r db f g = record {
  there =
      find-keep (λ x. not (removable key x)) k db.entries r g.there
        (ground (arith, find-key row_key k db.entries r g.there, f));
  shield = g.shield;
  distinct = keep-Distinct (λ x. not (removable key x)) db.entries g.distinct;
}

module _ (contained unlinks : EntryRow → Bool) where
  sweep_one-Guarded :
      (dry_run : Bool) (e : PersistentCacheEntry) (k : ℕ) (r : EntryRow) (db : CacheDb)
      → Guarded k r db
      → Guarded k r (sweep_one contained unlinks dry_run e db).1
  sweep_one-Guarded true e k r db g = g
  sweep_one-Guarded false e k r db g =
      go (reserve_gc e.row.cache_key e.row.revision db)
        (reserved_other k e.row.cache_key e.row.revision r db g)
        (reserve-Guarded k e.row.cache_key e.row.revision r db g)
    where
      go :
          (x : Bool × CacheDb)
          → (x.0 ≡ true → (e.row.cache_key == k) ≡ false)
          → Guarded k r x.1
          → Guarded k r (after_reserve contained unlinks e x).1
      go (false, db') f g' = g'
      go (true, db') f g' = elim (Bool-cases (contained e.row)) [
        | inr c ↦ rw c g'
        | inl c ↦ elim (Bool-cases (unlinks e.row)) [
          | inr u ↦ rw (c, u) g'
          | inl u ↦ rw (c, u) (remove-Guarded k e.row.cache_key r db' (f refl) g')
        ]
      ]

  with_same :
      (e : PersistentCacheEntry) (freed : ℕ) (x : Result Sweep × CacheDb)
      → (with_candidate e freed x).1 ≡ x.1
  with_same e freed (ok w, db) = refl
  with_same e freed (err x, db) = refl

  rest-Guarded :
      (e : PersistentCacheEntry) (k : ℕ) (r : EntryRow) (x : Result ℕ × CacheDb)
      (rest : CacheDb → Result Sweep × CacheDb)
      → ((db : CacheDb) → Guarded k r db → Guarded k r (rest db).1)
      → Guarded k r x.1
      → Guarded k r (then_rest e x rest).1
  rest-Guarded e k r (ok freed, db) rest h g =
      subst (Guarded k r) (sym (with_same e freed (rest db))) (h db g)
  rest-Guarded e k r (err y, db) rest h g = g

  sweep-Guarded :
      (dry_run : Bool) (low : ℕ) (es : List PersistentCacheEntry) (projected k : ℕ) (r : EntryRow)
      (db : CacheDb)
      → Guarded k r db
      → Guarded k r (sweep contained unlinks dry_run low es projected db).1
  unfolding sweep
  sweep-Guarded dry_run low [] projected k r db g = g
  sweep-Guarded dry_run low (e ∷ es) projected k r db g = elim (Bool-cases (leb projected low)) [
    | inl a ↦ rw (sweep, a) g
    | inr a ↦
        rw (sweep, a)
          (rest-Guarded e k r (sweep_one contained unlinks dry_run e db)
            (sweep contained unlinks dry_run low es (projected - e.row.size_bytes))
            (λ db' g'. sweep-Guarded dry_run low es (projected - e.row.size_bytes) k r db' g')
            (sweep_one-Guarded dry_run e k r db g))
  ]

  swept_same :
      (dry_run : Bool) (before : ℕ) (x : Result Sweep × CacheDb) → (swept dry_run before x).1 ≡ x.1
  swept_same dry_run before (ok w, db) = refl
  swept_same dry_run before (err x, db) = refl

  -- Whatever the watermarks, the paths that are refused and the files that cannot be unlinked, and
  -- whether or not the run is dry: in a table with distinct keys, an entry that is protected or
  -- leased is after the run still there and has not changed.
  pub collect_shields :
      (high low : ℕ) (dry_run : Bool) (k : ℕ) (r : EntryRow) (db : CacheDb)
      → Distinct row_key db.entries
      → row_at k db ≡ some r
      → shielded r ≡ true
      → row_at k (collect contained unlinks high low dry_run db).1 ≡ some r
  unfolding collect
  collect_shields high low dry_run k r db d f s =
      let entries = list none db in
      let before = sum_of entry_size entries in
      let g =
        sweep-Guarded dry_run low (sorted goes_first (keep eligible entries)) before k r db
          (record { there = f; shield = s; distinct = d }) in
      elim (Bool-cases (leb before high)) [
        | inl a ↦ rw a f
        | inr a ↦
            rw
              (
                a,
                swept_same dry_run before (
                    sweep contained unlinks dry_run low (sorted goes_first (keep eligible entries))
                      before db),
              )
              g.there
      ]
