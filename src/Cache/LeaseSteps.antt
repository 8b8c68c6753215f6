-- ===== src/Cache/LeaseSteps.antt =====
-- What a read lease of cache/persistent_repository.py guards while it is held.
use ppt_video_workbench_v.Base.{
  and-eq_true, ℕ, ◌≡◌, refl, sym, ap, ◌∙◌, List, [], ◌∷◌, some, Bool, true, false, not, ◌==◌,
  if◌then◌else◌, arith, Bool-cases, inl, inr, count_where-found, find-key, find-update_found,
  update_where-Distinct, Distinct, ==_refl,
}
use ppt_video_workbench_v.Cache.Contracts.{
  CacheEntryState, ready, stale, corrupted, quarantined, same_state, StaleReason,
}
use ppt_video_workbench_v.Cache.Persistent.{
  EntryRow, CacheDb, row_key, row_at, is_row, update_entries, made_stale, invalidate,
  invalidate_keys, key_in, key_set, reverse_dependencies,
}
use ppt_video_workbench_v.Cache.Lookup.{
  marked, is_ready, leased_more, acquire_read_lease, is_leased, leased_less, release_read_lease,
  touched, reservable, reserved, reserve_gc, removable, remove_quarantined,
}
use ppt_video_workbench_v.Cache.LeaseLife.{
  Step, acquired, turned_away, released, elsewhere_acquired, elsewhere_released, reserving, removal,
  invalidated, marking, touching, Steps, none_more, step_more, Held, changed, same_leases,
  find-keep, keep-Distinct,
}

-- What a successful acquisition says of the row: it was ready.
pub acquired_ready :
    (key : ℕ) (db : CacheDb) (r : EntryRow)
    → Distinct row_key db.entries
    → row_at key db ≡ some r
    → (acquire_read_lease key db).0 ≡ true
    → is_ready key r ≡ true
unfolding acquire_read_lease
acquired_ready key db r d f h =
    let count = count_where-found row_key (λ x. same_state x.state ready) key db.entries r d f in
    let at : row_key r ≡ key = find-key row_key key db.entries r f in
    elim (Bool-cases (same_state r.state ready)) [
      | inl t ↦ rw (at, ==_refl key, t) refl
      | inr g ↦
          let one : ((if same_state r.state ready then 1 else 0) == 1) ≡ true =
            ap (λ c. c == 1) (sym count) ∙ h in
          absurd (cc (rw g at one))
    ]

pub refused_ready :
    (key : ℕ) (db : CacheDb) (r : EntryRow)
    → Distinct row_key db.entries
    → row_at key db ≡ some r
    → (acquire_read_lease key db).0 ≡ false
    → is_ready key r ≡ false
unfolding acquire_read_lease
refused_ready key db r d f h =
    let count = count_where-found row_key (λ x. same_state x.state ready) key db.entries r d f in
    elim (Bool-cases (same_state r.state ready)) [
      | inr g ↦ ground (arith, g)
      | inl t ↦
          let one : ((if same_state r.state ready then 1 else 0) == 1) ≡ false =
            ap (λ c. c == 1) (sym count) ∙ h in
          absurd (cc (rw t at one))
    ]

-- A row of the key that an UPDATE does not hit.
untouched :
    (key : ℕ) (first : EntryRow) (n : ℕ) (db : CacheDb) (hit : EntryRow → Bool)
    (change : EntryRow → EntryRow)
    → ((r : EntryRow) → row_key (change r) ≡ row_key r)
    → (h : Held key first n db) → hit h.now ≡ false
    → Held key first n (update_entries hit change db)
untouched key first n db hit change same h f = record {
  now = h.now;
  there = find-update_found row_key hit change key db.entries h.now same h.there ∙ rw f refl;
  leases = h.leases;
  path = h.path;
  artifact = h.artifact;
  free = h.free;
  distinct = update_where-Distinct row_key hit change db.entries same h.distinct;
}

invalidate_keys-Held :
    (key : ℕ) (first : EntryRow) (n : ℕ) (db : CacheDb) (reason : StaleReason) (ks : List ℕ)
    → Held key first n db
    → Held key first n (invalidate_keys reason ks db).1
unfolding same_state
invalidate_keys-Held key first n db reason [] h = h
invalidate_keys-Held key first n db reason (k ∷ ks) h =
    changed key first n n db (key_in (k ∷ ks)) (made_stale reason) (λ r. refl) (λ r. refl)
      (λ r. refl) h (inr refl)
      (same_leases n (key_in (k ∷ ks) h.now) h.now (made_stale reason h.now) refl h.leases)

Step-Held :
    (key : ℕ) (first : EntryRow) (n m : ℕ) (db db' : CacheDb)
    → Step key n db m db'
    → Held key first n db
    → Held key first m db'
unfolding acquire_read_lease release_read_lease reserve_gc remove_quarantined invalidate
Step-Held key first n m db db' (acquired t) h =
    let hit = acquired_ready key db h.now h.distinct h.there t in
    changed key first n m db (is_ready key) leased_more (λ r. refl) (λ r. refl) (λ r. refl) h
      (inr h.free) (rw hit (omega (arith, h.leases)))
Step-Held key first n m db db' (turned_away t) h =
    untouched key first n db (is_ready key) leased_more (λ r. refl) h
      (refused_ready key db h.now h.distinct h.there t)
Step-Held key first n m db db' released h =
    let hit : is_leased key h.now ≡ true =
      ground (arith, find-key row_key key db.entries h.now h.there, h.leases) in
    changed key first n m db (is_leased key) leased_less (λ r. refl) (λ r. refl) (λ r. refl) h
      (inr h.free) (rw hit (omega (arith, h.leases)))
Step-Held key first n m db db' (elsewhere_acquired k e) h =
    untouched key first n db (is_ready k) leased_more (λ r. refl) h
      (ground (arith, find-key row_key key db.entries h.now h.there, e))
Step-Held key first n m db db' (elsewhere_released k e) h =
    untouched key first n db (is_leased k) leased_less (λ r. refl) h
      (ground (arith, find-key row_key key db.entries h.now h.there, e))
Step-Held key first n m db db' (reserving k revision) h =
    untouched key first n db (reservable k revision) reserved (λ r. refl) h
      (ground (arith, h.leases))
Step-Held key first n m db db' (removal k) h = record {
  now = h.now;
  there =
      find-keep (λ r. not (removable k r)) key db.entries h.now h.there (ground (arith, h.leases));
  leases = h.leases;
  path = h.path;
  artifact = h.artifact;
  free = h.free;
  distinct = keep-Distinct (λ r. not (removable k r)) db.entries h.distinct;
}
Step-Held key first n m db db' (invalidated event) h =
    invalidate_keys-Held key first n db event.reason (key_set (reverse_dependencies event db)) h
Step-Held key first n m db db' (marking k mark reason q) h =
    changed key first n m db (is_row k) (marked mark reason) (λ r. refl) (λ r. refl) (λ r. refl) h
      (inr q) (same_leases n (is_row k h.now) h.now (marked mark reason h.now) refl h.leases)
Step-Held key first n m db db' (touching k now) h =
    changed key first n m db (is_ready k) (touched now) (λ r. refl) (λ r. refl) (λ r. refl) h
      (inr h.free) (same_leases n (is_ready k h.now) h.now (touched now h.now) refl h.leases)

Steps-Held :
    (key : ℕ) (first : EntryRow) (n m : ℕ) (db db' : CacheDb)
    → Steps key n db m db'
    → Held key first n db
    → Held key first m db'
Steps-Held key first n m db db' none_more h = h
Steps-Held key first n m db db' (step_more {m = l} {db' = mid} s ss) h =
    Steps-Held key first l m mid db' ss (Step-Held key first n l db mid s h)

ready_free :
    (state : CacheEntryState) → same_state state ready ≡ true → same_state state quarantined ≡ false
unfolding same_state
ready_free ready h = refl
ready_free stale h = refl
ready_free corrupted h = refl
ready_free quarantined h = absurd (cc h)

-- Where a lookup got its read lease on an entry that nobody else had leased, in a table with distinct
-- keys, then whatever transactions of other lookups, collectors and invalidations run before it gives
-- the lease back, the entry is still there with the same path and artifact, is not quarantined, and
-- its lease count is one more than the leases of the others.
pub lease-Held :
    (key : ℕ) (first : EntryRow) (db db' : CacheDb) (m : ℕ)
    → Distinct row_key db.entries
    → row_at key db ≡ some first
    → first.lease_count ≡ 0
    → (acquire_read_lease key db).0 ≡ true
    → Steps key 0 (acquire_read_lease key db).1 m db'
    → Held key first m db'
unfolding acquire_read_lease
lease-Held key first db db' m d f zero_leases t ss =
    let hit = acquired_ready key db first d f t in
    Steps-Held key first 0 m (acquire_read_lease key db).1 db' ss (record {
      now = leased_more first;
      there =
          find-update_found row_key (is_ready key) leased_more key db.entries first (λ r. refl) f
          ∙ rw hit refl;
      leases = omega (arith, zero_leases);
      path = refl;
      artifact = refl;
      free =
          ready_free first.state
            (and-eq_true (is_row key first) (same_state first.state ready) hit).1;
      distinct = update_where-Distinct row_key (is_ready key) leased_more db.entries (λ r. refl) d;
    })
