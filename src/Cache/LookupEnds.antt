-- ===== src/Cache/LookupEnds.antt =====
-- The answer of a lookup of cache/persistent_repository.py and what it changes.
use ppt_video_workbench_v.Base.{
  ℕ, ◌≡◌, refl, sym, ap, subst, ◌∙◌, List, Option, none, some, Bool, true, false, ◌==◌, String,
  str_eq, if◌then◌else◌, arith, Bool-cases, Option-cases, inl, inr, count_where, count_where-found,
  find-key, Distinct, ==_iff,
}
use ppt_video_workbench_v.Cache.Contracts.{
  CacheDependency, ready, stale, corrupted, same_state, runtime_incompatible, license_invalid,
  artifact_mismatch,
}
use ppt_video_workbench_v.Cache.Persistent.{
  EntryRow, CacheDb, row_key, row_at, is_row, entry_with, dependencies_at,
}
use ppt_video_workbench_v.Cache.Lookup.{
  marked, is_ready, leased_more, acquire_read_lease, is_leased, leased_less, release_read_lease,
  touched, license_bad, lookup_found, lookup,
}
use ppt_video_workbench_v.Cache.LookupNet.{
  looked, looked_up, after_update, row_at-update, row_at-leased, leased_touched, leased_marked,
  Nets, elsewhere, on_row,
}

acquires :
    (key : ℕ) (db : CacheDb) (r : EntryRow)
    → Distinct row_key db.entries
    → row_at key db ≡ some r
    → same_state r.state ready ≡ true
    → (count_where (is_ready key) db.entries == 1) ≡ true
acquires key db r d f s =
    let one : (if same_state r.state ready then 1 else 0) ≡ 1 = rw s refl in
    ap (λ n. n == 1)
      (count_where-found row_key (λ x. same_state x.state ready) key db.entries r d f ∙ one)

not_hit :
    (hit : EntryRow → Bool) (change : EntryRow → EntryRow) (x : EntryRow)
    → hit x ≡ false
    → after_update hit change (some x) ≡ some x
not_hit hit change x f = rw f refl

-- The updates under a lease on another row.
abbrev under_lease :
    ℕ → (EntryRow → Bool) → (EntryRow → EntryRow) → Option EntryRow → Option EntryRow
under_lease key hit change o =
    after_update (is_leased key) leased_less
      (after_update hit change (after_update (is_ready key) leased_more o))

other_leased :
    (key : ℕ) (hit : EntryRow → Bool) (change : EntryRow → EntryRow) (x : EntryRow)
    → is_row key x ≡ false
    → hit x ≡ false
    → under_lease key hit change (some x) ≡ some x
other_leased key hit change x g h =
    ap (λ o. after_update (is_leased key) leased_less (after_update hit change o))
      (not_hit (is_ready key) leased_more x (rw g refl))
    ∙ ap (after_update (is_leased key) leased_less) (not_hit hit change x h)
    ∙ not_hit (is_leased key) leased_less x (rw g refl)

module _ (intact : EntryRow → Bool) (key : ℕ) (fingerprint : String) (now : ℕ) where
  absent_net :
      (db : CacheDb)
      → row_at key db ≡ none
      → (k : ℕ) → row_at k db ≡ looked_up intact key fingerprint now (row_at k db)
  absent_net db n k = go (row_at k db) refl
    where
      clash : {A : Type 0} {a : EntryRow} → none ≡ some a → A
      clash q = absurd (cc q)

      go : (o : Option EntryRow) → row_at k db ≡ o → o ≡ looked_up intact key fingerprint now o
      go none e = refl
      go (some x) e = elim (Bool-cases (is_row key x)) [
        | inr g ↦ ap some (sym (elsewhere intact key fingerprint now x g))
        | inl g ↦
            let at : k ≡ key =
              sym (find-key row_key k db.entries x e) ∙ (==_iff (row_key x) key).0 g in
            clash (sym n ∙ ap (λ m. row_at m db) (sym at) ∙ e)
      ]

  looked-touched :
      (r : EntryRow)
      → is_row key r ≡ true
      → same_state r.state ready ≡ true
      → str_eq r.runtime_fingerprint fingerprint ≡ true
      → license_bad r ≡ false
      → intact r ≡ true
      → looked intact key fingerprint now r ≡ touched now r
  looked-touched r m a b c i = rw (m, a, b, c, i) refl

  looked-marked :
      (r : EntryRow)
      → is_row key r ≡ true
      → same_state r.state ready ≡ true
      → str_eq r.runtime_fingerprint fingerprint ≡ true
      → license_bad r ≡ false
      → intact r ≡ false
      → looked intact key fingerprint now r ≡ marked corrupted artifact_mismatch r
  looked-marked r m a b c i = rw (m, a, b, c, i) refl

  found_Nets :
      (db : CacheDb) (r : EntryRow) (ds : List CacheDependency)
      → Distinct row_key db.entries
      → row_at key db ≡ some r
      → Nets intact key fingerprint now db (
          lookup_found intact key fingerprint now (some (record { row = r; dependencies = ds })) db)
  unfolding acquire_read_lease release_read_lease
  found_Nets db r ds d f =
      let mine : is_row key r ≡ true = ground (arith, find-key row_key key db.entries r f) in
      let net = on_row intact key fingerprint now db r in
      elim (Bool-cases (same_state r.state ready)) [
        | inr a ↦ rw (f, a) (refl, net (λ o. o) f refl (λ x g. refl) (rw (mine, a) refl))
        | inl a ↦ elim (Bool-cases (str_eq r.runtime_fingerprint fingerprint)) [
          | inr b ↦
              rw (f, a, b)
                (
                  refl,
                  λ k.
                      row_at-update k (is_row key) (marked stale runtime_incompatible) db
                        (λ x. refl)
                      ∙ net (after_update (is_row key) (marked stale runtime_incompatible)) f refl
                          (λ x g. rw g refl) (rw (mine, a, b) refl) k,
                )
          | inl b ↦ elim (Bool-cases (license_bad r)) [
            | inl c ↦
                rw (f, a, b, c)
                  (
                    refl,
                    λ k.
                        row_at-update k (is_row key) (marked stale license_invalid) db (λ x. refl)
                        ∙ net (after_update (is_row key) (marked stale license_invalid)) f refl
                            (λ x g. rw g refl) (rw (mine, a, b, c) refl) k,
                  )
            | inr c ↦ elim (Bool-cases (intact r)) [
              | inl i ↦
                  rw (f, a, b, c, acquires key db r d f a, i)
                    (
                      refl,
                      λ k.
                          row_at-leased k key (is_ready key) (touched now) db (λ x. refl)
                          ∙ net (under_lease key (is_ready key) (touched now)) f refl
                              (λ x g. other_leased key (is_ready key) (touched now) x g (rw g refl))
                              (leased_touched key now r mine a
                                ∙ ap some (sym (looked-touched r mine a b c i)))
                              k,
                    )
              | inr i ↦
                  rw (f, a, b, c, acquires key db r d f a, i)
                    (
                      refl,
                      λ k.
                          row_at-leased k key (is_row key) (marked corrupted artifact_mismatch) db
                            (λ x. refl)
                          ∙ net (under_lease key (is_row key) (marked corrupted artifact_mismatch))
                              f refl
                              (λ x g.
                                other_leased key (is_row key) (marked corrupted artifact_mismatch) x
                                  g g)
                              (leased_marked key corrupted artifact_mismatch r mine a
                                ∙ ap some (sym (looked-marked r mine a b c i)))
                              k,
                    )
            ]
          ]
        ]
      ]

  -- In a table with distinct keys, a lookup that runs alone is a hit exactly where the entry is
  -- there, ready, of the given runtime, of a license that is neither expired nor blocked, and its
  -- manifest and file match. In one change of the row of the key it becomes: accessed now where it
  -- is a hit; stale, for its runtime or else its license, where one of those fails; corrupted
  -- where only its artifact fails; and it stays as it was where it was not ready. No other row
  -- changes, and no lease is left.
  pub lookup-Nets :
      (db : CacheDb)
      → Distinct row_key db.entries
      → Nets intact key fingerprint now db (lookup intact key fingerprint now db)
  unfolding lookup
  lookup-Nets db d = elim (Option-cases (row_at key db)) [
    | inl n ↦ rw n (refl, absent_net db n)
    | inr (r, f) ↦
        subst
          (λ o.
            Nets intact key fingerprint now db
              (lookup_found intact key fingerprint now (entry_with db o) db))
          (sym f) (found_Nets db r (dependencies_at r.cache_key db) d f)
  ]
