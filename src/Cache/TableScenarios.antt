-- ===== src/Cache/TableScenarios.antt =====
-- Runs of the cache in the database on two entries.
use ppt_video_workbench_v.Base.{
  fits_in, ℕ, ◌≡◌, refl, [], ◌∷◌, none, some, Bool, true, false, ◌&&◌, ◌==◌, any, Distinct,
}
use ppt_video_workbench_v.Cache.Contracts.{
  final, subtitle_soft, subtitle_burn_in, ready, same_domain, CacheDependency,
  CacheInvalidationEvent, source_revision_changed, affected, valid_range,
}
use ppt_video_workbench_v.Cache.Persistent.{
  EntryRow, PersistentCacheEntry, CacheDb, ok, row_key, row_at, put, invalidate,
}
use ppt_video_workbench_v.Cache.Put.{Written, put-get}
use ppt_video_workbench_v.Cache.Invalidate.{stale_if, concerned, invalidate_exact}
use ppt_video_workbench_v.Cache.Lookup.{acquire_read_lease, reserve_gc, lookup}
use ppt_video_workbench_v.Cache.LookupNet.{Nets}
use ppt_video_workbench_v.Cache.LookupEnds.{lookup-Nets}
use ppt_video_workbench_v.Cache.LeaseLife.{
  Steps, none_more, step_more, reserving, invalidated, Held,
}
use ppt_video_workbench_v.Cache.LeaseSteps.{lease-Held}
use ppt_video_workbench_v.Cache.PersistentGc.{collect}
use ppt_video_workbench_v.Cache.SweepSafety.{collect_shields}
use ppt_video_workbench_v.Cache.Events.{subtitle_invalidation, valid_key}
use ppt_video_workbench_v.Cache.Scope.{on_subtitles, mode_scope}

abbrev row : ℕ → Bool → EntryRow
row key protected = record {
  cache_key = key;
  project_id = 1;
  domain = final;
  node_key = "page";
  state = ready;
  artifact_manifest = "{}";
  artifact_manifest_hash = 5;
  relative_path = "final.mp4";
  artifact_hash = 6;
  size_bytes = 100;
  runtime_fingerprint = "r1";
  license_status = "valid";
  rebuildable = true;
  protected = protected;
  lease_count = 0;
  stale_reason = none;
  created_at = 0;
  last_accessed_at = 10;
  revision = 1;
}

abbrev subtitles : CacheDependency
subtitles = record {
  schema_version = "1.0";
  domain = final;
  node_key = "page";
  upstream_kind = "subtitle_revision";
  upstream_key = "doc";
  upstream_hash = 3;
  start_us = none;
  end_us = none;
  artifact_refs = [];
}

abbrev tables : CacheDb
tables = record {
  entries = row 1 false ∷ row 2 true ∷ [];
  dependencies = record { dependency_key = 4; cache_key = 1; dependency = subtitles } ∷ [];
}

tables-Distinct : Distinct row_key tables.entries
tables-Distinct = (refl, (refl, tt))

abbrev change : CacheInvalidationEvent
change = record {
  source_kind = "subtitle_revision";
  source_key = "doc";
  previous_hash = none;
  current_hash = some 8;
  reason = source_revision_changed;
  domains = [];
  start_us = none;
  end_us = none;
}

-- The subtitles are not rendered, and the final video becomes stale.
none_mode_spoils_final :
    ((subtitle_invalidation "doc" "none" none 8 none none) ≡ ok change)
    × ((invalidate change tables).0 ≡ 1 ∷ [])
unfolding subtitle_invalidation invalidate fits_in
none_mode_spoils_final = (refl, refl)

abbrev fresh : PersistentCacheEntry
fresh = record { row = row 1 false; dependencies = subtitles ∷ [] }

abbrev digest : CacheDependency → ℕ
digest d = d.upstream_hash

-- The lease of a reader is set back to 0 by a `put`, after which the collector may reserve the entry.
put_forgets_lease : (reserve_gc 1 2 (put digest fresh (acquire_read_lease 1 tables).1).1).0 ≡ true
unfolding reserve_gc put acquire_read_lease
put_forgets_lease = refl

put-get_example : Written digest fresh tables (put digest fresh tables)
put-get_example = put-get digest fresh tables

invalidate_exact_example :
    (row_at 1 (invalidate change tables).1
      ≡ stale_if (concerned change tables 1) source_revision_changed (row_at 1 tables))
    × (any (λ x. x == 1) (invalidate change tables).0 ≡ concerned change tables 1)
    × ((invalidate change tables).1.dependencies ≡ tables.dependencies)
invalidate_exact_example = invalidate_exact change tables 1

abbrev held_tables : CacheDb
held_tables = (acquire_read_lease 1 tables).1

got_lease : (acquire_read_lease 1 tables).0 ≡ true
unfolding acquire_read_lease
got_lease = refl

-- Another reader comes and goes, and a collector tries in between.
others : Steps 1 0 held_tables 0 (invalidate change (reserve_gc 1 1 held_tables).1).1
others = step_more (reserving 1 1) (step_more (invalidated change) none_more)

lease-Held_example : Held 1 (row 1 false) 0 (invalidate change (reserve_gc 1 1 held_tables).1).1
lease-Held_example =
    lease-Held 1 (row 1 false) tables (invalidate change (reserve_gc 1 1 held_tables).1).1 0
      tables-Distinct refl refl got_lease others

abbrev intact : EntryRow → Bool
intact r = true

lookup_hit : (lookup intact 1 "r1" 20 tables).0.hit ≡ true
unfolding lookup
lookup_hit = refl

lookup-Nets_example : Nets intact 1 "r1" 20 tables (lookup intact 1 "r1" 20 tables)
lookup-Nets_example = lookup-Nets intact 1 "r1" 20 tables tables-Distinct

collect_shields_example : row_at 2 (collect intact intact 50 10 false tables).1 ≡ some (row 2 true)
collect_shields_example =
    collect_shields intact intact 50 10 false 2 (row 2 true) tables tables-Distinct refl refl

no_range : valid_range none none ≡ true
unfolding valid_range
no_range = refl

doc-valid : valid_key "doc" ≡ true
unfolding fits_in
doc-valid = refl

mode_scope_example :
    (e : CacheInvalidationEvent) × (s : CacheInvalidationEvent) × (b : CacheInvalidationEvent)
    × (subtitle_invalidation "doc" "none" none 8 none none ≡ ok e)
    × (subtitle_invalidation "doc" "soft" none 8 none none ≡ ok s)
    × (subtitle_invalidation "doc" "burn_in" none 8 none none ≡ ok b)
    × ((d : CacheDependency) → affected e d ≡ on_subtitles "doc" none none d)
    × ((d : CacheDependency)
        → affected s d ≡ (on_subtitles "doc" none none d && same_domain subtitle_soft d.domain))
    × ((d : CacheDependency)
        → affected b d ≡ (on_subtitles "doc" none none d && same_domain subtitle_burn_in d.domain))
mode_scope_example = mode_scope "doc" none 8 none none doc-valid no_range
