-- ===== src/Cache/Scope.antt =====
-- Which artifacts a change of subtitles makes stale (cache/invalidation.py with the SELECT of
-- cache/persistent_repository.py).
use ppt_video_workbench_v.Base.{
  ℕ, ◌≡◌, refl, Option, Bool, true, false, ◌&&◌, ◌||◌, String, str_eq, arith,
}
use ppt_video_workbench_v.Cache.Contracts.{
  subtitle_soft, subtitle_burn_in, CacheDependency, CacheInvalidationEvent, affected,
  ranges_overlap, same_domain, valid_range,
}
use ppt_video_workbench_v.Cache.Persistent.{ok}
use ppt_video_workbench_v.Cache.Events.{subtitle_invalidation, valid_key}

-- The dependency is on the subtitles of the key, in the range.
abbrev pub on_subtitles : String → Option ℕ → Option ℕ → CacheDependency → Bool
on_subtitles key start end d =
    (str_eq d.upstream_kind "subtitle_revision" && str_eq d.upstream_key key)
    && ranges_overlap d start end

domain_last : (a b c : Bool) → (a && ((b || false) && c)) ≡ ((a && c) && b)
domain_last a b c = ground arith

-- For a key of 1 to 500 characters and a valid range: in the mode "soft" only a dependency of the
-- domain of soft subtitles is affected, in the mode "burn_in" only one of the domain of burnt-in
-- subtitles. In the mode "none", where no subtitles are rendered, a dependency on the subtitles in
-- the range is affected in every domain, the final video and the audio included, since the empty
-- choice of domains stands for all.
pub mode_scope :
    (key : String) (previous : Option ℕ) (current : ℕ) (start end : Option ℕ)
    → valid_key key ≡ true
    → valid_range start end ≡ true
    → (e : CacheInvalidationEvent) × (s : CacheInvalidationEvent) × (b : CacheInvalidationEvent)
      × (subtitle_invalidation key "none" previous current start end ≡ ok e)
      × (subtitle_invalidation key "soft" previous current start end ≡ ok s)
      × (subtitle_invalidation key "burn_in" previous current start end ≡ ok b)
      × ((d : CacheDependency) → affected e d ≡ on_subtitles key start end d)
      × ((d : CacheDependency)
          → affected s d ≡ (on_subtitles key start end d && same_domain subtitle_soft d.domain))
      × ((d : CacheDependency)
          → affected b d ≡ (on_subtitles key start end d && same_domain subtitle_burn_in d.domain))
unfolding subtitle_invalidation affected ranges_overlap
mode_scope key previous current start end w v =
    rw (w, v)
      (
        _,
        _,
        _,
        refl,
        refl,
        refl,
        λ d. refl,
        λ d.
            domain_last (str_eq d.upstream_kind "subtitle_revision" && str_eq d.upstream_key key)
              (same_domain subtitle_soft d.domain) (ranges_overlap d start end),
        λ d.
            domain_last (str_eq d.upstream_kind "subtitle_revision" && str_eq d.upstream_key key)
              (same_domain subtitle_burn_in d.domain) (ranges_overlap d start end),
      )
