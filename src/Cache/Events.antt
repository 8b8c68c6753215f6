-- ===== src/Cache/Events.antt =====
-- cache/invalidation.py: the events that a change of subtitles, of the audio cut or of the layout
-- makes of itself. The hashes of an event are only recorded.
use ppt_video_workbench_v.Base.{
  ℕ, List, [], ◌∷◌, Option, none, some, String, str_eq, Bool, not, ◌&&◌, is_empty, fits_in,
  if◌then◌else◌,
}
use ppt_video_workbench_v.Cache.Contracts.{
  CacheDomain, video_only, audio, subtitle_soft, subtitle_burn_in, transition, overlay, layout,
  final, CacheInvalidationEvent, source_revision_changed, layout_changed, valid_range,
}
use ppt_video_workbench_v.Cache.Persistent.{value_error, Result, ok, err}

-- The dictionary of render modes.
unfoldable pub domains_of : String → Option (List CacheDomain)
domains_of mode =
    if str_eq mode "soft"
    then some (subtitle_soft ∷ [])
    else if str_eq mode "burn_in"
    then some (subtitle_burn_in ∷ [])
    else if str_eq mode "both"
    then some (subtitle_soft ∷ subtitle_burn_in ∷ [])
    else if str_eq mode "none"
    then some []
    else none

-- The record is refused where its source key is empty or longer than 500 characters, or where its
-- range is not valid. The kind and the reason are constants, the hashes are hashes.
abbrev pub valid_key : String → Bool
valid_key key = not (is_empty key) && fits_in 500 key

abbrev pub checked : CacheInvalidationEvent → Result CacheInvalidationEvent
checked e =
    if valid_key e.source_key && valid_range e.start_us e.end_us then ok e else err value_error

abbrev pub subtitle_event :
    String
    → Option ℕ
    → ℕ
    → Option ℕ
    → Option ℕ
    → Option (List CacheDomain)
    → Result CacheInvalidationEvent
subtitle_event key previous current start end none = err value_error
subtitle_event key previous current start end (some ds) = checked (record {
  source_kind = "subtitle_revision";
  source_key = key;
  previous_hash = previous;
  current_hash = some current;
  reason = source_revision_changed;
  domains = ds;
  start_us = start;
  end_us = end;
})

unfoldable pub subtitle_invalidation :
    String → String → Option ℕ → ℕ → Option ℕ → Option ℕ → Result CacheInvalidationEvent
unfolding domains_of valid_range
subtitle_invalidation key mode previous current start end =
    subtitle_event key previous current start end (domains_of mode)

unfoldable pub audio_cut_invalidation :
    String → Option ℕ → ℕ → Option ℕ → Option ℕ → Result CacheInvalidationEvent
unfolding valid_range
audio_cut_invalidation key previous current start end = checked (record {
  source_kind = "continuity_revision";
  source_key = key;
  previous_hash = previous;
  current_hash = some current;
  reason = source_revision_changed;
  domains = audio ∷ [];
  start_us = start;
  end_us = end;
})

unfoldable pub layout_invalidation : String → Option ℕ → ℕ → Result CacheInvalidationEvent
unfolding valid_range
layout_invalidation key previous current = checked (record {
  source_kind = "timeline_revision";
  source_key = key;
  previous_hash = previous;
  current_hash = some current;
  reason = layout_changed;
  domains = layout ∷ video_only ∷ overlay ∷ transition ∷ subtitle_burn_in ∷ final ∷ [];
  start_us = none;
  end_us = none;
})
