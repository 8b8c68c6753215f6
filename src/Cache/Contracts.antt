-- ===== src/Cache/Contracts.antt =====
-- cache/contracts.py: the dependencies of a cached artifact and the events that make it stale. A hash
-- is 64 hexadecimal digits and stands as the number they write, whose order is that of the texts.
use ppt_video_workbench_v.Base.{
  ℕ, List, [], ◌∷◌, Option, none, some, Bool, true, false, ◌&&◌, ◌||◌, ltb, String, str_eq,
  text_before, sorted, opt_eq,
}

pub data CacheDomain : Type 0 where
  video_only audio subtitle_soft subtitle_burn_in transition overlay layout final : CacheDomain

unfoldable pub same_domain : CacheDomain → CacheDomain → Bool
same_domain video_only video_only = true
same_domain audio audio = true
same_domain subtitle_soft subtitle_soft = true
same_domain subtitle_burn_in subtitle_burn_in = true
same_domain transition transition = true
same_domain overlay overlay = true
same_domain layout layout = true
same_domain final final = true
same_domain _ _ = false

pub data CacheEntryState : Type 0 where
  ready stale corrupted quarantined : CacheEntryState

unfoldable pub same_state : CacheEntryState → CacheEntryState → Bool
same_state ready ready = true
same_state stale stale = true
same_state corrupted corrupted = true
same_state quarantined quarantined = true
same_state _ _ = false

pub data StaleReason : Type 0 where
  source_revision_changed asset_revision_changed runtime_incompatible license_invalid : StaleReason
  artifact_mismatch layout_changed : StaleReason

pub record CacheArtifactRef : Type 0 where
  pub relative_path : String
  pub sha256 : ℕ
  pub size_bytes : ℕ

pub record CacheDependency : Type 0 where
  pub schema_version : String
  pub domain : CacheDomain
  pub node_key : String
  pub upstream_kind : String
  pub upstream_key : String
  pub upstream_hash : ℕ
  pub start_us : Option ℕ
  pub end_us : Option ℕ
  pub artifact_refs : List CacheArtifactRef

pub record CacheInvalidationEvent : Type 0 where
  pub source_kind : String
  pub source_key : String
  pub previous_hash : Option ℕ
  pub current_hash : Option ℕ
  pub reason : StaleReason
  pub domains : List CacheDomain
  pub start_us : Option ℕ
  pub end_us : Option ℕ

-- `validate_range`, with the bounds of the two fields: both or none, and the end is later.
unfoldable pub valid_range : Option ℕ → Option ℕ → Bool
valid_range none none = true
valid_range none (some end) = false
valid_range (some start) none = false
valid_range (some start) (some end) = ltb start end

-- `_ranges_overlap`
abbrev within_range : Option ℕ → Option ℕ → ℕ → ℕ → Bool
within_range none to start end = true
within_range (some from) none start end = true
within_range (some from) (some to) start end = ltb from end && ltb start to

unfoldable pub ranges_overlap : CacheDependency → Option ℕ → Option ℕ → Bool
ranges_overlap d none end = true
ranges_overlap d (some start) none = true
ranges_overlap d (some start) (some end) = within_range d.start_us d.end_us start end

-- The SELECT of `reverse_dependencies` and the test that follows it.
unfoldable pub in_domains : CacheDomain → List CacheDomain → Bool
unfolding same_domain
in_domains d [] = false
in_domains d (x ∷ xs) = same_domain x d || in_domains d xs

abbrev pub any_domain : List CacheDomain → Bool
any_domain [] = true
any_domain (x ∷ xs) = false

unfoldable pub affected : CacheInvalidationEvent → CacheDependency → Bool
unfolding ranges_overlap in_domains
affected event d =
    (str_eq d.upstream_kind event.source_kind && str_eq d.upstream_key event.source_key)
    && ((any_domain event.domains || in_domains d.domain event.domains)
        && ranges_overlap d event.start_us event.end_us)

-- The `value` of a domain.
unfoldable pub domain_value : CacheDomain → String
domain_value video_only = "video_only"
domain_value audio = "audio"
domain_value subtitle_soft = "subtitle_soft"
domain_value subtitle_burn_in = "subtitle_burn_in"
domain_value transition = "transition"
domain_value overlay = "overlay"
domain_value layout = "layout"
domain_value final = "final"

-- The order of a number or -1.
abbrev pub bound_before : Option ℕ → Option ℕ → Bool
bound_before none none = false
bound_before none (some b) = true
bound_before (some a) none = false
bound_before (some a) (some b) = ltb a b

-- The order of a component and then of the rest, of a tuple.
abbrev pub then_by : Bool → Bool → Bool → Bool
then_by less same rest = less || (same && rest)

abbrev by_text : String → String → Bool → Bool
by_text s t rest = then_by (text_before s t) (str_eq s t) rest

abbrev by_bound : Option ℕ → Option ℕ → Bool → Bool
by_bound s t rest = then_by (bound_before s t) (opt_eq s t) rest

-- The order of the keys of `normalize_dependencies`.
unfoldable pub dependency_before : CacheDependency → CacheDependency → Bool
unfolding text_before domain_value
dependency_before a b = by_text (domain_value a.domain) (domain_value b.domain) (
    by_text a.node_key b.node_key (
      by_text a.upstream_kind b.upstream_kind (
        by_text a.upstream_key b.upstream_key (
          by_bound a.start_us b.start_us
            (by_bound a.end_us b.end_us (ltb a.upstream_hash b.upstream_hash))))))

abbrev pub normalize_dependencies : List CacheDependency → List CacheDependency
normalize_dependencies ds = sorted dependency_before ds
