-- ===== src/Continuity/Plan.antt =====
-- continuity/models.py, with what pydantic validates. A coordinate is a number of millionths, and a
-- payload that pydantic refuses is a plan's command that is malformed.
use ppt_video_workbench_v.Base.{
  ℕ, ◌+◌, List, Option, Bool, true, false, not, ◌&&◌, ◌||◌, ◌==◌, ltb, leb, length, fits_in,
  is_empty, String,
}
use ppt_video_workbench_v.Base.Int.{ℤ, pos, negsuc, within}

pub data TransitionKind : Type 0 where
  cut dissolve wipe slide match : TransitionKind

pub data AudioCutMode : Type 0 where
  plain_cut j_cut l_cut : AudioCutMode

pub record TransitionSpec : Type 0 where
  pub id : ℕ
  pub from_page_id : ℕ
  pub to_page_id : ℕ
  pub kind : TransitionKind
  pub duration_ms : ℕ
  pub audio_mode : AudioCutMode
  pub audio_offset_ms : ℤ
  pub easing : String
  pub enabled : Bool
  pub chapter_boundary : Bool
  pub parameters : String

abbrev pub is_cut : TransitionKind → Bool
is_cut cut = true
is_cut _ = false

abbrev pub is_plain : AudioCutMode → Bool
is_plain plain_cut = true
is_plain _ = false

abbrev pub no_offset : ℤ → Bool
no_offset (pos n) = n == 0
no_offset (negsuc n) = false

-- The bounds of the fields and `validate_transition`.
unfoldable pub valid_transition : TransitionSpec → Bool
valid_transition t =
    (leb t.duration_ms 10000 && within 10000 t.audio_offset_ms)
    && (not (t.from_page_id == t.to_page_id)
        && ((not (is_cut t.kind) || (t.duration_ms == 0))
            && (not (is_plain t.audio_mode) || no_offset t.audio_offset_ms)))

pub record OverlayPlacement : Type 0 where
  pub id : ℕ
  pub source_ref : String
  pub kind : String
  pub start_ms : ℕ
  pub duration_ms : ℕ
  pub x : ℕ
  pub y : ℕ
  pub width : ℕ
  pub height : ℕ
  pub opacity : ℕ
  pub crop : String
  pub mask : String
  pub enter_ms : ℕ
  pub exit_ms : ℕ
  pub license_asset_id : Option ℕ
  pub z_index : ℕ

abbrev pub one : ℕ
one = 1000000

-- The bounds of the fields and `validate_bounds`.
unfoldable pub valid_overlay : OverlayPlacement → Bool
unfolding fits_in
valid_overlay o =
    (fits_in 500 o.source_ref && not (is_empty o.source_ref))
    && ((ltb 0 o.duration_ms && (ltb 0 o.width && ltb 0 o.height))
        && ((leb o.opacity one
              && (leb o.enter_ms 5000 && (leb o.exit_ms 5000 && leb o.z_index 999)))
            && ((leb (o.x + o.width) one && leb (o.y + o.height) one)
                && leb (o.enter_ms + o.exit_ms) o.duration_ms)))

pub record ChapterMarker : Type 0 where
  pub id : ℕ
  pub title : String
  pub start_ms : ℕ
  pub end_ms : ℕ
  pub page_ids : List ℕ

-- The bounds of the fields and `validate_range`.
unfoldable pub valid_chapter : ChapterMarker → Bool
unfolding fits_in
valid_chapter c =
    (fits_in 160 c.title && not (is_empty c.title))
    && (ltb 0 (length c.page_ids) && ltb c.start_ms c.end_ms)

pub record ContinuityPlan : Type 0 where
  pub version : ℕ
  pub revision : ℕ
  pub project_id : ℕ
  pub duration_ms : ℕ
  pub transitions : List TransitionSpec
  pub overlays : List OverlayPlacement
  pub chapters : List ChapterMarker
  pub content_hash : ℕ

-- `kind` with its payload: the record that `model_validate` is given, or the id to remove.
pub data CommandKind : Type 0 where
  upsert_transition : TransitionSpec → CommandKind
  remove_transition : ℕ → CommandKind
  upsert_overlay : OverlayPlacement → CommandKind
  remove_overlay : ℕ → CommandKind
  upsert_chapter : ChapterMarker → CommandKind
  remove_chapter : ℕ → CommandKind
  malformed : CommandKind

pub record ContinuityPlanCommand : Type 0 where
  pub command_id : ℕ
  pub expected_revision : ℕ
  pub kind : CommandKind
