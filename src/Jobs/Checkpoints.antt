-- ===== src/Jobs/Checkpoints.antt =====
-- `record_checkpoint`, `latest_checkpoint` and `list_checkpoints` of jobs/repository.py. The
-- SHA-256 of the encoded checkpoint is a parameter, `sha256`.
use ppt_video_workbench_v.Base.{
  ℕ, ◌+◌, String, List, [], ◌∷◌, ◌++◌, Option, none, some, Bool, false, ◌&&◌, ◌==◌, leb, keep, any,
  all, update_where, is_empty, if◌then◌else◌, value_or,
}
use ppt_video_workbench_v.Jobs.Record.{Attempt, CheckpointRow, valid_checkpoint}
use ppt_video_workbench_v.Jobs.Store.{
  M, ok, err, integrity, validation, conflict, pure, raise, refuse_if, ◌>>=◌, ◌>>◌,
}
use ppt_video_workbench_v.Jobs.Access.{current_attempt}

abbrev pub of_job : ℕ → CheckpointRow → Bool
of_job id c = c.job_id == id

abbrev pub later : CheckpointRow → Option CheckpointRow → CheckpointRow
later c none = c
later c (some d) = if leb d.sequence c.sequence then c else d

-- The first row of ORDER BY sequence DESC, over the rows of one job.
unfoldable pub last_row : ℕ → List CheckpointRow → Option CheckpointRow
last_row id [] = none
last_row id (c ∷ cs) =
    let rest = last_row id cs in if of_job id c then some (later c rest) else rest

-- `latest_checkpoint`: `list_checkpoints` validates every row of the job.
unfoldable pub latest_checkpoint : ℕ → M (Option CheckpointRow)
unfolding last_row valid_checkpoint
latest_checkpoint id db =
    if all valid_checkpoint (keep (of_job id) db.checkpoints)
    then (ok (last_row id db.checkpoints), db)
    else (err validation, db)

abbrev pub next_sequence : Option CheckpointRow → ℕ
next_sequence none = 1
next_sequence (some c) = c.sequence + 1

-- `existing is not None and selected_sequence <= existing.sequence`
abbrev pub not_after : ℕ → Option CheckpointRow → Bool
not_after n none = false
not_after n (some c) = leb n c.sequence

abbrev pub attempt_id_of : Option Attempt → Option ℕ
attempt_id_of none = none
attempt_id_of (some a) = some a.id

abbrev pub either_id : Option ℕ → Option ℕ → Option ℕ
either_id none b = b
either_id (some a) b = some a

-- The optional arguments of `record_checkpoint`.
pub record CheckpointArgs : Type 0 where
  pub checkpoint_json : String
  pub attempt_id : Option ℕ
  pub sequence : Option ℕ
  pub checkpoint_hash : Option String

abbrev nonempty_or : Option String → String → String
nonempty_or none d = d
nonempty_or (some s) d = if is_empty s then d else s

abbrev pub same_place : CheckpointRow → CheckpointRow → Bool
same_place new old = (old.job_id == new.job_id) && (old.sequence == new.sequence)

abbrev pub marked : CheckpointRow → Attempt → Attempt
marked new a = record a {
  checkpoint_sequence = some new.sequence;
  heartbeat_at = some new.created_at;
  revision = a.revision + 1;
}

-- The INSERT with the UPDATE of the attempt, and the record built after the commit.
unfoldable pub insert_checkpoint : CheckpointRow → M CheckpointRow
unfolding valid_checkpoint
insert_checkpoint new db = if any (same_place new) db.checkpoints then (err integrity, db) else (
  if valid_checkpoint new then ok new else err validation,
  record db {
    checkpoints = db.checkpoints ++ new ∷ [];
    attempts = update_where (λ a. a.id == new.attempt_id) (marked new) db.attempts;
  },
)

abbrev pub require_attempt : Option ℕ → M ℕ
require_attempt none = raise conflict
require_attempt (some a) = pure a

module _ (sha256 : String → String) where
  abbrev pub checkpoint_row : ℕ → CheckpointArgs → ℕ → ℕ → Option CheckpointRow → CheckpointRow
  checkpoint_row id args now attempt existing = record {
    job_id = id;
    attempt_id = attempt;
    sequence = value_or args.sequence (next_sequence existing);
    checkpoint_json = args.checkpoint_json;
    checkpoint_hash = nonempty_or args.checkpoint_hash (sha256 args.checkpoint_json);
    created_at = now;
  }

  abbrev pub append_after : ℕ → CheckpointArgs → ℕ → ℕ → Option CheckpointRow → M CheckpointRow
  append_after id args now attempt existing = do
    refuse_if (not_after (value_or args.sequence (next_sequence existing)) existing) conflict
    insert_checkpoint (checkpoint_row id args now attempt existing)

  unfoldable pub record_checkpoint : ℕ → CheckpointArgs → ℕ → M CheckpointRow
  unfolding current_attempt latest_checkpoint insert_checkpoint
  record_checkpoint id args now = do
    current ← current_attempt id
    attempt ← require_attempt (either_id args.attempt_id (attempt_id_of current))
    existing ← latest_checkpoint id
    append_after id args now attempt existing
