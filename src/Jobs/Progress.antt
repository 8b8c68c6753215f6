-- ===== src/Jobs/Progress.antt =====
-- `update_progress`, `heartbeat` and `record_attempt` of jobs/repository.py.
use ppt_video_workbench_v.Base.{
  ℕ, ◌+◌, String, Option, none, some, Bool, true, false, not, ◌&&◌, ◌==◌, leb, ltb, opt_eq,
  value_or, update_where, take_chars,
}
use ppt_video_workbench_v.Jobs.Status.{AttemptStatus, same_attempt_status}
use ppt_video_workbench_v.Jobs.Record.{Job, Attempt, whole}
use ppt_video_workbench_v.Jobs.Store.{M, ok, conflict, value_error, pure, refuse_if, ◌>>=◌, ◌>>◌}
use ppt_video_workbench_v.Jobs.Access.{get, write, current_attempt}

-- The optional arguments of `update_progress`.
pub record Report : Type 0 where
  pub progress : ℕ
  pub stage : Option String
  pub message : Option String
  pub payload : Option String

abbrev cut : Option String → String → String
cut none old = old
cut (some text) old = take_chars 500 text

abbrev pub reported : Report → ℕ → Job → Job
reported r now j = record j {
  progress = r.progress;
  updated_at = now;
  heartbeat_at = some now;
  revision = j.revision + 1;
  stage = value_or r.stage j.stage;
  message = cut r.message j.message;
  payload_json = value_or r.payload j.payload_json;
}

abbrev pub progress_seen : ℕ → Report → ℕ → Job → M Job
progress_seen id r now seen = do
  refuse_if (ltb r.progress seen.progress) value_error
  write id (reported r now) none (some seen.revision)

unfoldable pub update_progress : ℕ → Report → ℕ → M Job
unfolding get write
update_progress id r now = do
  refuse_if (not (leb r.progress whole)) value_error
  seen ← get id
  progress_seen id r now seen

abbrev pub beaten : ℕ → Job → Job
beaten now j = record j { heartbeat_at = some now; updated_at = now; revision = j.revision + 1 }

-- The UPDATE of the current attempt, in a transaction of its own.
unfoldable pub beat_attempt : Option ℕ → ℕ → M Unit
beat_attempt none now db = (ok tt, db)
beat_attempt (some id) now db = (
  ok tt,
  record db {
    attempts =
        update_where (λ a. (a.id == id) && same_attempt_status a.status AttemptStatus.running)
          (λ a. record a { heartbeat_at = some now; revision = a.revision + 1 }) db.attempts;
  },
)

abbrev pub other_attempt : Option ℕ → Job → Bool
other_attempt none j = false
other_attempt (some a) j = not (opt_eq j.current_attempt_id (some a))

abbrev pub other_generation : ℕ → Option Attempt → Bool
other_generation g none = true
other_generation g (some a) = not (a.generation == g)

abbrev pub require_generation : ℕ → Option ℕ → M Unit
require_generation id none = pure tt
require_generation id (some g) = do
  current ← current_attempt id
  refuse_if (other_generation g current) conflict

abbrev pub beat_after : Job → ℕ → Job → M Job
beat_after seen now updated = do beat_attempt seen.current_attempt_id now; pure updated

abbrev pub beat_seen : ℕ → ℕ → Job → M Job
beat_seen id now seen = do
  updated ← write id (beaten now) none (some seen.revision)
  beat_after seen now updated

unfoldable pub heartbeat : ℕ → Option ℕ → Option ℕ → ℕ → M Job
unfolding get write current_attempt beat_attempt
heartbeat id attempt generation now = do
  seen ← get id
  refuse_if (other_attempt attempt seen) conflict
  require_generation id generation
  beat_seen id now seen

abbrev cut_error : Option String → Option String → Option String
cut_error none old = old
cut_error (some text) old = some (take_chars 500 text)

abbrev pub tried : Job → Option String → ℕ → Job → Job
tried seen error now j = record j {
  attempts = seen.attempts + 1;
  updated_at = now;
  revision = j.revision + 1;
  error = cut_error error j.error;
}

unfoldable pub record_attempt : ℕ → Option String → ℕ → M Job
unfolding get write
record_attempt id error now = do
  seen ← get id
  write id (tried seen error now) none (some seen.revision)
