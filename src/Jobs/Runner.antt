-- ===== src/Jobs/Runner.antt =====
-- JobRunner.execute of jobs/runner.py: the handler of a job is run until it succeeds, until its
-- attempts are used up, or until a pause. What the handler does to the tables, and whatever else
-- calls the repository meanwhile, is a list of calls; the signals of the token and the context are
-- parameters, as is the clock. The consumer lock makes one run at a time.
use ppt_video_workbench_v.Base.{
  ℕ, zero, suc, ◌+◌, String, List, Option, none, some, Bool, leb, ltb, is_empty, if◌then◌else◌,
}
use ppt_video_workbench_v.Jobs.Record.{Job}
use ppt_video_workbench_v.Jobs.Store.{Db, Result, ok, err}
use ppt_video_workbench_v.Jobs.Control.{mark_running, request_pause, complete, fail}
use ppt_video_workbench_v.Jobs.Progress.{record_attempt}
use ppt_video_workbench_v.Jobs.Calls.{Call, run}

-- The n-th run of the handler: the calls made, and the text of the exception if it raises.
pub record Handler : Type 0 where
  pub calls : ℕ → Db → List Call
  pub failure : ℕ → Db → Option String

-- The signals: whether a cancel is seen at the start and before the n-th run, and whether a pause
-- or a cancel is seen after it.
pub record Signals : Type 0 where
  pub at_start : Bool
  pub before : ℕ → Bool
  pub after : ℕ → Bool

-- What a call answers, with the tables after it; none where the fuel does not suffice.
abbrev pub Ending : Type 0
Ending = Option (Result Job × Db)

-- `record.error or "attempt limit reached"`
abbrev pub last_error : Option String → String
last_error none = "attempt limit reached"
last_error (some e) = if is_empty e then "attempt limit reached" else e

-- The default `error_code` of `fail`.
abbrev default_code : String
default_code = "video_export_rejected"

module _ (sha256 : String → String) (id : ℕ) (h : Handler) (w : Signals) (clock : ℕ → ℕ) where
  abbrev pub failed_try : (Job → Db → Ending) → ℕ → String → Result Job × Db → Ending
  failed_try rest n error (err e, db) = some (err e, db)
  failed_try rest n error (ok r, db) =
      if leb r.max_attempts r.attempts
      then some (fail id error default_code (clock n) db)
      else rest r db

  abbrev pub finish_try : ℕ → Result Job × Db → Ending
  finish_try n (err e, db) = some (err e, db)
  finish_try n (ok r, db) = some (complete id (clock n) db)

  abbrev pub after_run : (Job → Db → Ending) → ℕ → Option String → Db → Ending
  after_run rest n (some error) db =
      failed_try rest n error (record_attempt id (some error) (clock n) db)
  after_run rest n none db =
      if w.after n
      then some (request_pause id none (clock n) db)
      else finish_try n (record_attempt id none (clock n) db)

  abbrev pub one_try : (Job → Db → Ending) → ℕ → Db → Ending
  one_try rest n db =
      if w.before n
      then some (request_pause id none (clock n) db)
      else after_run rest n (h.failure n db) (run sha256 db (h.calls n db))

  abbrev pub used_up : ℕ → Job → Db → Ending
  used_up n seen db = some (fail id (last_error seen.error) default_code (clock n) db)

  -- The while loop.
  unfoldable pub tries : ℕ → ℕ → Job → Db → Ending
  unfolding record_attempt request_pause complete fail run
  tries zero n seen db = if ltb seen.attempts seen.max_attempts then none else used_up n seen db
  tries (suc k) n seen db =
      let rest = tries k (n + 1) in
      if ltb seen.attempts seen.max_attempts then one_try rest n db else used_up n seen db

  abbrev pub begin : Result Job × Db → Ending
  begin (err e, db) = some (err e, db)
  begin (ok seen, db) = tries seen.max_attempts 0 seen db

  -- `execute`, on as much fuel as the job may have attempts.
  unfoldable pub execute : Db → Ending
  unfolding mark_running request_pause tries
  execute db =
      if w.at_start
      then some (request_pause id none (clock 0) db)
      else begin (mark_running id (clock 0) db)
