-- ===== src/Jobs/Recovery.antt =====
-- `recover_interrupted_jobs` of jobs/repository.py: what a start makes of the jobs that the last
-- run of the application left running, pausing or cancelling.
use ppt_video_workbench_v.Base.{
  ℕ, ◌+◌, List, [], ◌∷◌, ◌++◌, Option, none, some, Bool, false, not, ◌&&◌, ◌||◌, ◌==◌, map, keep,
  any, update_where,
}
use ppt_video_workbench_v.Jobs.Status.{
  running, pause_requested, paused, cancel_requested, failed, cancelled, AttemptStatus, same_status,
  same_attempt_status,
}
use ppt_video_workbench_v.Jobs.Record.{Job, Attempt}
use ppt_video_workbench_v.Jobs.Store.{Db, M, ok, err, pure, ◌>>=◌}
use ppt_video_workbench_v.Jobs.Access.{get}

abbrev pub is_interrupted : Job → Bool
is_interrupted j = same_status j.status running || same_status j.status pause_requested

abbrev pub is_cancelling : Job → Bool
is_cancelling j = same_status j.status cancel_requested

abbrev pub ids_where : (Job → Bool) → List Job → List ℕ
ids_where p jobs = map (λ j. j.id) (keep p jobs)

abbrev pub one_of : List ℕ → ℕ → Bool
one_of ids id = any (λ k. k == id) ids

-- Whether reading the job and cleaning it up returned; `cleanup` is false where it raises.
unfoldable pub cleaned : (Job → Bool) → Db → ℕ → Bool
unfolding get
cleaned cleanup db id = elim (get id db).0 [ ok j ↦ cleanup j | err e ↦ false ]

-- The cancelled jobs whose cleanup failed; without a callback nothing can fail.
unfoldable pub cleanup_failed : Option (Job → Bool) → Db → List ℕ → List ℕ
unfolding cleaned
cleanup_failed none db ids = []
cleanup_failed (some cleanup) db ids = keep (λ id. not (cleaned cleanup db id)) ids

abbrev pub interrupted_row : ℕ → Job → Job
interrupted_row now j = record j {
  status = paused;
  stage = "paused";
  message = "应用上次运行期间中断，可继续或取消";
  error_code = some "render_worker_interrupted";
  updated_at = now;
  heartbeat_at = none;
  revision = j.revision + 1;
}

abbrev pub recovered_cancel_row : ℕ → Job → Job
recovered_cancel_row now j = record j {
  status = cancelled;
  stage = "cancelled";
  message = "应用上次运行期间取消请求未完成，已恢复为已取消";
  error_code = some "render_cancelled";
  updated_at = now;
  heartbeat_at = none;
  finished_at = some now;
  revision = j.revision + 1;
}

abbrev pub cleanup_failed_row : ℕ → Job → Job
cleanup_failed_row now j = record j {
  status = failed;
  stage = "failed";
  message = "取消任务的临时文件清理失败";
  error = some "temporary render cleanup failed";
  error_code = some "render_cancel_cleanup_failed";
  updated_at = now;
  heartbeat_at = none;
  finished_at = some now;
  revision = j.revision + 1;
}

abbrev pub ended : AttemptStatus → ℕ → Attempt → Attempt
ended status now a = record a {
  status = status;
  heartbeat_at = none;
  finished_at = some now;
  revision = a.revision + 1;
}

abbrev pub is_running : Attempt → Bool
is_running a = same_attempt_status a.status AttemptStatus.running

abbrev pub is_open : Attempt → Bool
is_open a =
    same_attempt_status a.status AttemptStatus.running
    || same_attempt_status a.status AttemptStatus.paused

-- `successful_cancellations`
abbrev pub clean_ids : List ℕ → List ℕ → List ℕ
clean_ids cancelling unclean = keep (λ id. not (one_of unclean id)) cancelling

-- The three UPDATEs of the jobs, and the two of the attempts, in their order.
unfoldable pub settle : List ℕ → List ℕ → List ℕ → ℕ → Db → Db
settle interrupted cancelling unclean now db = record db {
  jobs =
      update_where (λ j. one_of unclean j.id) (cleanup_failed_row now)
        (update_where (λ j. one_of (clean_ids cancelling unclean) j.id) (recovered_cancel_row now)
          (update_where (λ j. one_of interrupted j.id) (interrupted_row now) db.jobs));
  attempts =
      update_where (λ a. one_of (clean_ids cancelling unclean) a.job_id && is_open a)
        (ended AttemptStatus.cancelled now)
        (update_where (λ a. one_of interrupted a.job_id && is_running a)
          (ended AttemptStatus.expired now) db.attempts);
}

-- `[self.get(id) for id in ids]`
unfoldable pub get_all : List ℕ → M (List Job)
unfolding get
get_all [] = pure []
get_all (id ∷ ids) = do j ← get id; js ← get_all ids; pure (j ∷ js)

unfoldable pub recover_interrupted_jobs : Option (Job → Bool) → ℕ → M (List Job)
unfolding cleanup_failed settle get_all
recover_interrupted_jobs cleanup now db =
    let interrupted = ids_where is_interrupted db.jobs in
    let cancelling = ids_where is_cancelling db.jobs in
    get_all (interrupted ++ cancelling)
      (settle interrupted cancelling (cleanup_failed cleanup db cancelling) now db)
