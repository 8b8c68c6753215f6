-- ===== src/Jobs/Control.antt =====
-- The status requests of JobRepository in jobs/repository.py: pause, resume, cancel, paid
-- confirmation, completion, failure. Each passes the columns it sets to `transition`.
use ppt_video_workbench_v.Base.{
  ℕ, String, Option, none, some, not, Bool, any, ◌==◌, ◌&&◌, ◌||◌, if◌then◌else◌, take_chars,
}
use ppt_video_workbench_v.Jobs.Status.{
  queued, running, pause_requested, paused, needs_confirmation, cancel_requested, succeeded, failed,
  cancelled, same_status, same_type, export_package,
}
use ppt_video_workbench_v.Jobs.Record.{Job, whole}
use ppt_video_workbench_v.Jobs.Store.{M, conflict, integrity, pure, raise, refuse_if, ◌>>=◌, ◌>>◌}
use ppt_video_workbench_v.Jobs.Enqueue.{is_indexed}
use ppt_video_workbench_v.Jobs.Access.{get, require_expected_revision, transition}

-- The columns `stage` and `message`.
abbrev pub labelled : String → String → Job → Job
labelled stage message j = record j { stage = stage; message = message }

unfoldable pub mark_running : ℕ → ℕ → M Job
unfolding transition
mark_running id now = transition id running none (labelled "running" "任务执行中") now

abbrev pub pause_seen : ℕ → ℕ → Job → M Job
pause_seen id now seen =
    if same_status seen.status paused || same_status seen.status pause_requested
    then pure seen
    else if same_status seen.status queued
    then transition id paused (some seen.revision) (labelled "paused" "任务已暂停") now
    else if same_status seen.status running
    then transition id pause_requested (some seen.revision) (labelled seen.stage "当前阶段完成后暂停") now
    else raise conflict

unfoldable pub request_pause : ℕ → Option ℕ → ℕ → M Job
unfolding get require_expected_revision transition
request_pause id expected now = do
  seen ← get id
  require_expected_revision seen expected
  pause_seen id now seen

unfoldable pub mark_paused : ℕ → ℕ → M Job
unfolding transition
mark_paused id now = transition id paused none (labelled "paused" "任务已暂停") now

abbrev pub resume_seen : ℕ → ℕ → Job → M Job
resume_seen id now seen =
    if not (same_status seen.status paused)
    then pure seen
    else transition id queued (some seen.revision) (labelled "queued" "已恢复并重新排队") now

unfoldable pub resume : ℕ → Option ℕ → ℕ → M Job
unfolding get require_expected_revision transition
resume id expected now = do
  seen ← get id
  require_expected_revision seen expected
  resume_seen id now seen

abbrev pub unknown_outcome : Job → Job
unknown_outcome j = record j {
  stage = "manual_confirmation";
  message = "paid remote task outcome is unknown; manual confirmation is required";
  error = some "paid remote task outcome is unknown";
  error_code = some "paid_remote_result_unknown";
}

abbrev pub unknown_seen : ℕ → ℕ → Job → M Job
unknown_seen id now seen =
    if same_status seen.status needs_confirmation
    then pure seen
    else transition id needs_confirmation (some seen.revision) unknown_outcome now

unfoldable pub require_manual_confirmation : ℕ → Option ℕ → ℕ → M Job
unfolding get require_expected_revision transition
require_manual_confirmation id expected now = do
  seen ← get id
  require_expected_revision seen expected
  refuse_if (not seen.paid) conflict
  unknown_seen id now seen

abbrev pub confirmed : Job → Job
confirmed j = record j {
  stage = "queued";
  message = "paid remote result confirmed for retry";
  error = none;
  error_code = none;
}

-- Another active export job of the project.
abbrev pub is_rival : Job → Job → Bool
is_rival j x = not (x.id == j.id) && ((x.project_id == j.project_id) && is_indexed x)

-- In a workspace migrated from schema 1 the UPDATE that makes an export job active again raises where
-- the project has another one; the other moves leave a row in the index or out of it.
abbrev pub enter_index : Job → M Unit
enter_index j db =
    refuse_if (db.migrated && (same_type j.job_type export_package && any (is_rival j) db.jobs))
      integrity db

abbrev pub confirm_seen : ℕ → ℕ → Job → M Job
confirm_seen id now seen = do
  refuse_if (not seen.paid || not (same_status seen.status needs_confirmation)) conflict
  enter_index seen
  transition id queued (some seen.revision) confirmed now

unfoldable pub confirm_paid_retry : ℕ → Option ℕ → ℕ → M Job
unfolding get require_expected_revision transition is_indexed
confirm_paid_retry id expected now = do
  seen ← get id
  require_expected_revision seen expected
  confirm_seen id now seen

abbrev pub cancelled_columns : ℕ → Job → Job
cancelled_columns now j = record j {
  stage = "cancelled";
  message = "任务已取消";
  error_code = some "render_cancelled";
  finished_at = some now;
}

abbrev pub cancel_seen : ℕ → ℕ → Job → M Job
cancel_seen id now seen =
    if same_status seen.status cancelled || same_status seen.status cancel_requested
    then pure seen
    else if same_status seen.status queued || same_status seen.status paused
    then transition id cancelled (some seen.revision) (cancelled_columns now) now
    else if same_status seen.status running || same_status seen.status pause_requested
    then transition id cancel_requested (some seen.revision) (labelled seen.stage "正在等待当前进程结束后取消")
        now
    else raise conflict

unfoldable pub request_cancel : ℕ → Option ℕ → ℕ → M Job
unfolding get require_expected_revision transition
request_cancel id expected now = do
  seen ← get id
  require_expected_revision seen expected
  cancel_seen id now seen

unfoldable pub cancel : ℕ → ℕ → M Job
unfolding transition
cancel id now = transition id cancelled none (cancelled_columns now) now

abbrev pub succeeded_columns : Option String → ℕ → Job → Job
succeeded_columns result now j = record j {
  stage = "completed";
  message = "渲染与制作包已完成";
  progress = whole;
  result_json = result;
  finished_at = some now;
  error = none;
  error_code = none;
}

unfoldable pub succeed : ℕ → Option String → ℕ → M Job
unfolding transition
succeed id result now = transition id succeeded none (succeeded_columns result now) now

unfoldable pub complete : ℕ → ℕ → M Job
unfolding succeed
complete id now = succeed id none now

abbrev pub failed_columns : String → String → ℕ → Job → Job
failed_columns error error_code now j = record j {
  stage = "failed";
  message = "渲染任务失败";
  error = some (take_chars 500 error);
  error_code = some error_code;
  finished_at = some now;
}

unfoldable pub fail : ℕ → String → String → ℕ → M Job
unfolding transition
fail id error error_code now = transition id failed none (failed_columns error error_code now) now

abbrev pub requeue_seen : ℕ → ℕ → Job → M Job
requeue_seen id now seen =
    if same_status seen.status succeeded
    then pure seen
    else if same_status seen.status paused
    then resume id none now
    else pure seen

unfoldable pub requeue_for_recovery : ℕ → ℕ → M Job
unfolding get resume
requeue_for_recovery id now = do seen ← get id; requeue_seen id now seen
