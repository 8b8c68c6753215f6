-- ===== src/Jobs/ControlSafety.antt =====
-- The status requests of jobs/repository.py keep the invariant and advance the rows.
use ppt_video_workbench_v.Base.{ℕ, ◌≤◌, String, Option, none, some, any, not, ◌&&◌, ◌||◌, arith}
use ppt_video_workbench_v.Jobs.Status.{
  queued, running, pause_requested, paused, needs_confirmation, cancel_requested, succeeded, failed,
  cancelled, same_status, same_type, export_package,
}
use ppt_video_workbench_v.Jobs.Record.{Job, whole}
use ppt_video_workbench_v.Jobs.Store.{Db, conflict, integrity, pure, refuse_if, ◌>>◌}
use ppt_video_workbench_v.Jobs.Access.{require_expected_revision, transition}
use ppt_video_workbench_v.Jobs.Control.{
  labelled, mark_running, pause_seen, request_pause, mark_paused, resume, resume_seen,
  unknown_outcome, require_manual_confirmation, unknown_seen, confirmed, enter_index, is_rival,
  confirm_paid_retry, confirm_seen, cancelled_columns, cancel_seen, request_cancel, cancel,
  succeeded_columns, succeed, failed_columns, fail, requeue_seen, requeue_for_recovery,
}
use ppt_video_workbench_v.Jobs.Safety.{
  Safe, Quiet-Safe, pure-Quiet, raise-Quiet, refuse-Safe, if-Safe, expected-Safe, get-Safe,
  IsSteady, transition-Safe,
}

-- A change of texts and times alone, or the completion of a progress within bounds.
labelled-IsSteady : (s m : String) (j : Job) → j.progress ≤ whole → IsSteady (labelled s m) j
labelled-IsSteady s m j h = ground arith

unknown-IsSteady : (j : Job) → j.progress ≤ whole → IsSteady unknown_outcome j
unknown-IsSteady j h = ground arith

confirmed-IsSteady : (j : Job) → j.progress ≤ whole → IsSteady confirmed j
confirmed-IsSteady j h = ground arith

cancelled-IsSteady : (now : ℕ) (j : Job) → j.progress ≤ whole → IsSteady (cancelled_columns now) j
cancelled-IsSteady now j h = ground arith

succeeded-IsSteady :
    (r : Option String) (now : ℕ) (j : Job)
    → j.progress ≤ whole
    → IsSteady (succeeded_columns r now) j
succeeded-IsSteady r now j h = ground arith

failed-IsSteady :
    (e c : String) (now : ℕ) (j : Job) → j.progress ≤ whole → IsSteady (failed_columns e c now) j
failed-IsSteady e c now j h = ground arith

module _ (id : ℕ) (now : ℕ) (db : Db) where
  pub mark_running-Safe : Safe (mark_running id now) db
  unfolding mark_running
  mark_running-Safe = transition-Safe id running none _ now db (labelled-IsSteady _ _)

  pub mark_paused-Safe : Safe (mark_paused id now) db
  unfolding mark_paused
  mark_paused-Safe = transition-Safe id paused none _ now db (labelled-IsSteady _ _)

  pub cancel-Safe : Safe (cancel id now) db
  unfolding cancel
  cancel-Safe = transition-Safe id cancelled none _ now db (cancelled-IsSteady now)

  pub succeed-Safe : (result : Option String) → Safe (succeed id result now) db
  unfolding succeed
  succeed-Safe result = transition-Safe id succeeded none _ now db (succeeded-IsSteady result now)

  pub fail-Safe : (error code : String) → Safe (fail id error code now) db
  unfolding fail
  fail-Safe error code = transition-Safe id failed none _ now db (failed-IsSteady error code now)

  -- The decisions that follow the reading of the row.
  pause_seen-Safe : (seen : Job) → Safe (pause_seen id now seen) db
  pause_seen-Safe seen =
      if-Safe (same_status seen.status paused || same_status seen.status pause_requested)
        (pure seen) _ db (λ _. Quiet-Safe (pure-Quiet seen db))
        λ _.
          if-Safe (same_status seen.status queued) _ _ db
            (λ _. transition-Safe id paused _ _ now db (labelled-IsSteady _ _))
            λ _.
              if-Safe (same_status seen.status running) _ _ db
                (λ _. transition-Safe id pause_requested _ _ now db (labelled-IsSteady _ _))
                (λ _. Quiet-Safe (raise-Quiet conflict db))

  cancel_seen-Safe : (seen : Job) → Safe (cancel_seen id now seen) db
  cancel_seen-Safe seen =
      if-Safe (same_status seen.status cancelled || same_status seen.status cancel_requested)
        (pure seen) _ db (λ _. Quiet-Safe (pure-Quiet seen db))
        λ _.
          if-Safe (same_status seen.status queued || same_status seen.status paused) _ _ db
            (λ _. transition-Safe id cancelled _ _ now db (cancelled-IsSteady now))
            λ _.
              if-Safe (same_status seen.status running || same_status seen.status pause_requested) _
                _ db (λ _. transition-Safe id cancel_requested _ _ now db (labelled-IsSteady _ _))
                (λ _. Quiet-Safe (raise-Quiet conflict db))

  resume_seen-Safe : (seen : Job) → Safe (resume_seen id now seen) db
  resume_seen-Safe seen =
      if-Safe (not (same_status seen.status paused)) (pure seen) _ db
        (λ _. Quiet-Safe (pure-Quiet seen db))
        (λ _. transition-Safe id queued _ _ now db (labelled-IsSteady _ _))

  unknown_seen-Safe : (seen : Job) → Safe (unknown_seen id now seen) db
  unknown_seen-Safe seen =
      if-Safe (same_status seen.status needs_confirmation) (pure seen) _ db
        (λ _. Quiet-Safe (pure-Quiet seen db))
        (λ _. transition-Safe id needs_confirmation _ _ now db unknown-IsSteady)

  module _ (expected : Option ℕ) where
    pub request_pause-Safe : Safe (request_pause id expected now) db
    unfolding request_pause
    request_pause-Safe =
        get-Safe id (λ j. require_expected_revision j expected >> pause_seen id now j) db
          λ j e v. expected-Safe j expected (pause_seen id now j) db (pause_seen-Safe j)

    pub request_cancel-Safe : Safe (request_cancel id expected now) db
    unfolding request_cancel
    request_cancel-Safe =
        get-Safe id (λ j. require_expected_revision j expected >> cancel_seen id now j) db
          λ j e v. expected-Safe j expected (cancel_seen id now j) db (cancel_seen-Safe j)

    pub resume-Safe : Safe (resume id expected now) db
    unfolding resume
    resume-Safe =
        get-Safe id (λ j. require_expected_revision j expected >> resume_seen id now j) db
          λ j e v. expected-Safe j expected (resume_seen id now j) db (resume_seen-Safe j)

    pub require_manual_confirmation-Safe : Safe (require_manual_confirmation id expected now) db
    unfolding require_manual_confirmation
    require_manual_confirmation-Safe =
        get-Safe id
          (λ j.
            require_expected_revision j expected
            >> (refuse_if (not j.paid) conflict >> unknown_seen id now j))
          db
          λ j e v.
            expected-Safe j expected (refuse_if (not j.paid) conflict >> unknown_seen id now j) db (
              refuse-Safe (not j.paid) conflict (unknown_seen id now j) db
                (λ _. unknown_seen-Safe j))

    enter_index-Safe :
        (j : Job) → Safe (enter_index j >> transition id queued (some j.revision) confirmed now) db
    enter_index-Safe j = record {
      rows =
          (refuse-Safe
            (db.migrated && (same_type j.job_type export_package && any (is_rival j) db.jobs))
            integrity (transition id queued (some j.revision) confirmed now) db
            (λ _.
              transition-Safe id queued (some j.revision) confirmed now db
                confirmed-IsSteady)).rows;
    }

    pub confirm_paid_retry-Safe : Safe (confirm_paid_retry id expected now) db
    unfolding confirm_paid_retry
    confirm_paid_retry-Safe =
        get-Safe id (λ j. require_expected_revision j expected >> confirm_seen id now j) db
          λ j e v. expected-Safe j expected (confirm_seen id now j) db (
            refuse-Safe (not j.paid || not (same_status j.status needs_confirmation)) conflict
              (enter_index j >> transition id queued (some j.revision) confirmed now) db
              (λ _. enter_index-Safe j))

  requeue_seen-Safe : (seen : Job) → Safe (requeue_seen id now seen) db
  requeue_seen-Safe seen =
      if-Safe (same_status seen.status succeeded) (pure seen) _ db
        (λ _. Quiet-Safe (pure-Quiet seen db))
        λ _.
          if-Safe (same_status seen.status paused) (resume id none now) (pure seen) db
            (λ _. resume-Safe none) (λ _. Quiet-Safe (pure-Quiet seen db))

  pub requeue_for_recovery-Safe : Safe (requeue_for_recovery id now) db
  unfolding requeue_for_recovery
  requeue_for_recovery-Safe = get-Safe id (requeue_seen id now) db λ j e v. requeue_seen-Safe j
