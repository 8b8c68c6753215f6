-- ===== src/Jobs/Requests.antt =====
-- The answers of the pause, resume, cancel and paid-retry requests of jobs/repository.py, for a job
-- in every status, and what they do with an out-of-date expected revision.
use ppt_video_workbench_v.Base.{ℕ, ◌≡◌, ◌≢◌, refl, ◌∙◌, String, none, some, true, false, not, arith}
use ppt_video_workbench_v.Jobs.Status.{
  JobStatus, queued, running, pause_requested, paused, cancel_requested, cancelled, same_status,
  allowed,
}
use ppt_video_workbench_v.Jobs.Record.{Job, valid_job}
use ppt_video_workbench_v.Jobs.Store.{Db, M, err, conflict, refuse_if, ◌>>=◌, ◌>>◌, >>=-ok, >>=-err}
use ppt_video_workbench_v.Jobs.Access.{job_of, get, moved, require_expected_revision, transition}
use ppt_video_workbench_v.Jobs.Control.{
  labelled, pause_seen, request_pause, resume_seen, resume, confirm_seen, confirm_paid_retry,
  cancelled_columns, cancel_seen, request_cancel, unknown_seen, require_manual_confirmation,
}
use ppt_video_workbench_v.Jobs.Lifecycle.{Inv}
use ppt_video_workbench_v.Jobs.Outcomes.{
  Answer, stays, refuses, moves, Answers, get_lem, expected_self, transition_moves,
}

-- What each request should answer to a job in each status.
abbrev pub pause_answer : JobStatus → Answer
pause_answer queued = moves paused
pause_answer running = moves pause_requested
pause_answer pause_requested = stays
pause_answer paused = stays
pause_answer _ = refuses

abbrev pub resume_answer : JobStatus → Answer
resume_answer paused = moves queued
resume_answer _ = stays

abbrev pub cancel_answer : JobStatus → Answer
cancel_answer queued = moves cancelled
cancel_answer paused = moves cancelled
cancel_answer running = moves cancel_requested
cancel_answer pause_requested = moves cancel_requested
cancel_answer cancel_requested = stays
cancel_answer cancelled = stays
cancel_answer _ = refuses

valid_moved :
    (target : JobStatus) (change : Job → Job) (now : ℕ) (j : Job)
    → valid_job j ≡ true
    → (change j).progress ≡ j.progress
    → (change j).max_attempts ≡ j.max_attempts
    → (change j).priority ≡ j.priority
    → (change j).resource_wait ≡ j.resource_wait
    → valid_job (moved target change now j) ≡ true
unfolding valid_job
valid_moved target change now j h p m q r = rw (p, m, q, r) (ground arith)

module _ (id : ℕ) (now : ℕ) (db : Db) (j : Job) (v : Inv db.jobs) (e : job_of id db ≡ some j)
    (w : valid_job j ≡ true) where
  moves_to :
      (target : JobStatus) (change : Job → Job)
      → ((i : Job) → (change i).id ≡ i.id)
      → valid_job (moved target change now j) ≡ true
      → same_status j.status target ≡ false
      → allowed j.status target ≡ true
      → Answers (moves target) j id now db (transition id target (some j.revision) change now db)
  moves_to target change k valid d a =
      transition_moves id target change now db j v e k valid (some j.revision) (expected_self j db)
        w d a

  pause-Answers :
      (s : JobStatus) → j.status ≡ s → Answers (pause_answer s) j id now db (pause_seen id now j db)
  unfolding allowed
  pause-Answers queued q = simp q (
      moves_to paused (labelled "paused" "任务已暂停") (λ i. refl)
        (valid_moved paused (labelled "paused" "任务已暂停") now j w refl refl refl refl) (simp q)
        (simp q))
  pause-Answers running q = simp q (
      moves_to pause_requested (labelled j.stage "当前阶段完成后暂停") (λ i. refl)
        (valid_moved pause_requested (labelled j.stage "当前阶段完成后暂停") now j w refl refl refl refl)
        (simp q) (simp q))
  pause-Answers pause_requested q = simp q
  pause-Answers paused q = simp q
  pause-Answers _ q = simp q

  resume-Answers :
      (s : JobStatus)
      → j.status ≡ s
      → Answers (resume_answer s) j id now db (resume_seen id now j db)
  unfolding allowed
  resume-Answers paused q = simp q (
      moves_to queued (labelled "queued" "已恢复并重新排队") (λ i. refl)
        (valid_moved queued (labelled "queued" "已恢复并重新排队") now j w refl refl refl refl) (simp q)
        (simp q))
  resume-Answers _ q = simp q

  cancels_to :
      (target : JobStatus)
      → same_status j.status target ≡ false
      → allowed j.status target ≡ true
      → Answers
          (moves target)
          j
          id
          now
          db
          (transition id target (some j.revision) (cancelled_columns now) now db)
  cancels_to target =
      moves_to target (cancelled_columns now) (λ i. refl)
        (valid_moved target (cancelled_columns now) now j w refl refl refl refl)

  stops_at :
      (target : JobStatus) (stage message : String)
      → same_status j.status target ≡ false
      → allowed j.status target ≡ true
      → Answers
          (moves target)
          j
          id
          now
          db
          (transition id target (some j.revision) (labelled stage message) now db)
  stops_at target stage message =
      moves_to target (labelled stage message) (λ i. refl)
        (valid_moved target (labelled stage message) now j w refl refl refl refl)

  cancel-Answers :
      (s : JobStatus)
      → j.status ≡ s
      → Answers (cancel_answer s) j id now db (cancel_seen id now j db)
  unfolding allowed
  cancel-Answers queued q = simp q (cancels_to cancelled (simp q) (simp q))
  cancel-Answers paused q = simp q (cancels_to cancelled (simp q) (simp q))
  cancel-Answers running q =
      simp q (stops_at cancel_requested j.stage "正在等待当前进程结束后取消" (simp q) (simp q))
  cancel-Answers pause_requested q =
      simp q (stops_at cancel_requested j.stage "正在等待当前进程结束后取消" (simp q) (simp q))
  cancel-Answers cancel_requested q = simp q
  cancel-Answers cancelled q = simp q
  cancel-Answers _ q = simp q

  reached :
      (f : Job → M Job)
      → (get id >>= λ seen. require_expected_revision seen none >> f seen) db ≡ f j db
  unfolding require_expected_revision
  reached f =
      >>=-ok (get id) (λ seen. require_expected_revision seen none >> f seen) db db j
        (get_lem id db j e w)

  -- A request that names no revision, at a valid job that is there, of every status, on tables
  -- whose job ids are distinct and whose progress is within 1.0: a pause parks a queued job and
  -- asks a running one to pause, and is refused once the job waits for confirmation, is being
  -- cancelled or has ended; a resume queues a paused job and leaves any other; a cancel ends a
  -- queued or paused job, asks a running or pausing one to stop, and is refused where the job waits
  -- for confirmation, has succeeded or has failed. A move takes the next revision and the time of
  -- the call and returns the new row; where the row stays or the request is refused, no table
  -- changes.
  pub requests_answered :
      Answers (pause_answer j.status) j id now db (request_pause id none now db)
      × Answers (resume_answer j.status) j id now db (resume id none now db)
      × Answers (cancel_answer j.status) j id now db (request_cancel id none now db)
  unfolding request_pause resume request_cancel
  requests_answered = (
    rw (reached (pause_seen id now)) (pause-Answers j.status refl),
    rw (reached (resume_seen id now)) (resume-Answers j.status refl),
    rw (reached (cancel_seen id now)) (cancel-Answers j.status refl),
  )

  stale :
      (r : ℕ) (f : Job → M Job)
      → r ≢ j.revision
      → (get id >>= λ seen. require_expected_revision seen (some r) >> f seen) db
        ≡ (err conflict, db)
  unfolding require_expected_revision
  stale r f n =
      >>=-ok (get id) (λ seen. require_expected_revision seen (some r) >> f seen) db db j
        (get_lem id db j e w)
      ∙ >>=-err (require_expected_revision j (some r)) (λ _. f j) db db conflict (ground arith)

  -- On tables whose job ids are distinct and whose progress is within 1.0, a request that names a
  -- revision other than that of the valid row is refused with a conflict and changes no table,
  -- whatever the status: a pause, a resume, a cancel, and the two requests about a paid result.
  pub stale_refused :
      (r : ℕ)
      → r ≢ j.revision
      → (request_pause id (some r) now db ≡ (err conflict, db))
        × (resume id (some r) now db ≡ (err conflict, db))
        × (request_cancel id (some r) now db ≡ (err conflict, db))
        × (require_manual_confirmation id (some r) now db ≡ (err conflict, db))
        × (confirm_paid_retry id (some r) now db ≡ (err conflict, db))
  unfolding request_pause resume request_cancel require_manual_confirmation confirm_paid_retry
  stale_refused r n = (
    stale r (pause_seen id now) n,
    stale r (resume_seen id now) n,
    stale r (cancel_seen id now) n,
    stale r (λ seen. refuse_if (not seen.paid) conflict >> unknown_seen id now seen) n,
    stale r (confirm_seen id now) n,
  )
