-- ===== src/Jobs/Calls.antt =====
-- Every public method of JobRepository that may write, as one step of the tables.
use ppt_video_workbench_v.Base.{ℕ, String, List, [], ◌∷◌, Option, Bool}
use ppt_video_workbench_v.Jobs.Status.{JobType}
use ppt_video_workbench_v.Jobs.Record.{Job, Publication}
use ppt_video_workbench_v.Jobs.Store.{Db, M}
use ppt_video_workbench_v.Jobs.Control.{
  mark_running, request_pause, mark_paused, resume, require_manual_confirmation, confirm_paid_retry,
  request_cancel, cancel, succeed, fail, requeue_for_recovery,
}
use ppt_video_workbench_v.Jobs.Enqueue.{JobSpec, Draw, enqueue_or_get}
use ppt_video_workbench_v.Jobs.Claim.{Claim, claim_next}
use ppt_video_workbench_v.Jobs.Progress.{Report, update_progress, heartbeat, record_attempt}
use ppt_video_workbench_v.Jobs.Checkpoints.{CheckpointArgs, record_checkpoint}
use ppt_video_workbench_v.Jobs.Publications.{
  reserve_publication, publish_publication, reconcile_publication,
}
use ppt_video_workbench_v.Jobs.Recovery.{recover_interrupted_jobs}
use ppt_video_workbench_v.Jobs.Lifecycle.{Inv}
use ppt_video_workbench_v.Jobs.Safety.{Safe, Safe-Inv, Safe-Evolves}
use ppt_video_workbench_v.Jobs.ControlSafety.{
  mark_running-Safe, request_pause-Safe, mark_paused-Safe, resume-Safe,
  require_manual_confirmation-Safe, confirm_paid_retry-Safe, request_cancel-Safe, cancel-Safe,
  succeed-Safe, fail-Safe, requeue_for_recovery-Safe,
}
use ppt_video_workbench_v.Jobs.ProgressSafety.{
  update_progress-Safe, heartbeat-Safe, record_attempt-Safe, claim_next-Safe,
}
use ppt_video_workbench_v.Jobs.TableSafety.{
  record_checkpoint-Safe, reserve_publication-Safe, publish_publication-Safe,
  reconcile_publication-Safe,
}
use ppt_video_workbench_v.Jobs.RecoverySafety.{recover_interrupted_jobs-Safe}
use ppt_video_workbench_v.Jobs.EnqueueSafety.{Extends, enqueue_or_get-Extends}

pub data Call : Type 0 where
  enqueues : JobSpec → Bool → Draw → Call
  claims : JobType → Claim → Call
  runs : ℕ → ℕ → Call
  reports : ℕ → Report → ℕ → Call
  beats : ℕ → Option ℕ → Option ℕ → ℕ → Call
  tries : ℕ → Option String → ℕ → Call
  checkpoints : ℕ → CheckpointArgs → ℕ → Call
  reserves : String → ℕ → ℕ → String → Call
  publishes : String → ℕ → ℕ → String → ℕ → Call
  reconciles : String → (Publication → Bool) → Call
  pauses : ℕ → Option ℕ → ℕ → Call
  parks : ℕ → ℕ → Call
  resumes : ℕ → Option ℕ → ℕ → Call
  asks : ℕ → Option ℕ → ℕ → Call
  confirms : ℕ → Option ℕ → ℕ → Call
  requests_cancel : ℕ → Option ℕ → ℕ → Call
  cancels : ℕ → ℕ → Call
  succeeds : ℕ → Option String → ℕ → Call
  fails : ℕ → String → String → ℕ → Call
  requeues : ℕ → ℕ → Call
  recovers : Option (Job → Bool) → ℕ → Call

module _ (sha256 : String → String) where
  unfoldable pub step : Db → Call → Db
  step db (enqueues spec reuse draw) = (enqueue_or_get spec reuse draw db).1
  step db (claims type c) = (claim_next type c db).1
  step db (runs id now) = (mark_running id now db).1
  step db (reports id r now) = (update_progress id r now db).1
  step db (beats id attempt generation now) = (heartbeat id attempt generation now db).1
  step db (tries id error now) = (record_attempt id error now db).1
  step db (checkpoints id args now) = (record_checkpoint sha256 id args now db).1
  step db (reserves key job attempt manifest) =
      (reserve_publication sha256 key job attempt manifest db).1
  step db (publishes key job attempt hash now) = (publish_publication key job attempt hash now db).1
  step db (reconciles key verifier) = (reconcile_publication key verifier db).1
  step db (pauses id expected now) = (request_pause id expected now db).1
  step db (parks id now) = (mark_paused id now db).1
  step db (resumes id expected now) = (resume id expected now db).1
  step db (asks id expected now) = (require_manual_confirmation id expected now db).1
  step db (confirms id expected now) = (confirm_paid_retry id expected now db).1
  step db (requests_cancel id expected now) = (request_cancel id expected now db).1
  step db (cancels id now) = (cancel id now db).1
  step db (succeeds id result now) = (succeed id result now db).1
  step db (fails id error code now) = (fail id error code now db).1
  step db (requeues id now) = (requeue_for_recovery id now db).1
  step db (recovers cleanup now) = (recover_interrupted_jobs cleanup now db).1

  unfoldable pub run : Db → List Call → Db
  unfolding step
  run db [] = db
  run db (c ∷ cs) = run (step db c) cs

Safe-Extends :
    {A : Type 0} {m : M A} {db : Db} → Safe m db → Inv db.jobs → Extends db.jobs (m db).1.jobs
Safe-Extends s v = record { inv = Safe-Inv s v; rows = Safe-Evolves s v }

-- Where the ids of the jobs are distinct and their progress is within 1.0: whatever method is
-- called, the ids of the jobs stay distinct and their progress within 1.0, every row there was
-- stays in its place and advances (its identity is kept, its status moves along the graph or from
-- running to paused, progress and attempts do not fall, a changed row has a greater revision), and
-- any row added is a new one: queued, untried, at revision 1.
pub step-Extends :
    (sha256 : String → String) (db : Db) (c : Call)
    → Inv db.jobs
    → Extends db.jobs (step sha256 db c).jobs
unfolding step
step-Extends f db (enqueues spec reuse draw) v = enqueue_or_get-Extends spec reuse draw db v
step-Extends f db (claims type c) v = Safe-Extends (claim_next-Safe type c db) v
step-Extends f db (runs id now) v = Safe-Extends (mark_running-Safe id now db) v
step-Extends f db (reports id r now) v = Safe-Extends (update_progress-Safe id now db r) v
step-Extends f db (beats id a g now) v = Safe-Extends (heartbeat-Safe id now db a g) v
step-Extends f db (tries id error now) v = Safe-Extends (record_attempt-Safe id now db error) v
step-Extends f db (checkpoints id args now) v =
    Safe-Extends (record_checkpoint-Safe f id args now db) v
step-Extends f db (reserves key job a m) v =
    Safe-Extends (reserve_publication-Safe f key job a m db) v
step-Extends f db (publishes key job a h now) v =
    Safe-Extends (publish_publication-Safe key job a h now db) v
step-Extends f db (reconciles key verifier) v =
    Safe-Extends (reconcile_publication-Safe key verifier db) v
step-Extends f db (pauses id e now) v = Safe-Extends (request_pause-Safe id now db e) v
step-Extends f db (parks id now) v = Safe-Extends (mark_paused-Safe id now db) v
step-Extends f db (resumes id e now) v = Safe-Extends (resume-Safe id now db e) v
step-Extends f db (asks id e now) v = Safe-Extends (require_manual_confirmation-Safe id now db e) v
step-Extends f db (confirms id e now) v = Safe-Extends (confirm_paid_retry-Safe id now db e) v
step-Extends f db (requests_cancel id e now) v = Safe-Extends (request_cancel-Safe id now db e) v
step-Extends f db (cancels id now) v = Safe-Extends (cancel-Safe id now db) v
step-Extends f db (succeeds id result now) v = Safe-Extends (succeed-Safe id now db result) v
step-Extends f db (fails id error code now) v = Safe-Extends (fail-Safe id now db error code) v
step-Extends f db (requeues id now) v = Safe-Extends (requeue_for_recovery-Safe id now db) v
step-Extends f db (recovers cleanup now) v =
    Safe-Extends (recover_interrupted_jobs-Safe cleanup now db) v
