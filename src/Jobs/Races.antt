-- ===== src/Jobs/Races.antt =====
-- The optimistic lock of jobs/repository.py: what becomes of a transition when other calls run
-- between its read of the row and its guarded write.
use ppt_video_workbench_v.Base.{
  ℕ, ◌≡◌, ap, ◌∙◌, ◌⊎◌, inl, inr, String, List, [], ◌∷◌, some, false, ◌&&◌, ◌==◌, count_where,
  count_where-found, arith, Bool-cases, ==_iff,
}
use ppt_video_workbench_v.Jobs.Status.{JobStatus, same_status}
use ppt_video_workbench_v.Jobs.Record.{Job}
use ppt_video_workbench_v.Jobs.Store.{Db, err, conflict, >>=-err}
use ppt_video_workbench_v.Jobs.Access.{
  job_of, write, written, moved, close_after, finish_transition,
}
use ppt_video_workbench_v.Jobs.Lifecycle.{Inv, id_of}
use ppt_video_workbench_v.Jobs.Calls.{Call, step, run, step-Extends}
use ppt_video_workbench_v.Jobs.Histories.{run-Descends}

lost_write :
    (id : ℕ) (change : Job → Job) (db : Db) (seen now_there : Job)
    → Inv db.jobs
    → job_of id db ≡ some now_there
    → (now_there.revision == seen.revision) ≡ false
    → write id change (some seen.status) (some seen.revision) db ≡ (err conflict, db)
unfolding write
lost_write id change db seen there v e n =
    let none_hit : count_where (written id (some seen.status) (some seen.revision)) db.jobs ≡ 0 =
      count_where-found id_of
        (λ j. same_status j.status seen.status && (j.revision == seen.revision)) id db.jobs there
        v.distinct e
      ∙ ground arith in
    rw none_hit

-- The invariant survives any calls.
pub run-Inv :
    (sha256 : String → String) (db : Db) (cs : List Call)
    → Inv db.jobs
    → Inv (run sha256 db cs).jobs
unfolding run
run-Inv f db [] v = v
run-Inv f db (c ∷ cs) v = run-Inv f (step f db c) cs (step-Extends f db c v).inv

-- On tables whose job ids are distinct and whose progress is within 1.0, any calls may run between
-- the read of a row by a transition and its write: then either the row is
-- still exactly as it was read, or the transition raises a conflict and changes no table. So a
-- transition never overwrites a change that it has not seen.
pub no_lost_update :
    (sha256 : String → String) (db : Db) (others : List Call) (id : ℕ) (target : JobStatus)
    (change : Job → Job) (now : ℕ) (seen : Job)
    → Inv db.jobs
    → job_of id db ≡ some seen
    → (job_of id (run sha256 db others) ≡ some seen)
      ⊎ (finish_transition id target change now seen (run sha256 db others)
          ≡ (err conflict, run sha256 db others))
unfolding finish_transition
no_lost_update f db others id target change now seen v e =
    let (there, found, d) = run-Descends f db others id seen v e in
    elim (Bool-cases (there.revision == seen.revision)) [
      | inl same ↦
          inl (found ∙ ap some (d.unchanged ((==_iff there.revision seen.revision).0 same)))
      | inr other ↦ inr (
          >>=-err (write id (moved target change now) (some seen.status) (some seen.revision))
            (close_after target seen now) (run f db others) (run f db others) conflict
            (lost_write id (moved target change now) (run f db others) seen there
              (run-Inv f db others v) found other))
    ]
