-- ===== src/Jobs/TableSafety.antt =====
-- The methods of jobs/repository.py that write the other tables, and the recovery of interrupted
-- jobs, keep the invariant of `jobs` and advance its rows.
use ppt_video_workbench_v.Base.{
  ℕ, ◌≡◌, refl, inl, inr, String, Option, none, some, Bool, ◌==◌, any, count_where, value_or, arith,
  Bool-cases,
}
use ppt_video_workbench_v.Jobs.Record.{CheckpointRow, Publication}
use ppt_video_workbench_v.Jobs.Store.{Db, conflict, ◌>>=◌}
use ppt_video_workbench_v.Jobs.Access.{current_attempt}
use ppt_video_workbench_v.Jobs.Checkpoints.{
  CheckpointArgs, latest_checkpoint, insert_checkpoint, record_checkpoint, same_place,
  attempt_id_of, either_id, next_sequence, not_after, checkpoint_row, require_attempt, append_after,
}
use ppt_video_workbench_v.Jobs.Publications.{
  publication_of, require_current_attempt, reservation, reserve_row, reserve_new,
  reserve_publication, publishable, publish_rows, publish_publication, reconcile_row,
  reconcile_publication,
}
use ppt_video_workbench_v.Jobs.Safety.{Safe, Quiet, Quiet-Safe, read-Safe, refuse-Safe}
use ppt_video_workbench_v.Jobs.ProgressSafety.{current_attempt-reads}

insert_checkpoint-Quiet : (new : CheckpointRow) (db : Db) → Quiet (insert_checkpoint new) db
unfolding insert_checkpoint
insert_checkpoint-Quiet new db = elim (Bool-cases (any (same_place new) db.checkpoints)) [
  | inl e ↦ record { kept = rw e }
  | inr e ↦ record { kept = rw e }
]

pub latest_checkpoint-reads : (id : ℕ) (db : Db) → (latest_checkpoint id db).1 ≡ db
unfolding latest_checkpoint
latest_checkpoint-reads id db = ground arith

pub require_attempt-reads : (a : Option ℕ) (db : Db) → (require_attempt a db).1 ≡ db
require_attempt-reads none db = refl
require_attempt-reads (some a) db = refl

pub record_checkpoint-Safe :
    (sha256 : String → String) (id : ℕ) (args : CheckpointArgs) (now : ℕ) (db : Db)
    → Safe (record_checkpoint sha256 id args now) db
unfolding record_checkpoint
record_checkpoint-Safe sha256 id args now db =
    read-Safe (current_attempt id)
      (λ c. require_attempt (either_id args.attempt_id (attempt_id_of c)) >>= λ a.
        latest_checkpoint id >>= append_after sha256 id args now a)
      db (current_attempt-reads id now db)
      λ c _.
        read-Safe (require_attempt (either_id args.attempt_id (attempt_id_of c)))
          (λ a. latest_checkpoint id >>= append_after sha256 id args now a) db
          (require_attempt-reads (either_id args.attempt_id (attempt_id_of c)) db)
          λ a _.
            read-Safe (latest_checkpoint id) (append_after sha256 id args now a) db
              (latest_checkpoint-reads id db)
              λ existing _.
                refuse-Safe (not_after (value_or args.sequence (next_sequence existing)) existing)
                  conflict (insert_checkpoint (checkpoint_row sha256 id args now a existing)) db
                  λ _. Quiet-Safe (insert_checkpoint-Quiet _ db)

require_current-reads :
    (job attempt : ℕ) (db : Db) → (require_current_attempt job attempt db).1 ≡ db
unfolding require_current_attempt
require_current-reads job attempt db = ground arith

reserve_row-Quiet :
    (sha256 : String → String) (new : Publication) (o : Option Publication) (db : Db)
    → Quiet (reserve_row sha256 new o) db
reserve_row-Quiet sha256 new none db = record { kept = refl }
reserve_row-Quiet sha256 new (some p) db = record { kept = refl }

pub reserve_publication-Safe :
    (sha256 : String → String) (key : String) (job attempt : ℕ) (manifest : String) (db : Db)
    → Safe (reserve_publication sha256 key job attempt manifest) db
unfolding reserve_publication
reserve_publication-Safe sha256 key job attempt manifest db =
    read-Safe (require_current_attempt job attempt)
      (λ _. reserve_new sha256 (reservation sha256 key job attempt manifest)) db
      (require_current-reads job attempt db)
      λ _ _. Quiet-Safe (record {
        kept =
            (reserve_row-Quiet sha256 (reservation sha256 key job attempt manifest)
              (publication_of key db) db).kept;
      })

publish_rows-Quiet :
    (key : String) (job attempt : ℕ) (hash : String) (now : ℕ) (db : Db)
    → Quiet (publish_rows key job attempt hash now) db
publish_rows-Quiet key job attempt hash now db = record {
  kept = elim (Bool-cases (count_where (publishable key job attempt hash) db.publications == 1)) [
    | inl e ↦ rw e
    | inr e ↦ rw e
  ];
}

pub publish_publication-Safe :
    (key : String) (job attempt : ℕ) (hash : String) (now : ℕ) (db : Db)
    → Safe (publish_publication key job attempt hash now) db
unfolding publish_publication
publish_publication-Safe key job attempt hash now db =
    read-Safe (require_current_attempt job attempt) (λ _. publish_rows key job attempt hash now) db
      (require_current-reads job attempt db)
      λ _ _. Quiet-Safe (publish_rows-Quiet key job attempt hash now db)

reconcile_row-Quiet :
    (key : String) (verifier : Publication → Bool) (o : Option Publication) (db : Db)
    → Quiet (reconcile_row key verifier o) db
reconcile_row-Quiet key verifier none db = record { kept = refl }
reconcile_row-Quiet key verifier (some p) db = record { kept = ground arith }

pub reconcile_publication-Safe :
    (key : String) (verifier : Publication → Bool) (db : Db)
    → Safe (reconcile_publication key verifier) db
unfolding reconcile_publication
reconcile_publication-Safe key verifier db =
    Quiet-Safe
      (record { kept = (reconcile_row-Quiet key verifier (publication_of key db) db).kept })
