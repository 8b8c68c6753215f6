-- ===== src/Jobs/WorkScenarios.antt =====
-- What the theorems on enqueueing, claims, publications, checkpoints and leases say of concrete
-- tables.
use ppt_video_workbench_v.Base.{◌≡◌, ◌≢◌, refl, [], none, some, true, false, fits_in}
use ppt_video_workbench_v.Jobs.Status.{render_page, queued, running, failed, export_package}
use ppt_video_workbench_v.Jobs.Record.{Job, valid_job}
use ppt_video_workbench_v.Jobs.Store.{ok, err, conflict, integrity}
use ppt_video_workbench_v.Jobs.Enqueue.{new_row, enqueue_or_get}
use ppt_video_workbench_v.Jobs.Claim.{
  claim_next, claimed_row, first_row, new_attempt, take_job, last_generation, earlier,
}
use ppt_video_workbench_v.Jobs.Progress.{heartbeat}
use ppt_video_workbench_v.Jobs.Checkpoints.{record_checkpoint}
use ppt_video_workbench_v.Jobs.Publications.{
  publish_publication, reconcile_publication, reserve_publication,
}
use ppt_video_workbench_v.Jobs.Claims.{claims_differ, superseded}
use ppt_video_workbench_v.Jobs.Dedup.{
  enqueue_once, retries_pile_up, other_type_fails, with_job, retry_row,
}
use ppt_video_workbench_v.Jobs.PublicationLife.{
  Rows, Publishes, Reconciles, publish-Publishes, reconcile-Reconciles,
}
use ppt_video_workbench_v.Jobs.CheckpointOrder.{Appends, record_checkpoint-Appends}
use ppt_video_workbench_v.Jobs.Fixtures.{
  first-valid, first_retry-valid, second_retry-valid, broken-valid, broken-found, broken-spent,
  first-free, second-free, no_other_type, ready, released_db, checkpoint_args, checkpoint_two,
  two_recorded, digest, hashed, spec, first_draw, second_draw, job_at, with_jobs, busy, waiting,
  broken, claim_a, claim_b, busy-valid, waiting-Inv, waiting-valid,
}

abbrev taken : Job
taken = job_at 2 queued 1 none

abbrev left : Job
left = record (job_at 1 queued 1 none) { created_at = 9 }

first_taken : (claim_next export_package claim_a waiting).0 ≡ ok (some (claimed_row claim_a taken))
unfolding claim_next first_row new_attempt take_job last_generation earlier valid_job fits_in
first_taken = refl

second_taken :
    (claim_next export_package claim_b (claim_next export_package claim_a waiting).1).0
    ≡ ok (some (claimed_row claim_b left))
unfolding claim_next first_row new_attempt take_job last_generation earlier valid_job fits_in
second_taken = refl

claims_differ_example : (claimed_row claim_a taken).id ≢ (claimed_row claim_b left).id
claims_differ_example =
    claims_differ export_package export_package claim_a claim_b waiting (claimed_row claim_a taken)
      (claimed_row claim_b left) waiting-Inv waiting-valid tt tt refl first_taken second_taken

enqueue_once_example :
    (enqueue_or_get spec true first_draw (with_jobs []) ≡ (
      ok (record { job = new_row spec "render-1" first_draw; created = true }),
      with_job (new_row spec "render-1" first_draw) (with_jobs []),
    ))
    × (enqueue_or_get spec false second_draw
          (with_job (new_row spec "render-1" first_draw) (with_jobs []))
        ≡ (
          ok (record { job = new_row spec "render-1" first_draw; created = false }),
          with_job (new_row spec "render-1" first_draw) (with_jobs []),
        ))
enqueue_once_example =
    enqueue_once spec true false first_draw second_draw (with_jobs []) refl refl first-valid

other_type_fails_example :
    enqueue_or_get (record spec { job_type = render_page }) true first_draw broken
    ≡ (err integrity, broken)
other_type_fails_example =
    other_type_fails (record spec { job_type = render_page }) true first_draw broken (no_other_type)
      refl

retries_pile_up_example :
    (enqueue_or_get spec true first_draw broken ≡ (
      ok (record { job = retry_row spec first_draw; created = true }),
      with_job (retry_row spec first_draw) broken,
    ))
    × (enqueue_or_get spec true second_draw (with_job (retry_row spec first_draw) broken) ≡ (
      ok (record { job = retry_row spec second_draw; created = true }),
      with_job (retry_row spec second_draw) (with_job (retry_row spec first_draw) broken),
    ))
    × ((retry_row spec first_draw).status ≡ queued)
    × ((retry_row spec second_draw).status ≡ queued)
retries_pile_up_example =
    retries_pile_up spec true first_draw second_draw broken (job_at 9 failed 5 none) refl
      broken-found broken-valid broken-spent first-free first_retry-valid second-free
      second_retry-valid

superseded_example :
    (heartbeat 1 (some 39) none 70 busy ≡ (err conflict, busy))
    × (reserve_publication hashed "video" 1 39 "{}" busy ≡ (err conflict, busy))
    × (publish_publication "video" 1 39 digest 70 busy ≡ (err conflict, busy))
superseded_example =
    superseded 1 39 busy (job_at 1 running 4 (some 40)) refl busy-valid refl hashed none 70 "video"
      "{}" digest

publish-Publishes_example :
    Rows
      (Publishes "video" 1 40 digest 70 true)
      ready.publications
      (publish_publication "video" 1 40 digest 70 ready).1.publications
publish-Publishes_example = publish-Publishes "video" 1 40 digest 70 ready

reconcile-Reconciles_example :
    Rows
      (Reconciles "video" true)
      released_db.publications
      (reconcile_publication "video" (λ p. false) released_db).1.publications
reconcile-Reconciles_example = reconcile-Reconciles "video" (λ p. false) released_db

record_checkpoint-Appends_example :
    Appends 1 ready checkpoint_two (record_checkpoint hashed 1 checkpoint_args 80 ready).1
record_checkpoint-Appends_example =
    record_checkpoint-Appends hashed 1 checkpoint_args 80 ready checkpoint_two two_recorded
