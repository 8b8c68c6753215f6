-- ===== src/Jobs/Scenarios.antt =====
-- What the theorems on histories, requests and claims say of concrete tables.
use ppt_video_workbench_v.Base.{◌≡◌, refl, ◌⊎◌, none, some, false, All}
use ppt_video_workbench_v.Jobs.Status.{running, succeeded, export_package}
use ppt_video_workbench_v.Jobs.Record.{Job}
use ppt_video_workbench_v.Jobs.Store.{ok, err, conflict}
use ppt_video_workbench_v.Jobs.Access.{job_of, finish_transition}
use ppt_video_workbench_v.Jobs.Control.{
  labelled, request_pause, resume, request_cancel, require_manual_confirmation, confirm_paid_retry,
}
use ppt_video_workbench_v.Jobs.Claim.{claimable, claim_next}
use ppt_video_workbench_v.Jobs.EnqueueSafety.{Extends}
use ppt_video_workbench_v.Jobs.Calls.{step, run, step-Extends, pauses}
use ppt_video_workbench_v.Jobs.Histories.{Descends, run-Descends}
use ppt_video_workbench_v.Jobs.Races.{no_lost_update}
use ppt_video_workbench_v.Jobs.Outcomes.{Answers}
use ppt_video_workbench_v.Jobs.Requests.{
  pause_answer, resume_answer, cancel_answer, requests_answered, stale_refused,
}
use ppt_video_workbench_v.Jobs.Claims.{Takes, claim_next-outcome}
use ppt_video_workbench_v.Jobs.Recovery.{recover_interrupted_jobs}
use ppt_video_workbench_v.Jobs.RecoveryDone.{unsettled, recovery_settles}
use ppt_video_workbench_v.Base.{◌+◌, []}
use ppt_video_workbench_v.Jobs.Runner.{Handler, Signals, execute}
use ppt_video_workbench_v.Jobs.RunnerEnds.{Ends, execute-Ends}
use ppt_video_workbench_v.Jobs.Fixtures.{
  hashed, job_at, busy, waiting, calls, claim_a, busy-Inv, waiting-Inv, busy-valid, three_not_four,
  waiting-valid,
}

step-Extends_example : Extends busy.jobs (step hashed busy (pauses 1 (some 4) 50)).jobs
step-Extends_example = step-Extends hashed busy (pauses 1 (some 4) 50) busy-Inv

run-Descends_example :
    (b : Job) × (job_of 1 (run hashed busy calls) ≡ some b)
    × Descends (job_at 1 running 4 (some 40)) b
run-Descends_example = run-Descends hashed busy calls 1 (job_at 1 running 4 (some 40)) busy-Inv refl

no_lost_update_example :
    (job_of 1 (run hashed busy calls) ≡ some (job_at 1 running 4 (some 40)))
    ⊎ (finish_transition 1 succeeded
          (labelled "done" "")
          70
          (job_at 1 running 4 (some 40))
          (run hashed busy calls)
        ≡ (err conflict, run hashed busy calls))
no_lost_update_example =
    no_lost_update hashed busy calls 1 succeeded (labelled "done" "") 70
      (job_at 1 running 4 (some 40)) busy-Inv refl

requests_answered_example :
    Answers
      (pause_answer running)
      (job_at 1 running 4 (some 40))
      1
      50
      busy
      (request_pause 1 none 50 busy)
    × Answers
        (resume_answer running)
        (job_at 1 running 4 (some 40))
        1
        50
        busy
        (resume 1 none 50 busy)
    × Answers
        (cancel_answer running)
        (job_at 1 running 4 (some 40))
        1
        50
        busy
        (request_cancel 1 none 50 busy)
requests_answered_example =
    requests_answered 1 50 busy (job_at 1 running 4 (some 40)) busy-Inv refl busy-valid

stale_refused_example :
    (request_pause 1 (some 3) 50 busy ≡ (err conflict, busy))
    × (resume 1 (some 3) 50 busy ≡ (err conflict, busy))
    × (request_cancel 1 (some 3) 50 busy ≡ (err conflict, busy))
    × (require_manual_confirmation 1 (some 3) 50 busy ≡ (err conflict, busy))
    × (confirm_paid_retry 1 (some 3) 50 busy ≡ (err conflict, busy))
stale_refused_example =
    stale_refused 1 50 busy (job_at 1 running 4 (some 40)) busy-Inv refl busy-valid 3 three_not_four

claim_next-outcome_example :
    (All (λ j. claimable export_package j ≡ false) waiting.jobs
      × (claim_next export_package claim_a waiting ≡ (ok none, waiting)))
    ⊎ ((j : Job) × Takes export_package claim_a waiting j)
claim_next-outcome_example =
    claim_next-outcome export_package claim_a waiting waiting-Inv waiting-valid tt

recovery_settles_example :
    All (λ j. unsettled j ≡ false) (recover_interrupted_jobs (some (λ j. false)) 90 busy).1.jobs
recovery_settles_example = recovery_settles (some (λ j. false)) 90 busy

-- A handler that always raises, and no signals.
abbrev broken_handler : Handler
broken_handler = record { calls = λ n db. []; failure = λ n db. some "encoder failed" }

abbrev no_signals : Signals
no_signals = record { at_start = false; before = λ n. false; after = λ n. false }

execute-Ends_example : Ends (execute hashed 2 broken_handler no_signals (λ n. 100 + n) waiting)
execute-Ends_example =
    execute-Ends hashed 2 broken_handler no_signals (λ n. 100 + n) waiting waiting-Inv
