-- ===== src/Jobs/RunnerEnds.antt =====
-- JobRunner.execute of jobs/runner.py always ends: the attempts that a job may have bound its loop.
use ppt_video_workbench_v.Base.{
  ℕ, zero, suc, ◌+◌, ◌≤◌, ◌≡◌, refl, String, Option, none, some, ltb, leb, arith, Bool-cases, inl,
  inr,
}
use ppt_video_workbench_v.Jobs.Record.{Job}
use ppt_video_workbench_v.Jobs.Store.{Db, Result, ok, err}
use ppt_video_workbench_v.Jobs.Access.{job_of}
use ppt_video_workbench_v.Jobs.Control.{mark_running}
use ppt_video_workbench_v.Jobs.Progress.{record_attempt}
use ppt_video_workbench_v.Jobs.Lifecycle.{Inv}
use ppt_video_workbench_v.Jobs.Safety.{Safe-Inv}
use ppt_video_workbench_v.Jobs.ControlSafety.{mark_running-Safe}
use ppt_video_workbench_v.Jobs.ProgressSafety.{record_attempt-Safe}
use ppt_video_workbench_v.Jobs.Calls.{run}
use ppt_video_workbench_v.Jobs.Histories.{run-Descends}
use ppt_video_workbench_v.Jobs.Races.{run-Inv}
use ppt_video_workbench_v.Jobs.Runner.{
  Handler, Signals, Ending, failed_try, finish_try, after_run, tries, begin, execute,
}
use ppt_video_workbench_v.Jobs.Rows.{mark_running_row, record_attempt_row}

-- The run ended: the fuel sufficed.
abbrev pub Ends : Ending → Type 0
Ends r = (x : Result Job × Db) × (r ≡ some x)

module _ (sha256 : String → String) (id : ℕ) (h : Handler) (w : Signals) (clock : ℕ → ℕ) where
  finish-Ends : (n : ℕ) (r : Result Job × Db) → Ends (finish_try sha256 id h w clock n r)
  finish-Ends n (err e, db) = (_, refl)
  finish-Ends n (ok j, db) = (_, refl)

  failed-Ends :
      (rest : Job → Db → Ending) (n : ℕ) (error : String) (r : Result Job × Db)
      → ((j : Job) → r.0 ≡ ok j → Ends (rest j r.1))
      → Ends (failed_try sha256 id h w clock rest n error r)
  failed-Ends rest n error (err e, db) f = (_, refl)
  failed-Ends rest n error (ok j, db) f = elim (Bool-cases (leb j.max_attempts j.attempts)) [
    | inl t ↦ rw t (_, refl)
    | inr m ↦ rw m (f j refl)
  ]

  after-Ends :
      (rest : Job → Db → Ending) (n : ℕ) (failure : Option String) (db : Db)
      → ((error : String) (j : Job)
          → (record_attempt id (some error) (clock n) db).0 ≡ ok j
          → Ends (rest j (record_attempt id (some error) (clock n) db).1))
      → Ends (after_run sha256 id h w clock rest n failure db)
  after-Ends rest n none db f = elim (Bool-cases (w.after n)) [
    | inl t ↦ rw t (_, refl)
    | inr m ↦ rw m (finish-Ends n (record_attempt id none (clock n) db))
  ]
  after-Ends rest n (some error) db f =
      failed-Ends rest n error (record_attempt id (some error) (clock n) db) (f error)

  -- The row behind what the loop last read: at least as many attempts, and the same limit.
  tries-Ends :
      (k n : ℕ) (seen row : Job) (db : Db)
      → Inv db.jobs
      → job_of id db ≡ some row
      → seen.attempts ≤ row.attempts
      → row.max_attempts ≡ seen.max_attempts
      → seen.max_attempts ≤ seen.attempts + k
      → Ends (tries sha256 id h w clock k n seen db)
  unfolding tries
  tries-Ends zero n seen row db v e a m b =
      elim (Bool-cases (ltb seen.attempts seen.max_attempts)) [
        | inl t ↦ absurd (ground arith)
        | inr f ↦ rw f (_, refl)
      ]
  tries-Ends (suc k) n seen row db v e a m b =
      elim (Bool-cases (ltb seen.attempts seen.max_attempts)) [
        | inr f ↦ rw f (_, refl)
        | inl t ↦ elim (Bool-cases (w.before n)) [
          | inl p ↦ rw (t, p) (_, refl)
          | inr q ↦
              rw (t, q)
                (after-Ends (tries sha256 id h w clock k (n + 1)) n (h.failure n db)
                  (run sha256 db (h.calls n db))
                  (λ error j r.
                    let (there, found, d) = run-Descends sha256 db (h.calls n db) id row v e in
                    let safe = run-Inv sha256 db (h.calls n db) v in
                    let (x, y, z) =
                      record_attempt_row id (some error) (clock n) (run sha256 db (h.calls n db))
                        there j safe found r in
                    tries-Ends k (n + 1) j j
                      (record_attempt id (some error) (clock n) (run sha256 db (h.calls n db))).1
                      (Safe-Inv
                        (record_attempt-Safe id (clock n) (run sha256 db (h.calls n db))
                          (some error))
                        safe)
                      x (omega arith) refl
                      (omega (arith, d.attempts_grow, d.same_limit, y, z, a, m, b))))
        ]
      ]

  -- On tables whose job ids are distinct and whose progress is within 1.0, executing a job always
  -- ends, in a record or an exception, whatever the handler and other clients do through the
  -- repository, and whatever the signals: a fuel of as many runs of the handler as the job may have
  -- attempts suffices.
  pub execute-Ends : (db : Db) → Inv db.jobs → Ends (execute sha256 id h w clock db)
  unfolding execute
  execute-Ends db v = elim (Bool-cases w.at_start) [
    | inl t ↦ rw t (_, refl)
    | inr f ↦ rw f (
        begun (mark_running id (clock 0) db) (mark_running_row id (clock 0) db)
          (Safe-Inv (mark_running-Safe id (clock 0) db) v))
  ]
    where
      begun :
          (r : Result Job × Db)
          → ((j : Job) → r.0 ≡ ok j → job_of id r.1 ≡ some j)
          → Inv r.1.jobs
          → Ends (begin sha256 id h w clock r)
      begun (err e, after) f i = (_, refl)
      begun (ok j, after) f i =
          tries-Ends j.max_attempts 0 j j after i (f j refl) (omega arith) refl (omega arith)
