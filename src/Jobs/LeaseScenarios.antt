-- ===== src/Jobs/LeaseScenarios.antt =====
-- What the theorems on leases say of a worker with one lease.
use ppt_video_workbench_v.Base.{
  ◌≡◌, refl, [], ◌∷◌, some, true, false, arith, All, Grows, fits_in, max, ◌+◌, ◌≤◌,
}
use ppt_video_workbench_v.Jobs.Status.{active, WorkerStatus}
use ppt_video_workbench_v.Jobs.Record.{default_request}
use ppt_video_workbench_v.Jobs.Store.{ok}
use ppt_video_workbench_v.Jobs.Leases.{
  Lease, LeaseDb, Worker, is_live, lease_of, overdue, reap_expired, heartbeat, valid_lease,
  extended,
}
use ppt_video_workbench_v.Jobs.LeaseLife.{Moves, Opens, step, acquires, step-Grows}
use ppt_video_workbench_v.Jobs.LeaseTime.{reap_once, heartbeat_protects}

abbrev worker : Worker
worker = record {
  id = "w";
  status = WorkerStatus.active;
  runtime_fingerprint = "ffmpeg-7";
  capabilities = record {
    job_types = [];
    encoders = [];
    decoders = [];
    hardware_acceleration = [];
    max_concurrency = 1;
  };
  heartbeat_at = 0;
  revision = 1;
}

-- Acquired at time 0 for thirty seconds.
abbrev lease : Lease
lease = record {
  id = 5;
  job_id = 1;
  attempt_id = 40;
  worker_id = "w";
  generation = 1;
  request = default_request;
  status = active;
  heartbeat_at = 0;
  expires_at = 30000000;
  revision = 1;
}

abbrev leased : LeaseDb
leased = record { workers = worker ∷ []; leases = lease ∷ [] }

step-Grows_example :
    Grows Moves Opens leased.leases
      (step leased (
        acquires
          (record {
            job_id = 2;
            attempt_id = 41;
            generation = 1;
            worker_id = "w";
            request = default_request;
            ttl = 30000000;
          })
          6
          40000000)).leases
step-Grows_example = step-Grows leased (
    acquires
      (record {
        job_id = 2;
        attempt_id = 41;
        generation = 1;
        worker_id = "w";
        request = default_request;
        ttl = 30000000;
      })
      6 40000000)

reap_once_example :
    All (λ l. overdue 40000000 l ≡ false) (reap_expired 40000000 leased).1.leases
    × (reap_expired 40000000 (reap_expired 40000000 leased).1
        ≡ (0, (reap_expired 40000000 leased).1))
reap_once_example = reap_once 40000000 leased

beaten : (heartbeat 5 1 30000000 20000000 leased).0 ≡ ok (extended 30000000 20000000 lease)
unfolding heartbeat valid_lease fits_in
beaten = refl

in_time : 45000000 ≤ 20000000 + max 30000000 1000000
in_time = omega arith

heartbeat_protects_example :
    (is_live (extended 30000000 20000000 lease).status ≡ true)
    × (lease_of 5 (reap_expired 45000000 (heartbeat 5 1 30000000 20000000 leased).1).1
        ≡ some (extended 30000000 20000000 lease))
heartbeat_protects_example =
    heartbeat_protects 5 1 30000000 20000000 leased 45000000 (extended 30000000 20000000 lease)
      (refl, tt) beaten in_time
