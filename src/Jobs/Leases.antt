-- ===== src/Jobs/Leases.antt =====
-- jobs/leases.py: workers and the resource leases that they hold for the attempts at jobs. A time
-- is a number of microseconds, the precision of the stored time stamps.
use ppt_video_workbench_v.Base.{
  ℕ, ◌+◌, max, String, List, [], ◌∷◌, ◌++◌, Option, none, some, Bool, true, false, not, ◌&&◌, ◌==◌,
  leb, ltb, str_eq, is_empty, fits_in, any, find, update_where, count_where, if◌then◌else◌,
}
use ppt_video_workbench_v.Jobs.Status.{
  LeaseStatus, active, released, expired, WorkerStatus, offline,
}
use ppt_video_workbench_v.Jobs.Record.{ResourceRequest}
use ppt_video_workbench_v.Jobs.Store.{Result, ok, err, not_found, integrity, validation, conflict}

pub record WorkerCapability : Type 0 where
  pub job_types : List String
  pub encoders : List String
  pub decoders : List String
  pub hardware_acceleration : List String
  pub max_concurrency : ℕ

-- `workers`, and `WorkerRecord`
pub record Worker : Type 0 where
  pub id : String
  pub status : WorkerStatus
  pub runtime_fingerprint : String
  pub capabilities : WorkerCapability
  pub heartbeat_at : ℕ
  pub revision : ℕ

-- `resource_leases`, and `ResourceLeaseRecord`
pub record Lease : Type 0 where
  pub id : ℕ
  pub job_id : ℕ
  pub attempt_id : ℕ
  pub worker_id : String
  pub generation : ℕ
  pub request : ResourceRequest
  pub status : LeaseStatus
  pub heartbeat_at : ℕ
  pub expires_at : ℕ
  pub revision : ℕ

pub record LeaseDb : Type 0 where
  pub workers : List Worker
  pub leases : List Lease

abbrev named : ℕ → String → Bool
named n s = not (is_empty s) && fits_in n s

unfoldable pub valid_worker : Worker → Bool
valid_worker w = named 120 w.id && (named 128 w.runtime_fingerprint && leb 1 w.revision)

unfoldable pub valid_lease : Lease → Bool
valid_lease l = named 120 l.worker_id && (leb 1 l.generation && leb 1 l.revision)

abbrev pub is_live : LeaseStatus → Bool
is_live active = true
is_live _ = false

abbrev pub on_duty : WorkerStatus → Bool
on_duty WorkerStatus.active = true
on_duty _ = false

abbrev pub is_offline : WorkerStatus → Bool
is_offline offline = true
is_offline _ = false

abbrev pub worker_of : String → LeaseDb → Option Worker
worker_of id db = find (λ w. str_eq w.id id) db.workers

abbrev pub lease_of : ℕ → LeaseDb → Option Lease
lease_of id db = find (λ l. l.id == id) db.leases

abbrev pub to_worker : Option Worker → Result Worker
to_worker none = err not_found
to_worker (some w) = if valid_worker w then ok w else err validation

abbrev pub to_lease : Option Lease → Result Lease
to_lease none = err not_found
to_lease (some l) = if valid_lease l then ok l else err validation

-- The upsert of `register_worker`: a known worker is made active again, at its next revision.
abbrev renewed : String → WorkerCapability → ℕ → Worker → Worker
renewed fingerprint capabilities now w = record w {
  status = WorkerStatus.active;
  runtime_fingerprint = fingerprint;
  capabilities = capabilities;
  heartbeat_at = now;
  revision = w.revision + 1;
}

abbrev first_seen : String → String → WorkerCapability → ℕ → Worker
first_seen id fingerprint capabilities now = record {
  id = id;
  status = WorkerStatus.active;
  runtime_fingerprint = fingerprint;
  capabilities = capabilities;
  heartbeat_at = now;
  revision = 1;
}

abbrev upsert : String → String → WorkerCapability → ℕ → List Worker → List Worker
upsert id fingerprint capabilities now ws =
    if any (λ w. str_eq w.id id) ws
    then update_where (λ w. str_eq w.id id) (renewed fingerprint capabilities now) ws
    else ws ++ first_seen id fingerprint capabilities now ∷ []

abbrev read_worker : String → LeaseDb → Result Worker × LeaseDb
read_worker id db = (to_worker (worker_of id db), db)

unfoldable pub register_worker :
    String → String → WorkerCapability → ℕ → LeaseDb → Result Worker × LeaseDb
unfolding valid_worker
register_worker id fingerprint capabilities now db =
    read_worker id (record db { workers = upsert id fingerprint capabilities now db.workers })

unfoldable pub on_line : String → Worker → Bool
on_line id w = str_eq w.id id && not (is_offline w.status)

abbrev seen_at : ℕ → Worker → Worker
seen_at now w = record w { heartbeat_at = now; revision = w.revision + 1 }

unfoldable pub heartbeat_worker : String → ℕ → LeaseDb → Result Worker × LeaseDb
unfolding valid_worker on_line
heartbeat_worker id now db =
    if count_where (on_line id) db.workers == 1
    then read_worker id (record db { workers = update_where (on_line id) (seen_at now) db.workers })
    else (err conflict, db)

-- `now + timedelta(seconds=max(ttl_seconds, 1.0))`
abbrev pub one_second : ℕ
one_second = 1000000

abbrev pub deadline : ℕ → ℕ → ℕ
deadline ttl now = now + max ttl one_second

abbrev pub overdue : ℕ → Lease → Bool
overdue now l = is_live l.status && ltb l.expires_at now

abbrev pub lapsed : Lease → Lease
lapsed l = record l { status = expired; revision = l.revision + 1 }

-- `_reap_expired`: how many leases lapsed, and the table after.
unfoldable pub reap : ℕ → List Lease → ℕ × List Lease
reap now ls = (count_where (overdue now) ls, update_where (overdue now) lapsed ls)

unfoldable pub reap_expired : ℕ → LeaseDb → ℕ × LeaseDb
unfolding reap
reap_expired now db = let (n, ls) = reap now db.leases in (n, record db { leases = ls })

-- What a caller of `acquire` asks for, and the id and time that the call draws.
pub record LeaseRequest : Type 0 where
  pub job_id : ℕ
  pub attempt_id : ℕ
  pub generation : ℕ
  pub worker_id : String
  pub request : ResourceRequest
  pub ttl : ℕ

abbrev pub new_lease : LeaseRequest → ℕ → ℕ → Lease
new_lease r lease_id now = record {
  id = lease_id;
  job_id = r.job_id;
  attempt_id = r.attempt_id;
  worker_id = r.worker_id;
  generation = r.generation;
  request = r.request;
  status = active;
  heartbeat_at = now;
  expires_at = deadline r.ttl now;
  revision = 1;
}

unfoldable pub works : Option Worker → Bool
works none = false
works (some w) = on_duty w.status

abbrev read_lease : ℕ → LeaseDb → Result Lease × LeaseDb
read_lease id db = (to_lease (lease_of id db), db)

-- The whole of `acquire` is one transaction: a clash of ids undoes the reaping as well.
unfoldable pub acquire : LeaseRequest → ℕ → ℕ → LeaseDb → Result Lease × LeaseDb
unfolding reap valid_lease works
acquire r lease_id now db =
    if works (worker_of r.worker_id db)
    then if any (λ l. l.id == lease_id) db.leases
      then (err integrity, db)
      else read_lease lease_id
          (record db { leases = (reap now db.leases).1 ++ new_lease r lease_id now ∷ [] })
    else (err conflict, db)

abbrev pub held : ℕ → ℕ → Lease → Bool
held id generation l = (l.id == id) && ((l.generation == generation) && is_live l.status)

abbrev pub extended : ℕ → ℕ → Lease → Lease
extended ttl now l = record l {
  heartbeat_at = now;
  expires_at = deadline ttl now;
  revision = l.revision + 1;
}

unfoldable pub heartbeat : ℕ → ℕ → ℕ → ℕ → LeaseDb → Result Lease × LeaseDb
unfolding valid_lease
heartbeat id generation ttl now db =
    if count_where (held id generation) db.leases == 1
    then read_lease id
        (record db { leases = update_where (held id generation) (extended ttl now) db.leases })
    else (err conflict, db)

abbrev pub given_back : Lease → Lease
given_back l = record l { status = released; revision = l.revision + 1 }

abbrev pub as_it_is : Option Lease → Result Lease
as_it_is none = err conflict
as_it_is (some l) = to_lease (some l)

-- A release that hits no row raises only for an unknown lease; else it returns the lease as it is.
unfoldable pub release : ℕ → ℕ → LeaseDb → Result Lease × LeaseDb
unfolding valid_lease
release id generation db =
    if count_where (held id generation) db.leases == 0
    then (as_it_is (lease_of id db), db)
    else read_lease id
        (record db { leases = update_where (held id generation) given_back db.leases })
