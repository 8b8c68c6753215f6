-- ===== src/Scheduler/Dispatch.antt =====
-- The loop of `dispatch` in scheduler/service.py. The texts of ids and of a payload are parameters.
use Prim.Native.String.{◌++◌ as ◌then_text◌}
use ppt_video_workbench_v.Base.{
  ℕ, ◌+◌, String, List, [], ◌∷◌, ◌++◌, Option, none, some, Bool, true, false, not, ◌&&◌, ◌||◌, ◌==◌,
  leb, ltb, length, keep, any, find, sum_of, sorted, update_where, nonzero_or, value_or,
  if◌then◌else◌,
}
use ppt_video_workbench_v.Base.Int.{pos}
use ppt_video_workbench_v.Jobs.Status.{JobStatus, export_package, same_status}
use ppt_video_workbench_v.Jobs.Record.{default_request}
use ppt_video_workbench_v.Jobs.Store.{M, pure, ◌>>=◌}
use ppt_video_workbench_v.Jobs.Enqueue.{JobSpec, Draw, EnqueueResult, enqueue_or_get}
use ppt_video_workbench_v.Scheduler.Batch.{
  BatchItemStatus, BatchItem, BatchProduction, BatchResourceLimits, BatchDispatchRequest, item_is,
  holds,
}

-- What is in use, and what there is room for.
pub record Usage : Type 0 where
  pub parallel : ℕ
  pub cpu : ℕ
  pub memory : ℕ
  pub gpu : ℕ

abbrev pub room_of : BatchResourceLimits → BatchDispatchRequest → Usage
room_of limits r = record {
  parallel = limits.max_parallel;
  cpu = nonzero_or r.available_cpu limits.cpu_cores;
  memory = nonzero_or r.available_memory_mb limits.memory_mb;
  gpu = value_or r.available_gpu limits.gpu_slots;
}

abbrev pub usage_of : List BatchItem → Usage
usage_of items = record {
  parallel = length items;
  cpu = sum_of (λ i. i.resource_cpu) items;
  memory = sum_of (λ i. i.resource_memory_mb) items;
  gpu = sum_of (λ i. i.resource_gpu) items;
}

abbrev pub used_with : Usage → BatchItem → Usage
used_with u i = record {
  parallel = u.parallel + 1;
  cpu = u.cpu + i.resource_cpu;
  memory = u.memory + i.resource_memory_mb;
  gpu = u.gpu + i.resource_gpu;
}

-- The sort key: highest priority first, then by id.
abbrev pub goes_before : BatchItem → BatchItem → Bool
goes_before a b =
    ltb b.priority a.priority || ((a.priority == b.priority) && ltb a.item_id b.item_id)

abbrev pub item_of : ℕ → List BatchItem → Option BatchItem
item_of id items = find (λ i. i.item_id == id) items

unfoldable pub is_done : Option BatchItem → Bool
is_done none = false
is_done (some i) = item_is BatchItemStatus.succeeded i

abbrev pub blocked : List BatchItem → BatchItem → Bool
blocked items i = any (λ id. not (is_done (item_of id items))) i.dependencies

-- The state of the loop; `dispatched` holds the items as they were when their turn came.
pub record Run : Type 0 where
  pub items : List BatchItem
  pub usage : Usage
  pub dispatched : List BatchItem

abbrev pub fits : Usage → Usage → BatchItem → Bool
fits room u i =
    leb (u.cpu + i.resource_cpu) room.cpu
    && (leb (u.memory + i.resource_memory_mb) room.memory && leb (u.gpu + i.resource_gpu) room.gpu)

-- `continue`, `break`, or the rest of the loop's body.
pub data Verdict : Type 0 where
  skips stops takes : Verdict

unfoldable pub verdict : Usage → Run → BatchItem → Verdict
unfolding is_done
verdict room s i =
    if not (item_is BatchItemStatus.queued i)
    then skips
    else if blocked s.items i
    then skips
    else if leb room.parallel s.usage.parallel
    then stops
    else if fits room s.usage i
    then takes
    else skips

abbrev pub started : JobStatus → BatchItemStatus
started s =
    if same_status s JobStatus.succeeded
    then BatchItemStatus.succeeded
    else BatchItemStatus.dispatched

abbrev pub sent : EnqueueResult → BatchItem → BatchItem
sent r i = record i {
  status = started r.job.status;
  job_id = some r.job.id;
  attempts = i.attempts + 1;
}

abbrev pub run_with : Run → BatchItem → EnqueueResult → Run
run_with s i r = record {
  items = update_where (λ x. x.item_id == i.item_id) (sent r) s.items;
  usage = used_with s.usage i;
  dispatched = s.dispatched ++ i ∷ [];
}

module _ (text_of : ℕ → String) (payload_of : BatchProduction → BatchItem → String) where
  abbrev pub item_spec : BatchProduction → BatchItem → JobSpec
  item_spec b i = record {
    project_id = b.project_id;
    job_type = export_package;
    cache_key =
        "batch:"
        then_text (text_of b.batch_id
            then_text (":" then_text (text_of i.item_id then_text (":" then_text i.preset_id))));
    input_fingerprint = none;
    idempotency_key =
        some ("batch:" then_text (text_of b.batch_id then_text (":" then_text text_of i.item_id)));
    payload = some (payload_of b i);
    page_id = i.page_id;
    parent_job_id = none;
    paid = false;
    max_attempts = none;
    priority = pos 0;
    resource_request = default_request;
    runtime_fingerprint = none;
  }

  abbrev pub send : BatchProduction → (BatchItem → Draw) → BatchItem → M EnqueueResult
  send b draws i = enqueue_or_get (item_spec b i) true (draws i)

  abbrev pub turn :
      BatchProduction → (BatchItem → Draw) → BatchItem → Run → (Run → M Run) → Verdict → M Run
  turn b draws i s rest skips = rest s
  turn b draws i s rest stops = pure s
  turn b draws i s rest takes = send b draws i >>= λ r. rest (run_with s i r)

  unfoldable pub dispatch_loop :
      BatchProduction → (BatchItem → Draw) → Usage → List BatchItem → Run → M Run
  unfolding verdict enqueue_or_get
  dispatch_loop b draws room [] s = pure s
  dispatch_loop b draws room (i ∷ is) s =
      let rest = dispatch_loop b draws room is in turn b draws i s rest (verdict room s i)

  -- The loop over the sorted items, from what the active items hold.
  unfoldable pub dispatch_items :
      BatchProduction → BatchDispatchRequest → (BatchItem → Draw) → M Run
  unfolding dispatch_loop
  dispatch_items b request draws =
      dispatch_loop b draws (room_of b.resource_limits request) (sorted goes_before b.items)
        (record { items = b.items; usage = usage_of (keep holds b.items); dispatched = [] })
