-- ===== src/Scheduler/Limits.antt =====
-- What the loop of `dispatch` in scheduler/service.py sends out fits in what is left.
use ppt_video_workbench_v.Base.{
  ℕ, ◌+◌, ◌≤◌, ◌≡◌, ◌⊎◌, inl, inr, refl, subst, ap, ◌∙◌, String, List, [], ◌∷◌, ◌++◌, true, false,
  All, length, keep, sum_of, length-append, sum_of-append, sorted, arith,
}
use ppt_video_workbench_v.Jobs.Enqueue.{Draw, EnqueueResult}
use ppt_video_workbench_v.Jobs.Store.{Db, M, Result, ok, err, follow}
use ppt_video_workbench_v.Scheduler.Batch.{
  BatchItemStatus, BatchItem, BatchProduction, BatchDispatchRequest, item_is, holds,
}
use ppt_video_workbench_v.Scheduler.Dispatch.{
  Usage, Run, room_of, usage_of, used_with, goes_before, blocked, Verdict, skips, stops, takes,
  verdict, run_with, send, turn, dispatch_loop, dispatch_items,
}

abbrev pub Within : Usage → Usage → Type 0
Within room u =
    (u.parallel ≤ room.parallel)
    × (u.cpu ≤ room.cpu)
    × (u.memory ≤ room.memory)
    × (u.gpu ≤ room.gpu)

-- The resources of the items with those that were in use.
abbrev pub total : Usage → List BatchItem → Usage
total base items = record {
  parallel = base.parallel + length items;
  cpu = base.cpu + sum_of (λ i. i.resource_cpu) items;
  memory = base.memory + sum_of (λ i. i.resource_memory_mb) items;
  gpu = base.gpu + sum_of (λ i. i.resource_gpu) items;
}

-- The loop's state, begun from `base`.
pub record Accounts (room base : Usage) (s : Run) : Type 0 where
  pub counted : s.usage ≡ total base s.dispatched
  pub within : (s.dispatched ≡ []) ⊎ Within room s.usage
  pub were_queued : All (λ i. item_is BatchItemStatus.queued i ≡ true) s.dispatched

All-last :
    (xs : List BatchItem) (x : BatchItem)
    → All (λ i. item_is BatchItemStatus.queued i ≡ true) xs
    → item_is BatchItemStatus.queued x ≡ true
    → All (λ i. item_is BatchItemStatus.queued i ≡ true) (xs ++ x ∷ [])
All-last [] x h k = (k, tt)
All-last (y ∷ ys) x h k = (h.0, All-last ys x h.1 k)

same_usage :
    (u v : Usage)
    → u.parallel ≡ v.parallel
    → u.cpu ≡ v.cpu
    → u.memory ≡ v.memory
    → u.gpu ≡ v.gpu
    → u ≡ v
same_usage u v p c m g = cc (p, c, m, g)

sum-last :
    (f : BatchItem → ℕ) (n : ℕ) (xs : List BatchItem) (i : BatchItem)
    → (n + sum_of f xs) + f i ≡ n + sum_of f (xs ++ i ∷ [])
sum-last f n xs i = rw (sum_of-append f xs (i ∷ [])) (omega arith)

total-last :
    (base : Usage) (xs : List BatchItem) (i : BatchItem)
    → used_with (total base xs) i ≡ total base (xs ++ i ∷ [])
total-last base xs i =
    same_usage (used_with (total base xs) i) (total base (xs ++ i ∷ []))
      (rw (length-append xs (i ∷ [])) (omega arith)) (sum-last (λ x. x.resource_cpu) base.cpu xs i)
      (sum-last (λ x. x.resource_memory_mb) base.memory xs i)
      (sum-last (λ x. x.resource_gpu) base.gpu xs i)

verdict-takes :
    (room : Usage) (s : Run) (i : BatchItem)
    → verdict room s i ≡ takes
    → (item_is BatchItemStatus.queued i ≡ true)
      × (blocked s.items i ≡ false)
      × Within room (used_with s.usage i)
unfolding verdict
verdict-takes room s i h = ground arith

run_with-Accounts :
    (room base : Usage) (s : Run) (i : BatchItem) (r : EnqueueResult)
    → Accounts room base s
    → verdict room s i ≡ takes
    → Accounts room base (run_with s i r)
run_with-Accounts room base s i r a h =
    let (q, _, w) = verdict-takes room s i h in
    record {
      counted = ap (λ u. used_with u i) a.counted ∙ total-last base s.dispatched i;
      within = inr w;
      were_queued = All-last s.dispatched i a.were_queued q;
    }

ok_eq : {a b : Run} → ok a ≡ ok b → a ≡ b
ok_eq h = cc

module _ (text_of : ℕ → String) (payload_of : BatchProduction → BatchItem → String)
    (b : BatchProduction) (draws : BatchItem → Draw) (room base : Usage) where
  turn-Accounts :
      (i : BatchItem) (s s' : Run) (rest : Run → M Run) (db : Db) (v : Verdict)
      → verdict room s i ≡ v
      → Accounts room base s
      → (turn text_of payload_of b draws i s rest v db).0 ≡ ok s'
      → ((x : Run) (db' : Db)
          → Accounts room base x
          → (rest x db').0 ≡ ok s'
          → Accounts room base s')
      → Accounts room base s'
  turn-Accounts i s s' rest db skips e a h ih = ih s db a h
  turn-Accounts i s s' rest db stops e a h ih = subst (λ x. Accounts room base x) (ok_eq h) a
  turn-Accounts i s s' rest db takes e a h ih = go (send text_of payload_of b draws i db) h
    where
      go :
          (r : Result EnqueueResult × Db)
          → (follow (λ x. rest (run_with s i x)) r.0 r.1).0 ≡ ok s'
          → Accounts room base s'
      go (ok x, db') k = ih (run_with s i x) db' (run_with-Accounts room base s i x a e) k
      go (err x, db') k = absurd (cc k)

  loop-Accounts :
      (is : List BatchItem) (s s' : Run) (db : Db)
      → Accounts room base s
      → (dispatch_loop text_of payload_of b draws room is s db).0 ≡ ok s'
      → Accounts room base s'
  unfolding dispatch_loop
  loop-Accounts [] s s' db a h = subst (λ x. Accounts room base x) (ok_eq h) a
  loop-Accounts (i ∷ is) s s' db a h =
      turn-Accounts i s s' (dispatch_loop text_of payload_of b draws room is) db (verdict room s i)
        refl a h (λ x db' k l. loop-Accounts is x s' db' k l)

-- When the loop of a dispatch returns, either it sent out nothing, or what it sent out and what was
-- dispatched or running before stay together within the number of parallel jobs, the cores, the
-- memory and the GPU slots that there is room for; the usage that it kept account of is that total;
-- and every item it sent out was queued when its turn came.
pub dispatch_fits :
    (text_of : ℕ → String) (payload_of : BatchProduction → BatchItem → String) (b : BatchProduction)
    (request : BatchDispatchRequest) (draws : BatchItem → Draw) (db : Db) (s : Run)
    → (dispatch_items text_of payload_of b request draws db).0 ≡ ok s
    → Accounts (room_of b.resource_limits request) (usage_of (keep holds b.items)) s
unfolding dispatch_items
dispatch_fits text_of payload_of b request draws db s h =
    let room = room_of b.resource_limits request in
    let base = usage_of (keep holds b.items) in
    loop-Accounts text_of payload_of b draws room base (sorted goes_before b.items)
      (record { items = b.items; usage = base; dispatched = [] }) s db
      (record {
        counted =
            same_usage base (total base []) (omega arith) (omega arith) (omega arith) (omega arith);
        within = inl refl;
        were_queued = tt;
      })
      h
