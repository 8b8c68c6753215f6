-- ===== src/Jobs/LeaseTime.antt =====
-- Leases over time in jobs/leases.py: what a heartbeat protects, what reaping leaves, and what the
-- generation of a lease keeps out.
use ppt_video_workbench_v.Base.{
  ℕ, ◌+◌, ◌≤◌, ◌≡◌, refl, sym, ap, ◌∙◌, inl, inr, List, [], ◌∷◌, Option, none, some, true, false,
  ◌&&◌, ◌==◌, All, find, Distinct, update_where, count_where, count_where-found, find-update_found,
  find-update_none, find-key, arith, Bool-cases, Option-cases, and-eq_true, max,
}
use ppt_video_workbench_v.Jobs.Store.{ok}
use ppt_video_workbench_v.Jobs.Leases.{
  Lease, LeaseDb, is_live, lease_of, valid_lease, to_lease, overdue, lapsed, reap, reap_expired,
  deadline, held, extended, heartbeat,
}

abbrev pub lease_id : Lease → ℕ
lease_id l = l.id

none_overdue :
    (now : ℕ) (ls : List Lease)
    → All (λ l. overdue now l ≡ false) (update_where (overdue now) lapsed ls)
none_overdue now [] = tt
none_overdue now (l ∷ ls) = elim (Bool-cases (overdue now l)) [
  | inl t ↦ rw t (refl, none_overdue now ls)
  | inr f ↦ rw f (f, none_overdue now ls)
]

still_none :
    (now : ℕ) (ls : List Lease)
    → All (λ l. overdue now l ≡ false) ls
    → (count_where (overdue now) ls ≡ 0) × (update_where (overdue now) lapsed ls ≡ ls)
still_none now [] h = (refl, refl)
still_none now (l ∷ ls) h =
    let (a, b) = still_none now ls h.1 in (rw h.0 (omega (arith, a)), rw h.0 (ap (λ xs. l ∷ xs) b))

-- After a reaping no active lease is past its deadline, and to reap again at the same time reports
-- none and changes nothing.
pub reap_once :
    (now : ℕ) (db : LeaseDb)
    → All (λ l. overdue now l ≡ false) (reap_expired now db).1.leases
      × (reap_expired now (reap_expired now db).1 ≡ (0, (reap_expired now db).1))
unfolding reap_expired reap
reap_once now db =
    let clear = none_overdue now db.leases in
    let (a, b) = still_none now (update_where (overdue now) lapsed db.leases) clear in
    (clear, rw (a, b))

not_overdue :
    (ttl now later : ℕ) (l : Lease)
    → later ≤ deadline ttl now
    → overdue later (extended ttl now l) ≡ false
not_overdue ttl now later l h = ground arith

the_lease : (o : Option Lease) (l : Lease) → to_lease o ≡ ok l → o ≡ some l
the_lease none l h = absurd (cc h)
the_lease (some x) l h = elim (Bool-cases (valid_lease x)) [
  | inl t ↦ ground (arith, rw t at h)
  | inr f ↦ absurd (cc (rw f at h))
]

module _ (id generation ttl now : ℕ) (db : LeaseDb) where
  heartbeat-cases :
      (l : Lease)
      → (heartbeat id generation ttl now db).0 ≡ ok l
      → (count_where (held id generation) db.leases ≡ 1)
        × ((heartbeat id generation ttl now db).1.leases
            ≡ update_where (held id generation) (extended ttl now) db.leases)
        × (find (λ x. x.id == id) (update_where (held id generation) (extended ttl now) db.leases)
            ≡ some l)
  unfolding heartbeat
  heartbeat-cases l h = elim (Bool-cases (count_where (held id generation) db.leases == 1)) [
    | inl one ↦ (ground arith, rw one refl, the_lease _ l (rw one at h))
    | inr other ↦ absurd (cc (rw other at h))
  ]

  held_row :
      (r : Lease)
      → Distinct lease_id db.leases
      → find (λ x. x.id == id) db.leases ≡ some r
      → count_where (held id generation) db.leases ≡ 1
      → held id generation r ≡ true
  held_row r d e c =
      let k =
        count_where-found lease_id (λ x. (x.generation == generation) && is_live x.status) id
          db.leases r d e in
      ground (arith, find-key lease_id id db.leases r e)

  extended_row :
      (l : Lease)
      → Distinct lease_id db.leases
      → (heartbeat id generation ttl now db).0 ≡ ok l
      → (r : Lease) × (held id generation r ≡ true) × (l ≡ extended ttl now r)
  extended_row l d h =
      let (c, _, g) = heartbeat-cases l h in
      elim (Option-cases (find (λ x. x.id == id) db.leases)) [
        | inl e ↦ absurd (cc (missing e ∙ g))
        | inr (r, e) ↦ let t = held_row r d e c in (r, t, some_eq (sym g ∙ there r e t))
      ]
    where
      missing :
          find (λ x. x.id == id) db.leases ≡ none
          → none
            ≡ find
                (λ x. x.id == id)
                (update_where (held id generation) (extended ttl now) db.leases)
      missing e = sym (
          find-update_none lease_id (held id generation) (extended ttl now) id db.leases (λ x. refl)
            e)

      there :
          (r : Lease)
          → find (λ x. x.id == id) db.leases ≡ some r
          → held id generation r ≡ true
          → find (λ x. x.id == id) (update_where (held id generation) (extended ttl now) db.leases)
            ≡ some (extended ttl now r)
      there r e t =
          find-update_found lease_id (held id generation) (extended ttl now) id db.leases r
            (λ x. refl) e
          ∙ rw t

      some_eq : {a b : Lease} → some a ≡ some b → a ≡ b
      some_eq e = cc

  -- Where lease ids are distinct and a heartbeat of a lease returned, the lease is active, and any
  -- reaping up to its new deadline, which is at least one second after the heartbeat, leaves it
  -- exactly as the heartbeat returned it.
  pub heartbeat_protects :
      (later : ℕ) (l : Lease)
      → Distinct lease_id db.leases
      → (heartbeat id generation ttl now db).0 ≡ ok l
      → later ≤ now + max ttl 1000000
      → (is_live l.status ≡ true)
        × (lease_of id (reap_expired later (heartbeat id generation ttl now db).1).1 ≡ some l)
  unfolding reap_expired reap
  heartbeat_protects later l d h b =
      let (c, k, g) = heartbeat-cases l h in
      let (r, t, e) = extended_row l d h in
      let live : is_live l.status ≡ true = rw e (and-eq_true _ _ (and-eq_true _ _ t).1).1 in
      let safe : overdue later l ≡ false = rw e (not_overdue ttl now later r b) in
      (
        live,
        rw k (
            find-update_found lease_id (overdue later) lapsed id
              (update_where (held id generation) (extended ttl now) db.leases) l (λ x. refl) g
            ∙ rw safe),
      )
