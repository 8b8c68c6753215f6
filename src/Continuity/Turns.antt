-- ===== src/Continuity/Turns.antt =====
-- A command to the service (continuity/service.py): the plan in memory, the commands that were
-- applied and the files of the revisions.
use ppt_video_workbench_v.Base.{
  ℕ, ◌+◌, ◌≤◌, ◌<◌, ◌≡◌, ◌≢◌, refl, subst, ◌∙◌, List, [], ◌∷◌, Option, none, some, Bool, true,
  false, not, ◌&&◌, ◌==◌, ltb, keep, find-key, All, if◌then◌else◌, arith, and-eq_true, Bool-cases,
  Option-cases, inl, inr, ==_iff, ==_refl,
}
use ppt_video_workbench_v.Continuity.Plan.{ContinuityPlan, ContinuityPlanCommand}
use ppt_video_workbench_v.Continuity.Commands.{
  ContinuityFault, conflict, error, Result, ok, err, apply_command,
}
use ppt_video_workbench_v.Continuity.Applied.{IsPlan}
use ppt_video_workbench_v.Continuity.Applies.{Carried, failed, carried, apply_command-Carried}
use ppt_video_workbench_v.Continuity.State.{
  Page, AppliedCommand, ContinuityService, of_project, plan_of, same_file, write_file, later_of,
  latest, command_of,
}
use ppt_video_workbench_v.Continuity.Service.{get, next_revision, committed, apply}

-- The files of the project are of revisions up to `n`.
abbrev pub Filed : ℕ → ℕ → List ContinuityPlan → Type 0
Filed project n fs = All (λ f. of_project project f ≡ true → f.revision ≤ n) fs

some_eq : {a b : ContinuityPlan} → some a ≡ some b → a ≡ b
some_eq h = cc

latest-Filed :
    (project n : ℕ) (fs : List ContinuityPlan) (y : ContinuityPlan)
    → Filed project n fs
    → latest project fs ≡ some y
    → y.revision ≤ n
unfolding latest
latest-Filed project n [] y a h = absurd (cc h)
latest-Filed project n (x ∷ xs) y a h =
    go (λ w v. latest-Filed project n xs w a.1 v) (latest project xs) refl h
  where
    here :
        (b : Bool) (o : Option ContinuityPlan)
        → (b ≡ true → of_project project x ≡ true)
        → ((z : ContinuityPlan) → o ≡ some z → z.revision ≤ n)
        → (if b then some x else o) ≡ some y
        → y.revision ≤ n
    here true o t r q = subst (λ z. z.revision ≤ n) (some_eq q) (a.0 (t refl))
    here false o t r q = r y q

    no : {A : Type 0} {z : ContinuityPlan} → none ≡ some z → A
    no q = absurd (cc q)

    go :
        ((w : ContinuityPlan) → latest project xs ≡ some w → w.revision ≤ n)
        → (o : Option ContinuityPlan) → latest project xs ≡ o
        → later_of project x o ≡ some y
        → y.revision ≤ n
    go rest none e q = here (of_project project x) none (λ t. t) (λ z w. no w) q
    go rest (some z) e q =
        here (of_project project x && ltb z.revision x.revision) (some z)
          (λ t. (and-eq_true (of_project project x) (ltb z.revision x.revision) t).0)
          (λ w v. rest w (e ∙ v)) q

keep-Filed :
    (project n : ℕ) (p : ContinuityPlan → Bool) (fs : List ContinuityPlan)
    → Filed project n fs
    → Filed project n (keep p fs)
keep-Filed project n p [] a = tt
keep-Filed project n p (x ∷ xs) a = elim (Bool-cases (p x)) [
  | inl t ↦ rw t (a.0, keep-Filed project n p xs a.1)
  | inr f ↦ rw f (keep-Filed project n p xs a.1)
]

written-latest :
    (project n : ℕ) (q : ContinuityPlan) (fs : List ContinuityPlan)
    → Filed project n fs
    → of_project project q ≡ true
    → n < q.revision
    → latest project (write_file q fs) ≡ some q
unfolding latest
written-latest project n q fs a t l = go (latest project rest) refl
  where
    rest : List ContinuityPlan
    rest = keep (λ x. not (same_file q x)) fs

    go : (o : Option ContinuityPlan) → latest project rest ≡ o → later_of project q o ≡ some q
    go none e = rw t refl
    go (some y) e =
        let below =
          latest-Filed project n rest y (keep-Filed project n (λ x. not (same_file q x)) fs a) e in
        let less : ltb y.revision q.revision ≡ true = ground arith in rw (t, less) refl

-- The service after a restart has only its files.
abbrev pub restarted : ContinuityService → ContinuityService
restarted s = record { plans = []; applied = []; files = s.files }

module _ (sha256 : ContinuityPlan → ℕ) (contained : ℕ → Bool) (pages_of : ℕ → Option (List Page))
    (ids : ℕ → ℕ) where
  -- The answer to a command, and the service after it.
  pub data Turned (s : ContinuityService) (project : ℕ) (c : ContinuityPlanCommand)
      (p : ContinuityPlan) : Result ContinuityPlan × ContinuityService → Type 0 where
    repeated :
        {a : AppliedCommand}
        → command_of project c.command_id s.applied ≡ some a
        → Turned s project c p (ok a.plan, s)
    stale :
        command_of project c.command_id s.applied ≡ none
        → c.expected_revision ≢ p.revision
        → Turned s project c p (err conflict, s)
    refused :
        {e : ContinuityFault}
        → c.expected_revision ≡ p.revision
        → apply_command p c.kind ≡ err e
        → Turned s project c p (err e, s)
    unsaved :
        {s' : ContinuityService} {r : ContinuityPlan}
        → c.expected_revision ≡ p.revision
        → apply_command p c.kind ≡ ok r
        → contained project ≡ false
        → plan_of project s'.plans ≡ some (next_revision sha256 contained pages_of r)
        → s'.files ≡ s.files
        → Turned s project c p (err error, s')
    done :
        {s' : ContinuityService} {r q : ContinuityPlan}
        → c.expected_revision ≡ p.revision
        → apply_command p c.kind ≡ ok r
        → q ≡ next_revision sha256 contained pages_of r
        → q.revision ≡ p.revision + 1
        → q.content_hash ≡ sha256 (record q { content_hash = 0 })
        → IsPlan q
        → plan_of project s'.plans ≡ some q
        → apply sha256 contained pages_of ids project c s' ≡ (ok q, s')
        → (get sha256 contained pages_of ids project (restarted s')).0 ≡ ok q
        → Turned s project c p (ok q, s')

  committed-Turned :
      (s : ContinuityService) (project : ℕ) (c : ContinuityPlanCommand) (p : ContinuityPlan)
      → plan_of project s.plans ≡ some p
      → Filed project p.revision s.files
      → c.expected_revision ≡ p.revision
      → (r : Result ContinuityPlan) → apply_command p c.kind ≡ r
      → Carried p r
      → Turned s project c p (committed sha256 contained pages_of c r s)
  unfolding apply get
  committed-Turned s project c p f files same (err e) k failed = refused same k
  committed-Turned s project c p f files same (ok q) k (carried good proj rev dur) =
      let next = next_revision sha256 contained pages_of q in
      let mine : of_project project next ≡ true =
        ground (arith, proj, find-key (λ x. x.project_id) project s.plans p f) in
      let at : next.project_id ≡ project = (==_iff next.project_id project).0 mine in
      elim (Bool-cases (contained q.project_id)) [
        | inr n ↦ rw n (unsaved same k (subst (λ m. contained m ≡ false) at n) (rw mine refl) refl)
        | inl n ↦
            let inside : contained project ≡ true = subst (λ m. contained m ≡ true) at n in
            rw n (
              done same k refl (omega (arith, rev)) refl
                (record {
                  transition_ids = good.transition_ids;
                  overlay_ids = good.overlay_ids;
                  chapter_ids = good.chapter_ids;
                  transitions_good = good.transitions_good;
                  overlays_good = good.overlays_good;
                  chapters_good = good.chapters_good;
                  in_order = good.in_order;
                })
                (rw mine refl) (rw (mine, ==_refl c.command_id) (rw mine refl))
                (rw
                  (
                    inside,
                    written-latest project p.revision next s.files files mine (omega (arith, rev)),
                  )
                  refl))
      ]

  -- A command for a project whose plan is in memory and right, and none of whose files has a later
  -- revision: a command that was applied before is answered with the plan of then and changes
  -- nothing; one that expects another revision is a conflict; one that the plan refuses changes
  -- nothing. Else the new plan is what the command makes of the plan, at the next revision and
  -- with the hash of its own content; it is right again and in memory; the same command once more
  -- gives it again and changes nothing; and a service that has only the files gets it back. Where
  -- the project's folder is outside the workspace the call raises, with that same new plan in
  -- memory and no file written.
  pub apply-Turned :
      (s : ContinuityService) (project : ℕ) (c : ContinuityPlanCommand) (p : ContinuityPlan)
      → plan_of project s.plans ≡ some p
      → IsPlan p
      → Filed project p.revision s.files
      → Turned s project c p (apply sha256 contained pages_of ids project c s)
  unfolding apply get
  apply-Turned s project c p f i files =
      elim (Option-cases (command_of project c.command_id s.applied)) [
        | inr (a, k) ↦ rw (f, k) (repeated k)
        | inl k ↦ elim (Bool-cases (c.expected_revision == p.revision)) [
          | inr e ↦ rw (f, k, e) (stale k (ground (arith, e)))
          | inl e ↦
              rw (f, k, e)
                (committed-Turned s project c p f files
                  ((==_iff c.expected_revision p.revision).0 e) (apply_command p c.kind) refl
                  (apply_command-Carried p c.kind i))
        ]
      ]
