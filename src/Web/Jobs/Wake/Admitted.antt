-- ===== src/Web/Jobs/Wake/Admitted.antt =====
-- jobs.rs and jobs/apply_admission.rs: what admissions leave of the queue.
use immich_rs.Web.Jobs.Worker.{is_queued_in}
use immich_rs.Common.Map.{Map}
use immich_rs.Common.Map.Every.{remove-insert}
use immich_rs.Web.Jobs.Refines.{not_full, tidy-Moves, Moves-Listed}
use immich_rs.Web.Jobs.Wake.{
  Extends-same, enqueue-Extends, tidy-Extends, Extends-trans, Extends-refl, Extends,
}
use immich_rs.Web.Jobs.Book.{book}
use immich_rs.Web.Grants.{ApplyCapability}
use immich_rs.Web.Jobs.Listed.{retain-new, Listed}
use immich_rs.Web.Jobs.{JobsState, Thread}
use immich_rs.Web.Jobs.Types.{apply, scan, plan, new_job, dry_run, push_event, JobKind, StoredJob}
use immich_rs.Web.Jobs.Admission.{
  apply_history, scan_history, dry_run_history, plan_history, is_full, is_closed, tidy,
  start_worker, admit, admit_apply, admit_locked, admit_plan, admit_apply_locked, admit_kind,
  admit_dry_run, withdraw, SourceProfile, enqueue,
}
use immich_rs.Web.Limits.{WebLimits}
use immich_rs.Common.Map
use immich_rs.Common.{
  ap, arith, ◌++◌, text_eq, or-false, ◌||◌, not, retain, inr, inl, Bool-cases, Option-cases, none,
  is_some, contains, List, Bool, Option, Text, ◌≡◌, ◌∷◌, [], refl,
}

module _ (limits : WebLimits) where
  -- A job whose thread does not start leaves the queue as it was.
  withdraw-Extends :
      (id : Text) (job : StoredJob) (s : JobsState)
      → contains id s.order ≡ is_some (Map.get id s.jobs)
      → Map.get id s.jobs ≡ none
      → Extends s (withdraw id (enqueue limits id job s))
  unfolding enqueue withdraw
  withdraw-Extends id job s listed absent =
      let back : Map.remove id (Map.insert id (push_event limits.sse_replay_events job) s.jobs)
          ≡ s.jobs =
        remove-insert id (push_event limits.sse_replay_events job) s.jobs absent in
      let order : retain (λ candidate. not (text_eq candidate id)) (s.order ++ id ∷ []) ≡ s.order =
        retain-new id s.order (ground (arith, listed, absent)) in
      Extends-same s (withdraw id (enqueue limits id job s))
        (λ j. ap (λ (m : Map StoredJob). is_queued_in m j) back) order refl

  module _ (source : Text → Option SourceProfile) (threads : Text → Thread) (random : Option Text)
      (spawned : Bool) where
    admit_locked-Extends :
        (id : Text) (job : StoredJob) (s : JobsState) (working : List Text)
        → Listed (book s working)
        → Extends s (admit_locked limits source threads random spawned id job s).1
    unfolding admit_locked
    admit_locked-Extends id job s working listed = elim (Bool-cases (is_closed s)) [
      | inl shut ↦ rw (shut, admit_locked) (Extends-refl s)
      | inr lives ↦ elim (Bool-cases (is_full limits id s)) [
        | inl taken ↦ rw (lives, taken, admit_locked) (Extends-refl s)
        | inr vacant ↦
            let (absent, _, _) = not_full limits id s vacant in
            elim (Bool-cases spawned) [
              | inr fails ↦
                  rw (lives, vacant, fails, admit_locked)
                    (withdraw-Extends id job s (listed.same id) absent)
              | inl begins ↦
                  rw (lives, vacant, begins, admit_locked) (enqueue-Extends limits id job s absent)
            ]
      ]
    ]

    admit_apply_locked-Extends :
        (id : Text) (job : StoredJob) (capability : ApplyCapability) (s : JobsState)
        (working : List Text)
        → Listed (book s working)
        → Extends s (admit_apply_locked limits source threads random spawned id job capability s).1
    unfolding admit_apply_locked start_worker withdraw enqueue
    admit_apply_locked-Extends id job capability s working listed =
        elim (Bool-cases (is_closed s)) [
          | inl shut ↦ rw (shut, admit_apply_locked) (Extends-refl s)
          | inr lives ↦
              elim (Bool-cases (
                is_some (Map.get capability.binding.dry_run.plan_reference s.active_checkpoints)
                || is_full limits id s)) [
                  | inl taken ↦ rw (lives, taken, admit_apply_locked) (Extends-refl s)
                  | inr vacant ↦
                      let (_, open_now) =
                        or-false
                          (is_some (
                            Map.get capability.binding.dry_run.plan_reference s.active_checkpoints))
                          (is_full limits id s) vacant in
                      let (absent, _, _) = not_full limits id s open_now in
                      elim (Bool-cases spawned) [
                        | inr fails ↦
                            let h = withdraw-Extends id job s (listed.same id) absent in
                            rw (lives, vacant, fails, admit_apply_locked)
                              (record { still = h.still; first = h.first; runs = h.runs })
                        | inl begins ↦
                            let h = enqueue-Extends limits id job s absent in
                            rw (lives, vacant, begins, admit_apply_locked)
                              (record { still = h.still; first = h.first; runs = h.runs })
                      ]
                ]
        ]

    after_tidy-Extends :
        (next : JobsState → JobsState) (s : JobsState) (working : List Text)
        → Listed (book s working)
        → ((t : JobsState) → Listed (book t working) → Extends t (next t))
        → Extends s (next (tidy limits threads s))
    after_tidy-Extends next s working listed rest =
        let tidied = Moves-Listed limits (tidy-Moves limits threads s working) listed in
        Extends-trans s (tidy limits threads s) (next (tidy limits threads s))
          (tidy-Extends limits threads s) (rest (tidy limits threads s) tidied)

    admit_kind-Extends :
        (owner source_id : Text) (kind : JobKind) (s : JobsState) (working : List Text)
        → Listed (book s working)
        → Extends s (admit_kind limits source threads random spawned owner source_id kind s).1
    unfolding admit_kind
    admit_kind-Extends owner source_id kind s working listed =
        elim (Option-cases (source source_id)) [
          | inl unknown ↦ rw (unknown, admit_kind) (Extends-refl s)
          | inr (profile, known) ↦ elim (Option-cases random) [
            | inl failing ↦ rw (known, failing, admit_kind) (Extends-refl s)
            | inr (id, given) ↦
                let job = new_job id owner source_id profile.label kind in
                rw (known, given, admit_kind)
                  (after_tidy-Extends
                    (λ t. (admit_locked limits source threads random spawned id job t).1) s working
                    listed (λ t tidied. admit_locked-Extends id job t working tidied))
          ]
        ]

    pub admit_apply-Extends :
        (capability : ApplyCapability) (s : JobsState) (working : List Text)
        → Listed (book s working)
        → Extends s (admit_apply limits source threads random spawned capability s).1
    unfolding admit_apply
    admit_apply-Extends capability s working listed =
        elim (Option-cases (source capability.binding.source_profile_id)) [
          | inl unknown ↦ rw (unknown, admit_apply) (Extends-refl s)
          | inr (profile, known) ↦ elim (Option-cases random) [
            | inl failing ↦ rw (known, failing, admit_apply) (Extends-refl s)
            | inr (id, given) ↦
                let binding = capability.binding in
                let job =
                  new_job id binding.owner binding.source_profile_id profile.label
                    (apply binding.dry_run.plan_reference (apply_history profile.kind)) in
                rw (known, given, admit_apply)
                  (after_tidy-Extends
                    (λ t.
                      (admit_apply_locked limits source threads random spawned id job capability
                        t).1)
                    s working listed
                    (λ t tidied. admit_apply_locked-Extends id job capability t working tidied))
          ]
        ]

    pub admit-Extends :
        (owner source_id : Text) (s : JobsState) (working : List Text)
        → Listed (book s working)
        → Extends s (admit limits source threads random spawned owner source_id s).1
    unfolding admit
    admit-Extends owner source_id s working listed = elim (Option-cases (source source_id)) [
      | inl unknown ↦ rw (unknown, admit) (Extends-refl s)
      | inr (profile, known) ↦
          rw (known, admit)
            (admit_kind-Extends owner source_id (scan (scan_history profile.kind)) s working listed)
    ]

    pub admit_plan-Extends :
        (server : Text → Bool) (owner source_id server_id : Text) (s : JobsState)
        (working : List Text)
        → Listed (book s working)
        → Extends s
            (admit_plan limits source threads random spawned server owner source_id server_id s).1
    unfolding admit_plan
    admit_plan-Extends server owner source_id server_id s working listed =
        elim (Bool-cases (server server_id)) [
          | inr missing ↦ rw (missing, admit_plan) (Extends-refl s)
          | inl present ↦ elim (Option-cases (source source_id)) [
            | inl unknown ↦ rw (present, unknown, admit_plan) (Extends-refl s)
            | inr (profile, known) ↦
                rw (present, known, admit_plan)
                  (admit_kind-Extends owner source_id (plan server_id (plan_history profile.kind)) s
                    working listed)
          ]
        ]

    pub admit_dry_run-Extends :
        (server : Text → Bool) (load : Text → Option (Text × Text)) (owner reference : Text)
        (s : JobsState) (working : List Text)
        → Listed (book s working)
        → Extends s
            (admit_dry_run limits source threads random spawned server load owner reference s).1
    unfolding admit_dry_run
    admit_dry_run-Extends server load owner reference s working listed =
        elim (Option-cases (load reference)) [
          | inl unread ↦ rw (unread, admit_dry_run) (Extends-refl s)
          | inr ((source_id, server_id), loaded) ↦ elim (Bool-cases (server server_id)) [
            | inr missing ↦ rw (loaded, missing, admit_dry_run) (Extends-refl s)
            | inl present ↦ elim (Option-cases (source source_id)) [
              | inl unknown ↦ rw (loaded, present, unknown, admit_dry_run) (Extends-refl s)
              | inr (profile, known) ↦
                  rw (loaded, present, known, admit_dry_run)
                    (admit_kind-Extends owner source_id
                      (dry_run reference (dry_run_history profile.kind)) s working listed)
            ]
          ]
        ]
