-- ===== src/Web/Jobs/Refines/Calls.antt =====
-- jobs.rs and jobs/apply_admission.rs: each admission as moves of the book.
use immich_rs.Common.Map.Every.{remove-insert}
use immich_rs.Web.Jobs.Listed.{Listed}
use immich_rs.Web.Grants.{ApplyCapability}
use immich_rs.Web.Jobs.Admission.{
  dry_run_history, plan_history, scan_history, apply_history, admit_dry_run, admit_apply, admit,
  admit_plan, is_full, is_closed, SourceProfile, withdraw, enqueue, start_worker,
  admit_apply_locked,
}
use immich_rs.Web.Jobs.Types.{dry_run, plan, scan, StoredJob, new_job, apply, HistoryKind}
use mathlib.Core.Path.{subst}
use immich_rs.Common.{
  Option-cases, sym, is_some-none, or-false, refl, ◌||◌, is_some, inr, inl, Bool-cases, List, Bool,
  Option, Text,
}
use immich_rs.Common.Map
use immich_rs.Web.Limits.{WebLimits}
use immich_rs.Web.Jobs.{JobsState, Thread}
use immich_rs.Web.Jobs.Book.{stay, Moves, book}
use immich_rs.Web.Jobs.Refines.{after_tidy, admit_kind-Moves, withdraw-Moves, enqueue-Moves}

module _ (limits : WebLimits) where
  module _ (source : Text → Option SourceProfile) (threads : Text → Thread) (random : Option Text)
      (spawned : Bool) where
    -- The job of an apply, for the plan of its capability.
    module _ (id label : Text) (history : HistoryKind) (capability : ApplyCapability) where
      abbrev plan_reference : Text
      plan_reference = capability.binding.dry_run.plan_reference

      abbrev apply_job : StoredJob
      apply_job =
          new_job id capability.binding.owner capability.binding.source_profile_id label
            (apply plan_reference history)

      admit_apply_locked-Moves :
          (s : JobsState) (working : List Text)
          → Listed (book s working)
          → Moves limits (book s working) (
              book
                (admit_apply_locked limits source threads random spawned id apply_job capability
                  s).1
                working)
      unfolding admit_apply_locked start_worker enqueue withdraw new_job
      admit_apply_locked-Moves s working listed = elim (Bool-cases (is_closed s)) [
        | inl shut ↦ rw (shut, admit_apply_locked) (stay _)
        | inr lives ↦
            elim (Bool-cases
              (is_some (Map.get plan_reference s.active_checkpoints) || is_full limits id s)) [
                | inl taken ↦ rw (lives, taken, admit_apply_locked) (stay _)
                | inr vacant ↦
                    let (new, open_now) =
                      or-false (is_some (Map.get plan_reference s.active_checkpoints))
                        (is_full limits id s) vacant in
                    let free = is_some-none (Map.get plan_reference s.active_checkpoints) new in
                    elim (Bool-cases spawned) [
                      | inr fails ↦
                          rw (lives, vacant, fails, admit_apply_locked)
                            (subst
                              (λ active.
                                Moves limits (book s working)
                                  (record (book (withdraw id (enqueue limits id apply_job s))
                                    working) { active = active }))
                              (sym (remove-insert plan_reference tt s.active_checkpoints free))
                              (withdraw-Moves limits id apply_job s working listed open_now))
                      | inl begins ↦
                          rw (lives, vacant, begins, admit_apply_locked)
                            (enqueue-Moves limits id apply_job s working open_now
                              (refl, refl, refl, refl) free)
                    ]
              ]
      ]

    pub admit_apply-Moves :
        (capability : ApplyCapability) (s : JobsState) (working : List Text)
        → Listed (book s working)
        → Moves limits
            (book s working)
            (book (admit_apply limits source threads random spawned capability s).1 working)
    unfolding admit_apply
    admit_apply-Moves capability s working listed =
        elim (Option-cases (source capability.binding.source_profile_id)) [
          | inl unknown ↦ rw (unknown, admit_apply) (stay _)
          | inr (profile, e) ↦ elim (Option-cases random) [
            | inl failing ↦ rw (e, failing, admit_apply) (stay _)
            | inr (id, given) ↦
                rw (e, given, admit_apply)
                  (after_tidy limits source threads random spawned
                    (admit_apply_locked limits source threads random spawned id
                      (apply_job id profile.label (apply_history profile.kind) capability)
                      capability)
                    s working listed
                    (λ t tidied.
                      admit_apply_locked-Moves id profile.label (apply_history profile.kind)
                        capability t working tidied))
          ]
        ]

    pub admit-Moves :
        (owner source_id : Text) (s : JobsState) (working : List Text)
        → Listed (book s working)
        → Moves limits
            (book s working)
            (book (admit limits source threads random spawned owner source_id s).1 working)
    unfolding admit
    admit-Moves owner source_id s working listed = elim (Option-cases (source source_id)) [
      | inl unknown ↦ rw (unknown, admit) (stay _)
      | inr (profile, e) ↦
          rw (e, admit)
            (admit_kind-Moves limits source threads random spawned owner source_id
              (scan (scan_history profile.kind)) s working listed refl)
    ]

    pub admit_plan-Moves :
        (server : Text → Bool) (owner source_id server_id : Text) (s : JobsState)
        (working : List Text)
        → Listed (book s working)
        → Moves limits (book s working) (
            book
              (admit_plan limits source threads random spawned server owner source_id server_id s).1
              working)
    unfolding admit_plan
    admit_plan-Moves server owner source_id server_id s working listed =
        elim (Bool-cases (server server_id)) [
          | inr missing ↦ rw (missing, admit_plan) (stay _)
          | inl present ↦ elim (Option-cases (source source_id)) [
            | inl unknown ↦ rw (present, unknown, admit_plan) (stay _)
            | inr (profile, e) ↦
                rw (present, e, admit_plan)
                  (admit_kind-Moves limits source threads random spawned owner source_id
                    (plan server_id (plan_history profile.kind)) s working listed refl)
          ]
        ]

    pub admit_dry_run-Moves :
        (server : Text → Bool) (load : Text → Option (Text × Text)) (owner reference : Text)
        (s : JobsState) (working : List Text)
        → Listed (book s working)
        → Moves limits (book s working) (
            book
              (admit_dry_run limits source threads random spawned server load owner reference s).1
              working)
    unfolding admit_dry_run
    admit_dry_run-Moves server load owner reference s working listed =
        elim (Option-cases (load reference)) [
          | inl unread ↦ rw (unread, admit_dry_run) (stay _)
          | inr ((source_id, server_id), loaded) ↦ elim (Bool-cases (server server_id)) [
            | inr missing ↦ rw (loaded, missing, admit_dry_run) (stay _)
            | inl present ↦ elim (Option-cases (source source_id)) [
              | inl unknown ↦ rw (loaded, present, unknown, admit_dry_run) (stay _)
              | inr (profile, e) ↦
                  rw (loaded, present, e, admit_dry_run)
                    (admit_kind-Moves limits source threads random spawned owner source_id
                      (dry_run reference (dry_run_history profile.kind)) s working listed refl)
            ]
          ]
        ]
