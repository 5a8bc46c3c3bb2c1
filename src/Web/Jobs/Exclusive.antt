-- ===== src/Web/Jobs/Exclusive.antt =====
-- jobs.rs and jobs/apply_admission.rs, `active_checkpoints`: the plans of the jobs under way.
pub mod Single
use immich_rs.Common.Map.Every.{get-modify}
use immich_rs.Common.Map.{get-remove, Map}
use immich_rs.Common.{
  Option-cases, text_eq_iff, ap, ◌∙◌, inl, inr, text_eq, Bool-cases, true, ℕ, none, if◌then◌else◌,
  arith, List, is_some, some, Option, Text, ◌≡◌, ◌∷◌, [], refl,
}
use immich_rs.Common.Map
use immich_rs.Web.Limits.{WebLimits}
use immich_rs.Web.Jobs.{take_first}
use immich_rs.Web.Jobs.Types.{apply_reference, terminal, StoredJob}
use immich_rs.Web.Jobs.Book.{
  Book, Move, Moves, evicts, enqueues, starts, observes, ends, cancels, stops, stay, move,
}
use immich_rs.Web.Jobs.Sound.{Sound}

-- The plan that a job which has not ended applies.
abbrev pub plan_of_job : StoredJob → Option Text
plan_of_job job = if terminal job.status then none else apply_reference job.kind

abbrev pub plan_under_way : Map StoredJob → Text → Option Text
plan_under_way jobs id = elim (Map.get id jobs) [ none ↦ none | some job ↦ plan_of_job job ]

-- Each plan under way is taken, and has one job.
pub record Exclusive (b : Book) : Type 0 where
  pub taken :
      (id reference : Text)
      → plan_under_way b.jobs id ≡ some reference
      → is_some (Map.get reference b.active) ≡ true
  pub alone :
      (id other reference : Text)
      → plan_under_way b.jobs id ≡ some reference
      → plan_under_way b.jobs other ≡ some reference
      → id ≡ other

-- Nothing new is under way.
abbrev pub Within : Map StoredJob → Map StoredJob → Type 0
Within jobs' jobs =
    (id reference : Text)
    → plan_under_way jobs' id ≡ some reference
    → plan_under_way jobs id ≡ some reference

pub shrink :
    (b : Book) (jobs : Map StoredJob) (order : List Text) (running_then queued_then : ℕ)
    (working : List Text)
    → Within jobs b.jobs
    → Exclusive b
    → Exclusive (record {
      jobs = jobs;
      order = order;
      running = running_then;
      queued = queued_then;
      active = b.active;
      working = working;
    })
shrink b jobs order running_then queued_then working within_old h = record {
  taken = λ id reference e. h.taken id reference (within_old id reference e);
  alone = λ id other reference e f.
      h.alone id other reference (within_old id reference e) (within_old other reference f);
}

pub modify-Within :
    (id : Text) (f : StoredJob → StoredJob) (jobs : Map StoredJob)
    → ((job : StoredJob)
        → Map.get id jobs ≡ some job
        → (reference : Text) → plan_of_job (f job) ≡ some reference
        → plan_of_job job ≡ some reference)
    → Within (Map.modify id f jobs) jobs
modify-Within id f jobs keeps k reference e = elim (Bool-cases (text_eq id k)) [
  | inr other ↦ ground (arith, get-modify k id f jobs)
  | inl same ↦
      let here : id ≡ k = (text_eq_iff id k).0 same in
      elim (Option-cases (Map.get k jobs)) [
        | inl missing ↦ ground (arith, get-modify k id f jobs)
        | inr (job, there) ↦
            let was : plan_of_job job ≡ some reference =
              keeps job (ap (λ (t : Text). Map.get t jobs) here ∙ there) reference
                (ground (arith, get-modify k id f jobs)) in
            rw (there, plan_under_way) was
      ]
]

pub remove-Within : (id : Text) (jobs : Map StoredJob) → Within (Map.remove id jobs) jobs
remove-Within id jobs k reference e = ground (arith, get-remove k id jobs)

-- An ended job gives its plan back, and no other job loses its own.
pub gives_back :
    (b : Book) (id reference : Text) (jobs : Map StoredJob)
    → Exclusive b
    → Within jobs b.jobs
    → plan_under_way jobs id ≡ none
    → plan_under_way b.jobs id ≡ some reference
    → (k r : Text) → plan_under_way jobs k ≡ some r
    → is_some (Map.get r (Map.remove reference b.active)) ≡ true
gives_back b id reference jobs h within_old ended was k r e =
    let before = within_old k r e in
    elim (Bool-cases (text_eq reference r)) [
      | inr other ↦ ground (arith, get-remove r reference b.active, h.taken k r before)
      | inl same ↦
          let one : id ≡ k =
            h.alone id k r (was ∙ ap (λ (t : Text). some t) ((text_eq_iff reference r).0 same))
              before in
          cc (ap (λ (t : Text). plan_under_way jobs t) one, ended, e)
    ]
