-- ===== src/Web/Limits/Valid.antt =====
-- limits.rs, `validate`: the bounds of the job manager.
use immich_rs.Common.{inr, inl, arith, ◌≤◌, Bool-cases, true, sat_add, ◌≡◌, ok}
use immich_rs.Web.Limits.{valid_jobs, WebLimits, validate}

accepted : (l : WebLimits) → validate l ≡ ok l → valid_jobs l ≡ true
unfolding validate
accepted l h = elim (Bool-cases (valid_jobs l)) [ inl e ↦ e | inr e ↦ ground arith ]

pub validate-jobs :
    (l : WebLimits)
    → validate l ≡ ok l
    → (sat_add l.concurrent_jobs l.queued_jobs ≤ l.retained_jobs)
      × (1 ≤ l.concurrent_jobs)
      × (l.concurrent_jobs ≤ 4)
      × (l.queued_jobs ≤ 8)
      × (1 ≤ l.sse_replay_events)
unfolding valid_jobs
validate-jobs l h =
    let jobs = accepted l h in
    (
      ground (arith, jobs),
      ground (arith, jobs),
      ground (arith, jobs),
      ground (arith, jobs),
      ground (arith, jobs),
    )
