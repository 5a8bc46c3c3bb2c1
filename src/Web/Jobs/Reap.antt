-- ===== src/Web/Jobs/Reap.antt =====
-- jobs.rs, `reap_workers`: the handles that are left.
use immich_rs.Common.{
  zero, inr, inl, Bool-cases, false, ◌+◌, ◌&&◌, arith, ◌||◌, if◌then◌else◌, ◌≤◌, suc, count_if, not,
  ℕ, any, length, List, Bool, Text, ◌≡◌, ◌∷◌, [], refl,
}
use immich_rs.Web.Jobs.{
  crashed, returned, alive, is_crashed, is_finished, JobsState, reap_from, reap_workers, Thread,
  move_last,
}

move_last-any : (q : Text → Bool) (xs : List Text) → any q (move_last xs) ≡ any q xs
unfolding move_last
move_last-any q [] = refl
move_last-any q (x ∷ rest) = by_rest (move_last rest) (move_last-any q rest)
  where
    by_rest :
        (moved : List Text)
        → any q moved ≡ any q rest
        → any q (elim moved [ [] ↦ x ∷ [] | last ∷ kept ↦ last ∷ x ∷ kept ]) ≡ (q x || any q rest)
    by_rest [] h = ground (arith, h)
    by_rest (last ∷ kept) h = ground (arith, h)

move_last-count : (q : Text → Bool) (xs : List Text) → count_if q (move_last xs) ≡ count_if q xs
unfolding move_last
move_last-count q [] = refl
move_last-count q (x ∷ rest) = by_rest (move_last rest) (move_last-count q rest)
  where
    by_rest :
        (moved : List Text)
        → count_if q moved ≡ count_if q rest
        → count_if q (elim moved [ [] ↦ x ∷ [] | last ∷ kept ↦ last ∷ x ∷ kept ])
          ≡ (if q x then 1 else 0) + count_if q rest
    by_rest [] h = omega (arith, h)
    by_rest (last ∷ kept) h = omega (arith, h)

move_last-length : (xs : List Text) → length (move_last xs) ≡ length xs
unfolding move_last
move_last-length [] = refl
move_last-length (x ∷ rest) = by_rest (move_last rest) (move_last-length rest)
  where
    by_rest :
        (moved : List Text)
        → length moved ≡ length rest
        → length (elim moved [ [] ↦ x ∷ [] | last ∷ kept ↦ last ∷ x ∷ kept ]) ≡ suc (length rest)
    by_rest [] h = omega (arith, h)
    by_rest (last ∷ kept) h = omega (arith, h)

module _ (threads : Text → Thread) where
  -- A thread that still runs and passes a test.
  abbrev pub lives_and : (Text → Bool) → Text → Bool
  lives_and q id = not (is_finished (threads id)) && q id

  reap_from_lem :
      (q : Text → Bool) (rounds : ℕ) (handles : List Text) (worker_failed : Bool)
      → length handles ≤ rounds
      → (count_if q (reap_from threads rounds handles worker_failed).0
          ≡ count_if (lives_and q) handles)
        × ((reap_from threads rounds handles worker_failed).1
            ≡ (worker_failed || any (λ id. is_crashed (threads id)) handles))
  unfolding reap_from
  reap_from_lem q zero [] worker_failed fits = (refl, ground arith)
  reap_from_lem q zero (id ∷ rest) worker_failed fits = absurd (omega (arith, fits))
  reap_from_lem q (suc rounds) [] worker_failed fits = (refl, ground arith)
  reap_from_lem q (suc rounds) (id ∷ rest) worker_failed fits =
      let fits_rest : length rest ≤ rounds = omega (arith, fits) in
      elim (Bool-cases (is_finished (threads id))) [
        | inl ended ↦
            let (kept, failed) =
              reap_from_lem q rounds (move_last rest) (worker_failed || is_crashed (threads id))
                (omega (arith, fits, move_last-length rest)) in
            rw ended (
              ground (arith, kept, move_last-count (lives_and q) rest),
              ground (arith, failed, move_last-any (λ id. is_crashed (threads id)) rest),
            )
        | inr lives ↦
            let (kept, failed) = reap_from_lem q rounds rest worker_failed fits_rest in
            let alive_now : is_crashed (threads id) ≡ false = alive_crashed (threads id) lives in
            rw lives (ground (arith, kept), ground (arith, failed, alive_now))
      ]
    where
      alive_crashed : (thread : Thread) → is_finished thread ≡ false → is_crashed thread ≡ false
      alive_crashed alive h = refl
      alive_crashed returned h = refl
      alive_crashed crashed h = cc

  -- After reaping, each handle is kept as often as it was there if its thread still runs, and none whose
  -- thread has ended; the manager has failed if it had, or if one of the threads panicked.
  pub reap_workers_lem :
      (s : JobsState) (q : Text → Bool)
      → (count_if q (reap_workers threads s).handles ≡ count_if (lives_and q) s.handles)
        × ((reap_workers threads s).worker_failed
            ≡ (s.worker_failed || any (λ id. is_crashed (threads id)) s.handles))
  unfolding reap_workers
  reap_workers_lem s q = reap_from_lem q (length s.handles) s.handles s.worker_failed (omega arith)
