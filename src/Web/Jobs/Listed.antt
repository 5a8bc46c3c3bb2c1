-- ===== src/Web/Jobs/Listed.antt =====
-- jobs.rs, `order`: the order of the jobs against the jobs.
use immich_rs.Web.Jobs.Control.{request_cancel}
use immich_rs.Web.Jobs.Worker.{close_job, set_running}
use immich_rs.Web.Jobs.Types.{push_event}
use immich_rs.Common.Map.{get-insert, get-remove}
use immich_rs.Common.Map.Every.{contains_key-update_all, contains_key-modify}
use immich_rs.Web.Limits.{WebLimits}
use mathlib.Core.Path.{subst}
use immich_rs.Common.{
  Option-cases, Bool-cases, inr, inl, none, ◌⊎◌, refl, text_eq_iff, true, text_eq_refl, arith, not,
  ◌&&◌, text_eq, some, ◌||◌, retain, ◌++◌, Bool, false, is_some, List, contains, Text, ◌≡◌, ◌∷◌, [],
}
use immich_rs.Common.Map
use immich_rs.Web.Jobs.{is_terminal_in, StoredJob, take_first}
use immich_rs.Web.Jobs.Book.{
  set_progress, Book, Move, evicts, enqueues, starts, observes, ends, cancels, stops,
}

-- No text comes twice.
abbrev pub Once : List Text → Type 0
Once [] = Unit
Once (x ∷ xs) = (contains x xs ≡ false) × Once xs

-- The jobs of the order are those of the map, each one once.
pub record Listed (b : Book) : Type 0 where
  pub once : Once b.order
  pub same : (id : Text) → contains id b.order ≡ is_some (Map.get id b.jobs)

contains-append :
    (k id : Text) (xs : List Text) → contains k (xs ++ id ∷ []) ≡ (contains k xs || text_eq id k)
unfolding contains
contains-append k id [] = ground arith
contains-append k id (x ∷ xs) = ground (arith, contains-append k id xs)

append-Once : (id : Text) (xs : List Text) → contains id xs ≡ false → Once xs → Once (xs ++ id ∷ [])
unfolding contains
append-Once id [] h d = (refl, tt)
append-Once id (x ∷ xs) h d = (
  ground (arith, contains-append x id xs, d.0, text_eq_iff id x, text_eq_iff x id),
  append-Once id xs (ground arith) d.1,
)

pub retain-new :
    (id : Text) (xs : List Text)
    → contains id xs ≡ false
    → retain (λ other. not (text_eq other id)) (xs ++ id ∷ []) ≡ xs
unfolding contains
retain-new id [] h = ground (arith, text_eq_refl id)
retain-new id (x ∷ xs) h = ground (arith, retain-new id xs)

-- Taking a text that passes the test out of the order.
abbrev pub IsTaken : (Text → Bool) → List Text → Text → List Text → Type 0
IsTaken p xs id kept =
    (p id ≡ true)
    × (contains id xs ≡ true)
    × Once kept
    × ((k : Text) → contains k kept ≡ (contains k xs && not (text_eq id k)))

pub take_first-IsTaken :
    (p : Text → Bool) (xs : List Text) (id : Text) (kept : List Text)
    → Once xs
    → take_first p xs ≡ some (id, kept)
    → IsTaken p xs id kept
unfolding take_first contains
take_first-IsTaken p [] id kept d h = cc
take_first-IsTaken p (x ∷ xs) id kept d h =
    by_test (λ id kept e. take_first-IsTaken p xs id kept d.1 e) (Bool-cases (p x))
      (Option-cases (take_first p xs))
  where
    by_test :
        ((id : Text) (kept : List Text) → take_first p xs ≡ some (id, kept) → IsTaken p xs id kept)
        → (p x ≡ true) ⊎ (p x ≡ false)
        → (take_first p xs ≡ none) ⊎ ((r : Text × List Text) × (take_first p xs ≡ some r))
        → IsTaken p (x ∷ xs) id kept
    by_test ih (inl taken) later =
        let here : (x, xs) ≡ (id, kept) = ground arith in
        subst (λ (r : Text × List Text). IsTaken p (x ∷ xs) r.0 r.1) here
          (taken, ground (arith, text_eq_refl x), d.1, λ k. ground (arith, text_eq_iff x k, d.0))
    by_test ih (inr passed) (inl nothing) = ground arith
    by_test ih (inr passed) (inr ((found, rest), e)) =
        let (passes, there, once, others) = ih found rest e in
        let here : (found, x ∷ rest) ≡ (id, kept) = ground arith in
        subst (λ (r : Text × List Text). IsTaken p (x ∷ xs) r.0 r.1) here
          (
            passes,
            ground (arith, there),
            (ground (arith, others x, d.0), once),
            λ k. ground (arith, others k, text_eq_iff x k, text_eq_iff found k, there, d.0),
          )

unmoved :
    (f : StoredJob → StoredJob) (b : Book) (id : Text)
    → Listed b
    → (k : Text) → contains k b.order ≡ is_some (Map.get k (Map.modify id f b.jobs))
unmoved f b id h k = cc (h.same k, contains_key-modify k id f b.jobs)

pub Move-Listed : (limits : WebLimits) {b c : Book} → Move limits b c → Listed b → Listed c
Move-Listed limits (evicts id order b taken) h =
    let (_, there, once, others) =
      take_first-IsTaken (is_terminal_in b.jobs) b.order id order h.once taken in
    record { once = once; same = λ k. ground (arith, others k, h.same k, get-remove k id b.jobs) }
Move-Listed limits (enqueues id job b absent room space is_new free) h = record {
  once = append-Once id b.order (ground (arith, h.same id)) h.once;
  same = λ k. ground (
    arith,
    contains-append k id b.order,
    h.same k,
    get-insert k id (push_event limits.sse_replay_events job) b.jobs,
  );
}
Move-Listed limits (starts id b is_queued first room) h = record {
  once = h.once;
  same = unmoved (set_running limits) b id h;
}
Move-Listed limits (observes id progress b working) h = record {
  once = h.once;
  same = unmoved (set_progress limits progress) b id h;
}
Move-Listed limits (ends id outcome receipt b working) h = record {
  once = h.once;
  same = unmoved (close_job limits outcome receipt) b id h;
}
Move-Listed limits (cancels id job b there) h = record {
  once = h.once;
  same = unmoved (request_cancel limits) b id h;
}
Move-Listed limits (stops b) h = record {
  once = h.once;
  same = λ k. cc (h.same k, contains_key-update_all k (request_cancel limits) b.jobs);
}
