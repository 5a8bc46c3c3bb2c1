-- ===== src/Web/Grants/Single.antt =====
-- grants.rs: the receipts that jobs are started for.
use mathlib.Core.Path.{subst}
use immich_rs.Common.Map
use immich_rs.Web.Jobs.Types.{AdmissionError}
use immich_rs.Web.Grants.{
  pending, consumed, GrantStatus, new_state, GrantEntry, admitted, settle, ApplyCapability,
  use_entry, GrantAdmission, GrantError, admit_locked, revoke_owner, GrantState, confirm_at,
}
use immich_rs.Common.{
  inr, inl, none, some, Fresh-iff, ◌+◌, err, Distinct, Fresh, Option-cases, ◌≤◌, refl, ◌<◌, arith,
  length, ok, false, ◌++◌, contains, Result, ◌∷◌, [], ◌≡◌, Text, List, Bool, ℕ,
}

-- The calls that the mutex lets through one after the other, with what the rest of the program said.
pub data Call : Type 0 where
  confirm :
      Text
      → Text
      → Result GrantError ApplyCapability
      → Result GrantError Text
      → Result GrantError ℕ
      → Call
  admit :
      Text
      → Text
      → Text
      → ℕ
      → (ApplyCapability → Bool)
      → (ApplyCapability → Result AdmissionError Text)
      → Call
  revoke : Text → Call

-- The receipt of a call that started a job.
abbrev started : Text → Result GrantError GrantAdmission → List Text
started receipt (ok (admitted _)) = receipt ∷ []
started receipt _ = []

module _ (history_retained_rows : ℕ) where
  unfoldable pub call : Call → GrantState → List Text × GrantState
  call (confirm owner receipt prepared random checked) s =
      ([], (confirm_at owner receipt prepared random checked s).1)
  call (admit owner receipt key now is_current job) s =
      let (result, s') =
        admit_locked history_retained_rows is_current job owner receipt key now s in
      (started receipt result, s')
  call (revoke owner) s = ([], revoke_owner owner s)

  -- The receipts that a sequence of calls starts jobs for, in order.
  unfoldable pub run : List Call → GrantState → List Text × GrantState
  run [] s = ([], s)
  run (c ∷ rest) s =
      let (first, s') = call c s in let (later, end) = run rest s' in (first ++ later, end)

  -- What one call does to the spent receipts: nothing, or it adds the new one that it starts.
  abbrev IsSpent : GrantState → List Text × GrantState → Type 0
  IsSpent s ([], s') = s'.spent_receipts ≡ s.spent_receipts
  IsSpent s (receipt ∷ [], s') =
      (contains receipt s.spent_receipts ≡ false)
      × (length s.spent_receipts < history_retained_rows)
      × (s'.spent_receipts ≡ receipt ∷ s.spent_receipts)
  IsSpent s _ = ⊥

  -- The same of the result of an admission.
  abbrev IsAdmission : Text → GrantState → Result GrantError GrantAdmission × GrantState → Type 0
  IsAdmission receipt s (result, s') = IsSpent s (started receipt result, s')

  module _ (is_current : ApplyCapability → Bool)
      (job : ApplyCapability → Result AdmissionError Text) where
    settle-IsAdmission :
        (owner receipt : Text) (entry : GrantEntry) (answer : Result AdmissionError Text)
        (s : GrantState)
        → contains receipt s.spent_receipts ≡ false
        → length s.spent_receipts < history_retained_rows
        → IsAdmission receipt s
            (settle history_retained_rows is_current job owner receipt entry answer s)
    unfolding settle
    settle-IsAdmission owner receipt entry (ok id) s new room = (new, room, refl)
    settle-IsAdmission owner receipt entry (err e) s new room = refl

    use_entry-IsAdmission :
        (owner receipt : Text) (entry : GrantEntry) (status : GrantStatus) (s : GrantState)
        → IsAdmission receipt s
            (use_entry history_retained_rows is_current job owner receipt entry status s)
    unfolding use_entry
    use_entry-IsAdmission owner receipt entry (consumed id) s = refl
    use_entry-IsAdmission owner receipt entry (pending none) s = ground arith
    use_entry-IsAdmission owner receipt entry (pending (some capability)) s =
        ground (arith, settle-IsAdmission owner receipt entry (job capability) s)

    admit_locked-IsAdmission :
        (owner receipt key : Text) (now : ℕ) (s : GrantState)
        → IsAdmission receipt s
            (admit_locked history_retained_rows is_current job owner receipt key now s)
    unfolding admit_locked
    admit_locked-IsAdmission owner receipt key now s =
        elim (Option-cases (Map.get owner s.entries)) [
          | inl missing ↦ rw (missing, admit_locked) refl
          | inr (entry, found) ↦
              rw (found, admit_locked)
                (ground (arith, use_entry-IsAdmission owner receipt entry entry.status s))
        ]

  call-IsSpent : (c : Call) (s : GrantState) → IsSpent s (call c s)
  unfolding call confirm_at revoke_owner
  call-IsSpent (confirm owner receipt prepared random checked) s = ground arith
  call-IsSpent (admit owner receipt key now is_current job) s =
      admit_locked-IsAdmission is_current job owner receipt key now s
  call-IsSpent (revoke owner) s = refl

  -- The receipts started later are new with respect to those spent before, and the spent ones stay
  -- within the limit.
  run-Fresh :
      (calls : List Call) (s : GrantState)
      → length s.spent_receipts ≤ history_retained_rows
      → Fresh s.spent_receipts (run calls s).0
        × (length s.spent_receipts + length (run calls s).0 ≤ history_retained_rows)
  unfolding run
  run-Fresh [] s fits = (tt, omega arith)
  run-Fresh (c ∷ rest) s fits =
      by_first (λ s' fits'. run-Fresh rest s' fits') (call c s) (call-IsSpent c s)
    where
      moved :
          (s' : GrantState) (spent : List Text)
          → s'.spent_receipts ≡ spent
          → Fresh s'.spent_receipts (run rest s').0
            × (length s'.spent_receipts + length (run rest s').0 ≤ history_retained_rows)
          → Fresh spent (run rest s').0
            × (length spent + length (run rest s').0 ≤ history_retained_rows)
      moved s' spent e h =
          subst
            (λ (l : List Text).
              Fresh l (run rest s').0 × (length l + length (run rest s').0 ≤ history_retained_rows))
            e h

      by_first :
          ((s' : GrantState)
            → length s'.spent_receipts ≤ history_retained_rows
            → Fresh s'.spent_receipts (run rest s').0
              × (length s'.spent_receipts + length (run rest s').0 ≤ history_retained_rows))
          → (first : List Text × GrantState) → IsSpent s first
          → Fresh s.spent_receipts (first.0 ++ (run rest first.1).0)
            × (length s.spent_receipts + length (first.0 ++ (run rest first.1).0)
                ≤ history_retained_rows)
      by_first ih ([], s') same = moved s' s.spent_receipts same (ih s' (rw same fits))
      by_first ih (receipt ∷ [], s') (new, room, grown) =
          let later : Fresh (receipt ∷ s.spent_receipts) (run rest s').0
              × (length (receipt ∷ s.spent_receipts) + length (run rest s').0
                  ≤ history_retained_rows) =
            moved s' (receipt ∷ s.spent_receipts) grown (ih s' (ground (arith, grown, room))) in
          ((new, later.0), omega (arith, later.1))
      by_first ih (receipt ∷ other ∷ more, s') bad = absurd bad

  -- However confirmations, admissions and revocations follow one another, and whatever the rest of the
  -- program answers, the receipts that jobs are started for are pairwise distinct, and there are no
  -- more of them than the history retains rows.
  pub single_use :
      (calls : List Call)
      → Distinct (run calls new_state).0 × (length (run calls new_state).0 ≤ history_retained_rows)
  unfolding new_state
  single_use calls =
      let (fresh, few) = run-Fresh calls new_state (omega arith) in
      ((Fresh-iff (run calls new_state).0).0 fresh, omega (arith, few))
