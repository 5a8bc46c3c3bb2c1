-- ===== src/Executor/Apply/Recorded.antt =====
-- apply.rs, the collecting loop: what it writes to the journal and what it counts.
use immich_rs.Executor.Journal.Resume.{IsAppendable}
use immich_rs.Common.{
  sym, ◌∙◌, map, ok, refl, true, ap, ◌≤◌, arith, [], ◌∷◌, length, u64_max, All, ◌+◌, ◌<◌, ◌++◌, ℕ,
  List, ◌≡◌,
}
use immich_rs.Executor.Journal.{append}
use immich_rs.Executor.Apply.{
  Journal, Progress, count_kind, event_of, JournalEvent, OperationOutcome, record_report,
  ApplyReport, record_outcomes,
}

-- All outcomes that the report has counted.
abbrev pub counted : ApplyReport → ℕ
counted report = report.created + report.duplicate + report.failed + report.indeterminate

-- An outcome that the journal takes: it names an operation and keeps the asset contract.
abbrev pub IsRecordable : OperationOutcome → Type 0
IsRecordable outcome = IsAppendable (event_of outcome)

record_report-counted :
    (report : ApplyReport) (outcome : OperationOutcome)
    → counted report < u64_max
    → counted (record_report report outcome) ≡ counted report + 1
unfolding record_report count_kind
record_report-counted report outcome h = ground arith

pub append-recordable :
    (outcome : OperationOutcome) (journal : Journal)
    → IsRecordable outcome
    → append (event_of outcome) true journal
      ≡ ok (record { events = journal.events ++ event_of outcome ∷ [] })
unfolding append event_of
append-recordable outcome journal h = ground arith

pub append_nil : (xs : List JournalEvent) → xs ++ [] ≡ xs
append_nil [] = refl
append_nil (x ∷ xs) = ap (λ (l : List JournalEvent). x ∷ l) (append_nil xs)

pub append_assoc :
    (xs : List JournalEvent) (y : JournalEvent) (ys : List JournalEvent)
    → (xs ++ y ∷ []) ++ ys ≡ xs ++ y ∷ ys
append_assoc [] y ys = refl
append_assoc (x ∷ xs) y ys = ap (λ (l : List JournalEvent). x ∷ l) (append_assoc xs y ys)

-- While the database commits, outcomes that the journal takes are all recorded: the loop does not
-- fail, the journal gets one event for each of them, in their order, and the report counts each of
-- them once, as long as the counters together fit into a u64.
pub record_outcomes_lem :
    (outcomes : List OperationOutcome) (p : Progress)
    → All IsRecordable outcomes
    → counted p.report + length outcomes ≤ u64_max
    → ((record_outcomes (λ _. true) outcomes p).0 ≡ ok tt)
      × ((record_outcomes (λ _. true) outcomes p).1.journal.events
          ≡ p.journal.events ++ map event_of outcomes)
      × (counted (record_outcomes (λ _. true) outcomes p).1.report
          ≡ counted p.report + length outcomes)
unfolding record_outcomes
record_outcomes_lem [] p h fits = (refl, sym (append_nil p.journal.events), omega arith)
record_outcomes_lem (o ∷ rest) p h fits =
    let counted_now = record_report-counted p.report o (omega arith) in
    let next : Progress = record {
      journal = record { events = p.journal.events ++ event_of o ∷ [] };
      report = record_report p.report o;
    } in
    let (e, events, count) = record_outcomes_lem rest next h.1 (omega (arith, counted_now)) in
    rw (append-recordable o p.journal h.0, record_outcomes)
      (
        e,
        events ∙ append_assoc p.journal.events (event_of o) (map event_of rest),
        omega (arith, count, counted_now),
      )
