-- ===== src/Executor/Apply/Run.antt =====
-- apply.rs, the stream of groups and its collecting loop: the run as a whole.
use immich_rs.Executor.Operation.Attempts.{IsBudget}
use immich_rs.Core.Upload.{UploadOperation}
use immich_rs.Executor.Journal.Resume.{IsAppendable}
use immich_rs.Common.{
  if◌then◌else◌, ◌∙◌, some, sym, ok, refl, inr, inl, true, ap, [], none, ◌∷◌, ◌≤◌, false, map, All,
  ◌++◌, Text, List, ◌≡◌,
}
use immich_rs.Common.Map
use immich_rs.Common.Map.{Map}
use immich_rs.Client.Uploads.{Network}
use immich_rs.Core.Metadata.{is_empty}
use immich_rs.Executor.Operation.{Session}
use immich_rs.Executor.Groups.Attempted.{apply_group_lem, IsAttempt}
use immich_rs.Executor.Apply.{
  GroupResult, apply_group, record_report, OperationGroup, VerifiedAsset, Progress,
  UploadExecutionConfig, OperationOutcome, JournalEvent, record_outcomes, record_group, run_groups,
  event_of,
}
use immich_rs.Executor.Apply.Recorded.{append-recordable, append_nil, append_assoc}

-- The operations bear an ID, as those of an accepted plan do.
abbrev pub AreNamed : List UploadOperation → Type 0
AreNamed operations = All (λ (op : UploadOperation). is_empty op.operation_id ≡ false) operations

-- An event that a run may write: the journal takes it, and it is about no operation that was already
-- completed when the run started.
abbrev pub IsNew : Map Text → JournalEvent → Type 0
IsNew done_before event = IsAppendable event × (Map.get event.operation_id done_before ≡ none)

IsAttempt-IsNew :
    (done_before : Map Text) (operations : List UploadOperation) (outcome : OperationOutcome)
    → AreNamed operations
    → IsAttempt done_before operations outcome
    → IsNew done_before (event_of outcome)
unfolding event_of
IsAttempt-IsNew done_before [] outcome named h = absurd h
IsAttempt-IsNew done_before (op ∷ rest) outcome named (inl (good, fresh)) =
    rw good.own ((named.0, good.contract), fresh)
IsAttempt-IsNew done_before (op ∷ rest) outcome named (inr there) =
    IsAttempt-IsNew done_before rest outcome named.1 there

all-IsNew :
    (done_before : Map Text) (operations : List UploadOperation) (outcomes : List OperationOutcome)
    → AreNamed operations
    → All (IsAttempt done_before operations) outcomes
    → All (IsNew done_before) (map event_of outcomes)
all-IsNew done_before operations [] named h = tt
all-IsNew done_before operations (o ∷ rest) named h = (
  IsAttempt-IsNew done_before operations o named h.0,
  all-IsNew done_before operations rest named h.1,
)

record_outcomes_writes :
    (done_before : Map Text) (outcomes : List OperationOutcome) (p : Progress)
    → All (IsNew done_before) (map event_of outcomes)
    → ((record_outcomes (λ _. true) outcomes p).0 ≡ ok tt)
      × ((record_outcomes (λ _. true) outcomes p).1.journal.events
          ≡ p.journal.events ++ map event_of outcomes)
unfolding record_outcomes
record_outcomes_writes done_before [] p h = (refl, sym (append_nil p.journal.events))
record_outcomes_writes done_before (o ∷ rest) p h =
    let next : Progress = record {
      journal = record { events = p.journal.events ++ event_of o ∷ [] };
      report = record_report p.report o;
    } in
    let (e, events) = record_outcomes_writes done_before rest next h.1 in
    rw (append-recordable o p.journal h.0.0, record_outcomes)
      (e, events ∙ append_assoc p.journal.events (event_of o) (map event_of rest))

append_append : (xs ys zs : List JournalEvent) → (xs ++ ys) ++ zs ≡ xs ++ (ys ++ zs)
append_append [] ys zs = refl
append_append (x ∷ xs) ys zs = ap (λ (l : List JournalEvent). x ∷ l) (append_append xs ys zs)

All-append :
    (P : JournalEvent → Type 0) (xs ys : List JournalEvent) → All P xs → All P ys → All P (xs ++ ys)
All-append P [] ys h k = k
All-append P (x ∷ xs) ys h k = (h.0, All-append P xs ys h.1 k)

module _ {W : Type 0} (net : Network W) (sha256 : Text → Text) (config : UploadExecutionConfig)
    (some_attempt : 1 ≤ config.max_attempts_per_operation) (verified : Map VerifiedAsset)
    (done_before : Map Text) where
  run_groups_step :
      (group : OperationGroup) (rest : List OperationGroup) (s : Session W) (p : Progress)
      (result : GroupResult)
      → (apply_group net sha256 config verified done_before group s).0 ≡ some result
      → (record_group (λ _. true) result p).0 ≡ ok tt
      → run_groups (λ _. true) net sha256 config verified done_before (group ∷ rest) s p
        ≡ run_groups
            (λ _. true)
            net
            sha256
            config
            verified
            done_before
            rest
            (apply_group net sha256 config verified done_before group s).1
            (record_group (λ _. true) result p).1
  unfolding run_groups
  run_groups_step group rest s p result returned wrote = rw (returned, wrote, run_groups) refl

  -- Under a configuration with at least one attempt, with a retry budget within its maximum, and
  -- while the database commits, a run over groups of named operations, one group after the other,
  -- always ends without an error, however the server answers. It only adds events to the journal,
  -- and each of them is valid and about an operation that was not completed when the run started.
  pub run_groups_lem :
      (groups : List OperationGroup) (s : Session W) (p : Progress)
      → IsBudget s.budget
      → All (λ (group : OperationGroup). AreNamed group.operations) groups
      → (events : List JournalEvent) × ((run_groups
            (λ _. true)
            net
            sha256
            config
            verified
            done_before
            groups
            s
            p).0
          ≡ some (ok tt))
        × ((run_groups
              (λ _. true)
              net
              sha256
              config
              verified
              done_before
              groups
              s
              p).1.1.journal.events
            ≡ p.journal.events ++ events)
        × All (IsNew done_before) events
  unfolding record_group
  run_groups_lem [] s p b named =
      unfold run_groups in ([], refl, sym (append_nil p.journal.events), tt)
  run_groups_lem (group ∷ rest) s p b named =
      let (result, returned, b', attempts) =
        apply_group_lem net sha256 config some_attempt verified done_before group s b in
      let s' = (apply_group net sha256 config verified done_before group s).1 in
      let fresh = all-IsNew done_before group.operations result.outcomes named.0 attempts in
      let marked : Progress = record p {
        report = if result.cancelled then record p.report { cancelled = true } else p.report;
      } in
      let (wrote, grown) = record_outcomes_writes done_before result.outcomes marked fresh in
      let p' = (record_outcomes (λ _. true) result.outcomes marked).1 in
      let (events, ended, more, new) = run_groups_lem rest s' p' b' named.1 in
      let all_events = map event_of result.outcomes ++ events in
      rw (run_groups_step group rest s p result returned wrote) (
        all_events,
        ended,
        more
            ∙ ap (λ (l : List JournalEvent). l ++ events) grown
            ∙ append_append p.journal.events (map event_of result.outcomes) events,
        All-append (IsNew done_before) (map event_of result.outcomes) events fresh new,
      )
