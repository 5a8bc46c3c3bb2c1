-- ===== src/Executor/Journal/Resume.antt =====
-- journal.rs: what a later run reads back from the events that were appended.
use immich_rs.Common.{
  Bool, ◌++◌, inr, inl, Bool-cases, All-zip, Before-ne, text_eq_iff, All-imp, get_or, Before,
  text_eq, true, ok, refl, [], if◌then◌else◌, arith, false, ◌∷◌, none, some, ◌≡◌, List, All, Option,
  Text,
}
use immich_rs.Common.Map
use immich_rs.Common.Map.{
  get-below, contains_key, Map, get-insert, IsOrdered, insert-IsOrdered, All-insert,
}
use immich_rs.Executor.Journal.{
  latest, completed_assets, append, Journal, is_empty, JournalEvent, latest_from, read_completed,
  asset_contract, is_success,
}

-- The last event of an operation, looked for from the end.
unfoldable pub last_event : Text → List JournalEvent → Option JournalEvent
last_event k [] = none
last_event k (event ∷ rest) = elim (last_event k rest) [
  | some later ↦ some later
  | none ↦ if text_eq event.operation_id k then some event else none
]

-- What counts as done: the asset of an operation whose last event is a success.
abbrev pub done_by : Option JournalEvent → Option Text
done_by none = none
done_by (some event) = if is_success event.kind then event.asset_id else none

-- What `append` requires of an event.
abbrev pub IsAppendable : JournalEvent → Type 0
IsAppendable event =
    (is_empty event.operation_id ≡ false) × (asset_contract event.kind event.asset_id ≡ true)

get-latest_from :
    (k : Text) (events : List JournalEvent) (m : Map JournalEvent)
    → Map.get k (latest_from events m)
      ≡ elim (last_event k events) [ some event ↦ some event | none ↦ Map.get k m ]
unfolding latest_from last_event
get-latest_from k [] m = refl
get-latest_from k (event ∷ rest) m = ground (
  arith,
  get-latest_from k rest (Map.insert event.operation_id event m),
  get-insert k event.operation_id event m,
)

abbrev Row : Text × JournalEvent → Type 0
Row e = (is_empty e.0 ≡ false) × (asset_contract e.1.kind e.1.asset_id ≡ true)

latest_from-Row :
    (events : List JournalEvent) (m : Map JournalEvent)
    → All IsAppendable events
    → All Row m
    → All Row (latest_from events m)
unfolding latest_from
latest_from-Row [] m h r = r
latest_from-Row (event ∷ rest) m h r =
    latest_from-Row rest (Map.insert event.operation_id event m) h.1
      (All-insert Row event.operation_id event m h.0 r)

latest_from-IsOrdered :
    (events : List JournalEvent) (m : Map JournalEvent)
    → IsOrdered m
    → IsOrdered (latest_from events m)
unfolding latest_from
latest_from-IsOrdered [] m o = o
latest_from-IsOrdered (event ∷ rest) m o =
    latest_from-IsOrdered rest (Map.insert event.operation_id event m)
      (insert-IsOrdered event.operation_id event m o)

-- The map that the rows fill.
unfoldable gather : Map JournalEvent → Map Text → Map Text
gather [] done = done
gather ((j, event) ∷ rest) done =
    gather rest
      (if is_success event.kind then Map.insert j (get_or event.asset_id []) done else done)

abbrev NotIn : Map Text → Text × JournalEvent → Type 0
NotIn done e = contains_key e.0 done ≡ false

NotIn-rest :
    (j : Text) (event : JournalEvent) (rest : Map JournalEvent) (done : Map Text)
    → All (λ (e : Text × JournalEvent). Before j e.0) rest
    → All (NotIn done) rest
    → All
        (NotIn
          (if is_success event.kind then Map.insert j (get_or event.asset_id []) done else done))
        rest
NotIn-rest j event rest done above out =
    All-imp (λ (e : Text × JournalEvent). Before j e.0 × NotIn done e) _ rest
      (λ e p. ground (
        arith,
        get-insert e.0 j (get_or event.asset_id []) done,
        text_eq_iff j e.0,
        Before-ne j e.0 p.0,
        p.1,
      ))
      (All-zip (λ (e : Text × JournalEvent). Before j e.0) (NotIn done) rest above out)

read_completed-gather :
    (rows : Map JournalEvent) (done : Map Text)
    → All Row rows
    → IsOrdered rows
    → All (NotIn done) rows
    → read_completed rows done ≡ ok (gather rows done)
unfolding read_completed gather asset_contract
read_completed-gather [] done r o f = refl
read_completed-gather ((j, event) ∷ rest) done r o f = ground (
  arith,
  read_completed-gather rest
      (if is_success event.kind then Map.insert j (get_or event.asset_id []) done else done) r.1 o.1
      (NotIn-rest j event rest done o.0 f.1),
  r.0,
  f.0,
)

get-gather :
    (k : Text) (rows : Map JournalEvent) (done : Map Text)
    → All Row rows
    → IsOrdered rows
    → All (NotIn done) rows
    → Map.get k (gather rows done)
      ≡ elim (Map.get k rows) [ some event ↦ done_by (some event) | none ↦ Map.get k done ]
unfolding gather Map.get asset_contract
get-gather k [] done r o f = refl
get-gather k ((j, event) ∷ rest) done r o f =
    let next : Map Text =
      if is_success event.kind then Map.insert j (get_or event.asset_id []) done else done in
    let ih = get-gather k rest next r.1 o.1 (NotIn-rest j event rest done o.0 f.1) in
    elim (Bool-cases (text_eq j k)) [
      | inl same ↦
          let e : j ≡ k = (text_eq_iff j k).0 same in
          let missing : Map.get k rest ≡ none = rw e at (get-below j rest o.0) in
          ground (arith, ih, e, missing, get-insert k j (get_or event.asset_id []) done, r.0, f.0)
      | inr other ↦ ground (arith, ih, get-insert k j (get_or event.asset_id []) done)
    ]

-- Every event in the journal passed the checks of `append`.
abbrev pub IsJournal : Journal → Type 0
IsJournal journal = All IsAppendable journal.events

-- The map that a resumed run starts from.
pub completed_map : Journal → Map Text
completed_map journal = gather (latest journal) []

no_rows : (rows : Map JournalEvent) → All (NotIn []) rows
unfolding Map.get
no_rows [] = tt
no_rows (_ ∷ rest) = (refl, no_rows rest)

module _ (journal : Journal) (accepted : IsJournal journal) where
  rows : All Row (latest journal)
  unfolding latest
  rows = latest_from-Row journal.events [] accepted tt

  ordered : IsOrdered (latest journal)
  unfolding latest
  ordered = latest_from-IsOrdered journal.events [] tt

  -- A journal of valid events is always readable, and an operation counts as completed, with its
  -- asset, exactly if the last event recorded for it is a success.
  pub completed_lem :
      (completed_assets journal ≡ ok (completed_map journal))
      × ((k : Text) → Map.get k (completed_map journal) ≡ done_by (last_event k journal.events))
  unfolding completed_assets completed_map Map.get
  completed_lem = (
    read_completed-gather (latest journal) [] rows ordered (no_rows (latest journal)),
    λ k. ground (
      arith,
      get-gather k (latest journal) [] rows ordered (no_rows (latest journal)),
      latest-last k,
    ),
  )
    where
      latest-last : (k : Text) → Map.get k (latest journal) ≡ last_event k journal.events
      latest-last k = ground (arith, get-latest_from k journal.events [])

-- An event at the end decides for its own operation and for no other.
last_event-append :
    (k : Text) (events : List JournalEvent) (event : JournalEvent)
    → last_event k (events ++ event ∷ [])
      ≡ (if text_eq event.operation_id k then some event else last_event k events)
unfolding last_event
last_event-append k [] event = ground arith
last_event-append k (e ∷ rest) event = ground (arith, last_event-append k rest event)

append-shape :
    (journal journal' : Journal) (event : JournalEvent) (committed : Bool)
    → append event committed journal ≡ ok journal'
    → (journal' ≡ record { events = journal.events ++ event ∷ [] }) × IsAppendable event
unfolding append
append-shape journal journal' event committed h = (ground arith, ground arith)

All-snoc :
    (events : List JournalEvent) (event : JournalEvent)
    → All IsAppendable events
    → IsAppendable event
    → All IsAppendable (events ++ event ∷ [])
All-snoc [] event h p = (p, tt)
All-snoc (e ∷ rest) event h p = (h.0, All-snoc rest event h.1 p)

-- After a committed append to a journal of valid events, the journal is still readable and valid.
-- What counts as completed has changed for the event's operation only: it is done with the event's
-- asset if the event is a success, and no longer done if it is a failure or indeterminate.
pub append_completed :
    (journal journal' : Journal) (event : JournalEvent)
    → IsJournal journal
    → append event true journal ≡ ok journal'
    → IsJournal journal'
      × (completed_assets journal' ≡ ok (completed_map journal'))
      × ((k : Text)
          → Map.get k (completed_map journal') ≡ (
              if text_eq event.operation_id k
              then done_by (some event)
              else Map.get k (completed_map journal)))
append_completed journal journal' event accepted h =
    let (e, good) = append-shape journal journal' event true h in
    let after : IsJournal journal' = rw e (All-snoc journal.events event accepted good) in
    (
      after,
      (completed_lem journal' after).0,
      λ k. ground (
        arith,
        e,
        (completed_lem journal' after).1 k,
        (completed_lem journal accepted).1 k,
        last_event-append k journal.events event,
      ),
    )
