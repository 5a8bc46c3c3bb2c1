-- ===== src/Executor/Journal.antt =====
-- crates/immich-executor/src/journal.rs: the durable checkpoint of an upload run. The database is the
-- sequence of its committed rows; that SQLite keeps a committed row is not proved here.
pub mod Resume
use immich_rs.Core.Metadata.{is_empty}
use immich_rs.Client.Uploads.{is_remote_id}
use immich_rs.Common.{
  err, ◌++◌, not, if◌then◌else◌, ◌||◌, is_none, get_or, refuse_if, false, true, ok, is_some_and,
  ◌∷◌, ◌>>◌, Result, Bool, List, [], Option, ℕ, Text,
}
use immich_rs.Common.Map
use immich_rs.Common.Map.{contains_key, Map}
use immich_rs.Executor.Config.{ExecutorErrorClass, checkpoint, invariant}

pub data OutcomeKind : Type 0 where
  created duplicate failed indeterminate : OutcomeKind

pub record JournalEvent : Type 0 where
  pub operation_id : Text
  pub kind : OutcomeKind
  pub asset_id : Option Text
  pub retry_count : ℕ

-- The `events` table in the order of its `sequence` column.
pub record Journal : Type 0 where
  pub events : List JournalEvent

abbrev pub is_success : OutcomeKind → Bool
is_success created = true
is_success duplicate = true
is_success _ = false

-- The `asset_contract` of `append`.
unfoldable pub asset_contract : OutcomeKind → Option Text → Bool
asset_contract created id = is_some_and id is_remote_id
asset_contract duplicate id = is_some_and id is_remote_id
asset_contract failed id = is_none id
asset_contract indeterminate id = is_none id

-- The insert is one transaction; it may fail, and then nothing was written.
unfoldable pub append : JournalEvent → Bool → Journal → Result ExecutorErrorClass Journal
unfolding asset_contract
append event committed journal = do
  refuse_if (is_empty event.operation_id || not (asset_contract event.kind event.asset_id))
      invariant
  refuse_if (not committed) checkpoint
  ok (record { events = journal.events ++ event ∷ [] })

-- `SELECT ... MAX(sequence) ... GROUP BY operation_id`: the last event of each operation.
unfoldable pub latest_from : List JournalEvent → Map JournalEvent → Map JournalEvent
latest_from [] m = m
latest_from (event ∷ rest) m = latest_from rest (Map.insert event.operation_id event m)

unfoldable pub latest : Journal → Map JournalEvent
unfolding latest_from
latest journal = latest_from journal.events []

-- The loop over the rows that `WHERE event.outcome IN ('created','duplicate')` leaves. A NULL asset ID
-- is no `String`.
unfoldable pub read_completed : Map JournalEvent → Map Text → Result ExecutorErrorClass (Map Text)
read_completed [] done = ok done
read_completed ((operation_id, event) ∷ rest) done =
    let asset_id = get_or event.asset_id [] in
    let known = contains_key operation_id done in
    let next = read_completed rest (Map.insert operation_id asset_id done) in
    let skipped = read_completed rest done in
    if not (is_success event.kind)
    then skipped
    else if is_none event.asset_id
        || (is_empty operation_id || (not (is_remote_id asset_id) || known))
    then err checkpoint
    else next

-- `completed_assets`, which `Journal::completed` and `validate_existing` call.
unfoldable pub completed_assets : Journal → Result ExecutorErrorClass (Map Text)
unfolding latest read_completed
completed_assets journal = read_completed (latest journal) []
