-- ===== src/Web/Jobs/Subscription.antt =====
-- jobs/subscription.rs: a subscriber gets the events that a job kept after its cursor, then what the
-- broadcast channel delivers.
use immich_rs.Common.{
  leb, refuse_if, ◌>>◌, retain, get_or, ltb, sat_add, ◌>>=◌, ◌==◌, false, ok, err, ◌||◌, Result,
  if◌then◌else◌, true, none, some, ℕ, Bool, Option, List, ◌-◌, Text, ◌∷◌, [],
}
use immich_rs.Common.Map
use immich_rs.Web.Limits.{WebLimits}
use immich_rs.Web.Jobs.Types.{JobEvent}
use immich_rs.Web.Jobs.{terminal, JobsState}
use immich_rs.Web.Jobs.Control.{owned}

pub data SubscribeError : Type 0 where
  not_found invalid_cursor replay_exhausted session_capacity process_capacity : SubscribeError
  unavailable : SubscribeError

pub data SubscriptionDelivery : Type 0 where
  event : JobEvent → SubscriptionDelivery
  heartbeat replay_exhausted : SubscriptionDelivery

-- A subscription without its receiver and its lease.
pub record JobSubscription : Type 0 where
  pub replay : List JobEvent
  pub close_after_replay : Bool
  pub closed : Bool

-- `events.back()` of a queue with a first event
abbrev pub back : JobEvent → List JobEvent → JobEvent
back e [] = e
back e (later ∷ rest) = back later rest

unfoldable pub select_replay : List JobEvent → Option ℕ → Result SubscribeError (List JobEvent)
select_replay events none = ok events
select_replay [] (some after) = err SubscribeError.unavailable
select_replay (first ∷ rest) (some after) =
    let last = back first rest in
    if ltb last.sequence after
    then err SubscribeError.invalid_cursor
    else if ltb (sat_add after 1) first.sequence
    then err SubscribeError.replay_exhausted
    else ok (retain (λ (e : JobEvent). ltb after e.sequence) (first ∷ rest))

-- What `subscribe` returns, with the number of the owner's subscribers.
unfoldable pub subscription :
    WebLimits → Text → Text → Option ℕ → JobsState → Result SubscribeError (JobSubscription × ℕ)
subscription limits id owner after s = elim (owned id owner s) [
  | none ↦ err SubscribeError.not_found
  | some job ↦ do
    replay ← select_replay job.events after
    let owner_count = get_or (Map.get owner s.subscribers_by_owner) 0
    refuse_if (leb limits.sse_subscribers_per_session owner_count) SubscribeError.session_capacity
    refuse_if (leb limits.sse_subscribers_per_process s.subscribers) SubscribeError.process_capacity
    ok (
      record { replay = replay; close_after_replay = terminal job.status; closed = false },
      owner_count,
    )
]

unfoldable pub subscribe :
    WebLimits
    → Text
    → Text
    → Option ℕ
    → JobsState
    → Result SubscribeError JobSubscription × JobsState
subscribe limits id owner after s = elim (subscription limits id owner after s) [
  | err e ↦ (err e, s)
  | ok (made, owner_count) ↦ (
    ok made,
    record s {
      subscribers = sat_add s.subscribers 1;
      subscribers_by_owner = Map.insert owner (sat_add owner_count 1) s.subscribers_by_owner;
    },
  )
]

-- `SubscriberLease::drop`
unfoldable pub drop_lease : Text → JobsState → JobsState
drop_lease owner s = record s {
  subscribers = s.subscribers - 1;
  subscribers_by_owner = elim (Map.get owner s.subscribers_by_owner) [
    | none ↦ s.subscribers_by_owner
    | some owner_count ↦
        if owner_count - 1 == 0
        then Map.remove owner s.subscribers_by_owner
        else Map.insert owner (owner_count - 1) s.subscribers_by_owner
  ];
}

-- What the channel yields within a heartbeat.
pub data Received : Type 0 where
  timeout : Received
  sent : JobEvent → Received
  lagged closed : Received

-- The event's delivery; a terminal one closes.
abbrev pub deliver : JobEvent → JobSubscription → Option SubscriptionDelivery × JobSubscription
deliver e subscriber =
    (some (event e), record subscriber { closed = subscriber.closed || terminal e.status })

-- The receiver is only asked when nothing is left to replay.
unfoldable pub next_received :
    Received → JobSubscription → Option SubscriptionDelivery × JobSubscription
next_received timeout subscriber = (some heartbeat, subscriber)
next_received (sent e) subscriber = deliver e subscriber
next_received lagged subscriber =
    (some SubscriptionDelivery.replay_exhausted, record subscriber { closed = true })
next_received closed subscriber = (none, record subscriber { closed = true })

-- The test and the pop of `next`.
unfoldable pub next_of :
    Bool
    → List JobEvent
    → Received
    → JobSubscription
    → Option SubscriptionDelivery × JobSubscription
next_of true replay received subscriber = (none, subscriber)
next_of false (e ∷ rest) received subscriber = deliver e (record subscriber { replay = rest })
next_of false [] received subscriber =
    if subscriber.close_after_replay
    then (none, record subscriber { closed = true })
    else next_received received subscriber

unfoldable pub next : Received → JobSubscription → Option SubscriptionDelivery × JobSubscription
next received subscriber = next_of subscriber.closed subscriber.replay received subscriber
