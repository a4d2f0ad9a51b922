-- ===== src/Outbox.antt =====
-- The transactional outbox (src/modules/outbox): `OutboxService`, `OutboxPublisherService` and
-- `computeBackoffMs`.
pub mod Backoff
pub mod Delivery
pub mod Tick
mod Examples
use Prim.Native.String.{String, compare}
use Prim.Native.Nat.{lt, eq, gt}
use erp_fashion_api.Common.{
  ℕ, zero, suc, ◌+◌, ◌*◌, ◌^◌, Bool, not, ◌&&◌, Option, none, some, List, [], ◌∷◌, ◌++◌, ◌==◌, leb,
  if◌then◌else◌,
}

abbrev pub base_backoff_ms : ℕ
base_backoff_ms = 1000

abbrev pub max_backoff_ms : ℕ
max_backoff_ms = 300_000

abbrev minimum : ℕ → ℕ → ℕ
minimum a b = if leb a b then a else b

-- `computeBackoffMs`
unfoldable pub compute_backoff_ms : ℕ → ℕ
compute_backoff_ms zero = 0
compute_backoff_ms (suc n) = minimum (base_backoff_ms * 2 ^ n) max_backoff_ms

pub data OutboxEventStatus : Type 0 where
  pending published failed : OutboxEventStatus

-- A row, but for the text of its last error. Times are in milliseconds; the payload is its JSON.
pub record OutboxEvent : Type 0 where
  pub id : ℕ
  pub event_id : ℕ
  pub event_type : String
  pub event_version : ℕ
  pub aggregate_type : String
  pub aggregate_id : ℕ
  pub company_id : ℕ
  pub branch_id : Option ℕ
  pub source : String
  pub correlation_id : Option String
  pub causation_id : Option String
  pub occurred_at : ℕ
  pub payload : String
  pub status : OutboxEventStatus
  pub attempt_count : ℕ
  pub available_at : ℕ
  pub published_at : Option ℕ

-- A message that Kafka has accepted. `row_id`, which is not sent, names the row it was made of.
pub record Message : Type 0 where
  pub row_id : ℕ
  pub key : ℕ
  pub payload : String
  pub event_id : ℕ
  pub event_type : String
  pub correlation_id : String
  pub causation_id : String

pub record CreateOutboxEvent : Type 0 where
  pub event_type : String
  pub event_version : Option ℕ
  pub aggregate_type : String
  pub aggregate_id : ℕ
  pub company_id : ℕ
  pub branch_id : Option ℕ
  pub correlation_id : Option String
  pub causation_id : Option String
  pub payload : String

-- The table, the messages in Kafka, and the copies of rows that publishers hold: claimed, and not
-- yet sent.
pub record System : Type 0 where
  pub events : List OutboxEvent
  pub delivered : List Message
  pub in_flight : List OutboxEvent
  pub next_id : ℕ

-- `event.eventVersion ?? DEFAULT_EVENT_VERSION`
abbrev version_of : Option ℕ → ℕ
version_of none = 1
version_of (some v) = v

-- `OutboxService.create`
unfoldable pub create_event : CreateOutboxEvent → ℕ → System → System
create_event input now s =
    let event : OutboxEvent = record {
      id = s.next_id;
      event_id = s.next_id + 1;
      event_type = input.event_type;
      event_version = version_of input.event_version;
      aggregate_type = input.aggregate_type;
      aggregate_id = input.aggregate_id;
      company_id = input.company_id;
      branch_id = input.branch_id;
      source = "fashion-erp-api";
      correlation_id = input.correlation_id;
      causation_id = input.causation_id;
      occurred_at = now;
      payload = input.payload;
      status = OutboxEventStatus.pending;
      attempt_count = 0;
      available_at = now;
      published_at = none;
    } in
    record s { events = s.events ++ (event ∷ []); next_id = s.next_id + 2 }

abbrev pub is_published : OutboxEventStatus → Bool
is_published OutboxEventStatus.pending = Bool.false
is_published OutboxEventStatus.published = Bool.true
is_published OutboxEventStatus.failed = Bool.false

-- The rows that the claim selects: to be sent, due, and not locked by another transaction.
unfoldable pub claimable : (ℕ → Bool) → ℕ → List OutboxEvent → List OutboxEvent
claimable locked now [] = []
claimable locked now (e ∷ events) =
    if not (is_published e.status) && leb e.available_at now && not (locked e.id)
    then e ∷ claimable locked now events
    else claimable locked now events

unfoldable pub insert_by_time : OutboxEvent → List OutboxEvent → List OutboxEvent
insert_by_time e [] = e ∷ []
insert_by_time e (x ∷ xs) =
    if leb e.available_at x.available_at then e ∷ x ∷ xs else x ∷ insert_by_time e xs

unfoldable pub order_by_time : List OutboxEvent → List OutboxEvent
unfolding insert_by_time
order_by_time [] = []
order_by_time (e ∷ events) = insert_by_time e (order_by_time events)

abbrev pub limit : ℕ → List OutboxEvent → List OutboxEvent
limit zero events = []
limit (suc n) [] = []
limit (suc n) (e ∷ events) = e ∷ limit n events

-- `claimBatch`, of one publisher: its row locks end with its transaction, and it writes nothing.
unfoldable pub claim_batch : (ℕ → Bool) → ℕ → ℕ → List OutboxEvent → List OutboxEvent
unfolding claimable order_by_time
claim_batch locked now size events = limit size (order_by_time (claimable locked now events))

abbrev pub claim : (ℕ → Bool) → ℕ → ℕ → System → System
claim locked now size s = record s {
  in_flight = s.in_flight ++ claim_batch locked now size s.events;
}

-- `EVENT_TYPE_TO_TOPIC[eventType]`, where there is one.
abbrev pub is_registered : String → Bool
is_registered event_type = elim (compare event_type "payment.confirmed") [
  | lt ↦ Bool.false
  | eq ↦ Bool.true
  | gt ↦ Bool.false
]

unfoldable pub update_event : ℕ → (OutboxEvent → OutboxEvent) → List OutboxEvent → List OutboxEvent
update_event id change [] = []
update_event id change (e ∷ events) =
    if id == e.id then change e ∷ events else e ∷ update_event id change events

-- `markPublished`
abbrev pub mark_published : OutboxEvent → ℕ → List OutboxEvent → List OutboxEvent
mark_published event now =
    update_event event.id
      (λ e. record e { status = OutboxEventStatus.published; published_at = some now })

-- `markFailed`: the attempts are those of the copy, plus one.
abbrev pub mark_failed : OutboxEvent → ℕ → List OutboxEvent → List OutboxEvent
mark_failed event now = update_event event.id (λ e. record e {
  status = OutboxEventStatus.failed;
  attempt_count = event.attempt_count + 1;
  available_at = now + compute_backoff_ms (event.attempt_count + 1);
})

-- What comes of sending: Kafka accepts, Kafka refuses, or Kafka accepts and the update after it
-- fails.
pub data Sent : Type 0 where
  accepted refused unrecorded : Sent

-- `text ?? ''`
abbrev text_of : Option String → String
text_of none = ""
text_of (some text) = text

abbrev pub message_of : OutboxEvent → Message
message_of e = record {
  row_id = e.id;
  key = e.aggregate_id;
  payload = e.payload;
  event_id = e.event_id;
  event_type = e.event_type;
  correlation_id = text_of e.correlation_id;
  causation_id = text_of e.causation_id;
}

abbrev pub deliver : OutboxEvent → System → System
deliver e s = record s { delivered = s.delivered ++ (message_of e ∷ []) }

abbrev pub record_outcome : Sent → OutboxEvent → ℕ → System → System
record_outcome accepted e now s = record (deliver e s) { events = mark_published e now s.events }
record_outcome refused e now s = record s { events = mark_failed e now s.events }
record_outcome unrecorded e now s = record (deliver e s) { events = mark_failed e now s.events }

-- `publishOne`, on a claimed copy.
unfoldable pub publish_one : Sent → OutboxEvent → ℕ → System → System
unfolding update_event compute_backoff_ms
publish_one sent e now s =
    if is_registered e.event_type
    then record_outcome sent e now s
    else record_outcome refused e now s

-- The loop of `tick` over the claimed events: what Kafka answers to each of them, and when.
unfoldable pub publish_all :
    (OutboxEvent → Sent) → (OutboxEvent → ℕ) → List OutboxEvent → System → System
unfolding publish_one
publish_all answer time [] s = s
publish_all answer time (e ∷ events) s =
    publish_all answer time events (publish_one (answer e) e (time e) s)

-- `tick`, unless the one before it still runs.
unfoldable pub tick :
    Bool → (OutboxEvent → Sent) → (OutboxEvent → ℕ) → (ℕ → Bool) → ℕ → ℕ → System → System
unfolding publish_all claim_batch
tick ticking answer time locked now size s =
    if ticking then s else publish_all answer time (claim_batch locked now size s.events) s
