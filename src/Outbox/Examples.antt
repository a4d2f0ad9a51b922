-- ===== src/Outbox/Examples.antt =====
-- An outbox with two events, one of them due.
use erp_fashion_api.Common.{◌≤◌, ◌≡◌, refl, Bool, true, none, List, [], ◌∷◌, ◌++◌, length, All}
use erp_fashion_api.Outbox.{
  System, OutboxEvent, OutboxEventStatus, CreateOutboxEvent, accepted, claim_batch, claimable,
  order_by_time, insert_by_time, create_event, message_of, tick,
}
use erp_fashion_api.Outbox.Delivery.{
  Reach, start, created, empty, IsBacked, published_was_delivered, may_deliver_twice,
}
use erp_fashion_api.Outbox.Tick.{IsDue, IsOrdered, reach_kafka, tick_lem}

abbrev confirmed : CreateOutboxEvent
confirmed = record {
  event_type = "payment.confirmed";
  event_version = none;
  aggregate_type = "Payment";
  aggregate_id = 40;
  company_id = 7;
  branch_id = none;
  correlation_id = none;
  causation_id = none;
  payload = "{}";
}

abbrev one_event : System
one_event = create_event confirmed 500 empty

abbrev first : OutboxEvent
first = record {
  id = 0;
  event_id = 1;
  event_type = "payment.confirmed";
  event_version = 1;
  aggregate_type = "Payment";
  aggregate_id = 40;
  company_id = 7;
  branch_id = none;
  source = "fashion-erp-api";
  correlation_id = none;
  causation_id = none;
  occurred_at = 500;
  payload = "{}";
  status = OutboxEventStatus.pending;
  attempt_count = 0;
  available_at = 500;
  published_at = none;
}

published_was_delivered_example : All (IsBacked one_event.delivered) one_event.events
published_was_delivered_example = published_was_delivered (created confirmed 500 start)

first_is_claimed : claim_batch (λ _. Bool.false) 600 50 one_event.events ≡ first ∷ []
unfolding claim_batch claimable order_by_time insert_by_time create_event
first_is_claimed = refl

may_deliver_twice_example :
    (s' : System) × Reach s'
    × (s'.delivered ≡ one_event.delivered ++ (message_of first ∷ message_of first ∷ []))
may_deliver_twice_example =
    may_deliver_twice (λ _. Bool.false) 600 50 first [] refl first_is_claimed
      (created confirmed 500 start)

abbrev batch : List OutboxEvent
batch = claim_batch (λ _. Bool.false) 600 50 one_event.events

tick_lem_example :
    ((tick Bool.false (λ _. accepted) (λ _. 601) (λ _. Bool.false) 600 50 one_event).delivered
      ≡ one_event.delivered ++ reach_kafka (λ _. accepted) batch)
    × All (IsDue 600) batch
    × IsOrdered batch
    × (length batch ≤ 50)
    × (tick true (λ _. accepted) (λ _. 601) (λ _. Bool.false) 600 50 one_event ≡ one_event)
tick_lem_example = tick_lem (λ _. accepted) (λ _. 601) (λ _. Bool.false) 600 50 one_event
