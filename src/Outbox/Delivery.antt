-- ===== src/Outbox/Delivery.antt =====
-- What the outbox promises for any number of publishers, in any interleaving.
use erp_fashion_api.Common.{
  ℕ, ◌≡◌, refl, sym, ap, ◌∙◌, inl, inr, Bool, true, ◌||◌, Bool-cases, List, [], ◌∷◌, ◌++◌, ◌==◌,
  arith, All, All-append, All-map,
}
use mathlib.Core.List.{append_assoc}
use erp_fashion_api.Outbox.{
  System, OutboxEvent, OutboxEventStatus, Message, CreateOutboxEvent, Sent, accepted, refused,
  unrecorded, create_event, claim, claim_batch, publish_one, update_event, message_of,
  is_registered, record_outcome, mark_published, mark_failed,
}

abbrev pub empty : System
empty = record { events = []; delivered = []; in_flight = []; next_id = 0 }

-- The steps of any number of publishers and of the services that write events: a claim, with any
-- rows locked by others at that moment, and the sending of any claimed copy, with any outcome.
pub data Reach : System → Type 0 where
  start : Reach empty
  created :
      {s : System} (input : CreateOutboxEvent) (now : ℕ)
      → Reach s
      → Reach (create_event input now s)
  claimed :
      {s : System} (locked : ℕ → Bool) (now size : ℕ) → Reach s → Reach (claim locked now size s)
  sent :
      {s : System} (outcome : Sent) (before : List OutboxEvent) (e : OutboxEvent)
      (after : List OutboxEvent) (now : ℕ)
      → s.in_flight ≡ before ++ (e ∷ after)
      → Reach s
      → Reach (publish_one outcome e now (record s { in_flight = before ++ after }))

abbrev pub was_delivered : ℕ → List Message → Bool
was_delivered id [] = Bool.false
was_delivered id (m ∷ messages) = id == m.row_id || was_delivered id messages

was_delivered-append_left :
    (id : ℕ) (messages : List Message) (m : Message)
    → was_delivered id messages ≡ true
    → was_delivered id (messages ++ (m ∷ [])) ≡ true
was_delivered-append_left id [] m h = absurd (ground arith)
was_delivered-append_left id (x ∷ messages) m h = elim (Bool-cases (id == x.row_id)) [
  | inl here ↦ rw here refl
  | inr there ↦ rw there (was_delivered-append_left id messages m (ground arith))
]

was_delivered-append_last :
    (messages : List Message) (m : Message) → was_delivered m.row_id (messages ++ (m ∷ [])) ≡ true
was_delivered-append_last [] m = ground arith
was_delivered-append_last (x ∷ messages) m = elim (Bool-cases (m.row_id == x.row_id)) [
  | inl here ↦ rw here refl
  | inr there ↦ rw there (was_delivered-append_last messages m)
]

-- A row marked as published has been accepted by Kafka.
abbrev pub IsBacked : List Message → OutboxEvent → Type 0
IsBacked messages e = e.status ≡ OutboxEventStatus.published → was_delivered e.id messages ≡ true

update_event-All :
    (P : OutboxEvent → Type 0) (id : ℕ) (change : OutboxEvent → OutboxEvent)
    (events : List OutboxEvent)
    → ((e : OutboxEvent) → e.id ≡ id → P e → P (change e))
    → All P events
    → All P (update_event id change events)
unfolding update_event
update_event-All P id change [] keep h = tt
update_event-All P id change (e ∷ events) keep h = elim (Bool-cases (id == e.id)) [
  | inl same ↦ rw same (keep e (ground arith) h.0, h.1)
  | inr other ↦ rw other (h.0, update_event-All P id change events keep h.1)
]

mark_published-IsBacked :
    (e : OutboxEvent) (now : ℕ) (messages : List Message) (events : List OutboxEvent)
    → All (IsBacked messages) events
    → All (IsBacked (messages ++ (message_of e ∷ []))) (mark_published e now events)
mark_published-IsBacked e now messages events h =
    update_event-All (IsBacked (messages ++ (message_of e ∷ []))) e.id _ events
      (λ row same _ _. rw same (was_delivered-append_last messages (message_of e)))
      (All-map _ _ events
        (λ row backed published.
          was_delivered-append_left row.id messages (message_of e) (backed published))
        h)

mark_failed-IsBacked :
    (e : OutboxEvent) (now : ℕ) (messages : List Message) (events : List OutboxEvent)
    → All (IsBacked messages) events
    → All (IsBacked messages) (mark_failed e now events)
mark_failed-IsBacked e now messages events h =
    update_event-All (IsBacked messages) e.id _ events
      (λ row same _ published. absurd (cc published)) h

record_outcome-IsBacked :
    (outcome : Sent) (e : OutboxEvent) (now : ℕ) (s : System)
    → All (IsBacked s.delivered) s.events
    → All
        (IsBacked (record_outcome outcome e now s).delivered)
        (record_outcome outcome e now s).events
record_outcome-IsBacked accepted e now s h = mark_published-IsBacked e now s.delivered s.events h
record_outcome-IsBacked refused e now s h = mark_failed-IsBacked e now s.delivered s.events h
record_outcome-IsBacked unrecorded e now s h =
    mark_failed-IsBacked e now (s.delivered ++ (message_of e ∷ [])) s.events (
      All-map _ _ s.events
        (λ row backed published.
          was_delivered-append_left row.id s.delivered (message_of e) (backed published))
        h)

publish_one-IsBacked :
    (outcome : Sent) (e : OutboxEvent) (now : ℕ) (s : System)
    → All (IsBacked s.delivered) s.events
    → All (IsBacked (publish_one outcome e now s).delivered) (publish_one outcome e now s).events
unfolding publish_one
publish_one-IsBacked outcome e now s h = elim (Bool-cases (is_registered e.event_type)) [
  | inl known ↦ rw (publish_one, known) (record_outcome-IsBacked outcome e now s h)
  | inr unknown ↦ rw (publish_one, unknown) (record_outcome-IsBacked refused e now s h)
]

-- Whatever publishers run, however their claims and sends interleave, and whatever fails, no event
-- is marked as published that Kafka has not accepted: an event is sent at least once before it
-- counts as sent.
pub published_was_delivered : {s : System} → Reach s → All (IsBacked s.delivered) s.events
unfolding create_event publish_one
published_was_delivered start = tt
published_was_delivered (created {s} input now r) =
    All-append _ s.events _ (published_was_delivered r) ((λ published. absurd (cc published)), tt)
published_was_delivered (claimed locked now size r) = published_was_delivered r
published_was_delivered (sent {s} outcome before e after now split r) =
    publish_one-IsBacked outcome e now (record s { in_flight = before ++ after })
      (published_was_delivered r)

publish_one-accepted :
    (e : OutboxEvent) (now : ℕ) (s : System)
    → is_registered e.event_type ≡ true
    → publish_one accepted e now s ≡ record_outcome accepted e now s
unfolding publish_one
publish_one-accepted e now s known = rw (publish_one, known) refl

-- Nothing stops two publishers from claiming one event: a claim locks rows only while it reads them
-- and changes no status. From any reachable state in which an event of a registered type comes
-- first in a claim, there is a reachable one in which Kafka has that event twice.
pub may_deliver_twice :
    {s : System} (locked : ℕ → Bool) (now size : ℕ) (e : OutboxEvent) (rest : List OutboxEvent)
    → is_registered e.event_type ≡ true
    → claim_batch locked now size s.events ≡ e ∷ rest
    → Reach s
    → (s' : System) × Reach s' × (s'.delivered ≡ s.delivered ++ (message_of e ∷ message_of e ∷ []))
may_deliver_twice {s} locked now size e rest known batch r =
    let both = claimed locked now size (claimed locked now size r) in
    let first_split : s.in_flight
          ++ claim_batch locked now size s.events
          ++ claim_batch locked now size s.events
        ≡ s.in_flight ++ (e ∷ (rest ++ (e ∷ rest))) =
      rw (batch, append_assoc s.in_flight (e ∷ rest) (e ∷ rest)) refl in
    let once = sent accepted s.in_flight e (rest ++ (e ∷ rest)) now first_split both in
    let second_split : s.in_flight ++ (rest ++ (e ∷ rest)) ≡ s.in_flight ++ rest ++ (e ∷ rest) =
      sym (append_assoc s.in_flight rest (e ∷ rest)) in
    let twice =
      sent accepted (s.in_flight ++ rest) e rest now
        (ap (λ x. x.in_flight) (publish_one-accepted e now _ known) ∙ second_split) once in
    (
      _,
      twice,
      ap (λ x. x.delivered) (publish_one-accepted e now _ known)
          ∙ ap (λ x. x.delivered ++ (message_of e ∷ [])) (publish_one-accepted e now _ known)
          ∙ append_assoc s.delivered (message_of e ∷ []) (message_of e ∷ []),
    )
