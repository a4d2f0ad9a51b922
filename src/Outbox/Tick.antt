-- ===== src/Outbox/Tick.antt =====
-- One tick of one publisher.
use erp_fashion_api.Common.{
  ℕ, zero, suc, ◌≤◌, ◌≡◌, refl, sym, ap, ◌∙◌, inl, inr, Bool, true, not, ◌&&◌, Bool-cases, List, [],
  ◌∷◌, ◌++◌, length, leb, arith, All, All-map,
}
use mathlib.Core.List.{append_assoc, append-nil}
use erp_fashion_api.Outbox.{
  System, OutboxEvent, Message, Sent, accepted, refused, unrecorded, claimable, insert_by_time,
  order_by_time, limit, claim_batch, is_published, is_registered, message_of, record_outcome,
  publish_one, publish_all, tick,
}

abbrev was_accepted : Sent → Bool
was_accepted accepted = true
was_accepted refused = Bool.false
was_accepted unrecorded = true

abbrev message_if : Bool → OutboxEvent → List Message
message_if true e = message_of e ∷ []
message_if Bool.false e = []

-- The messages that reach Kafka, of some events in their order.
abbrev pub reach_kafka : (OutboxEvent → Sent) → List OutboxEvent → List Message
reach_kafka answer [] = []
reach_kafka answer (e ∷ events) =
    message_if (is_registered e.event_type && was_accepted (answer e)) e
    ++ reach_kafka answer events

record_outcome-delivered :
    (sent : Sent) (e : OutboxEvent) (now : ℕ) (s : System)
    → (record_outcome sent e now s).delivered ≡ s.delivered ++ message_if (was_accepted sent) e
record_outcome-delivered accepted e now s = refl
record_outcome-delivered refused e now s = sym (append-nil _)
record_outcome-delivered unrecorded e now s = refl

publish_one-delivered :
    (sent : Sent) (e : OutboxEvent) (now : ℕ) (s : System)
    → (publish_one sent e now s).delivered
      ≡ s.delivered ++ message_if (is_registered e.event_type && was_accepted sent) e
unfolding publish_one
publish_one-delivered sent e now s = elim (Bool-cases (is_registered e.event_type)) [
  | inl known ↦ rw (publish_one, known) (record_outcome-delivered sent e now s)
  | inr unknown ↦ rw (publish_one, unknown) (sym (append-nil _))
]

publish_all-delivered :
    (answer : OutboxEvent → Sent) (time : OutboxEvent → ℕ) (events : List OutboxEvent) (s : System)
    → (publish_all answer time events s).delivered ≡ s.delivered ++ reach_kafka answer events
unfolding publish_all
publish_all-delivered answer time [] s = sym (append-nil _)
publish_all-delivered answer time (e ∷ events) s =
    publish_all-delivered answer time events (publish_one (answer e) e (time e) s)
    ∙ ap (λ d. d ++ reach_kafka answer events) (publish_one-delivered (answer e) e (time e) s)
    ∙ append_assoc s.delivered _ (reach_kafka answer events)

-- An event that a claim may take.
abbrev pub IsDue : ℕ → OutboxEvent → Type 0
IsDue now e = (is_published e.status ≡ Bool.false) × (e.available_at ≤ now)

abbrev pub IsOrdered : List OutboxEvent → Type 0
IsOrdered [] = Unit
IsOrdered (e ∷ events) = All (λ x. e.available_at ≤ x.available_at) events × IsOrdered events

claimable-IsDue :
    (locked : ℕ → Bool) (now : ℕ) (events : List OutboxEvent)
    → All (IsDue now) (claimable locked now events)
unfolding claimable
claimable-IsDue locked now [] = tt
claimable-IsDue locked now (e ∷ events) =
    let rest = claimable-IsDue locked now events in
    elim (Bool-cases (not (is_published e.status) && leb e.available_at now && not (locked e.id))) [
      | inl due ↦ rw due ((ground arith, ground arith), rest)
      | inr other ↦ rw other rest
    ]

insert_by_time-All :
    (P : OutboxEvent → Type 0) (e : OutboxEvent) (events : List OutboxEvent)
    → P e
    → All P events
    → All P (insert_by_time e events)
unfolding insert_by_time
insert_by_time-All P e [] p h = (p, tt)
insert_by_time-All P e (x ∷ xs) p h = elim (Bool-cases (leb e.available_at x.available_at)) [
  | inl here ↦ rw here (p, h)
  | inr there ↦ rw there (h.0, insert_by_time-All P e xs p h.1)
]

insert_by_time-IsOrdered :
    (e : OutboxEvent) (events : List OutboxEvent)
    → IsOrdered events
    → IsOrdered (insert_by_time e events)
unfolding insert_by_time
insert_by_time-IsOrdered e [] h = (tt, tt)
insert_by_time-IsOrdered e (x ∷ xs) h = elim (Bool-cases (leb e.available_at x.available_at)) [
  | inl here ↦ rw here ((ground arith, All-map _ _ xs (λ y l. ground arith) h.0), h)
  | inr there ↦ rw there (
    insert_by_time-All (λ y. x.available_at ≤ y.available_at) e xs (ground arith) h.0,
    insert_by_time-IsOrdered e xs h.1,
  )
]

order_by_time-IsOrdered : (events : List OutboxEvent) → IsOrdered (order_by_time events)
unfolding order_by_time
order_by_time-IsOrdered [] = tt
order_by_time-IsOrdered (e ∷ events) =
    insert_by_time-IsOrdered e (order_by_time events) (order_by_time-IsOrdered events)

order_by_time-All :
    (P : OutboxEvent → Type 0) (events : List OutboxEvent)
    → All P events
    → All P (order_by_time events)
unfolding order_by_time
order_by_time-All P [] h = tt
order_by_time-All P (e ∷ events) h =
    insert_by_time-All P e (order_by_time events) h.0 (order_by_time-All P events h.1)

limit-All :
    (P : OutboxEvent → Type 0) (n : ℕ) (events : List OutboxEvent)
    → All P events
    → All P (limit n events)
limit-All P zero events h = tt
limit-All P (suc n) [] h = tt
limit-All P (suc n) (e ∷ events) h = (h.0, limit-All P n events h.1)

limit-IsOrdered :
    (n : ℕ) (events : List OutboxEvent)
    → IsOrdered events
    → (IsOrdered (limit n events)) × (length (limit n events) ≤ n)
limit-IsOrdered zero events h = (tt, omega arith)
limit-IsOrdered (suc n) [] h = (tt, omega arith)
limit-IsOrdered (suc n) (e ∷ events) h =
    let (ordered, short) = limit-IsOrdered n events h.1 in
    ((limit-All _ n events h.0, ordered), omega (arith, short))

-- A tick takes at most a batch of events, all of them due and none of them published, by the time
-- that they became due; it sends each of them once, in this order, and what Kafka has afterwards is
-- what it had and those that it accepted. A tick that finds another one running sends nothing.
pub tick_lem :
    (answer : OutboxEvent → Sent) (time : OutboxEvent → ℕ) (locked : ℕ → Bool) (now size : ℕ)
    (s : System)
    → let batch = claim_batch locked now size s.events in
      ((tick Bool.false answer time locked now size s).delivered
        ≡ s.delivered ++ reach_kafka answer batch)
      × All (IsDue now) batch
      × IsOrdered batch
      × (length batch ≤ size)
      × (tick true answer time locked now size s ≡ s)
unfolding tick claim_batch
tick_lem answer time locked now size s =
    let (ordered, short) =
      limit-IsOrdered size (order_by_time (claimable locked now s.events))
        (order_by_time-IsOrdered (claimable locked now s.events)) in
    (
      publish_all-delivered answer time (claim_batch locked now size s.events) s,
      limit-All (IsDue now) size _
          (order_by_time-All (IsDue now) _ (claimable-IsDue locked now s.events)),
      ordered,
      short,
      refl,
    )
