-- ===== src/Persistence/Schema/Passes.antt =====
-- migrations/Migration20260916134723.ts: which updates the triggers let through.
use native.Mathlib.Decide.{ℕ_discrete}
use distributed_wagering_pro.Prelude.{
  ◌≡◌, inl, inr, false, true, Bool-cases, refl, ◌∙◌, some, if◌then◌else◌, none, Option, ◌+◌,
  is_none,
}
use distributed_wagering_pro.Persistence.Schema.Triggers.{
  Passes, reject_terminal_wager_transaction_mutation, TransactionRow-discrete, is_distinct_from,
  reject_outbox_message_mutation, Text-discrete, Envelope-discrete,
}
use distributed_wagering_pro.Wagering.Row.{TransactionRow}
use distributed_wagering_pro.Wagering.Transaction.{is_terminal_status}
use distributed_wagering_pro.Messaging.Outbox.{
  OutboxMessage, is_pending, mark_published, schedule_retry, compute_backoff_ms,
}
use distributed_wagering_pro.Messaging.Outbox.Laws.{Reach, Reach-envelope, published_is_final}
use distributed_wagering_pro.Kernel.Errors.{Result, throw, invariant_violation, ok}
use distributed_wagering_pro.Kernel.Event.{Timestamp}

-- A row that is not terminal may become any other.
pub open-Passes :
    (r r' : TransactionRow)
    → is_terminal_status r.status ≡ false
    → Passes reject_terminal_wager_transaction_mutation r r'
unfolding reject_terminal_wager_transaction_mutation
open-Passes r r' h = inr (rw h refl)

-- A terminal one stays.
Passes-terminal :
    (r r' : TransactionRow)
    → Passes reject_terminal_wager_transaction_mutation r r'
    → is_terminal_status r.status ≡ true
    → r' ≡ r
unfolding reject_terminal_wager_transaction_mutation
Passes-terminal r r' (inl e) h = e
Passes-terminal r r' (inr p) h = by_decision (TransactionRow-discrete r' r) (rw h at p)
  where
    by_decision :
        (d : Dec (r' ≡ r))
        → (if elim d [ yes _ ↦ false | no _ ↦ true ] then none else some r') ≡ some r'
        → r' ≡ r
    by_decision (yes e) k = e
    by_decision (no _) k = absurd (cc)

pub Passes-trans :
    (r s t : TransactionRow)
    → Passes reject_terminal_wager_transaction_mutation r s
    → Passes reject_terminal_wager_transaction_mutation s t
    → Passes reject_terminal_wager_transaction_mutation r t
Passes-trans r s t p q = elim (Bool-cases (is_terminal_status r.status)) [
  | inl terminal ↦
      let same = Passes-terminal r s p terminal in
      inl (Passes-terminal s t q (rw same terminal) ∙ same)
  | inr running ↦ open-Passes r t running
]

not_distinct : {A : Type 0} (d : Discrete A) (a b : A) → a ≡ b → is_distinct_from d a b ≡ false
not_distinct d a b h = by_decision (d a b)
  where
    by_decision : (x : Dec (a ≡ b)) → elim x [ yes _ ↦ false | no _ ↦ true ] ≡ false
    by_decision (yes _) = refl
    by_decision (no n) = absurd (n h)

-- Publications and scheduled retries never raise the exceptions of the outbox.
pub Reach-Passes : (m m' : OutboxMessage) → Reach m m' → Passes reject_outbox_message_mutation m m'
unfolding reject_outbox_message_mutation is_pending
Reach-Passes m m' r = elim (Bool-cases (is_pending m)) [
  | inr published ↦ inl (published_is_final published r)
  | inl pending ↦
      let ((id, aggregate, type, payload, time), _) = Reach-envelope r in
      inr (
        rw
          (
            pending,
            not_distinct Text-discrete m'.id m.id id,
            not_distinct Text-discrete m'.aggregate_id m.aggregate_id aggregate,
            not_distinct Text-discrete m'.event_type m.event_type type,
            not_distinct Envelope-discrete m'.payload m.payload payload,
            not_distinct ℕ_discrete m'.occurred_at m.occurred_at time,
          )
          refl)
]

-- What a transition returns where the trigger decides.
abbrev pub or_violation : Option OutboxMessage → Result OutboxMessage
or_violation none = throw invariant_violation
or_violation (some m) = ok m

-- Marking a message as published, and putting it off, throws exactly where the trigger on the
-- outbox would refuse the row that it writes, and otherwise returns the row that the trigger lets
-- through.
pub guard_is_trigger :
    (m : OutboxMessage) (at now : Timestamp)
    → (mark_published at m
        ≡ or_violation (reject_outbox_message_mutation m (record m { published_at = some at })))
      × (schedule_retry now m
          ≡ or_violation (
              reject_outbox_message_mutation m (record m {
                attempts = m.attempts + 1;
                next_attempt_at = some (now + compute_backoff_ms (m.attempts + 1));
              })))
unfolding reject_outbox_message_mutation is_pending mark_published schedule_retry
guard_is_trigger m at now =
    let id = not_distinct Text-discrete m.id m.id refl in
    let aggregate = not_distinct Text-discrete m.aggregate_id m.aggregate_id refl in
    let type = not_distinct Text-discrete m.event_type m.event_type refl in
    let payload = not_distinct Envelope-discrete m.payload m.payload refl in
    let time = not_distinct ℕ_discrete m.occurred_at m.occurred_at refl in
    elim (Bool-cases (is_none m.published_at)) [
      | inl pending ↦ (
        rw (pending, id, aggregate, type, payload, time) refl,
        rw (pending, id, aggregate, type, payload, time) refl,
      )
      | inr published ↦ (rw published refl, rw published refl)
    ]
