-- ===== src/Messaging/Outbox/Laws.antt =====
-- src/messaging/outbox/outbox-message.ts: retries and publication.
use distributed_wagering_pro.Messaging.Outbox.{
  OutboxMessage, is_pending, is_due, mark_published, schedule_retry, compute_backoff_ms,
}
use distributed_wagering_pro.Prelude.{
  ℕ, ◌≡◌, ◌≤◌, suc, true, false, min, arith, leb, ◌*◌, ap, ◌+◌, ◌-◌, refl, le-pow, pow-double,
}
use distributed_wagering_pro.Kernel.Event.{Timestamp}
use distributed_wagering_pro.Kernel.Errors.{ok}

-- From the first attempt on, each delay of a message is between a second and a minute, and the
-- next one is its double or a minute.
outbox_backoff_bounds :
    (n : ℕ)
    → (1000 ≤ compute_backoff_ms (suc n))
      × (compute_backoff_ms (suc n) ≤ 60000)
      × (compute_backoff_ms (suc (suc n)) ≡ min (2 * compute_backoff_ms (suc n)) 60000)
unfolding compute_backoff_ms
outbox_backoff_bounds n =
    let e : suc n - 1 ≡ n = omega arith in
    let e' : suc (suc n) - 1 ≡ suc n = omega arith in
    let one = le-pow 0 n (omega arith) in
    rw (e, e') (omega arith, omega arith, omega (arith, pow-double n))

-- The two calls of the publisher that change a message.
pub data Step (m m' : OutboxMessage) : Type 0 where
  publishes : (at : Timestamp) → mark_published at m ≡ ok m' → Step m m'
  retries : (now : Timestamp) → schedule_retry now m ≡ ok m' → Step m m'

pub data Reach (m : OutboxMessage) : OutboxMessage → Type 0 where
  here : Reach m m
  next : {t u : OutboxMessage} → Reach m t → Step t u → Reach m u

-- The fields of the envelope, which the database freezes.
abbrev pub SameEnvelope : OutboxMessage → OutboxMessage → Type 0
SameEnvelope m m' =
    (m'.id ≡ m.id)
    × (m'.aggregate_id ≡ m.aggregate_id)
    × (m'.event_type ≡ m.event_type)
    × (m'.payload ≡ m.payload)
    × (m'.occurred_at ≡ m.occurred_at)

Step-envelope :
    {m m' : OutboxMessage}
    → Step m m'
    → SameEnvelope m m' × (is_pending m ≡ true) × (m.attempts ≤ m'.attempts)
unfolding mark_published schedule_retry
Step-envelope {m} (publishes at h) = ground arith
Step-envelope {m} (retries now h) = ground arith

-- Whatever the publisher does with a message, the envelope stays, and the attempts never go down.
pub Reach-envelope :
    {m m' : OutboxMessage} → Reach m m' → SameEnvelope m m' × (m.attempts ≤ m'.attempts)
Reach-envelope here = ((refl, refl, refl, refl, refl), omega arith)
Reach-envelope (next r s) =
    let (e, a) = Reach-envelope r in
    let (e', p, a') = Step-envelope s in (ground arith, omega arith)

-- Once a message is published, nothing that the publisher does changes it.
pub published_is_final : {m m' : OutboxMessage} → is_pending m ≡ false → Reach m m' → m' ≡ m
published_is_final h here = refl
published_is_final h (next r s) =
    let (_, p, _) = Step-envelope s in absurd (cc (ap is_pending (published_is_final h r), p, h))

-- A message whose publication failed is due again exactly when its delay is over, and counts one
-- more attempt.
due_again :
    (m m' : OutboxMessage) (now later : Timestamp)
    → schedule_retry now m ≡ ok m'
    → (is_due m' later ≡ leb (now + compute_backoff_ms (suc m.attempts)) later)
      × (m'.attempts ≡ suc m.attempts)
unfolding schedule_retry is_due
due_again m m' now later h = ground arith
