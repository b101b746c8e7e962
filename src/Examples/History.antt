-- ===== src/Examples/History.antt =====
-- Examples of the theorems on triggers and checks: a wallet is opened, a bet is submitted, its events are
-- published.
use distributed_wagering_pro.Messaging.Publish
use distributed_wagering_pro.Wallets.Http.{open_wallet}
use distributed_wagering_pro.Examples.Requests.{empty_world, new_wallet, opened_world, dto}
use distributed_wagering_pro.System.{History, opens, submits, publishes, start, event}
use distributed_wagering_pro.Wagering.Http.{SubmitDto, submit_transaction}
use distributed_wagering_pro.Persistence.World.{World}
use distributed_wagering_pro.System.Frozen.{IsEmpty, history-checks, history-frozen}
use distributed_wagering_pro.Messaging.Sqs.Client.{sqs_client}
use distributed_wagering_pro.Persistence.Schema.Evolves.{Evolves}
use distributed_wagering_pro.Prelude.{
  All, ◌≡◌, refl, true, some, ◌+◌, text_eq, ◌+ℤ◌, ◌-ℤ◌, map, ◌∷◌, [],
}
use distributed_wagering_pro.Wagering.Transaction.{bet, processed}
use distributed_wagering_pro.Examples.Database.{platform, platform-EnforcesUnique}
use distributed_wagering_pro.Persistence.Schema.Triggers.{
  Passes, reject_ledger_mutation, reject_terminal_wager_transaction_mutation,
  reject_outbox_message_mutation,
}
use distributed_wagering_pro.Persistence.Schema.{wallet_checks, unique_constraints}
use distributed_wagering_pro.Persistence.Schema.Writes.{
  LedgerChecked, TransactionChecked, AnyMessage,
}
use distributed_wagering_pro.Messaging.Outbox.{mark_published, schedule_retry, compute_backoff_ms}
use distributed_wagering_pro.Examples.Domain.{message}
use distributed_wagering_pro.Persistence.Schema.Passes.{or_violation, guard_is_trigger}

-- A bet on the wallet that was opened.
abbrev bet_request : SubmitDto
bet_request = record (dto bet) { wallet_id = platform.new_id 0 }

abbrev bet_world : World platform
bet_world = (submit_transaction bet_request (record { now = 2; lock_wait_ns = 0 }) opened_world).1

abbrev published_world : World platform
published_world = (Publish.run (sqs_client platform) 20 3 bet_world).1

no_rows : IsEmpty platform empty_world
no_rows = record { wallets = refl; ledger = refl; transactions = refl; outbox = refl }

opening : History (sqs_client platform) empty_world opened_world
opening = event start (opens new_wallet 1 (tt, tt))

later : History (sqs_client platform) opened_world published_world
later =
    event (event start (submits bet_request (record { now = 2; lock_wait_ns = 0 }))) (publishes 3)

history-frozen_example :
    Evolves
      (Passes reject_ledger_mutation)
      LedgerChecked
      opened_world.em.ledger
      published_world.em.ledger
    × Evolves
        (λ r s. Passes reject_terminal_wager_transaction_mutation r s × (s.id ≡ r.id))
        TransactionChecked
        opened_world.em.transactions
        published_world.em.transactions
    × Evolves
        (Passes reject_outbox_message_mutation)
        AnyMessage
        opened_world.em.outbox
        published_world.em.outbox
history-frozen_example =
    history-frozen (sqs_client platform) platform-EnforcesUnique empty_world opened_world no_rows
      opening published_world later

history-checks_example :
    All (λ r. wallet_checks r ≡ true) opened_world.em.wallets
    × All LedgerChecked opened_world.em.ledger
    × All TransactionChecked opened_world.em.transactions
history-checks_example =
    history-checks (sqs_client platform) platform-EnforcesUnique empty_world opened_world no_rows
      opening

-- The opening and the bet are processed.
bet_processed : map (λ r. r.status) bet_world.em.transactions ≡ processed ∷ processed ∷ []
unfolding submit_transaction open_wallet text_eq ◌+ℤ◌ ◌-ℤ◌ unique_constraints
bet_processed = refl

guard_is_trigger_example :
    (mark_published 10 message
      ≡ or_violation
          (reject_outbox_message_mutation message (record message { published_at = some 10 })))
    × (schedule_retry 10 message
        ≡ or_violation (
            reject_outbox_message_mutation message (record message {
              attempts = message.attempts + 1;
              next_attempt_at = some (10 + compute_backoff_ms (message.attempts + 1));
            })))
guard_is_trigger_example = guard_is_trigger message 10 10
