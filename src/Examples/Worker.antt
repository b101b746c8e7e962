-- ===== src/Examples/Worker.antt =====
-- Examples on the worker: the publisher, the consumer, and the repeating tasks.
use distributed_wagering_pro.Messaging.Sqs.Client.{sqs_client}
use distributed_wagering_pro.Messaging.Publish.Rows.{run-Reach, stored_messages}
use distributed_wagering_pro.Messaging.Publish.Outcome.{publish_one-outcome, after_attempt, sent}
use distributed_wagering_pro.Messaging.Publish
use distributed_wagering_pro.Messaging.Outbox.Laws.{Reach}
use distributed_wagering_pro.Wagering.Parse.Laws.{IsSendable, Carries}
use distributed_wagering_pro.Wagering.Parse.Exactly.{parse_iff}
use distributed_wagering_pro.Wagering.Parse.Throws.{parse-IsMessageError, IsMessageError}
use distributed_wagering_pro.Wagering.Json.{Json, object}
use distributed_wagering_pro.Wagering.Parse.{
  parse_wager_transaction_message, read_parsed, property, field_of,
}
use distributed_wagering_pro.Wagering.Transaction.{kind_text}
use distributed_wagering_pro.Wagering.Consume
use distributed_wagering_pro.Wagering.Consume.{ConsumeOutcome, processed, duplicate}
use distributed_wagering_pro.Wagering.Consume.Outcome.{handle-outcome}
use distributed_wagering_pro.Wagering.Consume.Redelivery.{redelivery-duplicate}
use distributed_wagering_pro.Worker.RepeatingTask.{
  TaskState, Steps, done, also, fires, pass, settles, start, stop, fire, settle, set_timer, tick,
  drop_timer, again,
}
use distributed_wagering_pro.Worker.RepeatingTask.Safety.{one_run_at_a_time, no_run_after_stop}
use distributed_wagering_pro.Worker.RepeatingTask.Liveness.{next_run, NextRun}
use distributed_wagering_pro.Examples.Database.{
  platform, command_body, sent_command, sent_money, sent_fields,
}
use distributed_wagering_pro.Kernel.Money.{to_json, valid_currency}
use distributed_wagering_pro.Kernel.Event.{pending_reference, TransactionData}
use distributed_wagering_pro.Examples.Stored.{world, bet_transaction, eur}
use distributed_wagering_pro.Prelude.{
  Text, text_eq, arith, ◌≡◌, true, ◌+◌, ℕ, codes, ◌∷◌, Pointwise, length, [], refl, none, ◌⊎◌, ◌≤◌,
  inl, ◌↔◌, some,
}
use distributed_wagering_pro.Messaging.Outbox.{OutboxMessage, is_pending}
use distributed_wagering_pro.Persistence.World.{World, ReceivedMessage, App}
use distributed_wagering_pro.Wagering.Submit.{Command, Submitted}
use distributed_wagering_pro.Kernel.Errors.{ok, invalid_message}
use distributed_wagering_pro.Persistence.Effect.{pair_path, pure}
use distributed_wagering_pro.Wagering.Json.{stringify}
use distributed_wagering_pro.Persistence.Schema.{unique_constraints}

abbrev transaction_data : TransactionData
transaction_data = record {
  transaction_id = codes "t";
  provider_id = codes "prov";
  external_transaction_id = codes "x";
  player_id = codes "p";
  wallet_id = codes "w";
  round_id = codes "r";
  game_id = codes "g";
  kind = codes "REFUND";
  money = record { amount = codes "2.00"; currency = codes "EUR" };
}

-- Two messages, of which the second was tried before.
abbrev waiting_message : Text → ℕ → OutboxMessage
waiting_message id attempts = record {
  id = id;
  aggregate_id = codes "w";
  event_type = codes "WagerTransactionPendingReference";
  payload = record {
    event_id = id;
    event_type = codes "WagerTransactionPendingReference";
    aggregate_id = codes "w";
    correlation_id = codes "c";
    causation_id = none;
    occurred_at = 4;
    version = 1;
    content = pending_reference transaction_data none;
  };
  occurred_at = 4;
  attempts = attempts;
  next_attempt_at = none;
  published_at = none;
}

abbrev first_message : OutboxMessage
first_message = waiting_message (codes "m1") 0

abbrev second_message : OutboxMessage
second_message = waiting_message (codes "m2") 1

abbrev with_messages : World platform
with_messages = record world {
  em = record world.em { outbox = first_message ∷ second_message ∷ [] };
}

run-Reach_example :
    Pointwise Reach
      (stored_messages with_messages)
      (stored_messages (Publish.run (sqs_client platform) 20 10 with_messages).1)
unfolding text_eq
run-Reach_example = run-Reach (sqs_client platform) 10 20 with_messages ((refl, tt), (tt, tt))

publish_one-outcome_example :
    ((Publish.publish_one (sqs_client platform) first_message 10 with_messages).0 ≡ ok tt)
    × ((Publish.publish_one (sqs_client platform) first_message 10 with_messages).1.em
        ≡ record with_messages.em {
          outbox =
              platform.tables.outbox.assign
                (after_attempt first_message 10
                  (sent (sqs_client platform) first_message 10 with_messages).0)
                with_messages.em.outbox;
        })
unfolding text_eq is_pending
publish_one-outcome_example =
    publish_one-outcome (sqs_client platform) first_message 10 with_messages first_message refl refl

-- A message that carries a bet, with one more property.
sent_command-IsSendable : IsSendable sent_command
unfolding valid_currency
sent_command-IsSendable = record {
  provider_id = refl;
  external_transaction_id = refl;
  idempotency_key = refl;
  player_id = refl;
  wallet_id = refl;
  round_id = refl;
  game_id = refl;
  reference = tt;
  amount = omega arith;
  currency = refl;
  correlation_id = refl;
  causation_id = refl;
}

sent_fields-Carries : Carries (object sent_fields) sent_command
unfolding property field_of text_eq kind_text to_json
sent_fields-Carries = record {
  provider_id = refl;
  external_transaction_id = refl;
  idempotency_key = refl;
  player_id = refl;
  wallet_id = refl;
  round_id = refl;
  game_id = refl;
  kind = refl;
  money_raw = object sent_money;
  money = refl;
  amount = refl;
  currency = refl;
  reference = refl;
}

parse_iff_example : (parse_wager_transaction_message platform command_body ≡ ok sent_command) ↔ (
    (raw : Json) × (platform.json_parse command_body ≡ some raw)
    × Carries raw sent_command
    × IsSendable sent_command)
parse_iff_example = parse_iff platform command_body sent_command

sent_command_parsed : parse_wager_transaction_message platform command_body ≡ ok sent_command
unfolding text_eq
sent_command_parsed =
    (parse_iff platform command_body sent_command).1
      (object sent_fields, refl, sent_fields-Carries, sent_command-IsSendable)

parse-IsMessageError_example : IsMessageError invalid_message
unfolding parse_wager_transaction_message read_parsed text_eq stringify
parse-IsMessageError_example = parse-IsMessageError platform (codes "no JSON") refl

abbrev bet_message : ReceivedMessage
bet_message = record { message_id = codes "q"; receipt_handle = codes "h"; body = command_body }

-- A use case that answers each command with the stored bet.
abbrev answer_bet : Command → App platform Submitted
answer_bet cmd =
    pure (record { transaction = bet_transaction; idempotent_replay = true; balance = eur 700 })

handle-outcome_example :
    (outcome : ConsumeOutcome) × ((Consume.handle answer_bet bet_message 10 world).0 ≡ ok outcome)
    × ((outcome ≡ processed) ⊎ ((Consume.handle answer_bet bet_message 10 world).1.em ≡ world.em))
handle-outcome_example = handle-outcome answer_bet bet_message 10 world

abbrev consumed : World platform
consumed = (Consume.handle answer_bet bet_message 10 world).1

bet_processed : (Consume.handle answer_bet bet_message 10 world).0 ≡ ok processed
unfolding Consume.handle text_eq to_json unique_constraints
bet_processed = refl

redelivery-duplicate_example :
    Consume.handle answer_bet bet_message 20 consumed ≡ (ok duplicate, consumed)
redelivery-duplicate_example =
    redelivery-duplicate answer_bet bet_message 10 20 world (pair_path bet_processed) consumed refl

-- A task whose first run failed, and which waits for the next.
abbrev failed_once : TaskState
failed_once = settle 2000 true (fire (record { handle = 0; due = 0 }) (start 0))

failed_once-Steps : Steps 2000 (start 0) failed_once
unfolding start fire settle set_timer tick drop_timer
failed_once-Steps =
    also (also done (fires (record { handle = 0; due = 0 }) (inl refl) (omega arith)))
      (settles true (omega arith))

one_run_at_a_time_example : failed_once.running + length failed_once.timers ≤ 1
one_run_at_a_time_example = one_run_at_a_time 0 failed_once failed_once-Steps

no_run_after_stop_example :
    ((record (stop failed_once) { now = (stop failed_once).now + 3000 }).starts
      ≡ failed_once.starts)
    × ((record (stop failed_once) { now = (stop failed_once).now + 3000 }).timers ≡ [])
no_run_after_stop_example =
    no_run_after_stop 0 failed_once
      (record (stop failed_once) { now = (stop failed_once).now + 3000 }) failed_once-Steps
      (also done (pass 3000))

next_run_example : NextRun 2000 failed_once
unfolding start fire settle set_timer tick drop_timer again
next_run_example = next_run 2000 0 failed_once failed_once-Steps refl
