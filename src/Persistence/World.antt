-- ===== src/Persistence/World.antt =====
-- The services that the program calls, the state that they and the metrics keep, and the effect in
-- which its use cases are written: `async` functions that read and change that state and may throw.
use distributed_wagering_pro.Persistence.Table.{Table}
use distributed_wagering_pro.Wallets.Rows.{WalletRow, LedgerRow}
use distributed_wagering_pro.Wagering.Row.{TransactionRow}
use distributed_wagering_pro.Messaging.Outbox.{OutboxMessage}
use distributed_wagering_pro.Messaging.Inbox.{InboxMessage}
use distributed_wagering_pro.Kernel.Errors.{Result}
use distributed_wagering_pro.Prelude.{Text, ℕ, Bool, List, text_eq, ◌&&◌, Option}
use distributed_wagering_pro.Kernel.Event.{Envelope, Timestamp}
use distributed_wagering_pro.Wagering.Json.{Json}

-- The primary keys, as the entity definitions declare them.
abbrev pub same_wallet : WalletRow → WalletRow → Bool
same_wallet r s = text_eq r.id s.id

abbrev pub same_entry : LedgerRow → LedgerRow → Bool
same_entry r s = text_eq r.id s.id

abbrev pub same_transaction : TransactionRow → TransactionRow → Bool
same_transaction r s = text_eq r.id s.id

-- The mappers of the outbox and the inbox keep every field, so their rows are the messages.
abbrev pub same_outbox : OutboxMessage → OutboxMessage → Bool
same_outbox r s = text_eq r.id s.id

abbrev pub same_inbox : InboxMessage → InboxMessage → Bool
same_inbox r s = text_eq r.consumer_name s.consumer_name && text_eq r.message_id s.message_id

pub record Tables : Type 1 where
  pub wallets : Table WalletRow same_wallet
  pub ledger : Table LedgerRow same_entry
  pub transactions : Table TransactionRow same_transaction
  pub outbox : Table OutboxMessage same_outbox
  pub inbox : Table InboxMessage same_inbox

-- The unit of work of an `EntityManager`.
pub record Em (tables : Tables) : Type 0 where
  pub wallets : tables.wallets.Rows
  pub ledger : tables.ledger.Rows
  pub transactions : tables.transactions.Rows
  pub outbox : tables.outbox.Rows
  pub inbox : tables.inbox.Rows

-- `ReceivedSqsMessage`
pub record ReceivedMessage : Type 0 where
  pub message_id : Text
  pub receipt_handle : Text
  pub body : Text

-- The input of a `SendMessageCommand`.
pub record SendMessage : Type 0 where
  pub queue_url : Text
  pub message_body : Text
  pub message_group_id : Text
  pub message_deduplication_id : Text

-- `flush` writes what is queued, and throws what the database answers if it refuses. It leaves what
-- the unit of work sees as it is. `new_id` are the ids that `uuidv7()` gives in turn, `sha256` the
-- hash in hexadecimal of `node:crypto`.
--
-- `Queues` is the state of Amazon SQS, which its four commands read and change; `get_queue_url` gives
-- no url for a queue that does not exist. `stringify_payload` is `JSON.stringify` of what the column
-- `payload`, a `jsonb`, gives back, `json_parse` is `JSON.parse` (`none` for a `SyntaxError`),
-- `iso_string` is `toISOString`, `read_instant` and `read_uuid` what PostgreSQL reads a text as that is
-- compared with an instant or a uuid (`none` where it refuses the query), and the last two are `Buffer` with the encodings `utf8` and
-- `base64url`.
pub record Platform : Type 1 where
  pub tables : Tables
  pub flush : Em tables → Result (Unit {0})
  pub new_id : ℕ → Text
  pub sha256 : Text → Text
  pub Queues : Type 0
  pub send_message : SendMessage → Queues → Result (Unit {0}) × Queues
  pub receive_message : Text → ℕ → ℕ → Queues → Result (List ReceivedMessage) × Queues
  pub delete_message : Text → Text → Queues → Result (Unit {0}) × Queues
  pub get_queue_url : Text → Queues → Result (Option Text) × Queues
  pub stringify_payload : Envelope → Text
  pub json_parse : Text → Option Json
  pub iso_string : Timestamp → Text
  pub read_instant : Text → Option Timestamp
  pub read_uuid : Text → Option Text
  pub base64url_encode : Text → Text
  pub base64url_decode : Text → Text

-- A call of `incrementCounter`, with its labels.
pub record Count : Type 0 where
  pub name : Text
  pub labels : List Text

module _ (P : Platform) where
  pub record World : Type 0 where
    pub em : Em P.tables
    pub ids : ℕ
    pub counts : List Count
    pub queues : P.Queues
    -- the cache of the queue client, newest first
    pub queue_urls : List (Text × Text)

  abbrev pub App : Type 0 → Type 0
  App A = World → Result A × World
