-- ===== src/Examples/Database.antt =====
-- Tables that are lists of their rows, under the unique constraints of migrations: an instance of Persistence/World.antt's platform, on which examples run.
use mathlib.Core.List.Perm
use mathlib.Core.Option.{some-injective}
use distributed_wagering_pro.Prelude.{
  Bool, ℕ, Text, List, find?, Occurs, All, length, if◌then◌else◌, ◌≡◌, take, false, some, none,
  true, ◌≤◌, ◌∷◌, ◌++◌, suc, Bool-cases, inr, arith, [], text_eq, codes, inl, sym, ap, refl, ◌∙◌,
  Option,
}
use distributed_wagering_pro.Persistence.World.{
  Tables, Platform, same_wallet, same_entry, same_transaction, same_outbox, same_inbox, SendMessage,
  ReceivedMessage,
}
use distributed_wagering_pro.Wagering.Submit.Replay.{RefusesTakenKeys}
use distributed_wagering_pro.Persistence.Table.{Table, assign_row, filter_rows}
use distributed_wagering_pro.Persistence.Ordering.{Distinct, sort_rows}
use distributed_wagering_pro.Kernel.Errors.{err, unique_constraint_violation, ok}
use Prim.Native.Nat.{zero}
use distributed_wagering_pro.Persistence.Ordering.Laws.{Distinct-filter}
use distributed_wagering_pro.Wagering.Json.{object, Json, stringify, Fields, field, text, end}
use distributed_wagering_pro.Pagination.{LedgerCursor, cursor_json}
use distributed_wagering_pro.Wagering.Transaction.{bet}
use distributed_wagering_pro.Wagering.Submit.{Command}
use distributed_wagering_pro.Prelude.{pos}
use distributed_wagering_pro.Persistence.Schema.{unique_constraints, EnforcesUnique}
use distributed_wagering_pro.Persistence.Schema.Keys.{taken_key-violates}

module _ {Row : Type 0} where
  pub find?-some :
      (p : Row → Bool) (rows : List Row) (r : Row)
      → find? p rows ≡ some r
      → (p r ≡ true) × Occurs r rows
  find?-some p [] r h = absurd (cc)
  find?-some p (x ∷ rows) r h = elim (Bool-cases (p x)) [
    | inl e ↦ let same = some-injective x r (rw e at h) in (ap p (sym same) ∙ e, inl same)
    | inr e ↦ let (q, o) = find?-some p rows r (rw e at h) in (q, inr o)
  ]

  pub find?-none :
      (p : Row → Bool) (rows : List Row) → find? p rows ≡ none → All (λ r. p r ≡ false) rows
  find?-none p [] h = tt
  find?-none p (x ∷ rows) h = elim (Bool-cases (p x)) [
    | inl e ↦ let h' : some x ≡ none = rw e at h in absurd (cc)
    | inr e ↦ (e, find?-none p rows (rw e at h))
  ]

  pub filter-Occurs :
      (p : Row → Bool) (rows all : List Row)
      → ((r : Row) → Occurs r rows → Occurs r all)
      → All (λ r. (p r ≡ true) × Occurs r all) (filter_rows p rows)
  filter-Occurs p [] all sub = tt
  filter-Occurs p (r ∷ rows) all sub =
      let rest = filter-Occurs p rows all (λ s o. sub s (inr o)) in
      elim (Bool-cases (p r)) [ inl e ↦ rw e ((e, sub r (inl refl)), rest) | inr e ↦ rw e rest ]

  pub All-take : (Q : Row → Type 0) (n : ℕ) (rows : List Row) → All Q rows → All Q (take n rows)
  All-take Q zero rows h = tt
  All-take Q (suc n) [] h = tt
  All-take Q (suc n) (r ∷ rows) h = (h.0, All-take Q n rows h.1)

  pub length-take-le : (n : ℕ) (rows : List Row) → length (take n rows) ≤ n
  length-take-le zero rows = omega arith
  length-take-le (suc n) [] = omega arith
  length-take-le (suc n) (r ∷ rows) = omega (arith, length-take-le n rows)

  pub Distinct-take :
      (same : Row → Row → Bool) (n : ℕ) (rows : List Row)
      → Distinct same rows
      → Distinct same (take n rows)
  Distinct-take same zero rows d = tt
  Distinct-take same (suc n) [] d = tt
  Distinct-take same (suc n) (r ∷ rows) d =
      (All-take (λ s. same s r ≡ false) n rows d.0, Distinct-take same n rows d.1)

  abbrev list_table : (same : Row → Row → Bool) → Table Row same
  list_table same = record {
    Rows = List Row;
    rows = λ t. t;
    find_one = find?;
    get_result_list = λ q t. take q.limit (filter_rows q.passes t);
    get_ordered = λ q t. take q.limit (sort_rows q.before (filter_rows q.passes t));
    get_ordered_lem = λ q t _. refl;
    select = filter_rows;
    create = λ r t. t ++ r ∷ [];
    assign = assign_row same;
    find_one-some = find?-some;
    find_one-none = find?-none;
    get_result_list-occurs = λ q t.
        All-take (λ r. (q.passes r ≡ true) × Occurs r t) q.limit (filter_rows q.passes t)
          (filter-Occurs q.passes t t (λ r o. o));
    get_result_list-limit = λ q t. length-take-le q.limit (filter_rows q.passes t);
    get_result_list-Distinct = λ q t d.
        Distinct-take same q.limit (filter_rows q.passes t) (Distinct-filter same q.passes t d);
    select-perm = λ p t. Perm.refl (filter_rows p t);
    rows-create = λ r t. refl;
    rows-assign = λ r t. refl;
  }

abbrev tables : Tables
tables = record {
  wallets = list_table same_wallet;
  ledger = list_table same_entry;
  transactions = list_table same_transaction;
  outbox = list_table same_outbox;
  inbox = list_table same_inbox;
}

-- Queues that keep what was sent, newest first, and give what waits until it is deleted.
pub record MemoryQueues : Type 0 where
  pub sent : List SendMessage
  pub waiting : List ReceivedMessage

abbrev undeleted : Text → List ReceivedMessage → List ReceivedMessage
undeleted handle [] = []
undeleted handle (m ∷ ms) =
    if text_eq m.receipt_handle handle then undeleted handle ms else m ∷ undeleted handle ms

-- The command of the message of the examples, and the one text that the examples read as JSON.
abbrev pub sent_command : Command
sent_command = record {
  provider_id = codes "prov";
  external_transaction_id = codes "y";
  idempotency_key = codes "k2";
  player_id = codes "p";
  wallet_id = codes "w";
  round_id = codes "r";
  game_id = codes "g";
  kind = bet;
  money = record { minor_units = pos 200; currency = codes "EUR" };
  reference_external_transaction_id = none;
  correlation_id = none;
  causation_id = none;
}

abbrev pub sent_money : Fields
sent_money =
    field (codes "currency") (text (codes "EUR")) (field (codes "amount") (text (codes "2.00")) end)

-- Its properties in another order, and one more; there is no reference.
abbrev pub sent_fields : Fields
sent_fields = field (codes "kind") (text (codes "BET")) (
    field (codes "sentAt") (text (codes "noon")) (
      field (codes "money") (object sent_money) (
        field (codes "providerId") (text (codes "prov")) (
          field (codes "externalTransactionId") (text (codes "y")) (
            field (codes "idempotencyKey") (text (codes "k2")) (
              field (codes "playerId") (text (codes "p")) (
                field (codes "walletId") (text (codes "w")) (
                  field (codes "roundId") (text (codes "r"))
                    (field (codes "gameId") (text (codes "g")) end)))))))))

abbrev pub command_body : Text
command_body = codes "{command}"

-- The cursors of the two stored ledger rows.
abbrev stored_cursors : List LedgerCursor
stored_cursors =
    record { created_at = 1 ∷ []; id = codes "e1" }
    ∷ record { created_at = 1 ∷ []; id = codes "e2" }
    ∷ []

abbrev parse_cursor : List LedgerCursor → Text → Option Json
parse_cursor [] body = none
parse_cursor (c ∷ cursors) body =
    let rest = parse_cursor cursors body in
    if text_eq body (stringify (cursor_json c)) then some (cursor_json c) else rest

abbrev first_unit : Text → Option ℕ
first_unit [] = none
first_unit (t ∷ _) = some t

abbrev pub platform : Platform
platform = record {
  tables = tables;
  flush = λ em. if unique_constraints em then ok tt else err unique_constraint_violation;
  new_id = λ n. codes "id-" ++ n ∷ [];
  sha256 = λ t. t;
  Queues = MemoryQueues;
  send_message = λ m q. (ok tt, record q { sent = m ∷ q.sent });
  receive_message = λ url n seconds q. (ok (take n q.waiting), q);
  delete_message = λ url handle q. (ok tt, record q { waiting = undeleted handle q.waiting });
  get_queue_url = λ name q. (ok (some (codes "url/" ++ name)), q);
  stringify_payload = λ envelope. codes "{}";
  json_parse = λ body.
      if text_eq body command_body
      then some (object sent_fields)
      else parse_cursor stored_cursors body;
  iso_string = λ t. t ∷ [];
  read_instant = first_unit;
  read_uuid = λ s. some s;
  base64url_encode = λ s. s;
  base64url_decode = λ s. s;
}

pub platform-RefusesTakenKeys : RefusesTakenKeys platform
platform-RefusesTakenKeys em row new o h = rw (taken_key-violates tables em row new o h) refl

pub platform-EnforcesUnique : EnforcesUnique platform
platform-EnforcesUnique em h = elim (Bool-cases (unique_constraints em)) [
  | inl unique ↦ unique
  | inr violated ↦
      let h' : err unique_constraint_violation ≡ ok tt = rw violated at h in absurd (cc)
]
