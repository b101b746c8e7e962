-- ===== src/Examples/Ledger.antt =====
-- An example on the ledger in pages, with one entry a page.
use distributed_wagering_pro.Wallets.Ledger.Pages.{follow, follow-statement, statement}
use distributed_wagering_pro.Wallets.Ledger.{ledger_before}
use distributed_wagering_pro.Pagination.{Survives}
use distributed_wagering_pro.Wagering.Json.{stringify}
use distributed_wagering_pro.Examples.Database.{platform}
use distributed_wagering_pro.Examples.Stored.{world, eur}
use distributed_wagering_pro.Kernel.Money.{from_minor_units, valid_currency}
use distributed_wagering_pro.Wallets.Rows.{to_ledger_entry}
use distributed_wagering_pro.Wallets.LedgerEntry.{WalletLedgerEntry, rehydrate}
use distributed_wagering_pro.Kernel.Event.{LedgerDirection}
use distributed_wagering_pro.Prelude.{
  List, text_eq, Text, codes, ℕ, ◌∷◌, refl, [], none, ◌≡◌, some, arith,
}
use distributed_wagering_pro.Persistence.Ordering.{sort_rows, insert_row}
use distributed_wagering_pro.Persistence.Effect.{map_rows}
use distributed_wagering_pro.Kernel.Errors.{ok}

abbrev entry : LedgerDirection → Text → Text → ℕ → ℕ → ℕ → WalletLedgerEntry
entry direction id tx amount before after = record {
  id = id;
  wallet_id = codes "w";
  transaction_id = tx;
  direction = direction;
  money = eur amount;
  balance_before = eur before;
  balance_after = eur after;
  created_at = 1;
}

abbrev entries : List WalletLedgerEntry
entries =
    entry LedgerDirection.credit (codes "e1") (codes "t0") 1000 0 1000
    ∷ entry LedgerDirection.debit (codes "e2") (codes "t") 300 1000 700
    ∷ []

first-Survives : Survives platform 1 (codes "e1")
unfolding stringify text_eq
first-Survives = record {
  decode-encode = refl;
  encode-full = refl;
  parse-stringify = refl;
  read-iso = refl;
  read-id = refl;
}

second-Survives : Survives platform 1 (codes "e2")
unfolding stringify text_eq
second-Survives = record {
  decode-encode = refl;
  encode-full = refl;
  parse-stringify = refl;
  read-iso = refl;
  read-id = refl;
}

entries_read : map_rows to_ledger_entry (statement (codes "w") world) ≡ ok entries
unfolding to_ledger_entry text_eq from_minor_units valid_currency rehydrate ledger_before sort_rows
    insert_row
entries_read = refl

follow-statement_example : follow (codes "w") 1 3 none world ≡ (ok (some entries), world)
unfolding text_eq ledger_before sort_rows insert_row
follow-statement_example =
    follow-statement (codes "w") world 1 3 entries (omega arith) ((refl, tt), (tt, tt))
      (first-Survives, (second-Survives, tt)) entries_read (omega arith)
