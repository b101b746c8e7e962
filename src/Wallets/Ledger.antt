-- ===== src/Wallets/Ledger.antt =====
-- src/wallets/infrastructure/persistence/wallet-ledger-entry.repository.ts, `findPage`, and
-- get-wallet-ledger.use-case.ts: the ledger of a wallet in pages. An id is a uuid, whose order is that
-- of its text.
pub mod Order
pub mod Split
pub mod Pages
use distributed_wagering_pro.Wallets.Rows.{LedgerRow, to_ledger_entry}
use distributed_wagering_pro.Wallets.Repository.{is_entry_of}
use distributed_wagering_pro.Wallets.LedgerEntry.{WalletLedgerEntry}
use distributed_wagering_pro.Wagering.Json.{text_le}
use distributed_wagering_pro.Pagination.{LedgerCursor, encode_cursor, decode_cursor, cursor_for}
use distributed_wagering_pro.Persistence.Table.{Query}
use distributed_wagering_pro.Prelude.{
  List, Bool, Text, Option, ltb, ℕ, ◌||◌, ◌&&◌, none, if◌then◌else◌, some, ◌==◌, ◌∷◌, is_empty,
  length, not, [],
}
use distributed_wagering_pro.Kernel.Event.{Timestamp}
use distributed_wagering_pro.Persistence.World.{Platform, App}
use distributed_wagering_pro.Persistence.Effect.{gets, throws, ◌>>◌, ◌>>=◌, lift, map_rows, pure}
use distributed_wagering_pro.Kernel.Errors.{infrastructure}

-- `LedgerPage`
pub record LedgerPage : Type 0 where
  pub entries : List WalletLedgerEntry
  pub next_cursor : Option Text

-- `order by created_at, id`
unfoldable pub ledger_before : LedgerRow → LedgerRow → Bool
unfolding text_le
ledger_before r s =
    ltb r.created_at s.created_at || (r.created_at == s.created_at && text_le r.id s.id)

-- `(e.created_at, e.id) > (?, ?)`
unfoldable pub is_after : Timestamp → Text → LedgerRow → Bool
unfolding text_le
is_after created_at id row =
    ltb created_at row.created_at || (row.created_at == created_at && not (text_le row.id id))

abbrev pub first_query : Text → ℕ → Query LedgerRow
first_query wallet_id limit = record {
  passes = is_entry_of wallet_id;
  before = ledger_before;
  limit = limit;
}

abbrev pub after_query : Text → ℕ → Timestamp → Text → Query LedgerRow
after_query wallet_id limit created_at id = record {
  passes = λ row. is_entry_of wallet_id row && is_after created_at id row;
  before = ledger_before;
  limit = limit;
}

-- `rows.at(-1)`
unfoldable pub last_row : List LedgerRow → Option LedgerRow
last_row [] = none
last_row (r ∷ []) = some r
last_row (r ∷ s ∷ rows) = last_row (s ∷ rows)

abbrev pub cursor_at : Platform → Option LedgerRow → Option Text
cursor_at P none = none
cursor_at P (some last) = some (encode_cursor P (cursor_for P last.created_at last.id))

unfoldable pub next_cursor : Platform → ℕ → List LedgerRow → Option Text
unfolding last_row encode_cursor
next_cursor P limit rows = if length rows == limit then cursor_at P (last_row rows) else none

-- `query.limit ?? DEFAULT_LIMIT`
unfoldable pub limit_or_default : Option ℕ → ℕ
limit_or_default none = 50
limit_or_default (some limit) = limit

module _ {P : Platform} where
  -- `getResultList`
  unfoldable pub run_query : Query LedgerRow → App P (List LedgerRow)
  run_query query = gets (λ em. P.tables.ledger.get_ordered query em.ledger)

  unfoldable pub query_after : Text → ℕ → Option Timestamp → Option Text → App P (List LedgerRow)
  unfolding run_query ledger_before is_after
  query_after wallet_id limit (some created_at) (some id) =
      run_query (after_query wallet_id limit created_at id)
  query_after wallet_id limit _ _ = throws infrastructure

  -- An empty cursor is falsy.
  unfoldable pub page_rows : Text → ℕ → Option Text → App P (List LedgerRow)
  unfolding run_query query_after decode_cursor
  page_rows wallet_id limit none = run_query (first_query wallet_id limit)
  page_rows wallet_id limit (some cursor) =
      if is_empty cursor then run_query (first_query wallet_id limit) else (do
        decoded ← lift (decode_cursor P cursor)
        query_after wallet_id limit (P.read_instant decoded.created_at) (P.read_uuid decoded.id))

  unfoldable pub find_page : Text → Option Text → ℕ → App P LedgerPage
  unfolding page_rows to_ledger_entry next_cursor
  find_page wallet_id cursor limit = do
    rows ← page_rows wallet_id limit cursor
    entries ← lift (map_rows to_ledger_entry rows)
    pure (record { entries = entries; next_cursor = next_cursor P limit rows })

  -- `GetWalletLedgerUseCase.execute`
  unfoldable pub execute : Text → Option Text → Option ℕ → App P LedgerPage
  unfolding find_page limit_or_default
  execute wallet_id cursor limit = find_page wallet_id cursor (limit_or_default limit)
