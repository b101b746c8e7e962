-- ===== src/Wallets/Ledger/Pages.antt =====
-- src/wallets/infrastructure/persistence/wallet-ledger-entry.repository.ts: following the cursors of
-- the pages.
use distributed_wagering_pro.Wallets.Ledger.{
  find_page, page_rows, first_query, after_query, ledger_before, is_after, next_cursor, run_query,
  query_after, last_row,
}
use distributed_wagering_pro.Wallets.Ledger.Order.{
  ledger_before-total, ledger_before-transitive, is_after-before, apart-Distinct,
}
use distributed_wagering_pro.Wallets.Ledger.Split.{
  cut, short, full, last_row-append, All-middle, map_rows-append,
}
use distributed_wagering_pro.Pagination.{
  decode_cursor-encode_cursor, Survives, encode_cursor, cursor_for, encode_cursor-full,
}
use distributed_wagering_pro.Persistence.Ordering.Laws.{
  sort_rows-Ascending, sort-filter, filter-after, filter-and, Distinct-filter, All-sort_rows,
  All-filter, Ascending,
}
use distributed_wagering_pro.Wallets.Repository.{is_entry_of}
use distributed_wagering_pro.Prelude.{
  List, Option, Text, ℕ, some, ◌++◌, none, ◌&&◌, ◌≡◌, ◌∷◌, take, ap, ◌∙◌, not, subst, All, suc,
  length, refl, ◌==◌, ◌<◌, false, true, arith, [], sym, append_assoc, length-append, ◌≤◌,
}
use distributed_wagering_pro.Persistence.World.{Platform, World, same_entry, App}
use distributed_wagering_pro.Wallets.Rows.{LedgerRow, to_ledger_entry}
use distributed_wagering_pro.Persistence.Ordering.{Distinct, sort_rows, IsOrderOn}
use distributed_wagering_pro.Persistence.Table.{filter_rows}
use distributed_wagering_pro.Kernel.Errors.{ok}
use distributed_wagering_pro.Wallets.LedgerEntry.{WalletLedgerEntry}
use distributed_wagering_pro.Persistence.Effect.{pure, map_rows, ◌>>=◌}
use Prim.Native.Nat.{zero}

abbrev join : {A : Type 0} → List A → Option (List A) → Option (List A)
join xs none = none
join xs (some ys) = some (xs ++ ys)

module _ {P : Platform} where
  abbrev follow_from :
      List WalletLedgerEntry
      → (Text → App P (Option (List WalletLedgerEntry)))
      → Option Text
      → App P (Option (List WalletLedgerEntry))
  follow_from entries ask none = pure (some entries)
  follow_from entries ask (some cursor) = ask cursor >>= λ rest. pure (join entries rest)

  -- A client that asks for page after page; `none` when it has asked too often.
  unfoldable pub follow : Text → ℕ → ℕ → Option Text → App P (Option (List WalletLedgerEntry))
  unfolding find_page
  follow wallet_id limit zero cursor = pure none
  follow wallet_id limit (suc n) cursor = find_page wallet_id cursor limit >>= λ page.
      follow_from page.entries (λ next. follow wallet_id limit n (some next)) page.next_cursor

module _ {P : Platform} (wallet_id : Text) (w : World P) where
  -- The ledger of the wallet, in order.
  abbrev pub statement : List LedgerRow
  statement =
      sort_rows ledger_before
        (filter_rows (is_entry_of wallet_id) (P.tables.ledger.rows w.em.ledger))

  module _ (distinct : Distinct same_entry (P.tables.ledger.rows w.em.ledger)) where
    ordered : IsOrderOn ledger_before (P.tables.ledger.rows w.em.ledger)
    ordered = record {
      total = ledger_before-total;
      transitive = ledger_before-transitive;
      apart = apart-Distinct (P.tables.ledger.rows w.em.ledger) distinct;
    }

    own_apart :
        Distinct
          (λ r s. ledger_before r s && ledger_before s r)
          (filter_rows (is_entry_of wallet_id) (P.tables.ledger.rows w.em.ledger))
    own_apart =
        Distinct-filter (λ r s. ledger_before r s && ledger_before s r) (is_entry_of wallet_id)
          (P.tables.ledger.rows w.em.ledger) ordered.apart

    first_rows : (limit : ℕ) → page_rows wallet_id limit none w ≡ (ok (take limit statement), w)
    unfolding page_rows run_query
    first_rows limit =
        ap (λ rows. (ok rows, w))
          (P.tables.ledger.get_ordered_lem (first_query wallet_id limit) w.em.ledger ordered)

    after_rows :
        (limit : ℕ) (front : List LedgerRow) (r : LedgerRow) (back : List LedgerRow)
        → statement ≡ front ++ r ∷ back
        → P.tables.ledger.get_ordered (after_query wallet_id limit r.created_at r.id) w.em.ledger
          ≡ take limit back
    after_rows limit front r back cut_here =
        let rows = P.tables.ledger.rows w.em.ledger in
        let own = filter_rows (is_entry_of wallet_id) rows in
        let ascending =
          sort_rows-Ascending ledger_before ledger_before-total ledger_before-transitive own
            own_apart in
        let behind : sort_rows ledger_before
              (filter_rows (λ s. is_entry_of wallet_id s && is_after r.created_at r.id s) rows)
            ≡ back =
          ap (sort_rows ledger_before)
            (filter-and (is_entry_of wallet_id) (is_after r.created_at r.id) rows)
          ∙ ap (λ p. sort_rows ledger_before (filter_rows p own)) (λ i s. is_after-before r s i)
          ∙ sort-filter ledger_before ledger_before-total ledger_before-transitive
              (λ s. not (ledger_before s r)) own own_apart
          ∙ ap (filter_rows (λ s. not (ledger_before s r))) cut_here
          ∙ filter-after ledger_before ledger_before-total ledger_before-transitive front r back
              (subst (Ascending ledger_before) cut_here ascending) in
        P.tables.ledger.get_ordered_lem (after_query wallet_id limit r.created_at r.id) w.em.ledger
          ordered
        ∙ ap (take limit) behind

    cursor_rows :
        (limit : ℕ) (front : List LedgerRow) (r : LedgerRow) (back : List LedgerRow)
        → Survives P r.created_at r.id
        → statement ≡ front ++ r ∷ back
        → page_rows wallet_id limit (some (encode_cursor P (cursor_for P r.created_at r.id))) w
          ≡ (ok (take limit back), w)
    unfolding page_rows run_query query_after
    cursor_rows limit front r back survives cut_here =
        rw
          (
            encode_cursor-full P r.created_at r.id survives,
            decode_cursor-encode_cursor P r.created_at r.id survives,
            survives.read-iso,
            survives.read-id,
          )
          (ap (λ rows. (ok rows, w)) (after_rows limit front r back cut_here))

    page_lem :
        (limit : ℕ) (cursor : Option Text) (rows : List LedgerRow)
        (entries : List WalletLedgerEntry)
        → page_rows wallet_id limit cursor w ≡ (ok rows, w)
        → map_rows to_ledger_entry rows ≡ ok entries
        → find_page wallet_id cursor limit w
          ≡ (ok (record { entries = entries; next_cursor = next_cursor P limit rows }), w)
    unfolding find_page
    page_lem limit cursor rows entries got read = rw (got, read) refl

    module _ (k : ℕ) (survive : All (λ r. Survives P r.created_at r.id) statement) where
      follow_short :
          (n : ℕ) (cursor : Option Text) (rest : List LedgerRow) (entries : List WalletLedgerEntry)
          → page_rows wallet_id (suc k) cursor w ≡ (ok (take (suc k) rest), w)
          → map_rows to_ledger_entry rest ≡ ok entries
          → (length (take (suc k) rest) == suc k) ≡ false
          → take (suc k) rest ≡ rest
          → follow wallet_id (suc k) (suc n) cursor w ≡ (ok (some entries), w)
      unfolding follow next_cursor
      follow_short n cursor rest entries got read other all =
          let page = page_lem (suc k) cursor (take (suc k) rest) entries got (rw all read) in
          rw (page, other) refl

      follow_full :
          (n : ℕ) (cursor : Option Text) (rows : List LedgerRow) (last : LedgerRow)
          (entries later : List WalletLedgerEntry)
          → page_rows wallet_id (suc k) cursor w ≡ (ok rows, w)
          → map_rows to_ledger_entry rows ≡ ok entries
          → (length rows == suc k) ≡ true
          → last_row rows ≡ some last
          → follow wallet_id
              (suc k)
              n
              (some (encode_cursor P (cursor_for P last.created_at last.id)))
              w
            ≡ (ok (some later), w)
          → follow wallet_id (suc k) (suc n) cursor w ≡ (ok (some (entries ++ later)), w)
      unfolding follow next_cursor
      follow_full n cursor rows last entries later got read count ends rest =
          rw (page_lem (suc k) cursor rows entries got read, count, ends, rest) refl

      follow_rest :
          (fuel : ℕ) (cursor : Option Text) (front rest : List LedgerRow)
          (entries : List WalletLedgerEntry)
          → page_rows wallet_id (suc k) cursor w ≡ (ok (take (suc k) rest), w)
          → statement ≡ front ++ rest
          → map_rows to_ledger_entry rest ≡ ok entries
          → length rest < fuel
          → follow wallet_id (suc k) fuel cursor w ≡ (ok (some entries), w)
      follow_rest zero cursor front rest entries got split read enough =
          absurd (omega (arith, enough))
      follow_rest (suc n) cursor front rest entries got split read enough = elim (cut k rest) [
        | short other all ↦ follow_short n cursor rest entries got read other all
        | full page last back count taken whole ↦
            let in_parts : rest ≡ (page ++ last ∷ []) ++ back =
              whole ∙ sym (append_assoc page (last ∷ []) back) in
            let (first, later, read₁, read₂, joined) =
              map_rows-append to_ledger_entry (page ++ last ∷ []) back
                (ap (map_rows to_ledger_entry) (sym in_parts) ∙ read) in
            let here : statement ≡ (front ++ page) ++ last ∷ back =
              split ∙ ap (λ l. front ++ l) whole ∙ sym (append_assoc front page (last ∷ back)) in
            let next =
              cursor_rows (suc k) (front ++ page) last back
                (All-middle (λ r. Survives P r.created_at r.id) (front ++ page) last back
                  (subst (All (λ r. Survives P r.created_at r.id)) here survive))
                here in
            let less : length back < n =
              omega (arith, enough, ap (λ l. length l) whole, length-append page (last ∷ back)) in
            follow_full n cursor (take (suc k) rest) last first later got
              (ap (map_rows to_ledger_entry) taken ∙ read₁) count
              (ap last_row taken ∙ last_row-append page last)
              (follow_rest n (some (encode_cursor P (cursor_for P last.created_at last.id)))
                ((front ++ page) ++ last ∷ []) back later next
                (here ∙ sym (append_assoc (front ++ page) (last ∷ []) back)) read₂ less)
            ∙ ap (λ l. (ok (some l), w)) (sym joined)
      ]

  -- A client that asks for pages of a limit of at least 1, and follows each cursor, more often
  -- than the wallet has entries, is done, and has got exactly the entries of the wallet sorted by
  -- time and id, each once, where no two ledger rows have the same id, the rows of the wallet can
  -- be read, and the cursor of each row survives its encoding.
  pub follow-statement :
      (limit fuel : ℕ) (entries : List WalletLedgerEntry)
      → 1 ≤ limit
      → Distinct same_entry (P.tables.ledger.rows w.em.ledger)
      → All (λ r. Survives P r.created_at r.id) (P.tables.ledger.rows w.em.ledger)
      → map_rows to_ledger_entry statement ≡ ok entries
      → length statement < fuel
      → follow wallet_id limit fuel none w ≡ (ok (some entries), w)
  follow-statement zero fuel entries positive distinct survive read enough =
      absurd (omega (arith, positive))
  follow-statement (suc k) fuel entries positive distinct survive read enough =
      let own = filter_rows (is_entry_of wallet_id) (P.tables.ledger.rows w.em.ledger) in
      follow_rest distinct k
        (All-sort_rows ledger_before (λ r. Survives P r.created_at r.id) own
          (All-filter (λ r. Survives P r.created_at r.id) (is_entry_of wallet_id)
            (P.tables.ledger.rows w.em.ledger) survive))
        fuel none [] statement entries (first_rows distinct (suc k)) refl read enough
