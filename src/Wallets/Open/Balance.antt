-- ===== src/Wallets/Open/Balance.antt =====
-- src/wallets/application/use-cases/open-wallet.use-case.ts: opened wallets and the stored
-- balances.
use distributed_wagering_pro.Wallets.Repository.{insert}
use distributed_wagering_pro.Wallets.Open.{
  execute, OpenWalletCommand, record_opening, opening_entry, open_body, duplicate_or_rethrow,
}
use distributed_wagering_pro.Wallets.Wallet.{open_wallet, Wallet}
use distributed_wagering_pro.Persistence.World.{Platform, World, App}
use distributed_wagering_pro.Kernel.Event.{Timestamp}
use distributed_wagering_pro.Wallets.Rows.{to_ledger_row, LedgerRow, WalletRow, to_wallet_row}
use distributed_wagering_pro.Prelude.{
  ◌≡◌, pos, ◌+◌, refl, ◌-ℤ◌, Text, List, arith, All, ◌≤ℤ◌, ◌≢◌, ◌++◌, ◌∷◌, [], int_laws, ◌∙◌, sym,
  subst, false, ap, if◌then◌else◌, codes, Bool, true,
}
use distributed_wagering_pro.Kernel.Errors.{ok, Error}
use distributed_wagering_pro.Persistence.Balanced.{
  signed_row, ledger_sum, IsBalanced, RowBalanced, share-other, ledger_sum-append, share-own,
  transactional-IsBalanced,
}
use distributed_wagering_pro.Kernel.Money.{Money, is_positive}
use distributed_wagering_pro.Wagering.Transaction.{CreateOpeningProps, create_opening}
use distributed_wagering_pro.Persistence.Effect.{
  continue-ok, flush, continue-keeps, increment_counter, pure, ◌>>◌, catches, transactional, new_id,
  handle-keeps,
}

module _ {P : Platform} (cmd : OpenWalletCommand) (wallet : Wallet) (now : Timestamp) where
  -- What an initial balance above zero writes: one ledger row, a credit of that amount.
  record_opening-writes :
      (w : World P)
      → (record_opening cmd wallet now w).0 ≡ ok tt
      → (row : LedgerRow) × ((record_opening cmd wallet now w).1.em.ledger
          ≡ P.tables.ledger.create row w.em.ledger)
        × ((record_opening cmd wallet now w).1.em.wallets ≡ w.em.wallets)
        × (row.wallet_id ≡ wallet.id)
        × (signed_row row ≡ cmd.initial_balance.minor_units)
  unfolding record_opening opening_entry to_ledger_row
  record_opening-writes w h =
      let nothing : Money = record {
        minor_units = cmd.initial_balance.minor_units -ℤ cmd.initial_balance.minor_units;
        currency = cmd.initial_balance.currency;
      } in
      let opened : CreateOpeningProps = record {
        id = P.new_id w.ids;
        wallet_id = wallet.id;
        player_id = cmd.player_id;
        money = cmd.initial_balance;
        now = now;
      } in
      (
        to_ledger_row (
            opening_entry (P.new_id (w.ids + 1)) wallet (create_opening opened) nothing
              cmd.initial_balance now),
        ground arith,
        ground arith,
        refl,
        refl,
      )

-- The new wallet's id is not in use yet.
abbrev pub IsFresh : (P : Platform) → Text → World P → Type 0
IsFresh P id w =
    All (λ r. r.id ≢ id) (P.tables.wallets.rows w.em.wallets)
    × All (λ e. e.wallet_id ≢ id) (P.tables.ledger.rows w.em.ledger)

ledger_sum-fresh :
    (id : Text) (es : List LedgerRow) → All (λ e. e.wallet_id ≢ id) es → ledger_sum id es ≡ pos 0
unfolding ledger_sum
ledger_sum-fresh id [] h = refl
ledger_sum-fresh id (e ∷ es) h =
    rw (share-other id e h.0, ledger_sum-fresh id es h.1) (omega int_laws)

All-append : {A : Type 0} (Q : A → Type 0) (xs ys : List A) → All Q xs → All Q ys → All Q (xs ++ ys)
All-append Q [] ys h k = k
All-append Q (x ∷ xs) ys h k = (h.0, All-append Q xs ys h.1 k)

-- A row of another wallet's, added to the ledger.
other-balanced :
    (es : List LedgerRow) (e : LedgerRow) (rows : List WalletRow)
    → All (λ r. r.id ≢ e.wallet_id) rows
    → All (RowBalanced es) rows
    → All (RowBalanced (es ++ e ∷ [])) rows
other-balanced es e [] n h = tt
other-balanced es e (r ∷ rows) n h = (
  (
    h.0.0
        ∙ rw (ledger_sum-append r.id es e, share-other r.id e (λ p. n.0 (sym p))) (omega int_laws),
    h.0.1,
  ),
  other-balanced es e rows n.1 h.1,
)

opened-balanced :
    (es : List LedgerRow) (e : LedgerRow) (rows : List WalletRow) (new : WalletRow)
    → All (λ r. r.id ≢ new.id) rows
    → All (λ d. d.wallet_id ≢ new.id) es
    → e.wallet_id ≡ new.id
    → signed_row e ≡ new.balance_amount
    → pos 0 ≤ℤ new.balance_amount
    → All (RowBalanced es) rows
    → All (RowBalanced (es ++ e ∷ [])) (rows ++ new ∷ [])
opened-balanced es e rows new new_wallet new_entry owner amount nonneg b =
    All-append (RowBalanced (es ++ e ∷ [])) rows (new ∷ [])
      (other-balanced es e rows (subst (λ id. All (λ r. r.id ≢ id) rows) (sym owner) new_wallet) b)
      ((sum, nonneg), tt)
  where
    sum : new.balance_amount ≡ ledger_sum new.id (es ++ e ∷ [])
    sum =
        rw
          (
            ledger_sum-append new.id es e,
            ledger_sum-fresh new.id es new_entry,
            share-own new.id e owner,
          )
          (sym amount ∙ omega int_laws)

opened_empty-balanced :
    (es : List LedgerRow) (rows : List WalletRow) (new : WalletRow)
    → All (λ d. d.wallet_id ≢ new.id) es
    → new.balance_amount ≡ pos 0
    → All (RowBalanced es) rows
    → All (RowBalanced es) (rows ++ new ∷ [])
opened_empty-balanced es rows new new_entry amount b =
    All-append (RowBalanced es) rows (new ∷ []) b
      ((amount ∙ sym (ledger_sum-fresh new.id es new_entry), rw amount (omega arith)), tt)

nothing_left : (m : Money) → is_positive m ≡ false → pos 0 ≤ℤ m.minor_units → m.minor_units ≡ pos 0
unfolding is_positive
nothing_left m p h = ground arith

module _ {P : Platform} (cmd : OpenWalletCommand) (now : Timestamp) where
  open_body-IsBalanced :
      (wallet : Wallet) (w w' : World P)
      → wallet.balance ≡ cmd.initial_balance
      → pos 0 ≤ℤ cmd.initial_balance.minor_units
      → IsFresh P wallet.id w
      → IsBalanced P w
      → open_body cmd wallet now w ≡ (ok tt, w')
      → IsBalanced P w'
  unfolding open_body insert
  open_body-IsBalanced wallet w w' same nonneg (new_wallet, new_entry) b h =
      let rest : App P (Unit {0}) =
        if is_positive cmd.initial_balance then record_opening cmd wallet now else pure tt in
      let (_, _, h₁) = continue-ok (λ _. flush >> rest) (insert wallet w) h in
      let (_, _, h₂) = continue-ok (λ _. rest) (flush (insert wallet w).1) h₁ in
      by_sign (is_positive cmd.initial_balance) refl h₂
    where
      w₁ : World P
      w₁ = (insert wallet w).1

      es : List LedgerRow
      es = P.tables.ledger.rows w.em.ledger

      rows : List WalletRow
      rows = P.tables.wallets.rows w.em.wallets

      new : WalletRow
      new = to_wallet_row wallet

      amount : wallet.balance.minor_units ≡ cmd.initial_balance.minor_units
      amount = ap (λ m. m.minor_units) same

      by_sign :
          (positive : Bool)
          → is_positive cmd.initial_balance ≡ positive
          → (if positive then record_opening cmd wallet now else pure tt) w₁ ≡ (ok tt, w')
          → IsBalanced P w'
      by_sign true e done =
          let (row, ledger, wallets, owner, sum) =
            record_opening-writes cmd wallet now w₁ (ap (λ p. p.0) done) in
          subst (IsBalanced P) (ap (λ p. p.1) done) (
            rw
              (
                ledger,
                wallets,
                P.tables.ledger.rows-create row w.em.ledger,
                P.tables.wallets.rows-create new w.em.wallets,
              )
              (opened-balanced es row rows new new_wallet new_entry owner (sum ∙ sym amount)
                (subst (λ n. pos 0 ≤ℤ n) (sym amount) nonneg) b))
      by_sign false e done = subst (IsBalanced P) (ap (λ p. p.1) done) (
          rw (P.tables.wallets.rows-create new w.em.wallets) (
            opened_empty-balanced es rows new new_entry
              (amount ∙ nothing_left cmd.initial_balance e nonneg) b))

  pub duplicate_or_rethrow-state : (e : Error) (v : World P) → (duplicate_or_rethrow cmd e v).1 ≡ v
  unfolding duplicate_or_rethrow
  duplicate_or_rethrow-state e v = ground arith

  -- Opening a wallet with an initial balance that is not negative, under an id that no stored
  -- wallet or ledger row has, in a state where every stored balance is the signed sum of its
  -- ledger rows and not negative, leaves such a state, whatever it returns or throws.
  pub opening-IsBalanced :
      (w : World P)
      → pos 0 ≤ℤ cmd.initial_balance.minor_units
      → IsFresh P (P.new_id w.ids) w
      → IsBalanced P w
      → IsBalanced P (execute cmd now w).1
  unfolding execute open_wallet
  opening-IsBalanced w nonneg fresh b =
      continue-keeps (IsBalanced P)
        (λ _. increment_counter (codes "wallets_opened_total") [] >> pure wallet)
        (catches (transactional (open_body cmd wallet now)) (duplicate_or_rethrow cmd) (new_id w).1)
        (handle-keeps (IsBalanced P) (duplicate_or_rethrow cmd)
          (transactional (open_body cmd wallet now) (new_id w).1)
          (λ e v kept. subst (IsBalanced P) (sym (duplicate_or_rethrow-state e v)) kept)
          (transactional-IsBalanced (open_body cmd wallet now) (new_id w).1 b
            (λ r w' h. open_body-IsBalanced wallet (new_id w).1 w' refl nonneg fresh b h)))
        (λ r v kept. kept)
    where
      wallet : Wallet
      wallet = open_wallet (record {
        id = P.new_id w.ids;
        player_id = cmd.player_id;
        initial_balance = cmd.initial_balance;
        now = now;
      })
