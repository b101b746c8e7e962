-- ===== src/Wallets/Repository/Reads.antt =====
-- src/wallets/infrastructure/persistence/wallet.repository.ts: a wallet that is read.
use distributed_wagering_pro.Wallets.Repository.{find_by_id, has_id}
use distributed_wagering_pro.Persistence.World.{Platform, World}
use distributed_wagering_pro.Prelude.{
  Text, ◌≡◌, refl, some, Occurs, Option, ◌∙◌, text_eq_iff, ap, arith, sym, none, true,
}
use distributed_wagering_pro.Wallets.Wallet.{Wallet}
use distributed_wagering_pro.Persistence.Balanced.{
  IsBalanced, Agrees, All-occurs, RowBalanced, ledger_sum,
}
use distributed_wagering_pro.Kernel.Errors.{ok}
use distributed_wagering_pro.Wallets.Rows.{WalletRow, to_wallet}
use distributed_wagering_pro.Wallets.Rows.RoundTrip.{to_wallet-fields}
use distributed_wagering_pro.Persistence.Effect.{map_found}
use distributed_wagering_pro.Kernel.Money.{valid_currency}

module _ {P : Platform} (id : Text) (w : World P) where
  -- A query changes nothing.
  pub find_by_id-state : (find_by_id id w).1 ≡ w
  unfolding find_by_id
  find_by_id-state = refl

  pub find_by_id-row :
      (wallet : Wallet)
      → (find_by_id id w).0 ≡ ok (some wallet)
      → (r : WalletRow) × (r.id ≡ id)
        × Occurs r (P.tables.wallets.rows w.em.wallets)
        × (to_wallet r ≡ ok wallet)
  unfolding find_by_id
  find_by_id-row wallet h = from_row (P.tables.wallets.find_one (has_id id) w.em.wallets) refl h
    where
      from_row :
          (o : Option WalletRow)
          → P.tables.wallets.find_one (has_id id) w.em.wallets ≡ o
          → map_found to_wallet o ≡ ok (some wallet)
          → (r : WalletRow) × (r.id ≡ id)
            × Occurs r (P.tables.wallets.rows w.em.wallets)
            × (to_wallet r ≡ ok wallet)
      from_row none e h' = absurd (cc)
      from_row (some r) e h' =
          let (p, o) = P.tables.wallets.find_one-some (has_id id) w.em.wallets r e in
          (r, (text_eq_iff r.id id).0 p, o, ground arith)

  pub find_by_id-currency :
      (wallet : Wallet)
      → (find_by_id id w).0 ≡ ok (some wallet)
      → (wallet.balance.currency ≡ wallet.currency) × (valid_currency wallet.currency ≡ true)
  find_by_id-currency wallet h =
      let (r, _, _, read) = find_by_id-row wallet h in
      let (_, _, same, valid) = to_wallet-fields r wallet read in (same, valid)

  -- A wallet that is read from a balanced state agrees with the ledger.
  pub find_by_id-Agrees :
      (wallet : Wallet)
      → IsBalanced P w
      → (find_by_id id w).0 ≡ ok (some wallet)
      → Agrees w wallet × (wallet.id ≡ id)
  find_by_id-Agrees wallet b h =
      let (r, own, o, read) = find_by_id-row wallet h in
      let (sum, nonneg) =
        All-occurs (RowBalanced (P.tables.ledger.rows w.em.ledger))
          (P.tables.wallets.rows w.em.wallets) b o in
      let (id_eq, amount, currency, _) = to_wallet-fields r wallet read in
      (
        record {
          valid = record { one_currency = currency; nonneg = rw amount nonneg };
          sum =
              amount ∙ sum ∙ ap (λ i. ledger_sum i (P.tables.ledger.rows w.em.ledger)) (sym id_eq);
        },
        id_eq ∙ own,
      )
