-- ===== src/Wallets/Reconcile/Consistent.antt =====
-- src/wallets/application/use-cases/reconcile-wallet.use-case.ts: what reconciliation reports.
use mathlib.Core.List.{Permᴰ}
use mathlib.Core.Logic.{∥∥₁_elim}
use native.Mathlib.Decide.{ℕ_discrete}
use distributed_wagering_pro.Wallets.Repository.{find_by_id, recalculate_balance}
use distributed_wagering_pro.Wallets.Reconcile.{
  execute, reconcile_found, Reconciliation, compare_with, count_mismatch,
}
use distributed_wagering_pro.Kernel.Money.{
  subtract, equals, from_minor_units, Money, valid_currency,
}
use distributed_wagering_pro.Wallets.Repository.{total_from, is_entry_of, add_signed}
use distributed_wagering_pro.Prelude.{
  ℤ, List, Text, ◌+ℤ◌, pos, ◌≡◌, ◌∷◌, [], refl, ap, Bool-cases, +ℤ_assoc, inl, ◌∙◌, inr, +ℤ_comm,
  int_laws, ◌-ℤ◌, some, eqb_ℤ, true, length, ℕ, eqb_ℤ_iff, sym, -ℤ_self, text_eq, text_eq_iff,
}
use distributed_wagering_pro.Persistence.Balanced.{ledger_sum, signed_row, IsBalanced}
use distributed_wagering_pro.Wallets.Rows.{LedgerRow}
use distributed_wagering_pro.Persistence.Table.{filter_rows}
use distributed_wagering_pro.Persistence.World.{Platform, World}
use distributed_wagering_pro.Wallets.Wallet.{Wallet}
use distributed_wagering_pro.Kernel.Errors.{ok}
use distributed_wagering_pro.Wallets.Repository.Reads.{find_by_id-currency, find_by_id-Agrees}
use distributed_wagering_pro.Persistence.Effect.{continue, pair_path}

-- The total of the selected rows is the signed sum of the wallet's rows.
total_from-shift :
    (t u : ℤ) (rows : List LedgerRow) → total_from (t +ℤ u) rows ≡ t +ℤ total_from u rows
unfolding total_from add_signed
total_from-shift t u [] = refl
total_from-shift t u (row ∷ rows) =
    ap (λ v. total_from v rows) (+ℤ_assoc t u (signed_row row))
    ∙ total_from-shift t (u +ℤ signed_row row) rows

total_from-filter :
    (id : Text) (rows : List LedgerRow)
    → total_from (pos 0) (filter_rows (is_entry_of id) rows) ≡ ledger_sum id rows
unfolding total_from add_signed ledger_sum
total_from-filter id [] = refl
total_from-filter id (row ∷ rows) = elim (Bool-cases (is_entry_of id row)) [
  | inl own ↦ rw own (
      ap (λ v. total_from v (filter_rows (is_entry_of id) rows)) (+ℤ_comm (pos 0) (signed_row row))
      ∙ total_from-shift (signed_row row) (pos 0) (filter_rows (is_entry_of id) rows)
      ∙ ap (λ v. signed_row row +ℤ v) (total_from-filter id rows))
  | inr other ↦ rw other (total_from-filter id rows ∙ omega int_laws)
]

-- The order of the rows does not matter.
total_from-permᴰ :
    (t : ℤ) (xs ys : List LedgerRow) → Permᴰ xs ys → total_from t xs ≡ total_from t ys
unfolding total_from add_signed
total_from-permᴰ t _ _ Permᴰ.nil = refl
total_from-permᴰ t _ _ (Permᴰ.cons {b = b} {l₁ = xs} {l₂ = ys} e p) =
    ap (λ r. total_from (t +ℤ signed_row r) xs) e ∙ total_from-permᴰ (t +ℤ signed_row b) xs ys p
total_from-permᴰ t _ _ (Permᴰ.swap {a = a} {b = b} {a' = b'} {b' = a'} {l = xs} e f) =
    ap (λ v. total_from v xs)
      (cc (
        +ℤ_assoc t (signed_row a) (signed_row b),
        +ℤ_assoc t (signed_row b) (signed_row a),
        +ℤ_comm (signed_row a) (signed_row b),
        e,
        f,
      ))
total_from-permᴰ t _ _ (Permᴰ.trans {l₁ = xs} {l₂ = ys} {l₃ = zs} p q) =
    total_from-permᴰ t xs ys p ∙ total_from-permᴰ t ys zs q

ℤ-IsSet : IsSet ℤ
ℤ-IsSet = hlevel (ℕ_discrete)

module _ {P : Platform} (id : Text) (w : World P) where
  -- What is summed up is the signed sum of the wallet's rows.
  recalculated :
      total_from (pos 0) (P.tables.ledger.select (is_entry_of id) w.em.ledger)
      ≡ ledger_sum id (P.tables.ledger.rows w.em.ledger)
  recalculated =
      let rows = P.tables.ledger.rows w.em.ledger in
      let selected = P.tables.ledger.select (is_entry_of id) w.em.ledger in
      ∥∥₁_elim (P.tables.ledger.select-perm (is_entry_of id) w.em.ledger) (ℤ-IsSet _ _)
        (λ p. total_from-permᴰ (pos 0) selected (filter_rows (is_entry_of id) rows) p)
      ∙ total_from-filter id rows

  abbrev amount_in : Wallet → ℤ → Money
  amount_in wallet n = record { minor_units = n; currency = wallet.currency }

  -- The report on a wallet whose ledger sums up to `sum`.
  abbrev pub report : Wallet → ℤ → Reconciliation
  report wallet sum = record {
    wallet_id = id;
    stored_balance = wallet.balance;
    calculated_balance = amount_in wallet sum;
    difference = amount_in wallet (wallet.balance.minor_units -ℤ sum);
    consistent = eqb_ℤ wallet.balance.minor_units sum;
    checked_entries = length (P.tables.ledger.select (is_entry_of id) w.em.ledger);
  }

  recalculate_balance-lem :
      (currency : Text)
      → valid_currency currency ≡ true
      → recalculate_balance id currency w ≡ (
        ok (record {
          balance = record {
            minor_units = ledger_sum id (P.tables.ledger.rows w.em.ledger);
            currency = currency;
          };
          checked_entries = length (P.tables.ledger.select (is_entry_of id) w.em.ledger);
        }),
        w,
      )
  unfolding recalculate_balance from_minor_units
  recalculate_balance-lem currency v = rw (recalculated, v) refl

  compare_with-lem :
      (wallet : Wallet) (sum : ℤ) (n : ℕ)
      → wallet.balance.currency ≡ wallet.currency
      → (compare_with id wallet
          (record { balance = amount_in wallet sum; checked_entries = n })
          w).0
        ≡ ok (record (report wallet sum) { checked_entries = n })
  unfolding compare_with equals subtract count_mismatch
  compare_with-lem wallet sum n c =
      let k : text_eq wallet.balance.currency wallet.currency ≡ true =
        (text_eq_iff wallet.balance.currency wallet.currency).1 c in
      elim (Bool-cases (eqb_ℤ wallet.balance.minor_units sum)) [
        | inl e ↦ rw (k, e, c) refl
        | inr e ↦ rw (k, e, c) refl
      ]

  reconcile_found-lem :
      (wallet : Wallet)
      → wallet.balance.currency ≡ wallet.currency
      → valid_currency wallet.currency ≡ true
      → (reconcile_found id (some wallet) w).0
        ≡ ok (report wallet (ledger_sum id (P.tables.ledger.rows w.em.ledger)))
  unfolding reconcile_found
  reconcile_found-lem wallet c v =
      ap (λ r. (continue (compare_with id wallet) r).0) (recalculate_balance-lem wallet.currency v)
      ∙ compare_with-lem wallet (ledger_sum id (P.tables.ledger.rows w.em.ledger))
          (length (P.tables.ledger.select (is_entry_of id) w.em.ledger)) c

  -- For a wallet that is read, reconciliation reports the signed sum of the wallet's ledger rows,
  -- the stored balance less that sum, whether the two are equal, and the number of rows that were
  -- selected.
  pub reconcile-reports :
      (wallet : Wallet)
      → (find_by_id id w).0 ≡ ok (some wallet)
      → (execute id w).0 ≡ ok (report wallet (ledger_sum id (P.tables.ledger.rows w.em.ledger)))
  unfolding execute
  reconcile-reports wallet h =
      let (c, v) = find_by_id-currency id w wallet h in
      ap (λ r. (continue (reconcile_found id) r).0) (pair_path h) ∙ reconcile_found-lem wallet c v

  -- In a state where every stored balance is the signed sum of its ledger rows and not negative,
  -- reconciliation of a wallet that is read reports it as consistent, with the difference zero.
  pub reconcile-consistent :
      (wallet : Wallet)
      → IsBalanced P w
      → (find_by_id id w).0 ≡ ok (some wallet)
      → (r : Reconciliation) × ((execute id w).0 ≡ ok r)
        × (r.consistent ≡ true)
        × (r.difference.minor_units ≡ pos 0)
  reconcile-consistent wallet b h =
      let (a, own) = find_by_id-Agrees id w wallet b h in
      let sum = ledger_sum id (P.tables.ledger.rows w.em.ledger) in
      let same : wallet.balance.minor_units ≡ sum =
        a.sum ∙ ap (λ i. ledger_sum i (P.tables.ledger.rows w.em.ledger)) own in
      (
        report wallet sum,
        reconcile-reports wallet h,
        (eqb_ℤ_iff wallet.balance.minor_units sum).1 same,
        ap (λ n. wallet.balance.minor_units -ℤ n) (sym same) ∙ -ℤ_self wallet.balance.minor_units,
      )
