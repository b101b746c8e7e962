-- ===== src/Wallets/Ledger/Order.antt =====
-- src/wallets/infrastructure/persistence/wallet-ledger-entry.repository.ts: the order of the ledger.
use distributed_wagering_pro.Wallets.Ledger.{ledger_before, is_after}
use distributed_wagering_pro.Wagering.Json.{text_le}
use distributed_wagering_pro.Prelude.{
  Text, text_eq, List, ◌≡◌, false, true, not, ◌∷◌, arith, ◌&&◌, All, [], refl,
}
use distributed_wagering_pro.Wallets.Rows.{LedgerRow}
use distributed_wagering_pro.Persistence.Ordering.{Distinct}
use distributed_wagering_pro.Persistence.World.{same_entry}

text_le-total : (s t : Text) → text_le s t ≡ false → text_le t s ≡ true
unfolding text_le
text_le-total [] t h = absurd (cc)
text_le-total (x ∷ s) [] h = refl
text_le-total (x ∷ s) (y ∷ t) h = ground (arith, text_le-total s t)

text_le-transitive : (s t u : Text) → text_le s t ≡ true → text_le t u ≡ true → text_le s u ≡ true
unfolding text_le
text_le-transitive [] t u h k = refl
text_le-transitive (x ∷ s) [] u h k = absurd (cc)
text_le-transitive (x ∷ s) (y ∷ t) [] h k = absurd (cc)
text_le-transitive (x ∷ s) (y ∷ t) (z ∷ u) h k = ground (arith, text_le-transitive s t u)

text_le-eq : (s t : Text) → text_le s t ≡ true → text_le t s ≡ true → text_eq s t ≡ true
unfolding text_le text_eq
text_le-eq [] [] h k = refl
text_le-eq [] (y ∷ t) h k = absurd (cc)
text_le-eq (x ∷ s) [] h k = absurd (cc)
text_le-eq (x ∷ s) (y ∷ t) h k = ground (arith, text_le-eq s t)

pub ledger_before-total : (r s : LedgerRow) → ledger_before r s ≡ false → ledger_before s r ≡ true
unfolding ledger_before
ledger_before-total r s h = ground (arith, text_le-total r.id s.id)

pub ledger_before-transitive :
    (r s t : LedgerRow)
    → ledger_before r s ≡ true
    → ledger_before s t ≡ true
    → ledger_before r t ≡ true
unfolding ledger_before
ledger_before-transitive r s t h k = ground (arith, text_le-transitive r.id s.id t.id)

-- What comes after a row's key are the rows that do not stand before it.
pub is_after-before : (r s : LedgerRow) → is_after r.created_at r.id s ≡ not (ledger_before s r)
unfolding ledger_before is_after
is_after-before r s = ground arith

pub apart-Distinct :
    (rows : List LedgerRow)
    → Distinct same_entry rows
    → Distinct (λ r s. ledger_before r s && ledger_before s r) rows
unfolding ledger_before
apart-Distinct [] d = tt
apart-Distinct (r ∷ rows) d = (others rows d.0, apart-Distinct rows d.1)
  where
    others :
        (xs : List LedgerRow)
        → All (λ s. same_entry s r ≡ false) xs
        → All (λ s. (ledger_before s r && ledger_before r s) ≡ false) xs
    others [] h = tt
    others (s ∷ xs) h = (ground (arith, text_le-eq s.id r.id, h.0), others xs h.1)
