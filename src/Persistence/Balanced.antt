-- ===== src/Persistence/Balanced.antt =====
-- The invariant that ties the wallets to the ledger: every stored balance is the signed sum of the
-- wallet's ledger rows, and is not negative.
use distributed_wagering_pro.Wallets.Rows.{LedgerRow, WalletRow}
use distributed_wagering_pro.Prelude.{
  Text, List, Bool, ℤ, ◌++◌, All, ◌≡◌, if◌then◌else◌, pos, ◌∷◌, Occurs, false, ◌+ℤ◌, text_eq, [],
  ◌≤ℤ◌, inl, ◌-ℤ◌, int_laws, subst, Bool-cases, sym, inr, +ℤ_assoc, text_eq_iff, ◌≢◌, arith, ◌∙◌,
}
use distributed_wagering_pro.Persistence.World.{Platform, World, same_wallet, App}
use distributed_wagering_pro.Kernel.Event.{is_debit}
use distributed_wagering_pro.Persistence.Table.{assign_row}
use distributed_wagering_pro.Wallets.Wallet.{Wallet}
use distributed_wagering_pro.Wallets.Wallet.Laws.{IsValid}
use distributed_wagering_pro.Kernel.Errors.{ok}
use distributed_wagering_pro.Persistence.Effect.{transactional, transactional-keeps}

-- What a ledger row adds to the balance of a wallet.
abbrev pub signed_row : LedgerRow → ℤ
signed_row e = if is_debit e.direction then pos 0 -ℤ e.money_amount else e.money_amount

abbrev pub share : Text → LedgerRow → ℤ
share id e = if text_eq e.wallet_id id then signed_row e else pos 0

pub share-own : (id : Text) (e : LedgerRow) → e.wallet_id ≡ id → share id e ≡ signed_row e
share-own id e h = rw ((text_eq_iff e.wallet_id id).1 h)

pub share-other : (id : Text) (e : LedgerRow) → e.wallet_id ≢ id → share id e ≡ pos 0
share-other id e h = ground (arith, text_eq_iff e.wallet_id id)

-- The signed sum of the rows of a wallet.
unfoldable pub ledger_sum : Text → List LedgerRow → ℤ
ledger_sum id [] = pos 0
ledger_sum id (e ∷ es) = share id e +ℤ ledger_sum id es

pub ledger_sum-append :
    (id : Text) (es : List LedgerRow) (e : LedgerRow)
    → ledger_sum id (es ++ e ∷ []) ≡ ledger_sum id es +ℤ share id e
unfolding ledger_sum
ledger_sum-append id [] e = omega int_laws
ledger_sum-append id (d ∷ es) e =
    rw (ledger_sum-append id es e) (sym (+ℤ_assoc (share id d) (ledger_sum id es) (share id e)))

abbrev pub RowBalanced : List LedgerRow → WalletRow → Type 0
RowBalanced es r = (r.balance_amount ≡ ledger_sum r.id es) × (pos 0 ≤ℤ r.balance_amount)

-- The invariant, on what a unit of work sees.
abbrev pub IsBalanced : (P : Platform) → World P → Type 0
IsBalanced P w =
    All (RowBalanced (P.tables.ledger.rows w.em.ledger)) (P.tables.wallets.rows w.em.wallets)

-- The wallet as the ledger has it.
pub record Agrees {P : Platform} (w : World P) (wallet : Wallet) : Type 0 where
  pub valid : IsValid wallet
  pub sum : wallet.balance.minor_units ≡ ledger_sum wallet.id (P.tables.ledger.rows w.em.ledger)

-- The wallets and the ledger are as they were.
abbrev pub SameMoney : {P : Platform} → World P → World P → Type 0
SameMoney w w' = (w'.em.wallets ≡ w.em.wallets) × (w'.em.ledger ≡ w.em.ledger)

module _ {P : Platform} (w w' : World P) where
  pub SameMoney-IsBalanced : SameMoney w w' → IsBalanced P w → IsBalanced P w'
  SameMoney-IsBalanced (wallets, ledger) b = rw (wallets, ledger) b

  pub SameMoney-Agrees : (wallet : Wallet) → SameMoney w w' → Agrees w wallet → Agrees w' wallet
  SameMoney-Agrees wallet (wallets, ledger) a = record { valid = a.valid; sum = rw ledger a.sum }

pub SameMoney-trans :
    {P : Platform} (u v w : World P) → SameMoney u v → SameMoney v w → SameMoney u w
SameMoney-trans u v w h k = (k.0 ∙ h.0, k.1 ∙ h.1)

-- A transaction whose body keeps the state balanced when it returns: what is thrown is rolled back.
pub transactional-IsBalanced :
    {P : Platform} {A : Type 0} (body : App P A) (w : World P)
    → IsBalanced P w
    → ((a : A) (w' : World P) → body w ≡ (ok a, w') → IsBalanced P w')
    → IsBalanced P (transactional body w).1
transactional-IsBalanced {P = P} body w b keep =
    transactional-keeps
      (λ em. All (RowBalanced (P.tables.ledger.rows em.ledger)) (P.tables.wallets.rows em.wallets))
      body w b keep

pub All-occurs : {A : Type 0} (Q : A → Type 0) (xs : List A) {a : A} → All Q xs → Occurs a xs → Q a
All-occurs Q [] h o = absurd o
All-occurs Q (x ∷ xs) h (inl e) = subst Q e h.0
All-occurs Q (x ∷ xs) h (inr o) = All-occurs Q xs h.1 o

module _ {Row : Type 0} (same : Row → Row → Bool) (new : Row) (Q R : Row → Type 0) where
  -- A property of the rows under an assignment.
  pub All-assign_row :
      ((r : Row) → same r new ≡ false → Q r → R r)
      → R new
      → (rows : List Row) → All Q rows
      → All R (assign_row same new rows)
  All-assign_row keep r [] h = tt
  All-assign_row keep r (x ∷ rows) h = elim (Bool-cases (same x new)) [
    | inl e ↦ rw e (r, All-assign_row keep r rows h.1)
    | inr e ↦ rw e (keep x e h.0, All-assign_row keep r rows h.1)
  ]

-- One movement: a ledger row for the wallet, and the wallet's row with the balance that it leaves.
pub movement-balanced :
    (es : List LedgerRow) (rows : List WalletRow) (e : LedgerRow) (new : WalletRow)
    → All (RowBalanced es) rows
    → e.wallet_id ≡ new.id
    → new.balance_amount ≡ ledger_sum new.id es +ℤ signed_row e
    → pos 0 ≤ℤ new.balance_amount
    → All (RowBalanced (es ++ e ∷ [])) (assign_row same_wallet new rows)
movement-balanced es rows e new h owner sum nonneg =
    All-assign_row same_wallet new (RowBalanced es) (RowBalanced (es ++ e ∷ []))
      (λ r other old. (other_balance r other old, old.1)) (own_balance, nonneg) rows h
  where
    own_balance : new.balance_amount ≡ ledger_sum new.id (es ++ e ∷ [])
    own_balance = rw (ledger_sum-append new.id es e, share-own new.id e owner) sum

    foreign : (r : WalletRow) → same_wallet r new ≡ false → e.wallet_id ≢ r.id
    foreign r other p = absurd (cc (other, (text_eq_iff r.id new.id).1 (sym p ∙ owner)))

    other_balance :
        (r : WalletRow)
        → same_wallet r new ≡ false
        → RowBalanced es r
        → r.balance_amount ≡ ledger_sum r.id (es ++ e ∷ [])
    other_balance r other old =
        rw (ledger_sum-append r.id es e, share-other r.id e (foreign r other))
          (old.0 ∙ omega int_laws)
