-- ===== src/Wallets/Wallet/History.antt =====
-- src/wallets/domain/wallet.ts: any series of debits and credits, as steps from an opened wallet.
use distributed_wagering_pro.Wallets.LedgerEntry
use distributed_wagering_pro.Wallets.Wallet.{
  Wallet, WalletMovementContext, debit, credit, open_wallet, OpenWalletProps,
}
use distributed_wagering_pro.Wallets.Wallet.Laws.{IsValid, debit_lem, credit_lem}
use distributed_wagering_pro.Wallets.LedgerEntry.{WalletLedgerEntry}
use distributed_wagering_pro.Prelude.{
  List, ◌≡◌, [], ℤ, ◌∷◌, if◌then◌else◌, pos, ◌+◌, ◌+ℤ◌, ◌-ℤ◌, true, arith, sym, ◌∙◌, -ℤ_parts,
  +ℤ_parts, text_eq_iff, length, int_laws, All, +ℤ_assoc, subst, ◌≤ℤ◌, refl,
}
use distributed_wagering_pro.Kernel.Money.{Money}
use distributed_wagering_pro.Kernel.Errors.{ok}
use distributed_wagering_pro.Kernel.Event.{is_debit}

-- One successful call, with the entry that it returns.
pub data Step (w : Wallet) (e : WalletLedgerEntry) (w' : Wallet) : Type 0 where
  debited :
      (money : Money) (ctx : WalletMovementContext) → debit w money ctx ≡ ok (e, w') → Step w e w'
  credited :
      (money : Money) (ctx : WalletMovementContext) → credit w money ctx ≡ ok (e, w') → Step w e w'

-- The calls since the wallet was `first`, with their entries, the newest one first.
pub data History (first : Wallet) : Wallet → List WalletLedgerEntry → Type 0 where
  begin : History first first []
  next :
      {w w' : Wallet} {e : WalletLedgerEntry} {es : List WalletLedgerEntry}
      → History first w es
      → Step w e w'
      → History first w' (e ∷ es)

-- What an entry adds to the balance.
abbrev pub signed_amount : WalletLedgerEntry → ℤ
signed_amount e = if is_debit e.direction then pos 0 -ℤ e.money.minor_units else e.money.minor_units

abbrev pub sum_signed : List WalletLedgerEntry → ℤ
sum_signed [] = pos 0
sum_signed (e ∷ es) = sum_signed es +ℤ signed_amount e

-- What one step does to a valid wallet.
pub record StepFacts (w : Wallet) (e : WalletLedgerEntry) (w' : Wallet) : Type 0 where
  pub valid : IsValid w'
  pub version : w'.version ≡ w.version + 1
  pub balance : w'.balance.minor_units ≡ w.balance.minor_units +ℤ signed_amount e
  pub identity : (w'.id ≡ w.id) × (w'.currency ≡ w.currency) × (w'.player_id ≡ w.player_id)
  pub before : e.balance_before ≡ w.balance
  pub after : e.balance_after ≡ w'.balance
  pub owner : e.wallet_id ≡ w.id
  pub balanced : LedgerEntry.is_balanced e ≡ ok true

pub Step-facts :
    {w : Wallet} {e : WalletLedgerEntry} {w' : Wallet} → IsValid w → Step w e w' → StepFacts w e w'
unfolding LedgerEntry.is_balanced
Step-facts {w} {e} {w'} v (debited money ctx h) = ground (
  arith,
  sym (debit_lem w money ctx v) ∙ h,
  -ℤ_parts w.balance.minor_units money.minor_units,
  -ℤ_parts (pos 0) money.minor_units,
  +ℤ_parts w.balance.minor_units (pos 0 -ℤ money.minor_units),
  text_eq_iff money.currency w.currency,
  text_eq_iff w.balance.currency money.currency,
  text_eq_iff w.balance.currency w.currency,
)
Step-facts {w} {e} {w'} v (credited money ctx h) = ground (
  arith,
  sym (credit_lem w money ctx v) ∙ h,
  +ℤ_parts w.balance.minor_units money.minor_units,
  text_eq_iff money.currency w.currency,
  text_eq_iff w.balance.currency money.currency,
  text_eq_iff w.balance.currency w.currency,
)

-- Every entry starts from the balance that the one before it ended with.
abbrev pub Chained : Money → List WalletLedgerEntry → Money → Type 0
Chained first [] last = last ≡ first
Chained first (e ∷ es) last = (e.balance_after ≡ last) × Chained first es e.balance_before

pub record HistoryFacts (first w : Wallet) (es : List WalletLedgerEntry) : Type 0 where
  pub valid : IsValid w
  pub version : w.version ≡ first.version + length es
  pub balance : w.balance.minor_units ≡ first.balance.minor_units +ℤ sum_signed es
  pub chained : Chained first.balance es w.balance
  pub owner : w.id ≡ first.id
  pub entries : All (λ e. (e.wallet_id ≡ first.id) × (LedgerEntry.is_balanced e ≡ ok true)) es

-- After any series of successful debits and credits of a valid wallet, the wallet is valid, its
-- version has gone up by one for each, its balance is the first one and the signed sum of the
-- entries, and each entry is balanced, belongs to the wallet, and starts from the balance at which
-- the one before it ended.
pub History-facts :
    {first w : Wallet} {es : List WalletLedgerEntry}
    → IsValid first
    → History first w es
    → HistoryFacts first w es
History-facts {first} v begin = record {
  valid = v;
  version = omega arith;
  balance = omega int_laws;
  chained = refl;
  owner = refl;
  entries = tt;
}
History-facts {first} v (next {w = w} {w' = w'} {e = e} {es = es} before step) =
    let h = History-facts v before in
    let s = Step-facts h.valid step in
    record {
      valid = s.valid;
      version = omega (arith, s.version, h.version);
      balance =
          s.balance
          ∙ rw h.balance (+ℤ_assoc first.balance.minor_units (sum_signed es) (signed_amount e));
      chained = (s.after, subst (λ b. Chained first.balance es b) (sym s.before) h.chained);
      owner = s.identity.0 ∙ h.owner;
      entries = ((s.owner ∙ h.owner, s.balanced), h.entries);
    }

-- A wallet that is opened with a balance of zero or more is valid, and stands at version 1.
open_wallet-IsValid :
    (props : OpenWalletProps)
    → pos 0 ≤ℤ props.initial_balance.minor_units
    → IsValid (open_wallet props) × ((open_wallet props).version ≡ 1)
unfolding open_wallet
open_wallet-IsValid props h = (record { one_currency = refl; nonneg = h }, refl)
