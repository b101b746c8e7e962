-- ===== src/Wallets/Ledger/Split.antt =====
-- Lists cut after a number of elements, as a page cuts the rows that are left.
use distributed_wagering_pro.Wallets.Ledger.{last_row}
use distributed_wagering_pro.Prelude.{
  ℕ, List, length, suc, ◌++◌, All, take, arith, ◌∷◌, ◌≡◌, ◌==◌, [], false, ap, some, true, sym,
  refl, ◌∙◌,
}
use distributed_wagering_pro.Wallets.Rows.{LedgerRow}
use distributed_wagering_pro.Kernel.Errors.{Result, ◌>>=◌, ok, ok_injective, err}
use distributed_wagering_pro.Persistence.Effect.{map_rows}
use Prim.Native.Nat.{zero}

-- What a page of `limit` rows leaves: it is short and the last, or full and ends with a row.
pub data Cut (limit : ℕ) (rows : List LedgerRow) : Type 0 where
  short : (length (take limit rows) == limit) ≡ false → take limit rows ≡ rows → Cut limit rows
  full :
      (front : List LedgerRow) (last : LedgerRow) (back : List LedgerRow)
      → (length (take limit rows) == limit) ≡ true
      → take limit rows ≡ front ++ last ∷ []
      → rows ≡ front ++ last ∷ back
      → Cut limit rows

pub cut : (k : ℕ) (rows : List LedgerRow) → Cut (suc k) rows
cut k [] = short (ground arith) refl
cut zero (r ∷ rows) = full [] r rows (ground arith) refl refl
cut (suc k) (r ∷ rows) = elim (cut k rows) [
  | short other all ↦ short (ground (arith, other)) (ap (λ xs. r ∷ xs) all)
  | full front last back count page rest ↦
      full (r ∷ front) last back (ground (arith, count)) (ap (λ xs. r ∷ xs) page)
        (ap (λ xs. r ∷ xs) rest)
]

pub last_row-append :
    (front : List LedgerRow) (last : LedgerRow) → last_row (front ++ last ∷ []) ≡ some last
unfolding last_row
last_row-append [] last = refl
last_row-append (r ∷ []) last = refl
last_row-append (r ∷ s ∷ front) last = last_row-append (s ∷ front) last

pub All-middle :
    (Q : LedgerRow → Type 0) (front : List LedgerRow) (r : LedgerRow) (back : List LedgerRow)
    → All Q (front ++ r ∷ back)
    → Q r
All-middle Q [] r back h = h.0
All-middle Q (x ∷ front) r back h = All-middle Q front r back h.1

bind-ok :
    {A B : Type 0} (f : A → Result B) (r : Result A) {b : B}
    → (r >>= f) ≡ ok b
    → (a : A) × (r ≡ ok a) × (f a ≡ ok b)
bind-ok f (ok a) h = (a, refl, h)
bind-ok f (err e) h = absurd (ground arith)

-- Rows that can all be read, in two parts.
pub map_rows-append :
    {A : Type 0} (to_domain : LedgerRow → Result A) (xs ys : List LedgerRow) {all : List A}
    → map_rows to_domain (xs ++ ys) ≡ ok all
    → (bs : List A) × (cs : List A) × (map_rows to_domain xs ≡ ok bs)
      × (map_rows to_domain ys ≡ ok cs)
      × (all ≡ bs ++ cs)
map_rows-append to_domain [] ys {all = all} h = ([], all, refl, h, refl)
map_rows-append to_domain (x ∷ xs) ys h =
    let (a, head, h₁) =
      bind-ok (λ a. map_rows to_domain (xs ++ ys) >>= λ rest. ok (a ∷ rest)) (to_domain x) h in
    let (rest, tail, h₂) = bind-ok (λ rest. ok (a ∷ rest)) (map_rows to_domain (xs ++ ys)) h₁ in
    let (bs, cs, front, back, e) = map_rows-append to_domain xs ys tail in
    (a ∷ bs, cs, rw (head, front) refl, back, ok_injective (sym h₂) ∙ ap (λ l. a ∷ l) e)
