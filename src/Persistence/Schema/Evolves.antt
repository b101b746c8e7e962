-- ===== src/Persistence/Schema/Evolves.antt =====
-- How the rows of a table change: each stored row keeps its place, and new rows come after them.
use distributed_wagering_pro.Prelude.{
  List, [], ◌∷◌, ◌++◌, All, ◌≡◌, Bool, true, Bool-cases, inl, inr, Pointwise,
}
use distributed_wagering_pro.Persistence.Table.{assign_row}

module _ {Row : Type 0} (R : Row → Row → Type 0) (N : Row → Type 0) where
  -- `R` holds of every stored row and what has become of it, `N` of every new one.
  abbrev pub Evolves : List Row → List Row → Type 0
  Evolves [] ys = All N ys
  Evolves (x ∷ xs) [] = ⊥
  Evolves (x ∷ xs) (y ∷ ys) = R x y × Evolves xs ys

  pub Pointwise-Evolves : (xs ys : List Row) → Pointwise R xs ys → Evolves xs ys
  Pointwise-Evolves [] [] h = tt
  Pointwise-Evolves [] (y ∷ ys) h = absurd h
  Pointwise-Evolves (x ∷ xs) [] h = absurd h
  Pointwise-Evolves (x ∷ xs) (y ∷ ys) h = (h.0, Pointwise-Evolves xs ys h.1)

  module _ (same_row : (r : Row) → R r r) where
    pub Evolves-refl : (xs : List Row) → Evolves xs xs
    Evolves-refl [] = tt
    Evolves-refl (x ∷ xs) = (same_row x, Evolves-refl xs)

    pub Evolves-create : (xs : List Row) (new : Row) → N new → Evolves xs (xs ++ new ∷ [])
    Evolves-create [] new n = (n, tt)
    Evolves-create (x ∷ xs) new n = (same_row x, Evolves-create xs new n)

    pub Evolves-assign :
        (same : Row → Row → Bool) (new : Row) (xs : List Row)
        → ((r : Row) → same r new ≡ true → R r new)
        → Evolves xs (assign_row same new xs)
    Evolves-assign same new [] h = tt
    Evolves-assign same new (x ∷ xs) h = elim (Bool-cases (same x new)) [
      | inl e ↦ rw e (h x e, Evolves-assign same new xs h)
      | inr e ↦ rw e (same_row x, Evolves-assign same new xs h)
    ]

  module _ (new_row : (r s : Row) → N r → R r s → N s) where
    -- What is new stays so, whatever comes next.
    pub All-Evolves : (xs ys : List Row) → All N xs → Evolves xs ys → All N ys
    All-Evolves [] ys h e = e
    All-Evolves (x ∷ xs) [] h e = absurd e
    All-Evolves (x ∷ xs) (y ∷ ys) h e = (new_row x y h.0 e.0, All-Evolves xs ys h.1 e.1)

    pub Evolves-trans :
        (compose : (r s t : Row) → R r s → R s t → R r t) (xs ys zs : List Row)
        → Evolves xs ys
        → Evolves ys zs
        → Evolves xs zs
    Evolves-trans compose [] ys zs h k = All-Evolves ys zs h k
    Evolves-trans compose (x ∷ xs) [] zs h k = absurd h
    Evolves-trans compose (x ∷ xs) (y ∷ ys) [] h k = absurd k
    Evolves-trans compose (x ∷ xs) (y ∷ ys) (z ∷ zs) h k =
        (compose x y z h.0 k.0, Evolves-trans compose xs ys zs h.1 k.1)

-- A weaker relation, for rows of which something is known.
pub Evolves-mono :
    {Row : Type 0} (R S : Row → Row → Type 0) (N Q : Row → Type 0)
    → ((r s : Row) → Q r → R r s → S r s)
    → (xs ys : List Row) → All Q xs
    → Evolves R N xs ys
    → Evolves S N xs ys
Evolves-mono R S N Q weaker [] ys q h = h
Evolves-mono R S N Q weaker (x ∷ xs) [] q h = absurd h
Evolves-mono R S N Q weaker (x ∷ xs) (y ∷ ys) q h =
    (weaker x y q.0 h.0, Evolves-mono R S N Q weaker xs ys q.1 h.1)
