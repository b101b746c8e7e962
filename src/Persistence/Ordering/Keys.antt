-- ===== src/Persistence/Ordering/Keys.antt =====
-- Rows with distinct keys: the only row with the key of a row is the row itself.
use distributed_wagering_pro.Persistence.Ordering.{Distinct}
use distributed_wagering_pro.Prelude.{
  Text, List, All, Bool, ◌≡◌, true, false, Occurs, inl, inr, [], ◌∷◌, text_eq, text_eq_iff, ap, sym,
  map, refl, ◌∙◌,
}
use distributed_wagering_pro.Persistence.Balanced.{All-occurs}

module _ {Row : Type 0} (key : Row → Text) where
  abbrev pub same_key : Row → Row → Bool
  same_key r s = text_eq (key r) (key s)

  abbrev pub Only : Row → List Row → Type 0
  Only m rows = All (λ r. same_key r m ≡ true → r ≡ m) rows

  pub Distinct-Only :
      (m : Row) (rows : List Row) → Distinct same_key rows → Occurs m rows → Only m rows
  Distinct-Only m [] d o = tt
  Distinct-Only m (r ∷ rows) d (inl e) = (λ _. e, others rows d.0)
    where
      others : (rs : List Row) → All (λ s. same_key s r ≡ false) rs → Only m rs
      others [] h = tt
      others (s ∷ rs) h = (λ k. absurd (cc (k, h.0, ap (λ x. same_key s x) e)), others rs h.1)
  Distinct-Only m (r ∷ rows) d (inr o) = (
    λ k. absurd (other (All-occurs (λ s. same_key s r ≡ false) rows d.0 o) k),
    Distinct-Only m rows d.1 o,
  )
    where
      other : same_key m r ≡ false → same_key r m ≡ true → ⊥
      other h k = cc (h, (text_eq_iff (key m) (key r)).1 (sym ((text_eq_iff (key r) (key m)).0 k)))

  pub Occurs-map :
      (rows : List Row) {id : Text}
      → Occurs id (map key rows)
      → (r : Row) × Occurs r rows × (key r ≡ id)
  Occurs-map [] o = absurd o
  Occurs-map (r ∷ rows) (inl e) = (r, inl refl, e)
  Occurs-map (r ∷ rows) (inr o) = let (s, o', e) = Occurs-map rows o in (s, inr o', e)

  pub map-Occurs : (rows : List Row) (r : Row) → Occurs r rows → Occurs (key r) (map key rows)
  map-Occurs [] r o = absurd o
  map-Occurs (s ∷ rows) r (inl e) = inl (ap key e)
  map-Occurs (s ∷ rows) r (inr o) = inr (map-Occurs rows r o)

pub All-intro :
    {A : Type 0} (Q : A → Type 0) (xs : List A) → ((a : A) → Occurs a xs → Q a) → All Q xs
All-intro Q [] h = tt
All-intro Q (x ∷ xs) h = (h x (inl refl), All-intro Q xs (λ a o. h a (inr o)))

-- Two rows of a table with distinct keys that have the same key are one.
pub Distinct-one_row :
    {Row : Type 0} (same : Row → Row → Bool) (rows : List Row) {r s : Row}
    → Distinct same rows
    → Occurs r rows
    → Occurs s rows
    → same r s ≡ true
    → same s r ≡ true
    → r ≡ s
Distinct-one_row same [] d o o' h k = absurd o
Distinct-one_row same (x ∷ rows) d (inl e) (inl e') h k = sym e ∙ e'
Distinct-one_row same (x ∷ rows) d (inl e) (inr o') h k =
    absurd (cc (All-occurs (λ y. same y x ≡ false) rows d.0 o', e, k))
Distinct-one_row same (x ∷ rows) d (inr o) (inl e') h k =
    absurd (cc (All-occurs (λ y. same y x ≡ false) rows d.0 o, e', h))
Distinct-one_row same (x ∷ rows) d (inr o) (inr o') h k = Distinct-one_row same rows d.1 o o' h k
