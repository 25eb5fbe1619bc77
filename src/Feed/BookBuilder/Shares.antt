-- ===== src/Feed/BookBuilder/Shares.antt =====
-- What the orders of the book builder have left.
use titan_engine.Prelude.{
  ℕ, ◌+◌, ◌≡◌, refl, sym, ap, ◌∙◌, Bool, true, false, ◌&&◌, List, [], ◌∷◌, none, some, ◌==◌,
  if◌then◌else◌, arith, Bool-cases, inl, inr, ==_iff, nat_eq,
}
use titan_engine.Prelude.Assoc.{lookup, insert, erase, IsKeyed}
use titan_engine.Core.{Side, buy, sell}
use titan_engine.Feed.BookBuilder.{RestingOrder}

abbrev pub same_side : Side → Side → Bool
same_side buy buy = true
same_side buy sell = false
same_side sell buy = false
same_side sell sell = true

-- So much at a side and a price, 0 at the others.
abbrev pub part : Side → ℕ → ℕ → Side → ℕ → ℕ
part s p shares t i = if same_side s t && (p == i) then shares else 0

abbrev pub part_of : RestingOrder → Side → ℕ → ℕ
part_of o = part o.side o.price o.remaining_shares

-- What the orders of a side and a price have left.
unfoldable pub shares_at : Side → ℕ → List (ℕ × RestingOrder) → ℕ
shares_at t i [] = 0
shares_at t i ((ref, o) ∷ orders) = part_of o t i + shares_at t i orders

clash_some : {A : Type 0} (a : A) → some a ≡ none → ⊥
clash_some a e = cc

pub shares_at-new :
    (ref : ℕ) (o : RestingOrder) (t : Side) (i : ℕ) (orders : List (ℕ × RestingOrder))
    → lookup ref orders ≡ none
    → shares_at t i (insert ref o orders) ≡ shares_at t i orders + part_of o t i
unfolding shares_at insert lookup
shares_at-new ref o t i [] h = omega arith
shares_at-new ref o t i ((j, x) ∷ orders) h = elim (Bool-cases (j == ref)) [
  | inl same ↦ absurd (clash_some x (sym (rw same refl) ∙ h))
  | inr other ↦
      let gone : lookup ref orders ≡ none = ground arith in
      rw other (omega (arith, shares_at-new ref o t i orders gone))
]

shares_at-absent :
    (ref : ℕ) (t : Side) (i : ℕ) (orders : List (ℕ × RestingOrder))
    → lookup ref orders ≡ none
    → shares_at t i (erase ref orders) ≡ shares_at t i orders
unfolding shares_at erase lookup
shares_at-absent ref t i [] h = refl
shares_at-absent ref t i ((j, x) ∷ orders) h = elim (Bool-cases (j == ref)) [
  | inl same ↦ absurd (clash_some x (sym (rw same refl) ∙ h))
  | inr other ↦
      let gone : lookup ref orders ≡ none = ground arith in
      rw other (omega (arith, shares_at-absent ref t i orders gone))
]

-- The first entry of the reference is the order that it leads to.
found_first :
    (j ref : ℕ) (x o : RestingOrder) (orders : List (ℕ × RestingOrder))
    → (j == ref) ≡ true
    → lookup ref ((j, x) ∷ orders) ≡ some o
    → x ≡ o
unfolding lookup
found_first j ref x o orders same h =
    let e : some x ≡ some o = sym (rw same refl) ∙ h in ground arith

found_later :
    (j ref : ℕ) (x o : RestingOrder) (orders : List (ℕ × RestingOrder))
    → (j == ref) ≡ false
    → lookup ref ((j, x) ∷ orders) ≡ some o
    → lookup ref orders ≡ some o
unfolding lookup
found_later j ref x o orders other h = sym (rw other refl) ∙ h

pub shares_at-erase :
    (ref : ℕ) (o : RestingOrder) (t : Side) (i : ℕ) (orders : List (ℕ × RestingOrder))
    → IsKeyed orders
    → lookup ref orders ≡ some o
    → shares_at t i orders ≡ shares_at t i (erase ref orders) + part_of o t i
unfolding shares_at erase lookup
shares_at-erase ref o t i [] k h = cc
shares_at-erase ref o t i ((j, x) ∷ orders) k h = elim (Bool-cases (j == ref)) [
  | inl same ↦
      let it : part_of x t i ≡ part_of o t i =
        ap (λ y. part_of y t i) (found_first j ref x o orders same h) in
      let gone : lookup ref orders ≡ none =
        ap (λ y. lookup y orders) (sym ((==_iff j ref).0 same)) ∙ k.0 in
      rw same (omega (arith, it, shares_at-absent ref t i orders gone))
  | inr other ↦
      rw other
        (omega (arith, shares_at-erase ref o t i orders k.1 (found_later j ref x o orders other h)))
]

pub shares_at-insert :
    (ref : ℕ) (o o' : RestingOrder) (t : Side) (i : ℕ) (orders : List (ℕ × RestingOrder))
    → lookup ref orders ≡ some o
    → shares_at t i (insert ref o' orders) + part_of o t i ≡ shares_at t i orders + part_of o' t i
unfolding shares_at insert lookup
shares_at-insert ref o o' t i [] h = absurd (clash_some o (sym h))
shares_at-insert ref o o' t i ((j, x) ∷ orders) h = elim (Bool-cases (j == ref)) [
  | inl same ↦
      let it : part_of x t i ≡ part_of o t i =
        ap (λ y. part_of y t i) (found_first j ref x o orders same h) in
      rw same (omega (arith, it))
  | inr other ↦
      rw other
        (omega (arith, shares_at-insert ref o o' t i orders (found_later j ref x o orders other h)))
]
