-- ===== src/Prelude/Assoc.antt =====
-- `std::unordered_map` as an association list with one entry for each key, and
-- `std::unordered_set` as the list of its elements.
use mathlib.Core.Path.{◌≡◌, refl, ◌∙◌}
use mathlib.Core.Logic.{inl, inr}
use mathlib.Core.Bool.{Bool, false, ◌||◌}
use mathlib.Core.Option.{Option, none, some}
use mathlib.Core.List.{List, [], ◌∷◌}
use native.Mathlib.Omega.{arith}
use titan_engine.Prelude.Tests.{Eq, if◌then◌else◌, Bool-cases}

module _ {ℓ κ} {K : Type ℓ} {V : Type κ} ⦃e : Eq K⦄ where
  unfoldable pub lookup : K → List (K × V) → Option V
  lookup k [] = none
  lookup k ((j, v) ∷ m) = if e.beq j k then some v else lookup k m

  -- `m[k] = v`.
  unfoldable pub insert : K → V → List (K × V) → List (K × V)
  insert k v [] = (k, v) ∷ []
  insert k v ((j, w) ∷ m) = if e.beq j k then (k, v) ∷ m else (j, w) ∷ insert k v m

  unfoldable pub erase : K → List (K × V) → List (K × V)
  erase k [] = []
  erase k ((j, w) ∷ m) = let rest = erase k m in if e.beq j k then rest else (j, w) ∷ rest

  pub lookup-insert :
      (k j : K) (v : V) (m : List (K × V))
      → lookup j (insert k v m) ≡ (if e.beq k j then some v else lookup j m)
  unfolding lookup insert
  lookup-insert k j v [] = refl
  lookup-insert k j v ((i, w) ∷ m) =
      ground (arith, e.beq_iff k j, e.beq_iff i k, e.beq_iff i j, lookup-insert k j v m)

  pub lookup-erase :
      (k j : K) (m : List (K × V)) → lookup j (erase k m) ≡ (if e.beq k j then none else lookup j m)
  unfolding lookup erase
  lookup-erase k j [] = ground arith
  lookup-erase k j ((i, w) ∷ m) =
      ground (arith, e.beq_iff k j, e.beq_iff i k, e.beq_iff i j, lookup-erase k j m)

  -- One entry for each key.
  abbrev pub IsKeyed : List (K × V) → Type κ
  IsKeyed [] = Unit
  IsKeyed ((k, v) ∷ m) = (lookup k m ≡ none) × IsKeyed m

  pub IsKeyed-insert : (k : K) (v : V) (m : List (K × V)) → IsKeyed m → IsKeyed (insert k v m)
  unfolding insert lookup
  IsKeyed-insert k v [] h = (refl, tt)
  IsKeyed-insert k v ((j, w) ∷ m) h = elim (Bool-cases (e.beq j k)) [
    | inl same ↦ rw same (rw (← (e.beq_iff j k).0 same) h.0, h.1)
    | inr other ↦ rw other (
      lookup-insert k j v m ∙ ground (arith, h.0, e.beq_iff k j, e.beq_iff j k),
      IsKeyed-insert k v m h.1,
    )
  ]

  pub IsKeyed-erase : (k : K) (m : List (K × V)) → IsKeyed m → IsKeyed (erase k m)
  unfolding erase lookup
  IsKeyed-erase k [] h = tt
  IsKeyed-erase k ((j, w) ∷ m) h = elim (Bool-cases (e.beq j k)) [
    | inl same ↦ rw same (IsKeyed-erase k m h.1)
    | inr other ↦
        rw other
          (lookup-erase k j m ∙ ground (arith, h.0, Bool-cases (e.beq k j)), IsKeyed-erase k m h.1)
  ]

module _ {ℓ} {K : Type ℓ} ⦃e : Eq K⦄ where
  -- `set.count(k) > 0`.
  unfoldable pub contains : K → List K → Bool
  contains k [] = false
  contains k (j ∷ s) = e.beq j k || contains k s

  unfoldable pub add : K → List K → List K
  unfolding contains
  add k s = if contains k s then s else k ∷ s

  unfoldable pub remove : K → List K → List K
  remove k [] = []
  remove k (j ∷ s) = let rest = remove k s in if e.beq j k then rest else j ∷ rest

  pub contains-add : (k j : K) (s : List K) → contains j (add k s) ≡ (e.beq k j || contains j s)
  unfolding add contains
  contains-add k j s = ground (arith, e.beq_iff k j, Bool-cases (contains k s))

  pub contains-remove :
      (k j : K) (s : List K) → contains j (remove k s) ≡ (if e.beq k j then false else contains j s)
  unfolding contains remove
  contains-remove k j [] = ground arith
  contains-remove k j (i ∷ s) =
      ground (arith, e.beq_iff k j, e.beq_iff i k, e.beq_iff i j, contains-remove k j s)
