-- ===== src/Prelude/OrderedMap.antt =====
-- `std::map<uint64_t, V>` as the list of its entries, in the order `before` in which it is read:
-- ascending from `begin`, or descending from `rbegin`.
use Prim.Native.Nat.{ℕ}
use mathlib.Core.Path.{◌≡◌, refl, sym, subst}
use mathlib.Core.Bool.{Bool, true, false}
use mathlib.Core.Logic.{inl, inr}
use mathlib.Core.Option.{Option, none, some}
use mathlib.Core.List.{List, [], ◌∷◌}
use native.Mathlib.Omega.{arith}
use titan_engine.Prelude.Tests.{◌==◌, ==_iff, Bool-cases, if◌then◌else◌}
use titan_engine.Prelude.Lists.{All}

module _ {ℓ} {V : Type ℓ} where
  unfoldable pub find? : ℕ → List (ℕ × V) → Option V
  find? k [] = none
  find? k ((j, v) ∷ m) = if j == k then some v else find? k m

  -- A write through an iterator to the entry of `k`.
  unfoldable pub adjust : ℕ → (V → V) → List (ℕ × V) → List (ℕ × V)
  adjust k f [] = []
  adjust k f ((j, v) ∷ m) = if j == k then (j, f v) ∷ m else (j, v) ∷ adjust k f m

  unfoldable pub erase : ℕ → List (ℕ × V) → List (ℕ × V)
  erase k [] = []
  erase k ((j, v) ∷ m) = if j == k then m else (j, v) ∷ erase k m

  -- A write through `m[k]`, which makes the entry of a missing key, with the value `d`.
  unfoldable pub upsert : (ℕ → ℕ → Bool) → ℕ → V → (V → V) → List (ℕ × V) → List (ℕ × V)
  upsert before k d f [] = (k, f d) ∷ []
  upsert before k d f ((j, v) ∷ m) =
      if j == k
      then (j, f v) ∷ m
      else if before k j
      then (k, f d) ∷ (j, v) ∷ m
      else (j, v) ∷ upsert before k d f m

  pub find?-adjust :
      (k i : ℕ) (f : V → V) (m : List (ℕ × V)) (v : V)
      → find? k m ≡ some v
      → find? i (adjust k f m) ≡ (if k == i then some (f v) else find? i m)
  unfolding find? adjust
  find?-adjust k i f [] v e = cc
  find?-adjust k i f ((j, w) ∷ m) v e = ground (arith, find?-adjust k i f m v)

  pub find?-erase :
      (k i : ℕ) (m : List (ℕ × V)) → (k == i) ≡ false → find? i (erase k m) ≡ find? i m
  unfolding find? erase
  find?-erase k i [] h = refl
  find?-erase k i ((j, w) ∷ m) h = ground (arith, find?-erase k i m h)

  pub find?-upsert_other :
      (bef : ℕ → ℕ → Bool) (k i : ℕ) (d : V) (f : V → V) (m : List (ℕ × V))
      → (k == i) ≡ false
      → find? i (upsert bef k d f m) ≡ find? i m
  unfolding find? upsert
  find?-upsert_other bef k i d f [] h = ground arith
  find?-upsert_other bef k i d f ((j, w) ∷ m) h = ground (arith, find?-upsert_other bef k i d f m h)

  pub find?_absent : (k : ℕ) (m : List (ℕ × V)) → All (λ e. (e.0 == k) ≡ false) m → find? k m ≡ none
  unfolding find?
  find?_absent k [] h = refl
  find?_absent k ((j, w) ∷ m) h = rw h.0 (find?_absent k m h.1)

module _ {ℓ} {V : Type ℓ} (P : ℕ × V → Type 0) where
  pub All-upsert :
      (bef : ℕ → ℕ → Bool) (k : ℕ) (d : V) (f : V → V) (m : List (ℕ × V))
      → P (k, f d)
      → ((v : V) → P (k, v) → P (k, f v))
      → All P m
      → All P (upsert bef k d f m)
  unfolding upsert
  All-upsert bef k d f [] h g a = (h, tt)
  All-upsert bef k d f ((j, v) ∷ m) h g a = elim (Bool-cases (j == k)) [
    | inl same ↦
        let e : j ≡ k = (==_iff j k).0 same in
        rw same (subst (λ i. P (i, f v)) (sym e) (g v (subst (λ i. P (i, v)) e a.0)), a.1)
    | inr other ↦ elim (Bool-cases (bef k j)) [
      | inl better ↦ rw (other, better) (h, a)
      | inr worse ↦ rw (other, worse) (a.0, All-upsert bef k d f m h g a.1)
    ]
  ]

  pub All-adjust :
      (k : ℕ) (f : V → V) (m : List (ℕ × V))
      → ((v : V) → P (k, v) → P (k, f v))
      → All P m
      → All P (adjust k f m)
  unfolding adjust
  All-adjust k f [] g a = tt
  All-adjust k f ((j, v) ∷ m) g a = elim (Bool-cases (j == k)) [
    | inl same ↦
        let e : j ≡ k = (==_iff j k).0 same in
        rw same (subst (λ i. P (i, f v)) (sym e) (g v (subst (λ i. P (i, v)) e a.0)), a.1)
    | inr other ↦ rw other (a.0, All-adjust k f m g a.1)
  ]

  pub All-erase : (k : ℕ) (m : List (ℕ × V)) → All P m → All P (erase k m)
  unfolding erase
  All-erase k [] a = tt
  All-erase k ((j, v) ∷ m) a = elim (Bool-cases (j == k)) [
    | inl same ↦ rw same a.1
    | inr other ↦ rw other (a.0, All-erase k m a.1)
  ]

  pub All-find? : (k : ℕ) (m : List (ℕ × V)) (v : V) → find? k m ≡ some v → All P m → P (k, v)
  unfolding find?
  All-find? k [] v e a = cc
  All-find? k ((j, w) ∷ m) v e a = elim (Bool-cases (j == k)) [
    | inl same ↦
        let i : j ≡ k = (==_iff j k).0 same in
        let o : w ≡ v = ground arith in subst (λ x. P (x, v)) i (subst (λ x. P (j, x)) o a.0)
    | inr other ↦ All-find? k m v (ground arith) a.1
  ]

-- The keys stand in the order `before`, each once.
abbrev pub IsOrdered {ℓ} : {V : Type ℓ} → (ℕ → ℕ → Bool) → List (ℕ × V) → Type ℓ
IsOrdered before [] = Unit
IsOrdered before ((k, v) ∷ m) = All (λ e. before k e.0 ≡ true) m × IsOrdered before m
