-- ===== src/Queue/Slots.antt =====
-- Places in a ring: counted without end, at their remainder.
use native.Mathlib.Nat.{div-add-mod, mul-le-mul_left, mul-suc, mod-add-mod}
use titan_engine.Prelude.{
  ℕ, suc, ◌+◌, ◌/◌, ◌%◌, ◌≤◌, ◌<◌, ◌≡◌, ◌≢◌, ap, ◌∙◌, List, [], ◌∷◌, ◌++◌, length, false, dec_lt,
  ◌==◌, arith,
}
use titan_engine.Queue.{write, advance}

-- Two places less than a round apart are two slots.
pub mod-apart : (n r s : ℕ) → r < s → s < r + n → s % n ≢ r % n
mod-apart n r s a b e =
    let x = div-add-mod r n in
    let y = div-add-mod s n in
    elim (dec_lt (r / n) (s / n)) [
      | yes h ↦ absurd (omega (arith, x, y, e, mul-le-mul_left n h, mul-suc n (r / n)))
      | no h ↦
          let back : s / n ≤ r / n = omega arith in
          absurd (omega (arith, x, y, e, mul-le-mul_left n back))
    ]

pub advance-mod : (n r : ℕ) → advance n (r % n) ≡ (r + 1) % n
unfolding advance
advance-mod n r = mod-add-mod r n 1

module _ {ℓ} {A : Type ℓ} where
  -- The slots from the place `r` on hold the items.
  abbrev pub Holds : ℕ → (ℕ → A) → ℕ → List A → Type ℓ
  Holds n b r [] = Unit
  Holds n b r (x ∷ xs) = (b (r % n) ≡ x) × Holds n b (suc r) xs

  pub Holds-write :
      (n : ℕ) (b : ℕ → A) (r s : ℕ) (xs : List A) (v : A)
      → r + length xs ≤ s
      → s < r + n
      → Holds n b r xs
      → Holds n (write (s % n) v b) r xs
  Holds-write n b r s [] v a c h = tt
  Holds-write n b r s (x ∷ xs) v a c h =
      let far : (s % n == r % n) ≡ false = ground (arith, mod-apart n r s (omega arith) c) in
      (rw far h.0, Holds-write n b (suc r) s xs v (omega arith) (omega arith) h.1)

  pub Holds-snoc :
      (n : ℕ) (b : ℕ → A) (r : ℕ) (xs : List A) (v : A)
      → Holds n b r xs
      → b ((r + length xs) % n) ≡ v
      → Holds n b r (xs ++ v ∷ [])
  Holds-snoc n b r [] v h e = (ap (λ s. b (s % n)) (omega arith) ∙ e, tt)
  Holds-snoc n b r (x ∷ xs) v h e =
      (h.0, Holds-snoc n b (suc r) xs v h.1 (ap (λ s. b (s % n)) (omega arith) ∙ e))
