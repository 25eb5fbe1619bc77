-- ===== src/Pool/Flags.antt =====
-- The live flags of the slabs.
use titan_engine.Prelude.{
  ℕ, zero, suc, ◌+◌, ◌-◌, ◌≤◌, ◌<◌, ◌≡◌, refl, ◌∙◌, Bool, List, [], ◌∷◌, ◌++◌, none, some, ◌==◌,
  if◌then◌else◌, length, get_elem?, set, length-set, All, arith, Bool-cases, inl, inr, ◌⊎◌,
}
use titan_engine.Pool.{Slab, owns, live_flag_for, set_flag}

get_elem?-set :
    (bs : List Bool) (i j : ℕ) (b : Bool)
    → i < length bs
    → get_elem? (set bs i b) j ≡ (if i == j then some b else get_elem? bs j)
get_elem?-set [] i j b h = absurd (omega arith)
get_elem?-set (x ∷ bs) zero zero b h = ground arith
get_elem?-set (x ∷ bs) zero (suc j) b h = ground arith
get_elem?-set (x ∷ bs) (suc i) zero b h = ground arith
get_elem?-set (x ∷ bs) (suc i) (suc j) b h = ground (arith, get_elem?-set bs i j b (omega arith))

get_elem?-some : (bs : List Bool) (i : ℕ) → i < length bs → (b : Bool) × (get_elem? bs i ≡ some b)
get_elem?-some [] i h = absurd (omega arith)
get_elem?-some (b ∷ bs) zero h = (b, refl)
get_elem?-some (b ∷ bs) (suc i) h = get_elem?-some bs i (omega arith)

-- Each slab has as many flags as objects.
abbrev pub AreSized : ℕ → List Slab → Type 0
AreSized n ss = All (λ (s : Slab). length s.live ≡ n) ss

-- A slab and an address, or another slab, that do not meet.
abbrev pub IsApart : ℕ → Slab → Slab → Type 0
IsApart n s t = (s.base + n ≤ t.base) ⊎ (t.base + n ≤ s.base)

pub set_flag-AreSized :
    (n p : ℕ) (b : Bool) (ss : List Slab) → AreSized n ss → AreSized n (set_flag n p b ss)
unfolding set_flag
set_flag-AreSized n p b [] h = tt
set_flag-AreSized n p b (s ∷ ss) h = elim (Bool-cases (owns n p s)) [
  | inl own ↦ rw own (length-set s.live (p - s.base) b ∙ h.0, h.1)
  | inr other ↦ rw other (h.0, set_flag-AreSized n p b ss h.1)
]

-- The bases stay where they are.
pub set_flag-All :
    (P : ℕ → Type 0) (n p : ℕ) (b : Bool) (ss : List Slab)
    → All (λ (s : Slab). P s.base) ss
    → All (λ (s : Slab). P s.base) (set_flag n p b ss)
unfolding set_flag
set_flag-All P n p b [] h = tt
set_flag-All P n p b (s ∷ ss) h = elim (Bool-cases (owns n p s)) [
  | inl own ↦ rw own (h.0, h.1)
  | inr other ↦ rw other (h.0, set_flag-All P n p b ss h.1)
]

pub live_flag_for-set_flag :
    (n p q : ℕ) (b c : Bool) (ss : List Slab)
    → AreSized n ss
    → live_flag_for n p ss ≡ some c
    → live_flag_for n q (set_flag n p b ss) ≡ (if p == q then some b else live_flag_for n q ss)
unfolding live_flag_for set_flag
live_flag_for-set_flag n p q b c [] h e = cc
live_flag_for-set_flag n p q b c (s ∷ ss) h e = elim (Bool-cases (owns n p s)) [
  | inl own ↦
      rw own
        (ground (arith, get_elem?-set s.live (p - s.base) (q - s.base) b (ground (arith, h.0))))
  | inr other ↦
      let e' : live_flag_for n p ss ≡ some c = ground arith in
      let rest = live_flag_for-set_flag n p q b c ss h.1 e' in rw other (ground (arith, rest))
]

pub live_flag_for-append :
    (n p : ℕ) (ss : List Slab) (t : Slab)
    → AreSized n ss
    → live_flag_for n p (ss ++ t ∷ [])
      ≡ elim (live_flag_for n p ss) [ none ↦ live_flag_for n p (t ∷ []) | some c ↦ some c ]
unfolding live_flag_for
live_flag_for-append n p [] t h = refl
live_flag_for-append n p (s ∷ ss) t h = elim (Bool-cases (owns n p s)) [
  | inl own ↦
      let (b, e) = get_elem?-some s.live (p - s.base) (ground (arith, own, h.0)) in rw (own, e) refl
  | inr other ↦ rw other (live_flag_for-append n p ss t h.1)
]
