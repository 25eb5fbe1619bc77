-- ===== src/Pool/Growth.antt =====
-- The flags and the free objects that a new slab brings.
use titan_engine.Prelude.{
  ℕ, zero, suc, ◌+◌, ◌-◌, ◌<◌, ◌≡◌, refl, ap, ◌∙◌, true, false, ◌&&◌, List, [], ◌∷◌, ◌++◌, none,
  some, ltb, leb, if◌then◌else◌, length, get_elem?, All, arith, Bool-cases, Option-cases, inl, inr,
}
use titan_engine.Pool.{Slab, owns, live_flag_for, all_dead, addresses}
use titan_engine.Pool.Flags.{AreSized, IsApart, live_flag_for-append}
use titan_engine.Pool.Invariant.{count}

-- New storage does not meet the storage of the slabs.
abbrev pub IsAllocator : ℕ → (List Slab → ℕ) → Type 0
IsAllocator n allocate =
    (ss : List Slab) → All (λ (s : Slab). IsApart n s (record { base = allocate ss; live = [] })) ss

pub count-addresses :
    (a base n : ℕ) → count a (addresses base n) ≡ (if leb base a && ltb a (base + n) then 1 else 0)
unfolding addresses
count-addresses a base zero = ground arith
count-addresses a base (suc n) = ground (arith, count-addresses a base n)

get-all_dead : (n i : ℕ) → i < n → get_elem? (all_dead n) i ≡ some false
get-all_dead zero i h = absurd (omega arith)
get-all_dead (suc n) zero h = refl
get-all_dead (suc n) (suc i) h = get-all_dead n i (omega arith)

pub length-addresses : (base n : ℕ) → length (addresses base n) ≡ n
unfolding addresses
length-addresses base zero = refl
length-addresses base (suc n) = ap suc (length-addresses base n)

pub length-all_dead : (n : ℕ) → length (all_dead n) ≡ n
length-all_dead zero = refl
length-all_dead (suc n) = ap suc (length-all_dead n)

-- The flags of a new slab.
live_flag_for-new :
    (n a base : ℕ)
    → live_flag_for n a (record { base = base; live = all_dead n } ∷ [])
      ≡ (if leb base a && ltb a (base + n) then some false else none)
unfolding live_flag_for
live_flag_for-new n a base = elim (Bool-cases (leb base a && ltb a (base + n))) [
  | inl own ↦ rw own (get-all_dead n (a - base) (ground (arith, own)))
  | inr other ↦ rw other refl
]

-- An address of new storage is in no slab.
pub live_flag_for-none :
    (n a base : ℕ) (ss : List Slab)
    → (leb base a && ltb a (base + n)) ≡ true
    → All (λ (s : Slab). IsApart n s (record { base = base; live = [] })) ss
    → live_flag_for n a ss ≡ none
unfolding live_flag_for
live_flag_for-none n a base [] own h = refl
live_flag_for-none n a base (s ∷ ss) own h =
    let rest = live_flag_for-none n a base ss own h.1 in
    let far : owns n a s ≡ false = elim h.0 [
      | inl x ↦ ground (arith, x, own)
      | inr x ↦ ground (arith, x, own)
    ] in
    rw far rest

-- The flags with a new slab at `base`.
pub grown_flags :
    (n a base : ℕ) (ss : List Slab)
    → AreSized n ss
    → All (λ (s : Slab). IsApart n s (record { base = base; live = [] })) ss
    → live_flag_for n a (ss ++ record { base = base; live = all_dead n } ∷ [])
      ≡ (if leb base a && ltb a (base + n) then some false else live_flag_for n a ss)
grown_flags n a base ss sized far =
    let split = live_flag_for-append n a ss (record { base = base; live = all_dead n }) sized in
    let new = live_flag_for-new n a base in
    elim (Bool-cases (leb base a && ltb a (base + n))) [
      | inl own ↦ split ∙ rw (live_flag_for-none n a base ss own far, new, own) refl
      | inr other ↦ elim (Option-cases (live_flag_for n a ss)) [
        | inl e ↦ split ∙ rw (e, new, other) refl
        | inr (b, e) ↦ split ∙ rw (e, other) refl
      ]
    ]
