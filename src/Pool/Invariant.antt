-- ===== src/Pool/Invariant.antt =====
-- The free list has the objects that are not live, each once.
use titan_engine.Prelude.{
  ℕ, suc, ◌≡◌, refl, Bool, true, false, List, [], ◌∷◌, Option, none, some, ◌==◌, if◌then◌else◌,
}
use titan_engine.Pool.{FixedObjectPool, live_flag_for, empty_pool}
use titan_engine.Pool.Flags.{AreSized}

abbrev pub count : ℕ → List ℕ → ℕ
count a [] = 0
count a (x ∷ xs) = let rest = count a xs in if x == a then suc rest else rest

-- How often an address with this flag is in the free list.
abbrev pub free_times : Option Bool → ℕ
free_times none = 0
free_times (some true) = 0
free_times (some false) = 1

abbrev pub is_true : Option Bool → Bool
is_true none = false
is_true (some b) = b

abbrev pub is_live {ℓ} : {T : Type ℓ} → ℕ → FixedObjectPool T → Bool
is_live a p = is_true (live_flag_for p.slab_size a p.slabs)

pub record IsPool {ℓ} {T : Type ℓ} (p : FixedObjectPool T) : Type ℓ where
  pub sized : AreSized p.slab_size p.slabs
  pub tracked : (a : ℕ) → count a p.free_list ≡ free_times (live_flag_for p.slab_size a p.slabs)

pub empty-IsPool : {T : Type 0} (n : ℕ) (b : ℕ → T) → IsPool (empty_pool n b)
unfolding live_flag_for
empty-IsPool n b = record { sized = tt; tracked = λ a. refl }
