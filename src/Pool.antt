-- ===== src/Pool.antt =====
-- `FixedObjectPool` of include/titan/core/memory_pool.hpp. A pointer is its distance in objects
-- from the first address, and `allocate` is the allocator: the address of a new slab.
use titan_engine.Prelude.{
  ℕ, zero, suc, ◌+◌, ◌-◌, Bool, true, false, ◌&&◌, List, [], ◌∷◌, ◌++◌, Option, none, some, ltb,
  leb, ◌==◌, if◌then◌else◌, length, get_elem?, set,
}
pub mod Flags
pub mod Invariant
pub mod Growth
pub mod Acquire
pub mod Release
mod Tests

pub record Slab : Type 0 where
  pub base : ℕ
  pub live : List Bool

-- The head of `free_list` is the back of the vector; `objects` has the object at an address.
pub record FixedObjectPool {ℓ} (T : Type ℓ) : Type ℓ where
  pub slab_size : ℕ
  pub slabs : List Slab
  pub free_list : List ℕ
  pub objects : ℕ → T

abbrev pub empty_pool {ℓ} : {T : Type ℓ} → ℕ → (ℕ → T) → FixedObjectPool T
empty_pool slab_size b = record { slab_size = slab_size; slabs = []; free_list = []; objects = b }

abbrev pub owns : ℕ → ℕ → Slab → Bool
owns n p s = leb s.base p && ltb p (s.base + n)

-- `none` is the null pointer.
unfoldable pub live_flag_for : ℕ → ℕ → List Slab → Option Bool
live_flag_for n p [] = none
live_flag_for n p (s ∷ ss) =
    let rest = live_flag_for n p ss in if owns n p s then get_elem? s.live (p - s.base) else rest

-- A write through the pointer that `liveFlagFor` returns.
unfoldable pub set_flag : ℕ → ℕ → Bool → List Slab → List Slab
set_flag n p b [] = []
set_flag n p b (s ∷ ss) =
    let rest = set_flag n p b ss in
    if owns n p s then record s { live = set s.live (p - s.base) b } ∷ ss else s ∷ rest

abbrev pub all_dead : ℕ → List Bool
all_dead zero = []
all_dead (suc n) = false ∷ all_dead n

-- The addresses of a slab, the last one first.
unfoldable pub addresses : ℕ → ℕ → List ℕ
addresses base zero = []
addresses base (suc n) = (base + n) ∷ addresses base n

module _ {ℓ} {T : Type ℓ} (allocate : List Slab → ℕ) (initial : T) where
  unfoldable pub grow_by_slab : FixedObjectPool T → FixedObjectPool T
  unfolding addresses
  grow_by_slab p =
      let base = allocate p.slabs in
      record p {
        free_list = addresses base p.slab_size ++ p.free_list;
        slabs = p.slabs ++ record { base = base; live = all_dead p.slab_size } ∷ [];
      }

  -- The object at the back of the free list is live, and made anew.
  abbrev pub taken : ℕ → List ℕ → FixedObjectPool T → FixedObjectPool T
  taken ptr free p = record p {
    free_list = free;
    slabs = set_flag p.slab_size ptr true p.slabs;
    objects = λ a. if a == ptr then initial else p.objects a;
  }

  -- `none` where the source takes the back of an empty vector or writes through a null pointer.
  unfoldable pub take_free : FixedObjectPool T → Option (ℕ × FixedObjectPool T)
  unfolding live_flag_for set_flag
  take_free p = elim p.free_list [
    | [] ↦ none
    | ptr ∷ free ↦ elim (live_flag_for p.slab_size ptr p.slabs) [
      | none ↦ none
      | some _ ↦ some (ptr, taken ptr free p)
    ]
  ]

  unfoldable pub grow_if_empty : FixedObjectPool T → FixedObjectPool T
  unfolding grow_by_slab
  grow_if_empty p = elim p.free_list [ [] ↦ grow_by_slab p | _ ∷ _ ↦ p ]

  unfoldable pub acquire : FixedObjectPool T → Option (ℕ × FixedObjectPool T)
  unfolding grow_if_empty take_free
  acquire p = take_free (grow_if_empty p)

abbrev pub released {ℓ} : {T : Type ℓ} → ℕ → FixedObjectPool T → FixedObjectPool T
released ptr p = record p {
  free_list = ptr ∷ p.free_list;
  slabs = set_flag p.slab_size ptr false p.slabs;
}

unfoldable pub release {ℓ} : {T : Type ℓ} → ℕ → FixedObjectPool T → FixedObjectPool T
unfolding live_flag_for set_flag
release ptr p = elim (live_flag_for p.slab_size ptr p.slabs) [
  | none ↦ p
  | some live ↦ if live then released ptr p else p
]

abbrev pub slab_count {ℓ} : {T : Type ℓ} → FixedObjectPool T → ℕ
slab_count p = length p.slabs

abbrev pub free_count {ℓ} : {T : Type ℓ} → FixedObjectPool T → ℕ
free_count p = length p.free_list
