-- ===== src/Pool/Tests.antt =====
-- The pool on a concrete allocator: new storage starts behind all slabs.
use titan_engine.Prelude.{
  ◌==◌, ℕ, ◌+◌, ◌≤◌, ◌≡◌, ◌&&◌, not, List, [], ◌∷◌, some, arith, inl, All, All-map,
}
use titan_engine.Pool.{Slab, FixedObjectPool, empty_pool, acquire, release}
use titan_engine.Pool.Invariant.{is_live, IsPool, empty-IsPool}
use titan_engine.Pool.Growth.{IsAllocator}
use titan_engine.Pool.Acquire.{IsTaken, acquire-IsTaken}
use titan_engine.Pool.Release.{release-IsPool, release-release, release-acquire}

unfoldable behind : List Slab → ℕ
behind [] = 0
behind (s ∷ ss) = s.base + (2 + behind ss)

behind-All : (ss : List Slab) → All (λ (s : Slab). s.base + 2 ≤ behind ss) ss
unfolding behind
behind-All [] = tt
behind-All (s ∷ ss) = (
  omega arith,
  All-map _ _ ss (λ (t : Slab) (h : t.base + 2 ≤ behind ss). omega (arith, h)) (behind-All ss),
)

behind-IsAllocator : IsAllocator 2 behind
behind-IsAllocator ss =
    All-map _ _ ss (λ (s : Slab) (h : s.base + 2 ≤ behind ss). inl h) (behind-All ss)

abbrev none_made : FixedObjectPool ℕ
none_made = empty_pool 2 (λ a. 9)

none_made-IsPool : IsPool none_made
none_made-IsPool = empty-IsPool 2 (λ a. 9)

acquire-IsTaken_example :
    (ptr : ℕ) × (q : FixedObjectPool ℕ) × (acquire behind 7 none_made ≡ some (ptr, q))
    × IsTaken behind 7 none_made ptr q
acquire-IsTaken_example =
    acquire-IsTaken behind 7 none_made none_made-IsPool (omega arith) behind-IsAllocator

release-IsPool_example :
    IsPool (release 1 none_made)
    × ((a : ℕ) → is_live a (release 1 none_made) ≡ (is_live a none_made && not (1 == a)))
release-IsPool_example = release-IsPool 1 none_made none_made-IsPool

release-release_example : release 1 (release 1 none_made) ≡ release 1 none_made
release-release_example = release-release 1 none_made none_made-IsPool

release-acquire_example :
    (ptr : ℕ) × (q : FixedObjectPool ℕ) × (acquire behind 7 none_made ≡ some (ptr, q))
    × IsPool (release ptr q)
    × ((a : ℕ) → is_live a (release ptr q) ≡ is_live a none_made)
release-acquire_example =
    release-acquire behind 7 none_made none_made-IsPool (omega arith) behind-IsAllocator
