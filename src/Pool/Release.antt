-- ===== src/Pool/Release.antt =====
-- What `release` takes back.
use titan_engine.Prelude.{
  ℕ, suc, ◌<◌, ◌≡◌, refl, sym, ap, ◌∙◌, Bool, true, false, ◌&&◌, ◌||◌, not, List, Option, none,
  some, ◌==◌, if◌then◌else◌, arith, Bool-cases, Option-cases, inl, inr, ==_iff,
}
use titan_engine.Pool.{Slab, FixedObjectPool, live_flag_for, set_flag, acquire, release}
use titan_engine.Pool.Flags.{set_flag-AreSized, live_flag_for-set_flag}
use titan_engine.Pool.Invariant.{count, free_times, is_true, is_live, IsPool}
use titan_engine.Pool.Growth.{IsAllocator}
use titan_engine.Pool.Acquire.{acquire-IsTaken}

kept_bool : (b : Bool) → b ≡ (b && true)
kept_bool true = refl
kept_bool false = refl

-- The answer for an address that is not live stays as it was.
dead_kept :
    {T : Type 0} (ptr a : ℕ) (p : FixedObjectPool T)
    → is_live ptr p ≡ false
    → is_live a p ≡ (is_live a p && not (ptr == a))
dead_kept ptr a p h = elim (Bool-cases (ptr == a)) [
  | inl same ↦
      let it : a ≡ ptr = sym ((==_iff ptr a).0 same) in
      let dead : is_live a p ≡ false = ap (λ x. is_live x p) it ∙ h in rw (dead) refl
  | inr other ↦ rw other (kept_bool (is_live a p))
]

released_live :
    (b : Bool) (f : Option Bool) → is_true (if b then some false else f) ≡ (is_true f && not b)
released_live true none = refl
released_live true (some true) = refl
released_live true (some false) = refl
released_live false none = refl
released_live false (some true) = refl
released_live false (some false) = refl

-- After a release the pool tracks its objects, and the one released is not live.
pub release-IsPool :
    {T : Type 0} (ptr : ℕ) (p : FixedObjectPool T)
    → IsPool p
    → IsPool (release ptr p)
      × ((a : ℕ) → is_live a (release ptr p) ≡ (is_live a p && not (ptr == a)))
unfolding release
release-IsPool ptr p h =
    let n = p.slab_size in
    let flags : (c : Bool)
        → live_flag_for n ptr p.slabs ≡ some c
        → (a : ℕ)
        → live_flag_for n a (set_flag n ptr false p.slabs)
          ≡ (if ptr == a then some false else live_flag_for n a p.slabs) =
      λ c e a. live_flag_for-set_flag n ptr a false c p.slabs h.sized e in
    elim (Option-cases (live_flag_for n ptr p.slabs)) [
      | inl e ↦ rw (release, e) (h, λ a. dead_kept ptr a p (ap is_true e))
      | inr (false, e) ↦ rw (release, e) (h, λ a. dead_kept ptr a p (ap is_true e))
      | inr (true, e) ↦
          rw (release, e)
            (
              record {
                sized = set_flag-AreSized n ptr false p.slabs h.sized;
                tracked = λ a. elim (Bool-cases (ptr == a)) [
                  | inl same ↦
                      let it : ptr ≡ a = (==_iff ptr a).0 same in
                      let now : live_flag_for n a (set_flag n ptr false p.slabs) ≡ some false =
                        flags true e a ∙ rw same refl in
                      let none_yet : count a p.free_list ≡ 0 =
                        h.tracked a
                        ∙ ap free_times (ap (λ x. live_flag_for n x p.slabs) (sym it) ∙ e) in
                      rw same (ap suc none_yet ∙ sym (ap free_times now))
                  | inr other ↦
                      let now : live_flag_for n a (set_flag n ptr false p.slabs)
                          ≡ live_flag_for n a p.slabs =
                        flags true e a ∙ rw other refl in
                      rw other (h.tracked a ∙ sym (ap free_times now))
                ];
              },
              λ a.
                  ap is_true (flags true e a)
                  ∙ released_live (ptr == a) (live_flag_for n a p.slabs),
            )
    ]

clash : (b : Bool) → b ≡ true → b ≡ false → ⊥
clash b e f = cc

-- A second release, or one of a foreign address, changes nothing.
release-dead :
    {T : Type 0} (ptr : ℕ) (p : FixedObjectPool T) → is_live ptr p ≡ false → release ptr p ≡ p
unfolding release
release-dead ptr p h = elim (Option-cases (live_flag_for p.slab_size ptr p.slabs)) [
  | inl e ↦ rw (release, e) refl
  | inr (false, e) ↦ rw (release, e) refl
  | inr (true, e) ↦ absurd (clash (is_live ptr p) (ap is_true e) h)
]

-- A second `release` of the same address changes nothing, on a pool whose free list has the
-- objects that are not live, each once.
pub release-release :
    {T : Type 0} (ptr : ℕ) (p : FixedObjectPool T)
    → IsPool p
    → release ptr (release ptr p) ≡ release ptr p
release-release ptr p h =
    release-dead ptr (release ptr p) ((release-IsPool ptr p h).1 ptr ∙ ground arith)

taken_back : (b c : Bool) → (b ≡ true → c ≡ false) → ((b || c) && not b) ≡ c
taken_back true c h = sym (h refl)
taken_back false true h = refl
taken_back false false h = refl

-- `acquire` and then `release` of what it handed out, on a pool whose free list has the objects
-- that are not live, each once, with slabs that are not empty and an allocator whose storage
-- meets no slab, ends in such a pool with the same objects live.
pub release-acquire :
    {T : Type 0} (allocate : List Slab → ℕ) (initial : T) (p : FixedObjectPool T)
    → IsPool p
    → 0 < p.slab_size
    → IsAllocator p.slab_size allocate
    → (ptr : ℕ) × (q : FixedObjectPool T) × (acquire allocate initial p ≡ some (ptr, q))
      × IsPool (release ptr q)
      × ((a : ℕ) → is_live a (release ptr q) ≡ is_live a p)
release-acquire allocate initial p h pos al =
    let (ptr, q, e, it) = acquire-IsTaken allocate initial p h pos al in
    let (k, live) = release-IsPool ptr q it.0 in
    (
      ptr,
      q,
      e,
      k,
      λ a.
          live a
          ∙ ap (λ b. b && not (ptr == a)) (it.3 a)
          ∙ taken_back (ptr == a) (is_live a p)
              (λ same. ap (λ x. is_live x p) (sym ((==_iff ptr a).0 same)) ∙ it.1),
    )
