-- ===== src/Pool/Acquire.antt =====
-- What `acquire` hands out.
use titan_engine.Prelude.{
  ℕ, suc, ◌+◌, ◌≤◌, ◌<◌, ◌≡◌, ◌≢◌, refl, sym, ap, ◌∙◌, Bool, true, false, ◌&&◌, ◌||◌, List, [], ◌∷◌,
  ◌++◌, Option, none, some, ltb, leb, ◌==◌, if◌then◌else◌, length, All-append, arith, Bool-cases,
  List-cases, inl, inr, ==_iff, append-nil, length-append,
}
use titan_engine.Pool.{
  Slab, FixedObjectPool, live_flag_for, set_flag, all_dead, addresses, grow_by_slab, grow_if_empty,
  taken, take_free, acquire,
}
use titan_engine.Pool.Flags.{set_flag-AreSized, live_flag_for-set_flag}
use titan_engine.Pool.Invariant.{count, free_times, is_true, is_live, IsPool}
use titan_engine.Pool.Growth.{
  IsAllocator, count-addresses, length-addresses, length-all_dead, live_flag_for-none, grown_flags,
}

new_times :
    (b : Bool) (f : Option Bool)
    → free_times f ≡ 0
    → (if b then 1 else 0) ≡ free_times (if b then some false else f)
new_times true f h = refl
new_times false f h = sym h

taken_live : (b : Bool) (f : Option Bool) → is_true (if b then some true else f) ≡ (b || is_true f)
taken_live true f = refl
taken_live false f = refl

free_times-suc : (f : Option Bool) (k : ℕ) → free_times f ≡ suc k → f ≡ some false
free_times-suc none k h = absurd (omega arith)
free_times-suc (some true) k h = absurd (omega arith)
free_times-suc (some false) k h = refl

module _ {T : Type 0} (allocate : List Slab → ℕ) (initial : T) where
  -- Growth when nothing is free: the new objects are free, and the live ones are as before.
  grow_by_slab-IsPool :
      (p : FixedObjectPool T)
      → IsPool p
      → IsAllocator p.slab_size allocate
      → p.free_list ≡ []
      → IsPool (grow_by_slab allocate initial p)
        × ((a : ℕ) → is_live a (grow_by_slab allocate initial p) ≡ is_live a p)
  unfolding grow_by_slab
  grow_by_slab-IsPool p h al e =
      let n = p.slab_size in
      let base = allocate p.slabs in
      let new : Slab = record { base = base; live = all_dead n } in
      let flags : (a : ℕ)
          → live_flag_for n a (p.slabs ++ new ∷ [])
            ≡ (if leb base a && ltb a (base + n) then some false else live_flag_for n a p.slabs) =
        λ a. grown_flags n a base p.slabs h.sized (al p.slabs) in
      let none_free : (a : ℕ) → free_times (live_flag_for n a p.slabs) ≡ 0 =
        λ a. sym (h.tracked a) ∙ ap (count a) e in
      let listed : (a : ℕ)
          → count a (addresses base n ++ p.free_list)
            ≡ (if leb base a && ltb a (base + n) then 1 else 0) =
        λ a.
          ap (λ xs. count a (addresses base n ++ xs)) e
          ∙ ap (count a) (append-nil (addresses base n))
          ∙ count-addresses a base n in
      (
        record {
          sized = All-append _ p.slabs (new ∷ []) h.sized (length-all_dead n, tt);
          tracked = λ a.
              listed a
              ∙ new_times (leb base a && ltb a (base + n)) (live_flag_for n a p.slabs) (none_free a)
              ∙ sym (ap free_times (flags a));
        },
        λ a. elim (Bool-cases (leb base a && ltb a (base + n))) [
          | inl own ↦
              ap is_true (flags a)
              ∙ rw (own, live_flag_for-none n a base p.slabs own (al p.slabs)) refl
          | inr other ↦ ap is_true (flags a) ∙ rw other refl
        ],
      )

  -- What `acquire` promises: an object that was not live is live, as made by its constructor, and
  -- the other objects are as they were.
  abbrev pub IsTaken : FixedObjectPool T → ℕ → FixedObjectPool T → Type 0
  IsTaken p ptr q =
      IsPool q
      × (is_live ptr p ≡ false)
      × (q.objects ptr ≡ initial)
      × ((a : ℕ) → is_live a q ≡ ((ptr == a) || is_live a p))
      × ((a : ℕ) → a ≢ ptr → q.objects a ≡ p.objects a)

  take_free-IsTaken :
      (p : FixedObjectPool T) (ptr : ℕ) (free : List ℕ)
      → IsPool p
      → p.free_list ≡ ptr ∷ free
      → (q : FixedObjectPool T) × (take_free allocate initial p ≡ some (ptr, q)) × IsTaken p ptr q
  unfolding take_free
  take_free-IsTaken p ptr free h e =
      let n = p.slab_size in
      let once : free_times (live_flag_for n ptr p.slabs) ≡ suc (count ptr free) =
        sym (h.tracked ptr) ∙ ap (count ptr) e ∙ ground arith in
      let dead : live_flag_for n ptr p.slabs ≡ some false =
        free_times-suc (live_flag_for n ptr p.slabs) (count ptr free) once in
      let flags : (a : ℕ)
          → live_flag_for n a (set_flag n ptr true p.slabs)
            ≡ (if ptr == a then some true else live_flag_for n a p.slabs) =
        λ a. live_flag_for-set_flag n ptr a true false p.slabs h.sized dead in
      let counted : (a : ℕ)
          → count a p.free_list ≡ (if ptr == a then suc (count a free) else count a free) =
        λ a. ap (count a) e in
      (
        taken allocate initial ptr free p,
        rw (take_free, e, dead) refl,
        (
          record {
            sized = set_flag-AreSized n ptr true p.slabs h.sized;
            tracked = λ a. elim (Bool-cases (ptr == a)) [
              | inl same ↦
                  let it : a ≡ ptr = sym ((==_iff ptr a).0 same) in
                  let none_left : count ptr free ≡ 0 = omega (arith, once, ap free_times dead) in
                  let now : live_flag_for n a (set_flag n ptr true p.slabs) ≡ some true =
                    flags a ∙ rw same refl in
                  ap (λ x. count x free) it ∙ none_left ∙ sym (ap free_times now)
              | inr other ↦
                  let now : live_flag_for n a (set_flag n ptr true p.slabs)
                      ≡ live_flag_for n a p.slabs =
                    flags a ∙ rw other refl in
                  let same : count a p.free_list ≡ count a free = counted a ∙ rw other refl in
                  sym same ∙ h.tracked a ∙ sym (ap free_times now)
            ];
          },
          ap is_true dead,
          ground arith,
          λ a. ap is_true (flags a) ∙ taken_live (ptr == a) (live_flag_for n a p.slabs),
          λ a other. ground arith,
        ),
      )

  grows : (xs : List ℕ) (g p : FixedObjectPool T) → xs ≡ [] → elim xs [ [] ↦ g | _ ∷ _ ↦ p ] ≡ g
  grows xs g p e = rw e refl

  keeps :
      (xs : List ℕ) (x : ℕ) (rest : List ℕ) (g p : FixedObjectPool T)
      → xs ≡ x ∷ rest
      → elim xs [ [] ↦ g | _ ∷ _ ↦ p ] ≡ p
  keeps xs x rest g p e = rw e refl

  grown-length :
      (p : FixedObjectPool T) → p.slab_size ≤ length (grow_by_slab allocate initial p).free_list
  unfolding grow_by_slab
  grown-length p =
      let base = allocate p.slabs in
      omega (
        arith,
        length-append (addresses base p.slab_size) p.free_list,
        length-addresses base p.slab_size,
      )

  -- `acquire` of a pool whose free list has the objects that are not live, each once, with slabs
  -- that are not empty and an allocator whose storage meets no slab, ends and keeps the pool so;
  -- the object was not live, is live and new, and the other objects are as they were, live or
  -- not.
  pub acquire-IsTaken :
      (p : FixedObjectPool T)
      → IsPool p
      → 0 < p.slab_size
      → IsAllocator p.slab_size allocate
      → (ptr : ℕ) × (q : FixedObjectPool T) × (acquire allocate initial p ≡ some (ptr, q))
        × IsTaken p ptr q
  unfolding acquire grow_if_empty
  acquire-IsTaken p h pos al = elim (List-cases p.free_list) [
    | inr (ptr, free, e) ↦
        let (q, r, t) = take_free-IsTaken p ptr free h e in
        let ready : grow_if_empty allocate initial p ≡ p =
          keeps p.free_list ptr free (grow_by_slab allocate initial p) p e in
        (ptr, q, ap (take_free allocate initial) ready ∙ r, t)
    | inl e ↦
        let (g, kept) = grow_by_slab-IsPool p h al e in
        let grown = grow_by_slab allocate initial p in
        let ready : grow_if_empty allocate initial p ≡ grown = grows p.free_list grown p e in
        elim (List-cases grown.free_list) [
          | inl f ↦ absurd (omega (arith, pos, ap length f, grown-length p))
          | inr (ptr, free, f) ↦
              let (q, r, it) = take_free-IsTaken grown ptr free g f in
              let (t, dead, made, live, others) = it in
              (
                ptr,
                q,
                ap (take_free allocate initial) ready ∙ r,
                (
                  t,
                  sym (kept ptr) ∙ dead,
                  made,
                  λ a. live a ∙ ap (λ b. (ptr == a) || b) (kept a),
                  others,
                ),
              )
        ]
  ]
