-- ===== src/Book/Ladder/Index.antt =====
-- The table and the levels still agree after an order is queued, taken out or partly filled.
use titan_engine.Prelude.{
  ℕ, ◌+◌, ◌≤◌, ◌≡◌, refl, sym, ◌∙◌, true, false, List, [], ◌∷◌, ◌++◌, Option, some, All, ◌≢◌, ◌==◌,
  ==_iff, if◌then◌else◌, arith, append_assoc, Bool-cases, inl, inr, ◌⊎◌, nat_eq,
}
use titan_engine.Prelude.Assoc.{lookup, erase, lookup-erase}
use titan_engine.Prelude.OrderedMap
use titan_engine.Core.{Side, buy, sell, opposite, Order}
use titan_engine.Book.Spec.{dequeue}
use titan_engine.Book.Ladder.{Location, count_id, flatten, IsLadder, Stands, IsIndexed}
use titan_engine.Book.Ladder.Queue.{
  count_id-append, dequeue_absent, dequeue-append, Split-at, IsLadder-adjust, IsLadder-erase,
  level-IsLadder,
}

pub by_side {ℓ} : (P : Side → Type ℓ) (s : Side) → P s → P (opposite s) → (t : Side) → P t
by_side P buy p q buy = p
by_side P buy p q sell = q
by_side P sell p q buy = q
by_side P sell p q sell = p

pub total_by_side : (f : Side → ℕ) (s : Side) → f buy + f sell ≡ f s + f (opposite s)
total_by_side f buy = omega arith
total_by_side f sell = omega arith

pub count_id-dequeue :
    (i j : ℕ) (xs : List Order)
    → 0 ≤ count_id i xs
    → (count_id j (dequeue i xs) ≤ count_id j xs)
      × ((i == j) ≡ false → count_id j (dequeue i xs) ≡ count_id j xs)
      × (1 ≤ count_id i xs → count_id i (dequeue i xs) + 1 ≡ count_id i xs)
unfolding dequeue
count_id-dequeue i j [] h = (omega arith, λ e. refl, λ e. omega arith)
count_id-dequeue i j (x ∷ xs) h = ground (arith, count_id-dequeue i j xs (omega arith))

pub ne_of_test : (i j : ℕ) → (i == j) ≡ false → i ≢ j
ne_of_test i j h = ground arith

pub some_eq {ℓ} : {A : Type ℓ} {a b : A} → some a ≡ some b → a ≡ b
some_eq e = cc

All-drop {κ} :
    (P : Order → Type κ) (xs : List Order) (o : Order) (ys : List Order)
    → All P (xs ++ (o ∷ ys))
    → All P (xs ++ ys)
All-drop P [] o ys a = a.1
All-drop P (x ∷ xs) o ys a = (a.0, All-drop P xs o ys a.1)

-- Taking the one order with an id out of the middle of a queue.
dequeue_middle :
    (i : ℕ) (front ahead : List Order) (o : Order) (behind back : List Order)
    → o.id ≡ i
    → count_id i (front ++ ((ahead ++ (o ∷ behind)) ++ back)) ≤ 1
    → (front ++ ((ahead ++ behind) ++ back)
        ≡ dequeue i (front ++ ((ahead ++ (o ∷ behind)) ++ back)))
      × (count_id i (front ++ ((ahead ++ (o ∷ behind)) ++ back)) ≡ 1)
unfolding dequeue
dequeue_middle i front ahead o behind back e once =
    let hit : (o.id == i) ≡ true = (==_iff o.id i).1 e in
    let one : ◌≡◌ {A = ℕ} (if o.id == i then 1 else 0) 1 = rw hit in
    let c₀ = count_id-append i front ((ahead ++ (o ∷ behind)) ++ back) in
    let c₁ = count_id-append i (ahead ++ (o ∷ behind)) back in
    let c₂ = count_id-append i ahead (o ∷ behind) in
    let before_it : count_id i front ≡ 0 = omega (arith, one, c₀, c₁, c₂) in
    let ahead_of_it : count_id i ahead ≡ 0 = omega (arith, one, c₀, c₁, c₂) in
    (
      rw (
        dequeue-append i front ((ahead ++ (o ∷ behind)) ++ back) before_it,
        append_assoc ahead (o ∷ behind) back,
        dequeue-append i ahead (o ∷ (behind ++ back)) ahead_of_it,
        hit,
        append_assoc ahead behind back,
      ),
      omega (arith, one, c₀, c₁, c₂),
    )

module _ {C : Type 0} (to_list : C → List Order) (at : C → ℕ → Option Order) where
  -- What it takes to remove the order in a slot of a level.
  pub record TakesOut (remove : C → C) (c : C) (slot i : ℕ) : Type 0 where
    pub ahead : List Order
    pub order : Order
    pub behind : List Order
    pub has_id : order.id ≡ i
    pub had : to_list c ≡ ahead ++ (order ∷ behind)
    pub has : to_list (remove c) ≡ ahead ++ behind
    pub others : (k : ℕ) (x : Order) → at c k ≡ some x → x.id ≢ i → at (remove c) k ≡ some x
    pub occupied : (k : ℕ) (x : Order) → at (remove c) k ≡ some x → to_list (remove c) ≢ []

  -- The levels of a side without a level that has become empty.
  abbrev pub Pruned : (C → C) → C → ℕ → List (ℕ × C) → List (ℕ × C) → Type 0
  Pruned remove c p ls ls' =
      ((to_list (remove c) ≡ []) × (ls' ≡ OrderedMap.erase p ls))
      ⊎ ((to_list (remove c) ≢ []) × (ls' ≡ OrderedMap.adjust p remove ls))

  module _ (remove : C → C) (c : C) (i p slot : ℕ) (ls ls' : List (ℕ × C))
      (found : OrderedMap.find? p ls ≡ some c) (out : TakesOut remove c slot i)
      (pruned : Pruned remove c p ls ls') where
    pruned_queue :
        (front back : List Order)
        → flatten to_list at (OrderedMap.erase p ls) ≡ front ++ back
        → flatten to_list at (OrderedMap.adjust p remove ls) ≡ front ++ (to_list (remove c) ++ back)
        → flatten to_list at ls' ≡ front ++ ((out.ahead ++ out.behind) ++ back)
    pruned_queue front back e a = elim pruned [
      | inl (none_left, x) ↦ rw (x, e, ← out.has, none_left)
      | inr (some_left, x) ↦ rw (x, a, out.has)
    ]

    pub flatten-pruned :
        count_id i (flatten to_list at ls) ≤ 1
        → (flatten to_list at ls' ≡ dequeue i (flatten to_list at ls))
          × (count_id i (flatten to_list at ls) ≡ 1)
    flatten-pruned once =
        let sp = Split-at to_list at p ls c found in
        let whole : flatten to_list at ls
            ≡ sp.front ++ ((out.ahead ++ (out.order ∷ out.behind)) ++ sp.back) =
          rw (sp.whole, out.had) in
        let middle =
          dequeue_middle i sp.front out.ahead out.order out.behind sp.back out.has_id
            (rw (← whole) once) in
        (
          rw whole (pruned_queue sp.front sp.back sp.erased (sp.adjusted remove) ∙ middle.0),
          rw whole middle.1,
        )

    pub IsLadder-pruned : (s : Side) → IsLadder to_list at s ls → IsLadder to_list at s ls'
    IsLadder-pruned s l = elim pruned [
      | inl (none_left, x) ↦ rw x (IsLadder-erase to_list at s p ls l)
      | inr (some_left, x) ↦
          let level = level-IsLadder to_list at s p ls c found l in
          rw x (
            IsLadder-adjust to_list at s p remove ls c found some_left
              (rw out.has (All-drop _ out.ahead out.order out.behind (rw (← out.had) level.1))) l)
    ]

    pub Stands-pruned :
        (loc : Location) (j : ℕ)
        → (i == j) ≡ false
        → Stands to_list at ls loc j
        → Stands to_list at ls' loc j
    Stands-pruned loc j ne st = elim (Bool-cases (p == loc.price)) [
      | inl same ↦
          let at_p : p ≡ loc.price = (==_iff p loc.price).0 same in
          let it : c ≡ st.level = some_eq (sym found ∙ rw at_p st.level_found) in
          let kept =
            out.others loc.slot st.order (rw it st.order_found)
              (λ e. ne_of_test i j ne (sym e ∙ st.same_id)) in
          elim pruned [
            | inl (none_left, x) ↦ absurd (out.occupied loc.slot st.order kept none_left)
            | inr (some_left, x) ↦ record {
              level = remove c;
              order = st.order;
              level_found = rw (x, OrderedMap.find?-adjust p loc.price remove ls c found, same);
              order_found = kept;
              same_id = st.same_id;
            }
          ]
      | inr other ↦ record {
        level = st.level;
        order = st.order;
        level_found = elim pruned [
          | inl (none_left, x) ↦ rw (x, OrderedMap.find?-erase p loc.price ls other) st.level_found
          | inr (some_left, x) ↦
              rw (x, OrderedMap.find?-adjust p loc.price remove ls c found, other) st.level_found
        ];
        order_found = st.order_found;
        same_id = st.same_id;
      }
    ]

  module _ (ls ls' : Side → List (ℕ × C)) (table : List (ℕ × Location)) (s : Side)
      (same_other : ls' (opposite s) ≡ ls (opposite s)) (ix : IsIndexed to_list at ls table) where
    both_by_side :
        (f : Side → List (ℕ × C)) (i : ℕ)
        → count_id i (flatten to_list at (f buy)) + count_id i (flatten to_list at (f sell))
          ≡ count_id i (flatten to_list at (f s)) + count_id i (flatten to_list at (f (opposite s)))
    both_by_side f i = total_by_side (λ t. count_id i (flatten to_list at (f t))) s

    other_count :
        (i : ℕ)
        → count_id i (flatten to_list at (ls' (opposite s)))
          ≡ count_id i (flatten to_list at (ls (opposite s)))
    other_count i = rw same_other

    once : (i : ℕ) → count_id i (flatten to_list at (ls s)) ≤ 1
    once i = omega (arith, ix.unique i, both_by_side ls i)

    module _ (i p slot : ℕ) (c : C) (remove : C → C) (found : OrderedMap.find? p (ls s) ≡ some c)
        (out : TakesOut remove c slot i) (pruned : Pruned remove c p (ls s) (ls' s)) where
      removed_count :
          (j : ℕ)
          → (count_id j (flatten to_list at (ls' s)) ≤ count_id j (flatten to_list at (ls s)))
            × ((i == j) ≡ false
                → count_id j (flatten to_list at (ls' s)) ≡ count_id j (flatten to_list at (ls s)))
            × (count_id i (flatten to_list at (ls' s)) ≡ 0)
            × (count_id i (flatten to_list at (ls s)) ≡ 1)
      removed_count j =
          let (q, one) =
            flatten-pruned remove c i p slot (ls s) (ls' s) found out pruned (once i) in
          let d = count_id-dequeue i j (flatten to_list at (ls s)) (omega arith) in
          rw q (d.0, d.1, omega (arith, d.2 (omega (arith, one)), one), one)

      removed_sound :
          (j : ℕ) (loc : Location)
          → lookup j (erase i table) ≡ some loc
          → ((i == j) ≡ false) × (lookup j table ≡ some loc)
      removed_sound j loc e = elim (Bool-cases (i == j)) [
        | inl same ↦ cc (rw (lookup-erase i j table, same) at e)
        | inr other ↦ (other, rw (lookup-erase i j table, other) at e)
      ]

      -- `removeOrder`: the order is gone from its queue and from the table, and all else stays.
      pub IsIndexed-remove : IsIndexed to_list at ls' (erase i table)
      IsIndexed-remove = record {
        ladder =
            by_side (λ t. IsLadder to_list at t (ls' t)) s
              (IsLadder-pruned remove c i p slot (ls s) (ls' s) found out pruned s (ix.ladder s))
              (rw same_other (ix.ladder (opposite s)));
        sound = λ j loc e.
            let (ne, old) = removed_sound j loc e in
            by_side (λ t. Stands to_list at (ls t) loc j → Stands to_list at (ls' t) loc j) s
              (Stands-pruned remove c i p slot (ls s) (ls' s) found out pruned loc j ne)
              (λ st. rw same_other st) loc.side (ix.sound j loc old);
        complete = λ j e. elim (Bool-cases (i == j)) [
          | inl same ↦
              let at_i : i ≡ j = (==_iff i j).0 same in
              rw (← at_i) (
                omega (
                  arith,
                  removed_count i,
                  both_by_side ls' i,
                  both_by_side ls i,
                  other_count i,
                  ix.unique i,
                ))
          | inr other ↦ omega (
            arith,
            (removed_count j).1 other,
            both_by_side ls' j,
            both_by_side ls j,
            other_count j,
            ix.complete j (rw (lookup-erase i j table, other) at e),
          )
        ];
        unique = λ j. omega (
          arith,
          (removed_count j).0,
          both_by_side ls' j,
          both_by_side ls j,
          other_count j,
          ix.unique j,
        );
      }

      pub flatten-removed :
          (t : Side) → flatten to_list at (ls' t) ≡ dequeue i (flatten to_list at (ls t))
      flatten-removed =
          by_side (λ t. flatten to_list at (ls' t) ≡ dequeue i (flatten to_list at (ls t))) s
            (flatten-pruned remove c i p slot (ls s) (ls' s) found out pruned (once i)).0
            (rw (
              same_other,
              dequeue_absent i (flatten to_list at (ls (opposite s)))
                  (omega (arith, removed_count i, both_by_side ls i, ix.unique i)),
            ))
