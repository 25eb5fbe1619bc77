-- ===== src/Book/Ladder/Queue.antt =====
-- What the map operations on levels do to the queue of a side.
use titan_engine.Prelude.{
  ℕ, ◌+◌, ◌≡◌, refl, sym, ap, ◌∙◌, subst, true, false, List, [], ◌∷◌, ◌++◌, Option, some, All,
  All-append, All-map, ◌≢◌, ◌==◌, ==_iff, if◌then◌else◌, arith, append_assoc, Bool-cases, inl, inr,
}
use titan_engine.Prelude.OrderedMap
use titan_engine.Core.{Side, buy, sell, Order, before}
use titan_engine.Book.Spec.{enqueue, dequeue}
use titan_engine.Book.Ladder.{count_id, flatten, IsLadder}

pub count_id-append :
    (i : ℕ) (xs ys : List Order) → count_id i (xs ++ ys) ≡ count_id i xs + count_id i ys
count_id-append i [] ys = omega arith
count_id-append i (x ∷ xs) ys = omega (arith, count_id-append i xs ys)

pub count_id-enqueue :
    (i : ℕ) (s : Side) (o : Order) (xs : List Order)
    → count_id i (enqueue s o xs) ≡ (if o.id == i then 1 else 0) + count_id i xs
unfolding enqueue
count_id-enqueue i s o [] = refl
count_id-enqueue i s o (x ∷ xs) = ground (arith, count_id-enqueue i s o xs)

pub dequeue_absent : (i : ℕ) (xs : List Order) → count_id i xs ≡ 0 → dequeue i xs ≡ xs
unfolding dequeue
dequeue_absent i [] h = refl
dequeue_absent i (x ∷ xs) h = ground (arith, dequeue_absent i xs)

pub dequeue-append :
    (i : ℕ) (xs ys : List Order) → count_id i xs ≡ 0 → dequeue i (xs ++ ys) ≡ xs ++ dequeue i ys
unfolding dequeue
dequeue-append i [] ys h = refl
dequeue-append i (x ∷ xs) ys h = ground (arith, dequeue-append i xs ys)

pub enqueue_skip :
    (s : Side) (o : Order) (xs ys : List Order)
    → All (λ x. before s o.price x.price ≡ false) xs
    → enqueue s o (xs ++ ys) ≡ xs ++ enqueue s o ys
unfolding enqueue
enqueue_skip s o [] ys h = refl
enqueue_skip s o (x ∷ xs) ys h = rw h.0 (ap (◌∷◌ x) (enqueue_skip s o xs ys h.1))

pub enqueue_front :
    (s : Side) (o : Order) (xs : List Order)
    → All (λ x. before s o.price x.price ≡ true) xs
    → enqueue s o xs ≡ o ∷ xs
unfolding enqueue
enqueue_front s o [] h = refl
enqueue_front s o (x ∷ xs) h = rw h.0

pub before_irrefl : (s : Side) (p : ℕ) → before s p p ≡ false
before_irrefl buy p = ground arith
before_irrefl sell p = ground arith

pub before_trans :
    (s : Side) (p q r : ℕ) → before s p q ≡ true → before s q r ≡ true → before s p r ≡ true
before_trans buy p q r h k = ground arith
before_trans sell p q r h k = ground arith

pub before-total :
    (s : Side) (p q : ℕ) → (p == q) ≡ false → before s q p ≡ false → before s p q ≡ true
before-total buy p q h k = ground arith
before-total sell p q h k = ground arith

pub before-asym : (s : Side) (p q : ℕ) → before s p q ≡ true → before s q p ≡ false
before-asym buy p q h = ground arith
before-asym sell p q h = ground arith

module _ {C : Type 0} (to_list : C → List Order) (at : C → ℕ → Option Order) where
  -- A level in its place: what stands in front of it and behind it.
  pub record Split (p : ℕ) (ls : List (ℕ × C)) (c : C) : Type 0 where
    pub front : List Order
    pub back : List Order
    pub whole : flatten to_list at ls ≡ front ++ (to_list c ++ back)
    pub adjusted :
        (f : C → C)
        → flatten to_list at (OrderedMap.adjust p f ls) ≡ front ++ (to_list (f c) ++ back)
    pub erased : flatten to_list at (OrderedMap.erase p ls) ≡ front ++ back

  pub Split-at : (p : ℕ) (ls : List (ℕ × C)) (c : C) → OrderedMap.find? p ls ≡ some c → Split p ls c
  unfolding OrderedMap.find? OrderedMap.adjust OrderedMap.erase
  Split-at p [] c e = cc
  Split-at p ((q, d) ∷ ls) c e = elim (Bool-cases (q == p)) [
    | inl hit ↦
        let same : c ≡ d = ground arith in
        record {
          front = [];
          back = flatten to_list at ls;
          whole = rw same;
          adjusted = λ f. rw (hit, same);
          erased = rw hit;
        }
    | inr miss ↦
        let rest = Split-at p ls c (ground arith) in
        record {
          front = to_list d ++ rest.front;
          back = rest.back;
          whole = rw (rest.whole, append_assoc);
          adjusted = λ f. rw (miss, append_assoc) (ap (◌++◌ (to_list d)) (rest.adjusted f));
          erased = rw (miss, append_assoc) (ap (◌++◌ (to_list d)) rest.erased);
        }
  ]

  -- Every order behind a better price has a worse price.
  pub flatten-worse :
      (s : Side) (p : ℕ) (ls : List (ℕ × C))
      → All (λ e. before s p e.0 ≡ true) ls
      → IsLadder to_list at s ls
      → All (λ o. before s p o.price ≡ true) (flatten to_list at ls)
  flatten-worse s p [] h l = tt
  flatten-worse s p ((q, c) ∷ ls) h l =
      All-append _ (to_list c) (flatten to_list at ls)
        (All-map _ _ (to_list c) (λ o (e : (o.price ≡ q) × (o.side ≡ s)). rw e.0 h.0) l.1)
        (flatten-worse s p ls h.1 l.3)

  append_nonempty : (xs : List Order) (o : Order) → xs ++ (o ∷ []) ≢ []
  append_nonempty [] o e = cc
  append_nonempty (x ∷ xs) o e = cc

  -- The queue behind one level, where a new order of price `p` goes past that level.
  enqueue-level :
      (s : Side) (o : Order) (q : ℕ) (xs ys : List Order)
      → before s o.price q ≡ false
      → All (λ x. (x.price ≡ q) × (x.side ≡ s)) xs
      → enqueue s o (xs ++ ys) ≡ xs ++ enqueue s o ys
  enqueue-level s o q xs ys h a =
      enqueue_skip s o xs ys (All-map _ _ xs (λ x (e : (x.price ≡ q) × (x.side ≡ s)). rw e.0 h) a)

  module _ (s : Side) (o : Order) (d : C) (push : C → C)
      (push_back : (c : C) → to_list (push c) ≡ to_list c ++ (o ∷ []))
      (push_fresh : to_list (push d) ≡ o ∷ []) where
    -- `levels[price].push_back(order)` queues the order behind those that are at least as good.
    pub flatten-upsert :
        (ls : List (ℕ × C))
        → IsLadder to_list at s ls
        → flatten to_list at (OrderedMap.upsert (before s) o.price d push ls)
          ≡ enqueue s o (flatten to_list at ls)
    unfolding OrderedMap.upsert enqueue
    flatten-upsert [] l = rw push_fresh
    flatten-upsert ((q, c) ∷ ls) l = elim (Bool-cases (q == o.price)) [
      | inl same ↦
          let e : q ≡ o.price = (==_iff q o.price).0 same in
          let worse = flatten-worse s o.price ls (rw (← e) l.2) l.3 in
          rw (
            same,
            push_back c,
            append_assoc,
            enqueue-level s o q (to_list c) (flatten to_list at ls) (rw e (before_irrefl s o.price))
                l.1,
            enqueue_front s o (flatten to_list at ls) worse,
          )
      | inr other ↦ elim (Bool-cases (before s o.price q)) [
        | inl better ↦
            let behind =
              All-map _ _ ls (λ (x : ℕ × C) h. before_trans s o.price q x.0 better h) l.2 in
            let worse = flatten-worse s o.price ((q, c) ∷ ls) (better, behind) l in
            rw (
              other,
              better,
              push_fresh,
              enqueue_front s o (to_list c ++ flatten to_list at ls) worse,
            )
        | inr worse ↦ rw (
          other,
          worse,
          flatten-upsert ls l.3,
          enqueue-level s o q (to_list c) (flatten to_list at ls) worse l.1,
        )
      ]
    ]

    pub IsLadder-upsert :
        (ls : List (ℕ × C))
        → o.side ≡ s
        → IsLadder to_list at s ls
        → IsLadder to_list at s (OrderedMap.upsert (before s) o.price d push ls)
    unfolding OrderedMap.upsert
    IsLadder-upsert [] h l = (rw push_fresh (λ e. cc), rw push_fresh ((refl, h), tt), tt, tt)
    IsLadder-upsert ((q, c) ∷ ls) h l = elim (Bool-cases (q == o.price)) [
      | inl same ↦
          let e : o.price ≡ q = sym ((==_iff q o.price).0 same) in
          rw (same, push_back c)
            (
              append_nonempty (to_list c) o,
              All-append _ (to_list c) (o ∷ []) l.1 ((e, h), tt),
              l.2,
              l.3,
            )
      | inr other ↦ elim (Bool-cases (before s o.price q)) [
        | inl better ↦
            let behind =
              All-map _ _ ls (λ (x : ℕ × C) h. before_trans s o.price q x.0 better h) l.2 in
            rw (other, better, push_fresh) ((λ e. cc), ((refl, h), tt), (better, behind), l)
        | inr worse ↦
            let ahead = before-total s q o.price other worse in
            rw (other, worse)
              (
                l.0,
                l.1,
                OrderedMap.All-upsert (λ e. before s q e.0 ≡ true) (before s) o.price d push ls
                    ahead (λ v x. x) l.2,
                IsLadder-upsert ls h l.3,
              )
      ]
    ]

  pub IsLadder-adjust :
      (s : Side) (p : ℕ) (f : C → C) (ls : List (ℕ × C)) (c : C)
      → OrderedMap.find? p ls ≡ some c
      → to_list (f c) ≢ []
      → All (λ o. (o.price ≡ p) × (o.side ≡ s)) (to_list (f c))
      → IsLadder to_list at s ls
      → IsLadder to_list at s (OrderedMap.adjust p f ls)
  unfolding OrderedMap.adjust OrderedMap.find?
  IsLadder-adjust s p f [] c e n a l = tt
  IsLadder-adjust s p f ((q, d) ∷ ls) c e n a l = elim (Bool-cases (q == p)) [
    | inl same ↦
        let i : p ≡ q = sym ((==_iff q p).0 same) in
        let w : c ≡ d = ground arith in
        rw same (
          rw (← w) n,
          rw (← w) (
              All-map _ _ (to_list (f c)) (λ o (x : (o.price ≡ p) × (o.side ≡ s)). (x.0 ∙ i, x.1))
                a),
          l.2,
          l.3,
        )
    | inr other ↦ rw other (
      l.0,
      l.1,
      OrderedMap.All-adjust (λ x. before s q x.0 ≡ true) p f ls (λ v x. x) l.2,
      IsLadder-adjust s p f ls c (ground arith) n a l.3,
    )
  ]

  pub IsLadder-erase :
      (s : Side) (p : ℕ) (ls : List (ℕ × C))
      → IsLadder to_list at s ls
      → IsLadder to_list at s (OrderedMap.erase p ls)
  unfolding OrderedMap.erase
  IsLadder-erase s p [] l = tt
  IsLadder-erase s p ((q, d) ∷ ls) l = elim (Bool-cases (q == p)) [
    | inl same ↦ rw same l.3
    | inr other ↦ rw other (
      l.0,
      l.1,
      OrderedMap.All-erase (λ x. before s q x.0 ≡ true) p ls l.2,
      IsLadder-erase s p ls l.3,
    )
  ]

  -- The level that is found holds orders of its price and side.
  pub level-IsLadder :
      (s : Side) (p : ℕ) (ls : List (ℕ × C)) (c : C)
      → OrderedMap.find? p ls ≡ some c
      → IsLadder to_list at s ls
      → (to_list c ≢ []) × All (λ o. (o.price ≡ p) × (o.side ≡ s)) (to_list c)
  unfolding OrderedMap.find?
  level-IsLadder s p [] c e l = cc
  level-IsLadder s p ((q, d) ∷ ls) c e l = elim (Bool-cases (q == p)) [
    | inl same ↦
        let i : q ≡ p = (==_iff q p).0 same in
        let w : d ≡ c = ground arith in
        subst (λ x. (to_list x ≢ []) × All (λ o. (o.price ≡ p) × (o.side ≡ s)) (to_list x)) w
          (
            l.0,
            All-map _ _ (to_list d) (λ o (x : (o.price ≡ q) × (o.side ≡ s)). (x.0 ∙ i, x.1)) l.1,
          )
    | inr other ↦ level-IsLadder s p ls c (ground arith) l.3
  ]
