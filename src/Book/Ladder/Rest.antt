-- ===== src/Book/Ladder/Rest.antt =====
-- The table and the levels still agree after an order is queued.
use titan_engine.Prelude.{
  ℕ, ◌+◌, ◌≡◌, refl, sym, subst, true, false, List, [], ◌∷◌, ◌++◌, Option, some, none, All, All-map,
  ◌==◌, ==_iff, if◌then◌else◌, arith, Bool-cases, inl, inr, Option-cases, nat_eq,
}
use titan_engine.Prelude.Assoc.{insert, lookup-insert}
use titan_engine.Prelude.OrderedMap
use titan_engine.Core.{Side, buy, sell, opposite, Order, before}
use titan_engine.Book.Ladder.{Location, count_id, flatten, IsLadder, Stands, IsIndexed}
use titan_engine.Book.Ladder.Queue.{count_id-enqueue, flatten-upsert, IsLadder-upsert, before_trans}
use titan_engine.Book.Ladder.Index.{by_side, total_by_side, some_eq}

differs_of_before : (s : Side) (p q : ℕ) → before s p q ≡ true → (q == p) ≡ false
differs_of_before buy p q h = ground arith
differs_of_before sell p q h = ground arith

module _ {C : Type 0} (to_list : C → List Order) (at : C → ℕ → Option Order) where
  module _ (s : Side) (p : ℕ) (d : C) (f : C → C) where
    find?_worse :
        (q : ℕ) (ls : List (ℕ × C))
        → before s p q ≡ true
        → All (λ e. before s q e.0 ≡ true) ls
        → OrderedMap.find? p ls ≡ none
    find?_worse q ls h a =
        OrderedMap.find?_absent p ls (
          All-map _ _ ls (λ (e : ℕ × C) b. differs_of_before s p e.0 (before_trans s p q e.0 h b))
            a)

    pub find?-upsert_found :
        (ls : List (ℕ × C)) (c : C)
        → IsLadder to_list at s ls
        → OrderedMap.find? p ls ≡ some c
        → OrderedMap.find? p (OrderedMap.upsert (before s) p d f ls) ≡ some (f c)
    unfolding OrderedMap.find? OrderedMap.upsert
    find?-upsert_found [] c l e = cc
    find?-upsert_found ((q, w) ∷ ls) c l e = elim (Bool-cases (q == p)) [
      | inl same ↦ ground arith
      | inr other ↦ elim (Bool-cases (before s p q)) [
        | inl better ↦ let gone = find?_worse q ls better l.2 in ground arith
        | inr worse ↦ ground (arith, find?-upsert_found ls c l.3)
      ]
    ]

    pub find?-upsert_new :
        (ls : List (ℕ × C))
        → OrderedMap.find? p ls ≡ none
        → OrderedMap.find? p (OrderedMap.upsert (before s) p d f ls) ≡ some (f d)
    unfolding OrderedMap.find? OrderedMap.upsert
    find?-upsert_new [] e = ground arith
    find?-upsert_new ((q, w) ∷ ls) e = ground (arith, find?-upsert_new ls)

  module _ (ls ls' : Side → List (ℕ × C)) (table : List (ℕ × Location)) (s : Side)
      (same_other : ls' (opposite s) ≡ ls (opposite s)) (ix : IsIndexed to_list at ls table)
      (o : Order) (d : C) (push : C → C) (loc : Location) (of_side : o.side ≡ s)
      (here : (loc.side ≡ s) × (loc.price ≡ o.price))
      (queued : ls' s ≡ OrderedMap.upsert (before s) o.price d push (ls s))
      (push_back : (c : C) → to_list (push c) ≡ to_list c ++ (o ∷ []))
      (push_fresh : to_list (push d) ≡ o ∷ []) where
    both_by_side :
        (f : Side → List (ℕ × C)) (i : ℕ)
        → count_id i (flatten to_list at (f buy)) + count_id i (flatten to_list at (f sell))
          ≡ count_id i (flatten to_list at (f s)) + count_id i (flatten to_list at (f (opposite s)))
    both_by_side f i = total_by_side (λ t. count_id i (flatten to_list at (f t))) s

    rested_count :
        (i : ℕ)
        → (count_id i (flatten to_list at (ls' s))
            ≡ (if o.id == i then 1 else 0) + count_id i (flatten to_list at (ls s)))
          × (count_id i (flatten to_list at (ls' (opposite s)))
              ≡ count_id i (flatten to_list at (ls (opposite s))))
    rested_count i = (
      rw (
        queued,
        flatten-upsert to_list at s o d push push_back push_fresh (ls s) (ix.ladder s),
        count_id-enqueue,
      ),
      rw same_other,
    )

    module _
        (slotted : (c : C)
          → OrderedMap.find? o.price (ls s) ≡ some c
          → (at (push c) loc.slot ≡ some o)
            × ((k : ℕ) (x : Order) → at c k ≡ some x → at (push c) k ≡ some x))
        (slotted_new : OrderedMap.find? o.price (ls s) ≡ none → at (push d) loc.slot ≡ some o) where
      rested_Stands : Stands to_list at (ls' s) loc o.id
      rested_Stands = elim (Option-cases (OrderedMap.find? o.price (ls s))) [
        | inl absent ↦ record {
          level = push d;
          order = o;
          level_found = rw (here.1, queued) (find?-upsert_new s o.price d push (ls s) absent);
          order_found = slotted_new absent;
          same_id = refl;
        }
        | inr (c, found) ↦ record {
          level = push c;
          order = o;
          level_found =
              rw (here.1, queued)
                (find?-upsert_found s o.price d push (ls s) c (ix.ladder s) found);
          order_found = (slotted c found).0;
          same_id = refl;
        }
      ]

      kept_Stands :
          (at_loc : Location) (i : ℕ)
          → Stands to_list at (ls s) at_loc i
          → Stands to_list at (ls' s) at_loc i
      kept_Stands at_loc i st = elim (Bool-cases (o.price == at_loc.price)) [
        | inl same ↦
            let e : o.price ≡ at_loc.price = (==_iff o.price at_loc.price).0 same in
            let found = rw (← e) at st.level_found in
            record {
              level = push st.level;
              order = st.order;
              level_found =
                  rw (← e, queued)
                    (find?-upsert_found s o.price d push (ls s) st.level (ix.ladder s) found);
              order_found = (slotted st.level found).1 at_loc.slot st.order st.order_found;
              same_id = st.same_id;
            }
        | inr other ↦ record {
          level = st.level;
          order = st.order;
          level_found =
              rw
                (
                  queued,
                  OrderedMap.find?-upsert_other (before s) o.price at_loc.price d push (ls s) other,
                )
                st.level_found;
          order_found = st.order_found;
          same_id = st.same_id;
        }
      ]

      -- `restOrder`: an order with a new id is queued and entered in the table.
      pub IsIndexed-rest :
          count_id o.id (flatten to_list at (ls buy)) + count_id o.id (flatten to_list at (ls sell))
            ≡ 0
          → IsIndexed to_list at ls' (insert o.id loc table)
      IsIndexed-rest fresh = record {
        ladder =
            by_side (λ t. IsLadder to_list at t (ls' t)) s
              (rw queued (
                IsLadder-upsert to_list at s o d push push_back push_fresh (ls s) of_side
                  (ix.ladder s)))
              (rw same_other (ix.ladder (opposite s)));
        sound = λ j at_loc e. elim (Bool-cases (o.id == j)) [
          | inl same ↦
              let i : o.id ≡ j = (==_iff o.id j).0 same in
              let w : loc ≡ at_loc = some_eq (rw (lookup-insert o.id j loc table, same) at e) in
              rw (← w, ← i)
                (subst (λ t. Stands to_list at (ls' t) loc o.id) (sym here.0) rested_Stands)
          | inr other ↦
              by_side (λ t. Stands to_list at (ls t) at_loc j → Stands to_list at (ls' t) at_loc j)
                s (kept_Stands at_loc j) (λ st. rw same_other st) at_loc.side
                (ix.sound j at_loc (rw (lookup-insert o.id j loc table, other) at e))
        ];
        complete = λ j e. elim (Bool-cases (o.id == j)) [
          | inl same ↦ cc (rw (lookup-insert o.id j loc table, same) at e)
          | inr other ↦
              let zero_here : ◌≡◌ {A = ℕ} (if o.id == j then 1 else 0) 0 = rw other in
              omega (
                arith,
                zero_here,
                (rested_count j).0,
                (rested_count j).1,
                both_by_side ls' j,
                both_by_side ls j,
                ix.complete j (rw (lookup-insert o.id j loc table, other) at e),
              )
        ];
        unique = λ j. elim (Bool-cases (o.id == j)) [
          | inl same ↦
              let i : o.id ≡ j = (==_iff o.id j).0 same in
              let one_here : ◌≡◌ {A = ℕ} (if o.id == j then 1 else 0) 1 = rw same in
              omega (
                arith,
                one_here,
                (rested_count j).0,
                (rested_count j).1,
                both_by_side ls' j,
                both_by_side ls j,
                (rw i at fresh),
              )
          | inr other ↦
              let zero_here : ◌≡◌ {A = ℕ} (if o.id == j then 1 else 0) 0 = rw other in
              omega (
                arith,
                zero_here,
                (rested_count j).0,
                (rested_count j).1,
                both_by_side ls' j,
                both_by_side ls j,
                ix.unique j,
              )
        ];
      }
