-- ===== src/Book/Ladder/Fill.antt =====
-- The table and the levels still agree after orders of one level have changed their quantities.
use titan_engine.Prelude.{
  ℕ, ◌+◌, ◌≡◌, ◌≢◌, sym, ◌∙◌, List, [], ◌++◌, Option, some, All, ◌==◌, ==_iff, arith, Bool-cases,
  inl, inr,
}
use titan_engine.Prelude.OrderedMap
use titan_engine.Core.{Side, buy, sell, opposite, Order}
use titan_engine.Book.Ladder.{Location, count_id, flatten, IsLadder, Stands, IsIndexed}
use titan_engine.Book.Ladder.Queue.{count_id-append, Split-at, IsLadder-adjust}
use titan_engine.Book.Ladder.Index.{by_side, total_by_side, some_eq}

module _ {C : Type 0} (to_list : C → List Order) (at : C → ℕ → Option Order)
    (ls ls' : Side → List (ℕ × C)) (table : List (ℕ × Location)) (s : Side)
    (same_other : ls' (opposite s) ≡ ls (opposite s)) (ix : IsIndexed to_list at ls table) (p : ℕ)
    (c : C) (change : C → C) (found : OrderedMap.find? p (ls s) ≡ some c)
    (changed : ls' s ≡ OrderedMap.adjust p change (ls s))
    (same_ids : (j : ℕ) → count_id j (to_list (change c)) ≡ count_id j (to_list c))
    (still : (to_list (change c) ≢ [])
      × All (λ o. (o.price ≡ p) × (o.side ≡ s)) (to_list (change c)))
    (kept : (k : ℕ) (x : Order)
      → at c k ≡ some x
      → (y : Order) × (at (change c) k ≡ some y) × (y.id ≡ x.id)) where
  changed_count :
      (i : ℕ) → count_id i (flatten to_list at (ls' s)) ≡ count_id i (flatten to_list at (ls s))
  changed_count i =
      let sp = Split-at to_list at p (ls s) c found in
      rw (changed, sp.whole, sp.adjusted change)
        (omega (
          arith,
          same_ids i,
          count_id-append i sp.front (to_list c ++ sp.back),
          count_id-append i sp.front (to_list (change c) ++ sp.back),
          count_id-append i (to_list c) sp.back,
          count_id-append i (to_list (change c)) sp.back,
        ))

  changed_both :
      (i : ℕ)
      → count_id i (flatten to_list at (ls' buy)) + count_id i (flatten to_list at (ls' sell))
        ≡ count_id i (flatten to_list at (ls buy)) + count_id i (flatten to_list at (ls sell))
  changed_both i =
      let other : count_id i (flatten to_list at (ls' (opposite s)))
          ≡ count_id i (flatten to_list at (ls (opposite s))) =
        rw same_other in
      omega (
        arith,
        other,
        changed_count i,
        total_by_side (λ t. count_id i (flatten to_list at (ls t))) s,
        total_by_side (λ t. count_id i (flatten to_list at (ls' t))) s,
      )

  Stands-changed :
      (loc : Location) (j : ℕ) → Stands to_list at (ls s) loc j → Stands to_list at (ls' s) loc j
  Stands-changed loc j st = elim (Bool-cases (p == loc.price)) [
    | inl same ↦
        let e : p ≡ loc.price = (==_iff p loc.price).0 same in
        let it : st.level ≡ c = some_eq (sym st.level_found ∙ rw (← e) found) in
        let (y, there, id) = kept loc.slot st.order (rw (← it) st.order_found) in
        record {
          level = change c;
          order = y;
          level_found =
              rw (changed, OrderedMap.find?-adjust p loc.price change (ls s) c found, same);
          order_found = there;
          same_id = id ∙ st.same_id;
        }
    | inr other ↦ record {
      level = st.level;
      order = st.order;
      level_found =
          rw (changed, OrderedMap.find?-adjust p loc.price change (ls s) c found, other)
            st.level_found;
      order_found = st.order_found;
      same_id = st.same_id;
    }
  ]

  pub IsIndexed-fill : IsIndexed to_list at ls' table
  IsIndexed-fill = record {
    ladder =
        by_side (λ t. IsLadder to_list at t (ls' t)) s
          (rw changed
            (IsLadder-adjust to_list at s p change (ls s) c found still.0 still.1 (ix.ladder s)))
          (rw same_other (ix.ladder (opposite s)));
    sound = λ j loc e.
        by_side (λ t. Stands to_list at (ls t) loc j → Stands to_list at (ls' t) loc j) s
          (Stands-changed loc j) (λ st. rw same_other st) loc.side (ix.sound j loc e);
    complete = λ j e. rw (changed_both j) (ix.complete j e);
    unique = λ j. rw (changed_both j) (ix.unique j);
  }
