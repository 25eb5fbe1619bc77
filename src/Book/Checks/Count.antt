-- ===== src/Book/Checks/Count.antt =====
-- The orders in the levels are as many as the entries of the table.
use titan_engine.Prelude.{
  ℕ, suc, ◌≤◌, ◌<◌, ◌≡◌, refl, ap, ◌∙◌, List, [], ◌∷◌, none, some, ◌==◌, length, All, All-map,
  arith, Bool-cases, inl, inr, nat_eq, ==_iff,
}
use titan_engine.Prelude.Assoc.{lookup, IsKeyed}
use titan_engine.Prelude.OrderedMap
use titan_engine.Core.{Order}
use titan_engine.Book.Spec.{dequeue}
use titan_engine.Book.Ladder.{count_id}
use titan_engine.Book.Ladder.Queue.{count_id-append}
use titan_engine.Book.Ladder.Index.{count_id-dequeue}
use titan_engine.Book.Reference.{OrderList, PriceLevels}
use titan_engine.Book.Reference.Table.{orders, node_at, queue}

-- Counting the entries: as many as orders rest.
pub count_id-node :
    (ns : OrderList) (h : ℕ) (o : Order) → node_at ns h ≡ some o → 0 < count_id o.id (orders ns)
count_id-node [] h o e = cc
count_id-node ((i, x) ∷ ns) h o e = elim (Bool-cases (i == h)) [
  | inl same ↦ let it : x ≡ o = ground arith in ground (arith, it)
  | inr other ↦ omega (arith, count_id-node ns h o (ground arith))
]

pub count_id-level :
    (i p : ℕ) (ls : PriceLevels) (c : OrderList)
    → OrderedMap.find? p ls ≡ some c
    → count_id i (orders c) ≤ count_id i (queue ls)
unfolding OrderedMap.find?
count_id-level i p [] c e = cc
count_id-level i p ((q, d) ∷ ls) c e = elim (Bool-cases (q == p)) [
  | inl same ↦
      let it : d ≡ c = ground arith in
      omega (arith, count_id-append i (orders d) (queue ls), ap (λ x. count_id i (orders x)) it)
  | inr other ↦
      omega (arith, count_id-append i (orders d) (queue ls), count_id-level i p ls c (ground arith))
]

clash :
    {V : Type 0} (i j : ℕ) (table : List (ℕ × V)) (v : V)
    → i ≡ j
    → lookup i table ≡ none
    → lookup j table ≡ some v
    → ⊥
clash i j table v e a b = cc

count_id-own : (o : Order) (q : List Order) → 0 < count_id o.id (o ∷ q)
count_id-own o q = ground arith

length-dequeue : (i : ℕ) (q : List Order) → 0 < count_id i q → length q ≡ suc (length (dequeue i q))
unfolding dequeue
length-dequeue i [] h = absurd (omega arith)
length-dequeue i (o ∷ q) h = ground (arith, length-dequeue i q)

pub entries :
    {V : Type 0} (table : List (ℕ × V))
    → IsKeyed table
    → All (λ (e : ℕ × V). lookup e.0 table ≡ some e.1) table
unfolding lookup
entries [] k = tt
entries ((i, v) ∷ table) k = (
  ground arith,
  All-map _ _ table
      (λ (e : ℕ × _) h. elim (Bool-cases (i == e.0)) [
        | inl same ↦ absurd (clash i e.0 table e.1 ((==_iff i e.0).0 same) k.0 h)
        | inr other ↦ rw other h
      ])
      (entries table k.1),
)

-- Orders whose ids are those of the table, each once, are as many as its entries.
pub table-length :
    {V : Type 0} (table : List (ℕ × V)) (q : List Order)
    → IsKeyed table
    → ((i : ℕ) → lookup i table ≡ none → count_id i q ≡ 0)
    → ((i : ℕ) (v : V) → lookup i table ≡ some v → count_id i q ≡ 1)
    → length table ≡ length q
unfolding lookup
table-length [] [] k a b = refl
table-length [] (o ∷ q) k a b = absurd (omega (arith, a o.id refl, count_id-own o q))
table-length ((i, v) ∷ table) q k a b =
    let one : count_id i q ≡ 1 = b i v (ground arith) in
    let rest : length table ≡ length (dequeue i q) =
      table-length table (dequeue i q) k.1
        (λ j e. elim (Bool-cases (i == j)) [
          | inl same ↦
              rw (← (==_iff i j).0 same)
                (omega (arith, one, (count_id-dequeue i i q (omega arith)).2 (omega (arith, one))))
          | inr other ↦
              omega (arith, (count_id-dequeue i j q (omega arith)).0, a j (ground (arith, e)))
        ])
        (λ j w e. elim (Bool-cases (i == j)) [
          | inl same ↦ absurd (clash i j table w ((==_iff i j).0 same) k.0 e)
          | inr other ↦ (count_id-dequeue i j q (omega arith)).1 other ∙ b j w (ground (arith, e))
        ]) in
    omega (arith, rest, length-dequeue i q (omega (arith, one)))
