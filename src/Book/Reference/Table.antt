-- ===== src/Book/Reference/Table.antt =====
-- `ReferenceMatcher` keeps its price maps and its order table in agreement.
use titan_engine.Prelude.{
  ℕ, ◌<◌, ◌≡◌, ◌≢◌, refl, sym, ◌∙◌, subst, true, false, List, [], ◌∷◌, ◌++◌, Option, some, none,
  All, ◌==◌, ==_iff, if◌then◌else◌, arith, Bool-cases, inl, inr, Option-cases, nat_eq,
}
use titan_engine.Prelude.Assoc.{lookup, erase, IsKeyed, IsKeyed-erase}
use titan_engine.Prelude.OrderedMap
use titan_engine.Core.{Side, buy, sell, opposite, Order}
use titan_engine.Book.Spec
use titan_engine.Book.Spec.{Queues}
use titan_engine.Book.Ladder.{flatten, IsIndexed}
use titan_engine.Book.Ladder.Index.{
  TakesOut, Pruned, IsIndexed-remove, flatten-removed, by_side, some_eq,
}
use titan_engine.Book.Ladder.Queue.{dequeue_absent}
use titan_engine.Book.Reference.{
  OrderList, PriceLevels, Matcher, levels, with_levels, is_empty, erase_node, erase_at,
  remove_order,
}

abbrev pub orders : OrderList → List Order
orders [] = []
orders ((h, o) ∷ ns) = o ∷ orders ns

-- The order that an iterator points at.
abbrev pub node_at : OrderList → ℕ → Option Order
node_at [] h = none
node_at ((i, o) ∷ ns) h = if i == h then some o else node_at ns h

-- The queue of a side.
abbrev pub queue : PriceLevels → List Order
queue = flatten orders node_at

abbrev pub queues : Matcher → Queues
queues m = record { bids = queue m.bids; asks = queue m.asks }

-- The handles in use are those below `next_node`.
abbrev pub IsOld : ℕ → PriceLevels → Type 0
IsOld n = All λ l. All (λ node. node.0 < n) l.1

pub record IsValid (m : Matcher) : Type 0 where
  pub indexed : IsIndexed orders node_at (λ s. levels s m) m.order_table
  pub old : (s : Side) → IsOld m.next_node (levels s m)
  pub keyed : IsKeyed m.order_table

erase_node-others :
    (h k : ℕ) (ns : OrderList) → (h == k) ≡ false → node_at (erase_node h ns) k ≡ node_at ns k
unfolding erase_node
erase_node-others h k [] ne = refl
erase_node-others h k ((i, o) ∷ ns) ne = ground (arith, erase_node-others h k ns ne)

node_at-some : (k : ℕ) (ns : OrderList) (x : Order) → node_at ns k ≡ some x → orders ns ≢ []
node_at-some k [] x e = cc
node_at-some k ((i, o) ∷ ns) x e = λ q. cc

-- Where `erase(it)` cuts a level.
erase_node-split :
    (h : ℕ) (ns : OrderList) (o : Order)
    → node_at ns h ≡ some o
    → (a : List Order) × (b : List Order) × (orders ns ≡ a ++ (o ∷ b))
      × (orders (erase_node h ns) ≡ a ++ b)
unfolding erase_node
erase_node-split h [] o e = cc
erase_node-split h ((i, x) ∷ ns) o e = elim (Bool-cases (i == h)) [
  | inl same ↦ ([], orders ns, ground arith, rw same)
  | inr other ↦
      let (a, b, had, has) = erase_node-split h ns o (ground arith) in
      (x ∷ a, b, rw had, rw (other, has))
]

erase_node-TakesOut :
    (h i : ℕ) (c : OrderList) (o : Order)
    → node_at c h ≡ some o
    → o.id ≡ i
    → TakesOut orders node_at (erase_node h) c h i
erase_node-TakesOut h i c o e id =
    let (a, b, had, has) = erase_node-split h c o e in
    record {
      ahead = a;
      order = o;
      behind = b;
      has_id = id;
      had = had;
      has = has;
      others = λ k x there ne. elim (Bool-cases (h == k)) [
        | inl same ↦
            let at_k : h ≡ k = (==_iff h k).0 same in
            let it : x ≡ o = some_eq (sym there ∙ rw (← at_k) e) in absurd (ne (rw it id))
        | inr other ↦ rw (erase_node-others h k c other) there
      ];
      occupied = λ k x there. node_at-some k (erase_node h c) x there;
    }

is_empty_nil : (ns : OrderList) → is_empty ns ≡ true → orders ns ≡ []
is_empty_nil [] e = refl
is_empty_nil ((h, o) ∷ ns) e = cc

is_empty_cons : (ns : OrderList) → is_empty ns ≡ false → orders ns ≢ []
is_empty_cons [] e = cc
is_empty_cons ((h, o) ∷ ns) e = λ q. cc

erase_at-Pruned :
    (p h : ℕ) (ls : PriceLevels) (c : OrderList)
    → OrderedMap.find? p ls ≡ some c
    → Pruned orders node_at (erase_node h) c p ls (erase_at p h ls)
unfolding erase_at
erase_at-Pruned p h ls c e = elim (Bool-cases (is_empty (erase_node h c))) [
  | inl gone ↦ inl (is_empty_nil (erase_node h c) gone, rw (e, erase_at) (rw gone))
  | inr left ↦ inr (is_empty_cons (erase_node h c) left, rw (e, erase_at) (rw left))
]

All-erase_node :
    (P : ℕ × Order → Type 0) (h : ℕ) (ns : OrderList) → All P ns → All P (erase_node h ns)
unfolding erase_node
All-erase_node P h [] a = tt
All-erase_node P h ((i, o) ∷ ns) a = elim (Bool-cases (i == h)) [
  | inl same ↦ rw same a.1
  | inr other ↦ rw other (a.0, All-erase_node P h ns a.1)
]

IsOld-erase_at :
    (n p h : ℕ) (ls : PriceLevels) (c : OrderList)
    → OrderedMap.find? p ls ≡ some c
    → IsOld n ls
    → IsOld n (erase_at p h ls)
IsOld-erase_at n p h ls c e a = elim (erase_at-Pruned p h ls c e) [
  | inl (_, x) ↦ rw x (OrderedMap.All-erase _ p ls a)
  | inr (_, x) ↦ rw x (
      OrderedMap.All-adjust (λ l. All (λ node. node.0 < n) l.1) p (erase_node h) ls
        (λ ns b. All-erase_node (λ node. node.0 < n) h ns b) a)
]

-- What `removeOrder` leaves, where the table has the order.
abbrev removed : Side → ℕ → ℕ → ℕ → Matcher → Matcher
removed s p h i m = record (with_levels s (erase_at p h (levels s m)) m) {
  order_table = erase i m.order_table;
}

levels-removed :
    (s : Side) (p h i : ℕ) (m : Matcher)
    → (levels s (removed s p h i m) ≡ erase_at p h (levels s m))
      × (levels (opposite s) (removed s p h i m) ≡ levels (opposite s) m)
      × ((removed s p h i m).next_node ≡ m.next_node)
levels-removed buy p h i m = (refl, refl, refl)
levels-removed sell p h i m = (refl, refl, refl)

table-removed :
    (s : Side) (p h i : ℕ) (m : Matcher) → (removed s p h i m).order_table ≡ erase i m.order_table
table-removed buy p h i m = refl
table-removed sell p h i m = refl

removed-IsValid :
    (s : Side) (p h i : ℕ) (m : Matcher) (c : OrderList) (o : Order)
    → IsValid m
    → OrderedMap.find? p (levels s m) ≡ some c
    → node_at c h ≡ some o
    → o.id ≡ i
    → IsValid (removed s p h i m)
      × ((t : Side) → queue (levels t (removed s p h i m)) ≡ Spec.dequeue i (queue (levels t m)))
removed-IsValid s p h i m c o v found there id =
    let (here, other, next) = levels-removed s p h i m in
    let out = erase_node-TakesOut h i c o there id in
    let pruned : Pruned orders node_at (erase_node h) c p (levels s m)
        (levels s (removed s p h i m)) =
      rw here (erase_at-Pruned p h (levels s m) c found) in
    (
      record {
        indexed =
            IsIndexed-remove orders node_at (λ t. levels t m) (λ t. levels t (removed s p h i m))
              m.order_table s other v.indexed i p h c (erase_node h) found out pruned;
        old = λ t.
            subst (λ n. IsOld n (levels t (removed s p h i m))) (sym next)
              (by_side (λ t. IsOld m.next_node (levels t (removed s p h i m))) s
                (rw here (IsOld-erase_at m.next_node p h (levels s m) c found (v.old s)))
                (rw other (v.old (opposite s))) t);
        keyed =
            subst IsKeyed (sym (table-removed s p h i m)) (IsKeyed-erase i m.order_table v.keyed);
      },
      flatten-removed orders node_at (λ t. levels t m) (λ t. levels t (removed s p h i m))
          m.order_table s other v.indexed i p h c (erase_node h) found out pruned,
    )

-- `removeOrder` removes the order from its queue, and does nothing where there is none.
pub remove_order-IsValid :
    (i : ℕ) (m : Matcher)
    → IsValid m
    → IsValid (remove_order i m) × (queues (remove_order i m) ≡ Spec.cancel_order i (queues m))
unfolding remove_order Spec.cancel_order
remove_order-IsValid i m v = elim (Option-cases (lookup i m.order_table)) [
  | inl absent ↦
      let gone = v.indexed.complete i absent in
      rw (absent, remove_order)
        (
          v,
          cc (
            dequeue_absent i (queue m.bids) (omega (arith, gone)),
            dequeue_absent i (queue m.asks) (omega (arith, gone)),
          ),
        )
  | inr (loc, there) ↦
      let st = v.indexed.sound i loc there in
      let (valid, gone) =
        removed-IsValid loc.side loc.price loc.slot i m st.level st.order v st.level_found
          st.order_found st.same_id in
      rw (there, remove_order) (valid, cc (gone buy, gone sell))
]
