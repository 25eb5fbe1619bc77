-- ===== src/Book/Checks/Walk.antt =====
-- The walk over the levels reports nothing on the ladders of a valid matcher.
use titan_engine.Prelude.{
  ℕ, ◌<◌, ◌≡◌, refl, true, false, List, [], ◌∷◌, ◌++◌, Option, none, some, ◌==◌, All, All-append,
  All-append_left, All-append_right, All-map, ltb→lt, arith, nat_eq,
}
use titan_engine.Core.{Side, buy, sell, Order}
use titan_engine.Book.Spec.Sweep.{IsPositive}
use titan_engine.Book.Ladder.{IsLadder}
use titan_engine.Book.Reference.{OrderList, PriceLevels}
use titan_engine.Book.Reference.Table.{orders, node_at, queue}
use titan_engine.Book.Checks.{reverse, ascending, check_order_of, check_orders, walk_levels}

check_orders_clean :
    (s : Side) (p : ℕ) (ns : OrderList)
    → All (λ (o : Order). 0 < o.quantity) (orders ns)
    → All (λ (o : Order). (o.price ≡ p) × (o.side ≡ s)) (orders ns)
    → check_orders s p ns ≡ []
unfolding check_orders
check_orders_clean s p [] a b = refl
check_orders_clean s p ((h, o) ∷ ns) a b =
    let q : (o.quantity == 0) ≡ false = ground arith in
    let r : (o.price == p) ≡ true = ground arith in
    rw (q, r, check_orders_clean s p ns a.1 b.1) refl

-- What the walk asks of a level and of the one that it passed before.
abbrev IsStep : Option ℕ → ℕ → Type 0
IsStep none p = Unit
IsStep (some q) p = q < p

IsRising : Option ℕ → PriceLevels → Type 0
IsRising q [] = Unit
IsRising q ((p, ns) ∷ ls) = IsStep q p × IsRising (some p) ls

check_order_of_clean : (s : Side) (q : Option ℕ) (p : ℕ) → IsStep q p → check_order_of s q p ≡ []
check_order_of_clean s none p h = refl
check_order_of_clean s (some q) p h = ground arith

walk_levels_clean :
    (s : Side) (q : Option ℕ) (ls : PriceLevels)
    → IsRising q ls
    → All (λ l. check_orders s l.0 l.1 ≡ []) ls
    → walk_levels s q ls ≡ []
unfolding walk_levels IsRising
walk_levels_clean s q [] r a = refl
walk_levels_clean s q ((p, ns) ∷ ls) r a =
    rw (check_order_of_clean s q p r.0, a.0, walk_levels_clean s (some p) ls r.1 a.1) refl

levels_clean :
    (s : Side) (ls : PriceLevels)
    → IsLadder orders node_at s ls
    → IsPositive (queue ls)
    → All (λ l. check_orders s l.0 l.1 ≡ []) ls
levels_clean s [] l a = tt
levels_clean s ((p, ns) ∷ ls) l a = (
  check_orders_clean s p ns (All-append_left _ (orders ns) (queue ls) a) l.1,
  levels_clean s ls l.3 (All-append_right _ (orders ns) (queue ls) a),
)

All-reverse {ℓ κ} : {A : Type ℓ} (P : A → Type κ) (xs : List A) → All P xs → All P (reverse xs)
unfolding reverse
All-reverse P [] a = tt
All-reverse P (x ∷ xs) a = All-append P (reverse xs) (x ∷ []) (All-reverse P xs a.1) (a.0, tt)

asks-IsRising :
    (q : Option ℕ) (ls : PriceLevels)
    → All (λ l. IsStep q l.0) ls
    → IsLadder orders node_at sell ls
    → IsRising q ls
unfolding IsRising
asks-IsRising q [] a l = tt
asks-IsRising q ((p, ns) ∷ ls) a l = (
  a.0,
  asks-IsRising (some p) ls (All-map _ _ ls (λ (e : ℕ × OrderList) h. ltb→lt p e.0 h) l.2) l.3,
)

All-any : (ls : PriceLevels) → All (λ (l : ℕ × OrderList). IsStep none l.0) ls
All-any [] = tt
All-any (l ∷ ls) = (tt, All-any ls)

snoc-IsRising :
    (q : Option ℕ) (xs : PriceLevels) (p : ℕ) (ns : OrderList)
    → IsRising q xs
    → All (λ (l : ℕ × OrderList). l.0 < p) xs
    → IsStep q p
    → IsRising q (xs ++ (p, ns) ∷ [])
unfolding IsRising
snoc-IsRising q [] p ns r a h = (h, tt)
snoc-IsRising q (x ∷ xs) p ns r a h = (r.0, snoc-IsRising (some x.0) xs p ns r.1 a.1 a.0)

bids-IsRising : (ls : PriceLevels) → IsLadder orders node_at buy ls → IsRising none (reverse ls)
unfolding IsRising reverse
bids-IsRising [] l = tt
bids-IsRising ((p, ns) ∷ ls) l =
    snoc-IsRising none (reverse ls) p ns (bids-IsRising ls l.3)
      (All-reverse _ ls (All-map _ _ ls (λ (e : ℕ × OrderList) h. ltb→lt e.0 p h) l.2)) tt

pub side_clean :
    (s : Side) (ls : PriceLevels)
    → IsLadder orders node_at s ls
    → IsPositive (queue ls)
    → walk_levels s none (ascending s ls) ≡ []
side_clean buy ls l a =
    walk_levels_clean buy none (reverse ls) (bids-IsRising ls l)
      (All-reverse _ ls (levels_clean buy ls l a))
side_clean sell ls l a =
    walk_levels_clean sell none ls (asks-IsRising none ls (All-any ls) l) (levels_clean sell ls l a)
