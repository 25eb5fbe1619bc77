-- ===== src/Feed/BookBuilder/Totals.antt =====
-- The quantity of a level of the book builder is what its orders have left.
use titan_engine.Prelude.{
  ℕ, ◌+◌, ◌-◌, ◌≤◌, ◌<◌, ◌≡◌, refl, sym, ap, ◌∙◌, subst, true, ◌&&◌, List, none, leb, ◌==◌,
  if◌then◌else◌, arith, Bool-cases, Option-cases, inl, inr, ==_iff, add64, u64_mod, min, nat_eq,
}
use titan_engine.Prelude.Assoc.{lookup, insert, erase, IsKeyed, IsKeyed-insert, IsKeyed-erase}
use titan_engine.Prelude.OrderedMap
use titan_engine.Prelude.OrderedMap.{IsOrdered}
use titan_engine.Core.{Side, buy, sell, before}
use titan_engine.Feed.BookBuilder.{
  RestingOrder, SymbolBook, levels, add_level, remove_level, add_order, reduce_order, delete_order,
}
use titan_engine.Feed.BookBuilder.Levels.{level_at, upsert-IsOrdered, level_at-upsert}
use titan_engine.Feed.BookBuilder.Shares.{
  same_side, part, part_of, shares_at, shares_at-new, shares_at-erase, shares_at-insert,
}
use titan_engine.Feed.BookBuilder.Removal.{IsLess, remove_level-IsLess}

-- Each reference has one order, the levels are ordered, and a level has what its orders have left.
pub record IsTotalled (b : SymbolBook) : Type 0 where
  pub keyed : IsKeyed b.orders
  pub ordered : (s : Side) → IsOrdered (before s) (levels s b)
  pub total : (t : Side) (i : ℕ) → level_at i (levels t b) ≡ shares_at t i b.orders

levels_orders :
    (t : Side) (orders : List (ℕ × RestingOrder)) (b : SymbolBook)
    → levels t (record b { orders = orders }) ≡ levels t b
levels_orders buy orders b = refl
levels_orders sell orders b = refl

-- The orders of a book, written together with a level that is less by as much.
less-IsTotalled :
    (s : Side) (p q : ℕ) (b b' : SymbolBook) (orders : List (ℕ × RestingOrder))
    → IsTotalled b
    → IsLess s p q b b'
    → IsKeyed orders
    → ((t : Side) (i : ℕ) → shares_at t i b.orders ≡ shares_at t i orders + part s p q t i)
    → IsTotalled (record b' { orders = orders })
less-IsTotalled s p q b b' orders h l k e = record {
  keyed = k;
  ordered = λ t. subst (IsOrdered (before t)) (sym (levels_orders t orders b')) (l.ordered t);
  total = λ t i.
      ap (level_at i) (levels_orders t orders b') ∙ l.less t i ∙ omega (arith, h.total t i, e t i);
}

-- The order and its part of the level go together.
pub delete_order-IsTotalled :
    (ref : ℕ) (b : SymbolBook) → IsTotalled b → IsTotalled (delete_order ref b)
unfolding delete_order
delete_order-IsTotalled ref b h = elim (Option-cases (lookup ref b.orders)) [
  | inl e ↦ rw (delete_order, e) h
  | inr (o, e) ↦
      let l = remove_level-IsLess o.side o.price o.remaining_shares b h.ordered in
      rw (delete_order, e, l.same_orders)
        (less-IsTotalled o.side o.price o.remaining_shares b
          (remove_level o.side o.price o.remaining_shares b) (erase ref b.orders) h l
          (IsKeyed-erase ref b.orders h.keyed)
          (λ t i. shares_at-erase ref o t i b.orders h.keyed e))
]

part_split :
    (o : RestingOrder) (by : ℕ) (t : Side) (i : ℕ)
    → by ≤ o.remaining_shares
    → part_of o t i
      ≡ part_of (record o { remaining_shares = o.remaining_shares - by }) t i
        + part o.side o.price by t i
part_split o by t i h = elim (Bool-cases (same_side o.side t && (o.price == i))) [
  | inl e ↦ rw e (omega (arith, h))
  | inr e ↦ rw e (omega arith)
]

-- The order and its level get less by as much.
pub reduce_order-IsTotalled :
    (ref shares : ℕ) (b : SymbolBook) → IsTotalled b → IsTotalled (reduce_order ref shares b)
unfolding reduce_order
reduce_order-IsTotalled ref shares b h = elim (Option-cases (lookup ref b.orders)) [
  | inl e ↦ rw (reduce_order, e) h
  | inr (o, e) ↦
      let by = min shares o.remaining_shares in
      let l = remove_level-IsLess o.side o.price by b h.ordered in
      let b' = remove_level o.side o.price by b in
      let small : by ≤ o.remaining_shares = omega arith in
      let left : RestingOrder = record o { remaining_shares = o.remaining_shares - by } in
      elim (Bool-cases (leb o.remaining_shares by)) [
        | inl all ↦
            let whole : by ≡ o.remaining_shares = ground arith in
            rw (reduce_order, e, all, l.same_orders)
              (less-IsTotalled o.side o.price by b b' (erase ref b.orders) h l
                (IsKeyed-erase ref b.orders h.keyed)
                (λ t i.
                  shares_at-erase ref o t i b.orders h.keyed e
                  ∙ ap (λ n. shares_at t i (erase ref b.orders) + part o.side o.price n t i)
                      (sym whole)))
        | inr some_left ↦
            rw (reduce_order, e, some_left, l.same_orders)
              (less-IsTotalled o.side o.price by b b' (insert ref left b.orders) h l
                (IsKeyed-insert ref left b.orders h.keyed)
                (λ t i.
                  omega
                    (arith, shares_at-insert ref o left t i b.orders e, part_split o by t i small)))
      ]
]

grown_level :
    (p i q : ℕ) (l n : ℕ → ℕ)
    → ((i : ℕ) → l i ≡ n i)
    → n p + q < u64_mod
    → (if p == i then add64 (l p) q else l i) ≡ n i + (if p == i then q else 0)
grown_level p i q l n e room = elim (Bool-cases (p == i)) [
  | inl same ↦
      let it : i ≡ p = sym ((==_iff p i).0 same) in
      let there : n i ≡ n p = ap n it in rw same (omega (arith, e p, there))
  | inr other ↦ rw other (omega (arith, e i))
]

add_order_on :
    (s : Side) (ref shares price : ℕ) (b : SymbolBook) (t : Side)
    → levels t (add_order ref s shares price b) ≡ (
        if same_side s t
        then OrderedMap.upsert (before s) price 0 (λ v. add64 v shares) (levels s b)
        else levels t b)
unfolding add_order add_level
add_order_on buy ref shares price b buy = refl
add_order_on buy ref shares price b sell = refl
add_order_on sell ref shares price b buy = refl
add_order_on sell ref shares price b sell = refl

same_side-eq : (s t : Side) → same_side s t ≡ true → s ≡ t
same_side-eq buy buy h = refl
same_side-eq buy sell h = cc
same_side-eq sell buy h = cc
same_side-eq sell sell h = refl

add_order_orders :
    (s : Side) (ref shares price : ℕ) (b : SymbolBook)
    → (add_order ref s shares price b).orders
      ≡ insert ref (record { side = s; price = price; remaining_shares = shares }) b.orders
unfolding add_order add_level
add_order_orders buy ref shares price b = refl
add_order_orders sell ref shares price b = refl

-- A new order and its level, which has room for it.
pub add_order-IsTotalled :
    (ref : ℕ) (s : Side) (shares price : ℕ) (b : SymbolBook)
    → IsTotalled b
    → lookup ref b.orders ≡ none
    → shares_at s price b.orders + shares < u64_mod
    → IsTotalled (add_order ref s shares price b)
add_order-IsTotalled ref s shares price b h fresh room =
    let o : RestingOrder = record { side = s; price = price; remaining_shares = shares } in
    let added = add_order_orders s ref shares price b in
    let bigger : (t : Side) (i : ℕ)
        → shares_at t i (add_order ref s shares price b).orders
          ≡ shares_at t i b.orders + part_of o t i =
      λ t i. ap (shares_at t i) added ∙ shares_at-new ref o t i b.orders fresh in
    record {
      keyed = subst IsKeyed (sym added) (IsKeyed-insert ref o b.orders h.keyed);
      ordered = λ t. elim (Bool-cases (same_side s t)) [
        | inl own ↦
            let it : s ≡ t = same_side-eq s t own in
            subst (IsOrdered (before t)) (sym (add_order_on s ref shares price b t ∙ rw own refl)) (
              subst
                (λ t.
                  IsOrdered (before t)
                    (OrderedMap.upsert (before s) price 0 (λ v. add64 v shares) (levels s b)))
                it (upsert-IsOrdered s price (λ v. add64 v shares) (levels s b) (h.ordered s)))
        | inr other ↦
            subst (IsOrdered (before t)) (sym (add_order_on s ref shares price b t ∙ rw other refl))
              (h.ordered t)
      ];
      total = λ t i. elim (Bool-cases (same_side s t)) [
        | inl own ↦
            let it : s ≡ t = same_side-eq s t own in
            let grown : level_at i (levels t (add_order ref s shares price b))
                ≡ shares_at s i b.orders + (if price == i then shares else 0) =
              ap (level_at i) (add_order_on s ref shares price b t ∙ rw own refl)
              ∙ level_at-upsert s price i (λ v. add64 v shares) (levels s b) (h.ordered s)
              ∙ grown_level price i shares (λ i. level_at i (levels s b))
                  (λ i. shares_at s i b.orders) (h.total s) room in
            grown
            ∙ ap (λ t. shares_at t i b.orders + (if price == i then shares else 0)) it
            ∙ rw own refl
            ∙ sym (bigger t i)
        | inr other ↦
            ap (level_at i) (add_order_on s ref shares price b t ∙ rw other refl)
            ∙ h.total t i
            ∙ rw other (omega arith)
            ∙ sym (bigger t i)
      ];
    }
