-- ===== src/Feed/BookBuilder/Removal.antt =====
-- `removeLevel` of the book builder.
use titan_engine.Prelude.{
  ℕ, ◌-◌, ◌≡◌, refl, sym, ap, ◌∙◌, subst, true, List, none, some, leb, ◌==◌, if◌then◌else◌, arith,
  Bool-cases, Option-cases, inl, inr, ==_iff, nat_eq,
}
use titan_engine.Prelude.OrderedMap
use titan_engine.Prelude.OrderedMap.{IsOrdered}
use titan_engine.Core.{Side, buy, sell, before}
use titan_engine.Feed.BookBuilder.{SymbolBook, levels, with_levels, remove_level}
use titan_engine.Feed.BookBuilder.Levels.{
  or_zero, level_at, erase-IsOrdered, adjust-IsOrdered, level_at-erase, level_at-adjust,
}
use titan_engine.Feed.BookBuilder.Shares.{part}

-- What `removeLevel` leaves: the orders, and one level less so much, down to 0.
pub record IsLess (s : Side) (p q : ℕ) (b b' : SymbolBook) : Type 0 where
  pub same_orders : b'.orders ≡ b.orders
  pub ordered : (t : Side) → IsOrdered (before t) (levels t b')
  pub less :
      (t : Side) (i : ℕ) → level_at i (levels t b') ≡ level_at i (levels t b) - part s p q t i

-- A level map, of which one level is less.
removed_at :
    (s : Side) (p q i : ℕ) (ls : List (ℕ × ℕ))
    → IsOrdered (before s) ls
    → (v : ℕ) → OrderedMap.find? p ls ≡ some v
    → (level_at i (if leb v q then OrderedMap.erase p ls else OrderedMap.adjust p (λ w. w - q) ls)
        ≡ level_at i ls - (if p == i then q else 0))
unfolding level_at
removed_at s p q i ls h v e =
    let there : (p == i) ≡ true → level_at i ls ≡ v =
      λ same. ap (λ j. level_at j ls) (sym ((==_iff p i).0 same)) ∙ ap or_zero e in
    elim (Bool-cases (leb v q)) [
      | inl all ↦ rw all (level_at-erase s p i ls h ∙ ground (arith, there, all))
      | inr rest ↦ rw rest (level_at-adjust p i v (λ w. w - q) ls e ∙ ground (arith, there, rest))
    ]

removed-IsOrdered :
    (s : Side) (p q v : ℕ) (ls : List (ℕ × ℕ))
    → IsOrdered (before s) ls
    → IsOrdered
        (before s)
        (if leb v q then OrderedMap.erase p ls else OrderedMap.adjust p (λ w. w - q) ls)
removed-IsOrdered s p q v ls h = elim (Bool-cases (leb v q)) [
  | inl all ↦ rw all (erase-IsOrdered s p ls h)
  | inr rest ↦ rw rest (adjust-IsOrdered s p (λ w. w - q) ls h)
]

-- No level is 0 already.
missing_at :
    (p q i : ℕ) (ls : List (ℕ × ℕ))
    → OrderedMap.find? p ls ≡ none
    → level_at i ls ≡ level_at i ls - (if p == i then q else 0)
unfolding level_at
missing_at p q i ls e = elim (Bool-cases (p == i)) [
  | inl same ↦
      let none_there : level_at i ls ≡ 0 =
        ap (λ j. level_at j ls) (sym ((==_iff p i).0 same)) ∙ ap or_zero e in
      rw same (omega (arith, none_there))
  | inr other ↦ rw other (omega arith)
]

both : (P : Side → Type 0) → P buy → P sell → (t : Side) → P t
both P x y buy = x
both P x y sell = y

with_levels-IsLess :
    (s : Side) (p q : ℕ) (ls : List (ℕ × ℕ)) (b : SymbolBook)
    → IsOrdered (before s) ls
    → ((i : ℕ) → level_at i ls ≡ level_at i (levels s b) - (if p == i then q else 0))
    → ((t : Side) → IsOrdered (before t) (levels t b))
    → IsLess s p q b (with_levels s ls b)
with_levels-IsLess buy p q ls b o l h = record {
  same_orders = refl;
  ordered = both (λ t. IsOrdered (before t) (levels t (with_levels buy ls b))) o (h sell);
  less =
      both
        (λ t.
          (i : ℕ)
          → level_at i (levels t (with_levels buy ls b))
            ≡ level_at i (levels t b) - part buy p q t i)
        l (λ i. omega arith);
}
with_levels-IsLess sell p q ls b o l h = record {
  same_orders = refl;
  ordered = both (λ t. IsOrdered (before t) (levels t (with_levels sell ls b))) (h buy) o;
  less =
      both
        (λ t.
          (i : ℕ)
          → level_at i (levels t (with_levels sell ls b))
            ≡ level_at i (levels t b) - part sell p q t i)
        (λ i. omega arith) l;
}

unwritten-IsLess :
    (s : Side) (p q : ℕ) (b : SymbolBook)
    → OrderedMap.find? p (levels s b) ≡ none
    → ((t : Side) → IsOrdered (before t) (levels t b))
    → IsLess s p q b b
unwritten-IsLess buy p q b e h = record {
  same_orders = refl;
  ordered = h;
  less =
      both (λ t. (i : ℕ) → level_at i (levels t b) ≡ level_at i (levels t b) - part buy p q t i)
        (λ i. missing_at p q i b.bid_levels e) (λ i. omega arith);
}
unwritten-IsLess sell p q b e h = record {
  same_orders = refl;
  ordered = h;
  less =
      both (λ t. (i : ℕ) → level_at i (levels t b) ≡ level_at i (levels t b) - part sell p q t i)
        (λ i. omega arith) (λ i. missing_at p q i b.ask_levels e);
}

remove_level-some :
    (s : Side) (p q v : ℕ) (b : SymbolBook)
    → OrderedMap.find? p (levels s b) ≡ some v
    → with_levels s
        (if leb v q
          then OrderedMap.erase p (levels s b)
          else OrderedMap.adjust p (λ w. w - q) (levels s b))
        b
      ≡ remove_level s p q b
unfolding remove_level
remove_level-some s p q v b e = elim (Bool-cases (leb v q)) [
  | inl all ↦ rw (remove_level, e, all) refl
  | inr rest ↦ rw (remove_level, e, rest) refl
]

pub remove_level-IsLess :
    (s : Side) (p q : ℕ) (b : SymbolBook)
    → ((t : Side) → IsOrdered (before t) (levels t b))
    → IsLess s p q b (remove_level s p q b)
unfolding remove_level
remove_level-IsLess s p q b h = elim (Option-cases (OrderedMap.find? p (levels s b))) [
  | inl e ↦ rw (remove_level, e) (unwritten-IsLess s p q b e h)
  | inr (v, e) ↦ subst (IsLess s p q b) (remove_level-some s p q v b e) (
      with_levels-IsLess s p q _ b (removed-IsOrdered s p q v (levels s b) (h s))
        (λ i. removed_at s p q i (levels s b) (h s) v e) h)
]
