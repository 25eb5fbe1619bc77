-- ===== src/Feed/BookBuilder/Levels.antt =====
-- The level maps: ordered, with the quantity of a level looked up by its price.
use titan_engine.Prelude.{
  ℕ, ◌≡◌, refl, ap, ◌∙◌, true, false, List, [], ◌∷◌, Option, none, some, ◌==◌, if◌then◌else◌, All,
  All-map, arith, Bool-cases, inl, inr, ==_iff,
}
use titan_engine.Prelude.OrderedMap
use titan_engine.Prelude.OrderedMap.{IsOrdered}
use titan_engine.Core.{Side, buy, sell, before}

abbrev pub Sums : Type 0
Sums = List (ℕ × ℕ)

-- The quantity of a level, 0 where there is none.
abbrev pub or_zero : Option ℕ → ℕ
or_zero none = 0
or_zero (some v) = v

unfoldable pub level_at : ℕ → Sums → ℕ
unfolding OrderedMap.find?
level_at p ls = or_zero (OrderedMap.find? p ls)

before_trans :
    (s : Side) (a b c : ℕ) → before s a b ≡ true → before s b c ≡ true → before s a c ≡ true
before_trans buy a b c h k = ground arith
before_trans sell a b c h k = ground arith

-- What stands behind a price is another price.
behind_other :
    (s : Side) (p : ℕ) (ls : Sums)
    → All (λ (e : ℕ × ℕ). before s p e.0 ≡ true) ls
    → All (λ (e : ℕ × ℕ). (e.0 == p) ≡ false) ls
behind_other buy p [] h = tt
behind_other buy p (e ∷ ls) h = (ground (arith, h.0), behind_other buy p ls h.1)
behind_other sell p [] h = tt
behind_other sell p (e ∷ ls) h = (ground (arith, h.0), behind_other sell p ls h.1)

behind-All :
    (s : Side) (p q : ℕ) (ls : Sums)
    → before s p q ≡ true
    → All (λ (e : ℕ × ℕ). before s q e.0 ≡ true) ls
    → All (λ (e : ℕ × ℕ). before s p e.0 ≡ true) ls
behind-All s p q ls h a = All-map _ _ ls (λ (e : ℕ × ℕ) k. before_trans s p q e.0 h k) a

before_or : (s : Side) (p q : ℕ) → (q == p) ≡ false → before s p q ≡ false → before s q p ≡ true
before_or buy p q h k = ground arith
before_or sell p q h k = ground arith

pub upsert-IsOrdered :
    (s : Side) (p : ℕ) (f : ℕ → ℕ) (ls : Sums)
    → IsOrdered (before s) ls
    → IsOrdered (before s) (OrderedMap.upsert (before s) p 0 f ls)
unfolding OrderedMap.upsert
upsert-IsOrdered s p f [] h = (tt, tt)
upsert-IsOrdered s p f ((q, v) ∷ ls) h = elim (Bool-cases (q == p)) [
  | inl same ↦ rw same h
  | inr other ↦ elim (Bool-cases (before s p q)) [
    | inl better ↦ rw (other, better) ((better, behind-All s p q ls better h.0), h)
    | inr worse ↦
        rw (other, worse)
          (
            OrderedMap.All-upsert (λ e. before s q e.0 ≡ true) (before s) p 0 f ls
                (before_or s p q other worse) (λ v k. k) h.0,
            upsert-IsOrdered s p f ls h.1,
          )
  ]
]

pub erase-IsOrdered :
    (s : Side) (p : ℕ) (ls : Sums)
    → IsOrdered (before s) ls
    → IsOrdered (before s) (OrderedMap.erase p ls)
unfolding OrderedMap.erase
erase-IsOrdered s p [] h = tt
erase-IsOrdered s p ((q, v) ∷ ls) h = elim (Bool-cases (q == p)) [
  | inl same ↦ rw same h.1
  | inr other ↦
      rw other
        (OrderedMap.All-erase (λ e. before s q e.0 ≡ true) p ls h.0, erase-IsOrdered s p ls h.1)
]

pub adjust-IsOrdered :
    (s : Side) (p : ℕ) (f : ℕ → ℕ) (ls : Sums)
    → IsOrdered (before s) ls
    → IsOrdered (before s) (OrderedMap.adjust p f ls)
unfolding OrderedMap.adjust
adjust-IsOrdered s p f [] h = tt
adjust-IsOrdered s p f ((q, v) ∷ ls) h = elim (Bool-cases (q == p)) [
  | inl same ↦ rw same h
  | inr other ↦ rw other (
    OrderedMap.All-adjust (λ e. before s q e.0 ≡ true) p f ls (λ v k. k) h.0,
    adjust-IsOrdered s p f ls h.1,
  )
]

pub level_at-upsert :
    (s : Side) (p i : ℕ) (f : ℕ → ℕ) (ls : Sums)
    → IsOrdered (before s) ls
    → level_at i (OrderedMap.upsert (before s) p 0 f ls)
      ≡ (if p == i then f (level_at p ls) else level_at i ls)
unfolding level_at OrderedMap.upsert OrderedMap.find?
level_at-upsert s p i f [] h = ground arith
level_at-upsert s p i f ((q, v) ∷ ls) h = elim (Bool-cases (q == p)) [
  | inl same ↦ rw same (ground arith)
  | inr other ↦ elim (Bool-cases (before s p q)) [
    | inl better ↦
        let gone : OrderedMap.find? p ls ≡ none =
          OrderedMap.find?_absent p ls (behind_other s p ls (behind-All s p q ls better h.0)) in
        rw (other, better, gone) (ground arith)
    | inr worse ↦ rw (other, worse) (ground (arith, level_at-upsert s p i f ls h.1))
  ]
]

pub level_at-adjust :
    (p i v : ℕ) (f : ℕ → ℕ) (ls : Sums)
    → OrderedMap.find? p ls ≡ some v
    → level_at i (OrderedMap.adjust p f ls) ≡ (if p == i then f v else level_at i ls)
unfolding level_at
level_at-adjust p i v f ls e = elim (Bool-cases (p == i)) [
  | inl k ↦ ap or_zero (OrderedMap.find?-adjust p i f ls v e) ∙ rw k refl
  | inr k ↦ ap or_zero (OrderedMap.find?-adjust p i f ls v e) ∙ rw k refl
]

pub level_at-erase :
    (s : Side) (p i : ℕ) (ls : Sums)
    → IsOrdered (before s) ls
    → level_at i (OrderedMap.erase p ls) ≡ (if p == i then 0 else level_at i ls)
unfolding level_at OrderedMap.erase OrderedMap.find?
level_at-erase s p i [] h = ground arith
level_at-erase s p i ((q, v) ∷ ls) h = elim (Bool-cases (q == p)) [
  | inl same ↦
      let it : q ≡ p = (==_iff q p).0 same in
      let gone : OrderedMap.find? q ls ≡ none =
        OrderedMap.find?_absent q ls (behind_other s q ls h.0) in
      elim (Bool-cases (p == i)) [
        | inl k ↦
            let to : i ≡ q = ground (arith, it, k) in
            rw (same, k) (ap or_zero (ap (λ x. OrderedMap.find? x ls) to ∙ gone))
        | inr k ↦ let far : (q == i) ≡ false = ground (arith, it, k) in rw (same, k, far) refl
      ]
  | inr other ↦ rw other (ground (arith, level_at-erase s p i ls h.1))
]
