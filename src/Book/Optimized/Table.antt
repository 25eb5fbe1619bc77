-- ===== src/Book/Optimized/Table.antt =====
-- `OptimizedMatcher` keeps its price maps and its order table in agreement.
use titan_engine.Prelude.{
  ℕ, zero, suc, ◌-◌, ◌≤◌, ◌≡◌, ◌≢◌, refl, sym, ◌∙◌, subst, List, [], ◌∷◌, ◌++◌, Option, some, none,
  All, ◌==◌, ==_iff, arith, Bool-cases, inl, inr, Option-cases, nat_eq, set, take, length,
  length-append, length-set, ap,
}
use titan_engine.Prelude.Assoc.{lookup, erase}
use titan_engine.Prelude.OrderedMap
use titan_engine.Core.{Side, buy, sell, opposite, Order}
use titan_engine.Book.Spec
use titan_engine.Book.Spec.{Queues}
use titan_engine.Book.Ladder.{flatten, IsIndexed}
use titan_engine.Book.Ladder.Index.{
  TakesOut, Pruned, IsIndexed-remove, flatten-removed, by_side, some_eq, ne_of_test,
}
use titan_engine.Book.Ladder.Queue.{dequeue_absent}
use titan_engine.Book.Optimized.{
  Level, Levels, Matcher, levels, with_levels, slot_at, kill_slot, release_at, remove_order,
}

-- The orders of the slots that are no tombstones.
abbrev pub live : List (Option Order) → List Order
live [] = []
live (none ∷ xs) = live xs
live (some o ∷ xs) = o ∷ live xs

abbrev pub orders : Level → List Order
orders level = live level.orders

abbrev pub order_at : Level → ℕ → Option Order
order_at level = slot_at level.orders

abbrev pub queue : Levels → List Order
queue = flatten orders order_at

abbrev pub queue_of : Side → Matcher → List Order
queue_of s m = queue (levels s m)

abbrev pub queues : Matcher → Queues
queues m = record { bids = queue m.bids; asks = queue m.asks }

-- The slots in front of the front index are tombstones, and the live orders are counted.
pub record IsLevel (level : Level) : Type 0 where
  pub counted : level.live_count ≡ length (live level.orders)
  pub dead : live (take level.front_index level.orders) ≡ []
  pub inside : level.front_index ≤ length level.orders

pub record IsValid (m : Matcher) : Type 0 where
  pub indexed : IsIndexed orders order_at (λ s. levels s m) m.order_table
  pub sound_levels : (s : Side) → All (λ l. IsLevel l.1) (levels s m)

pub slot_at-set_other :
    (xs : List (Option Order)) (i k : ℕ) (v : Option Order)
    → i ≢ k
    → slot_at (set xs i v) k ≡ slot_at xs k
slot_at-set_other [] i k v ne = refl
slot_at-set_other (x ∷ xs) zero zero v ne = absurd (ne refl)
slot_at-set_other (x ∷ xs) zero (suc k) v ne = refl
slot_at-set_other (x ∷ xs) (suc i) zero v ne = refl
slot_at-set_other (x ∷ xs) (suc i) (suc k) v ne = slot_at-set_other xs i k v (λ e. ne (rw e))

pub live-slot_at :
    (xs : List (Option Order)) (k : ℕ) (x : Order) → slot_at xs k ≡ some x → live xs ≢ []
live-slot_at [] k x e = cc
live-slot_at (none ∷ xs) zero x e = cc
live-slot_at (none ∷ xs) (suc k) x e = live-slot_at xs k x e
live-slot_at (some o ∷ xs) k x e = λ q. cc

-- Where a tombstone cuts a level.
live-set-none :
    (xs : List (Option Order)) (i : ℕ) (o : Order)
    → slot_at xs i ≡ some o
    → (a : List Order) × (b : List Order) × (live xs ≡ a ++ (o ∷ b))
      × (live (set xs i none) ≡ a ++ b)
live-set-none [] i o e = cc
live-set-none (none ∷ xs) zero o e = cc
live-set-none (some x ∷ xs) zero o e = ([], live xs, rw (some_eq e), refl)
live-set-none (none ∷ xs) (suc i) o e = live-set-none xs i o e
live-set-none (some x ∷ xs) (suc i) o e =
    let (a, b, had, has) = live-set-none xs i o e in (x ∷ a, b, rw had, rw has)

live-take-set :
    (xs : List (Option Order)) (n i : ℕ)
    → live (take n xs) ≡ []
    → live (take n (set xs i none)) ≡ []
live-take-set [] n i e = e
live-take-set (x ∷ xs) zero i e = refl
live-take-set (none ∷ xs) (suc n) zero e = e
live-take-set (some x ∷ xs) (suc n) zero e = cc
live-take-set (none ∷ xs) (suc n) (suc i) e = live-take-set xs n i e
live-take-set (some x ∷ xs) (suc n) (suc i) e = cc

kill_slot-TakesOut :
    (slot i : ℕ) (c : Level) (o : Order)
    → order_at c slot ≡ some o
    → o.id ≡ i
    → TakesOut orders order_at (kill_slot slot) c slot i
kill_slot-TakesOut slot i c o e id =
    let (a, b, had, has) = live-set-none c.orders slot o e in
    record {
      ahead = a;
      order = o;
      behind = b;
      has_id = id;
      had = had;
      has = has;
      others = λ k x there ne. elim (Bool-cases (slot == k)) [
        | inl same ↦
            let at_k : slot ≡ k = (==_iff slot k).0 same in
            let it : x ≡ o = some_eq (sym there ∙ rw (← at_k) e) in absurd (ne (rw it id))
        | inr other ↦ rw (slot_at-set_other c.orders slot k none (ne_of_test slot k other)) there
      ];
      occupied = λ k x there. live-slot_at (set c.orders slot none) k x there;
    }

length-zero : (xs : List Order) → length xs ≡ 0 → xs ≡ []
length-zero [] e = refl
length-zero (x ∷ xs) e = absurd (omega arith)

length-nonzero : (xs : List Order) → length xs ≢ 0 → xs ≢ []
length-nonzero xs n e = n (ap length e)

kill_slot-count :
    (slot : ℕ) (c : Level) (o : Order)
    → IsLevel c
    → order_at c slot ≡ some o
    → (kill_slot slot c).live_count ≡ length (live (set c.orders slot none))
kill_slot-count slot c o l e =
    let (a, b, had, has) = live-set-none c.orders slot o e in
    omega
      (arith, l.counted, ap length had, ap length has, length-append a (o ∷ b), length-append a b)

kill_slot-IsLevel :
    (slot : ℕ) (c : Level) (o : Order)
    → IsLevel c
    → order_at c slot ≡ some o
    → IsLevel (kill_slot slot c)
kill_slot-IsLevel slot c o l e = record {
  counted = kill_slot-count slot c o l e;
  dead = live-take-set c.orders c.front_index slot l.dead;
  inside = rw (length-set c.orders slot none) l.inside;
}

release_at-Pruned :
    (p slot : ℕ) (ls : Levels) (c : Level) (o : Order)
    → OrderedMap.find? p ls ≡ some c
    → IsLevel c
    → order_at c slot ≡ some o
    → Pruned orders order_at (kill_slot slot) c p ls (release_at p slot ls)
unfolding release_at
release_at-Pruned p slot ls c o found l e =
    let n = kill_slot-count slot c o l e in
    elim (Bool-cases ((kill_slot slot c).live_count == 0)) [
      | inl gone ↦ inl (
        length-zero (live (set c.orders slot none)) (sym n ∙ (==_iff _ 0).0 gone),
        rw (found, release_at) (rw gone),
      )
      | inr left ↦ inr (
        length-nonzero (live (set c.orders slot none))
            (λ z. ne_of_test (c.live_count - 1) 0 left (n ∙ z)),
        rw (found, release_at) (rw left),
      )
    ]

-- A change of one level that is found there.
All-adjust_at :
    (p : ℕ) (f : Level → Level) (ls : Levels) (c : Level)
    → OrderedMap.find? p ls ≡ some c
    → IsLevel (f c)
    → All (λ l. IsLevel l.1) ls
    → All (λ l. IsLevel l.1) (OrderedMap.adjust p f ls)
unfolding OrderedMap.adjust OrderedMap.find?
All-adjust_at p f [] c e h a = tt
All-adjust_at p f ((q, d) ∷ ls) c e h a = elim (Bool-cases (q == p)) [
  | inl same ↦ let w : c ≡ d = ground arith in rw same (subst (λ x. IsLevel (f x)) w h, a.1)
  | inr other ↦ rw other (a.0, All-adjust_at p f ls c (ground arith) h a.1)
]

abbrev removed : Side → ℕ → ℕ → ℕ → Matcher → Matcher
removed s p slot i m = record (with_levels s (release_at p slot (levels s m)) m) {
  order_table = erase i m.order_table;
}

levels-removed :
    (s : Side) (p slot i : ℕ) (m : Matcher)
    → (levels s (removed s p slot i m) ≡ release_at p slot (levels s m))
      × (levels (opposite s) (removed s p slot i m) ≡ levels (opposite s) m)
levels-removed buy p slot i m = (refl, refl)
levels-removed sell p slot i m = (refl, refl)

removed-IsValid :
    (s : Side) (p slot i : ℕ) (m : Matcher) (c : Level) (o : Order)
    → IsValid m
    → OrderedMap.find? p (levels s m) ≡ some c
    → order_at c slot ≡ some o
    → o.id ≡ i
    → IsValid (removed s p slot i m)
      × ((t : Side) → queue_of t (removed s p slot i m) ≡ Spec.dequeue i (queue_of t m))
removed-IsValid s p slot i m c o v found there id =
    let (here, other) = levels-removed s p slot i m in
    let out = kill_slot-TakesOut slot i c o there id in
    let l = OrderedMap.All-find? (λ l. IsLevel l.1) p (levels s m) c found (v.sound_levels s) in
    let pruned = release_at-Pruned p slot (levels s m) c o found l there in
    let kept : All (λ l. IsLevel l.1) (release_at p slot (levels s m)) = elim pruned [
      | inl (_, x) ↦ rw x (OrderedMap.All-erase _ p (levels s m) (v.sound_levels s))
      | inr (_, x) ↦ rw x (
          All-adjust_at p (kill_slot slot) (levels s m) c found (kill_slot-IsLevel slot c o l there)
            (v.sound_levels s))
    ] in
    let pruned' : Pruned orders order_at (kill_slot slot) c p (levels s m)
        (levels s (removed s p slot i m)) =
      rw here pruned in
    (
      record {
        indexed =
            IsIndexed-remove orders order_at (λ t. levels t m)
              (λ t. levels t (removed s p slot i m)) m.order_table s other v.indexed i p slot c
              (kill_slot slot) found out pruned';
        sound_levels =
            by_side (λ t. All (λ l. IsLevel l.1) (levels t (removed s p slot i m))) s (rw here kept)
              (rw other (v.sound_levels (opposite s)));
      },
      flatten-removed orders order_at (λ t. levels t m) (λ t. levels t (removed s p slot i m))
          m.order_table s other v.indexed i p slot c (kill_slot slot) found out pruned',
    )

-- `removeOrder` removes the order from its queue, and does nothing where there is none.
pub remove_order-IsValid :
    (i : ℕ) (m : Matcher)
    → IsValid m
    → IsValid (remove_order i m) × (queues (remove_order i m) ≡ Spec.cancel_order i (queues m))
unfolding remove_order Spec.cancel_order
remove_order-IsValid i m v = elim (Option-cases (lookup i m.order_table)) [
  | inl absent ↦
      let gone = v.indexed.complete i absent in
      rw (absent, remove_order)
        (
          v,
          cc (
            dequeue_absent i (queue m.bids) (omega (arith, gone)),
            dequeue_absent i (queue m.asks) (omega (arith, gone)),
          ),
        )
  | inr (loc, there) ↦
      let st = v.indexed.sound i loc there in
      let (valid, gone) =
        removed-IsValid loc.side loc.price loc.slot i m st.level st.order v st.level_found
          st.order_found st.same_id in
      rw (there, remove_order) (valid, cc (gone buy, gone sell))
]
