-- ===== src/Feed/BookBuilder/Messages.antt =====
-- The level totals over the messages of the feed.
use titan_engine.Prelude.{
  ℕ, ◌+◌, ◌<◌, ◌≡◌, refl, sym, ap, ◌∙◌, subst, List, [], none, some, ◌==◌, arith, Bool-cases,
  Option-cases, inl, inr, u64_mod, nat_eq,
}
use titan_engine.Prelude.Assoc.{lookup, insert, lookup-insert}
use titan_engine.Prelude.OrderedMap.{IsOrdered}
use titan_engine.Core.{Side, buy, sell, before, Symbol}
use titan_engine.Feed.Messages.{
  AddOrderMessage, OrderReplaceMessage, ItchMessage, system_event_message, stock_directory_message,
  add_order_message, add_order_mpid_message, order_executed_message,
  order_executed_with_price_message, order_cancel_message, order_delete_message,
  order_replace_message, timestamp_seconds_message,
}
use titan_engine.Feed.BookBuilder.{
  RestingOrder, SymbolBook, Books, new_book, levels, add_order, reduce_order, delete_order,
  replace_order, on_book, register, side_of, apply, trim_trailing_spaces,
}
use titan_engine.Feed.BookBuilder.Levels.{level_at}
use titan_engine.Feed.BookBuilder.Shares.{shares_at}
use titan_engine.Feed.BookBuilder.Totals.{
  IsTotalled, add_order-IsTotalled, delete_order-IsTotalled, reduce_order-IsTotalled,
}

abbrev pub AreTotalled : Books → Type 0
AreTotalled books = (k : ℕ) (b : SymbolBook) → lookup k books ≡ some b → IsTotalled b

-- A new reference, and room for the shares in 64 bits.
abbrev pub IsNew : ℕ → Side → (shares price : ℕ) → SymbolBook → Type 0
IsNew ref s shares price b =
    (lookup ref b.orders ≡ none) × (shares_at s price b.orders + shares < u64_mod)

abbrev pub IsNewAdd : AddOrderMessage → Books → Type 0
IsNewAdd m books =
    (b : SymbolBook)
    → lookup m.header.stock_locate books ≡ some b
    → IsNew m.order_reference_number (side_of m.buy_sell_indicator) m.shares m.price b

-- The reference that a message brings is new in its book when the order comes in.
abbrev pub BringsNew : ItchMessage → Books → Type 0
BringsNew (add_order_message m) books = IsNewAdd m books
BringsNew (add_order_mpid_message m) books = IsNewAdd m.base books
BringsNew (order_replace_message m) books =
    (b : SymbolBook) (o : RestingOrder)
    → lookup m.header.stock_locate books ≡ some b
    → lookup m.original_order_reference_number b.orders ≡ some o
    → IsNew m.new_order_reference_number o.side m.shares m.price
        (delete_order m.original_order_reference_number b)
BringsNew (system_event_message m) books = Unit
BringsNew (stock_directory_message m) books = Unit
BringsNew (order_executed_message m) books = Unit
BringsNew (order_executed_with_price_message m) books = Unit
BringsNew (order_cancel_message m) books = Unit
BringsNew (order_delete_message m) books = Unit
BringsNew (timestamp_seconds_message m) books = Unit

insert-AreTotalled :
    (locate : ℕ) (c : SymbolBook) (books : Books)
    → IsTotalled c
    → AreTotalled books
    → AreTotalled (insert locate c books)
insert-AreTotalled locate c books hc h k b e = elim (Bool-cases (locate == k)) [
  | inl same ↦
      let it : some c ≡ some b = sym (lookup-insert locate k c books ∙ rw same refl) ∙ e in
      let eq : c ≡ b = ground arith in subst IsTotalled eq hc
  | inr other ↦ h k b (sym (lookup-insert locate k c books ∙ rw other refl) ∙ e)
]

on_book-AreTotalled :
    (locate : ℕ) (f : SymbolBook → SymbolBook) (books : Books)
    → ((b : SymbolBook) → lookup locate books ≡ some b → IsTotalled b → IsTotalled (f b))
    → AreTotalled books
    → AreTotalled (on_book locate f books)
unfolding on_book
on_book-AreTotalled locate f books g h = elim (Option-cases (lookup locate books)) [
  | inl e ↦ rw (on_book, e) h
  | inr (b, e) ↦ rw (on_book, e) (insert-AreTotalled locate (f b) books (g b e (h locate b e)) h)
]

replace_order-IsTotalled :
    (m : OrderReplaceMessage) (b : SymbolBook)
    → ((o : RestingOrder)
        → lookup m.original_order_reference_number b.orders ≡ some o
        → IsNew m.new_order_reference_number o.side m.shares m.price
            (delete_order m.original_order_reference_number b))
    → IsTotalled b
    → IsTotalled (replace_order m b)
unfolding replace_order
replace_order-IsTotalled m b n h =
    elim (Option-cases (lookup m.original_order_reference_number b.orders)) [
      | inl e ↦ rw (replace_order, e) h
      | inr (o, e) ↦
          rw (replace_order, e)
            (add_order-IsTotalled m.new_order_reference_number o.side m.shares m.price
              (delete_order m.original_order_reference_number b)
              (delete_order-IsTotalled m.original_order_reference_number b h) (n o e).0 (n o e).1)
    ]

new_book-IsOrdered : (s : Side) → IsOrdered (before s) (levels s new_book)
new_book-IsOrdered buy = tt
new_book-IsOrdered sell = tt

new_book_total : (t : Side) (i : ℕ) → level_at i (levels t new_book) ≡ 0
unfolding level_at
new_book_total buy i = refl
new_book_total sell i = refl

pub new_book-IsTotalled : IsTotalled new_book
unfolding shares_at
new_book-IsTotalled = record { keyed = tt; ordered = new_book-IsOrdered; total = new_book_total }

levels_symbol :
    (t : Side) (c : Symbol) (b : SymbolBook) → levels t (record b { symbol = c }) ≡ levels t b
levels_symbol buy c b = refl
levels_symbol sell c b = refl

-- The symbol of a book does not count.
symbol-IsTotalled :
    (c : Symbol) (b : SymbolBook) → IsTotalled b → IsTotalled (record b { symbol = c })
symbol-IsTotalled c b h = record {
  keyed = h.keyed;
  ordered = λ t. subst (IsOrdered (before t)) (sym (levels_symbol t c b)) (h.ordered t);
  total = λ t i. ap (level_at i) (levels_symbol t c b) ∙ h.total t i;
}

register-AreTotalled :
    (locate : ℕ) (stock : List ℕ) (books : Books)
    → AreTotalled books
    → AreTotalled (register locate stock books)
unfolding register
register-AreTotalled locate stock books h =
    let c = trim_trailing_spaces stock in
    elim (Option-cases (lookup locate books)) [
      | inl e ↦
          rw (register, e)
            (insert-AreTotalled locate (record new_book { symbol = c }) books
              (symbol-IsTotalled c new_book new_book-IsTotalled) h)
      | inr (b, e) ↦
          rw (register, e)
            (insert-AreTotalled locate (record b { symbol = c }) books
              (symbol-IsTotalled c b (h locate b e)) h)
    ]

added-AreTotalled :
    (m : AddOrderMessage) (books : Books)
    → IsNewAdd m books
    → AreTotalled books
    → AreTotalled (
        on_book m.header.stock_locate
          (add_order m.order_reference_number (side_of m.buy_sell_indicator) m.shares m.price)
          books)
added-AreTotalled m books n h =
    on_book-AreTotalled m.header.stock_locate
      (add_order m.order_reference_number (side_of m.buy_sell_indicator) m.shares m.price) books
      (λ b e k.
        add_order-IsTotalled m.order_reference_number (side_of m.buy_sell_indicator) m.shares
          m.price b k (n b e).0 (n b e).1)
      h

reduced-AreTotalled :
    (locate ref shares : ℕ) (books : Books)
    → AreTotalled books
    → AreTotalled (on_book locate (reduce_order ref shares) books)
reduced-AreTotalled locate ref shares books h =
    on_book-AreTotalled locate (reduce_order ref shares) books
      (λ b e k. reduce_order-IsTotalled ref shares b k) h

no_book : (k : ℕ) (b : SymbolBook) → lookup k [] ≡ some b → ⊥
unfolding lookup
no_book k b e = cc

-- `ItchBookBuilder::apply` keeps books in which each reference has one order, the levels are
-- ordered and the quantity of each level is the sum of what the orders of its side and price have
-- left, if a reference that the message brings is new in its book when the order comes in and the
-- level has room for its shares in 64 bits.
pub apply-AreTotalled :
    (m : ItchMessage) (books : Books)
    → BringsNew m books
    → AreTotalled books
    → AreTotalled (apply m books)
unfolding apply
apply-AreTotalled (system_event_message m) books n h = elim (Bool-cases (m.event_code == 67)) [
  | inl e ↦ rw e (λ k b f. absurd (no_book k b f))
  | inr e ↦ rw e h
]
apply-AreTotalled (stock_directory_message m) books n h =
    register-AreTotalled m.header.stock_locate m.stock books h
apply-AreTotalled (add_order_message m) books n h = added-AreTotalled m books n h
apply-AreTotalled (add_order_mpid_message m) books n h = added-AreTotalled m.base books n h
apply-AreTotalled (order_executed_message m) books n h =
    reduced-AreTotalled m.header.stock_locate m.order_reference_number m.executed_shares books h
apply-AreTotalled (order_executed_with_price_message m) books n h =
    reduced-AreTotalled m.base.header.stock_locate m.base.order_reference_number
      m.base.executed_shares books h
apply-AreTotalled (order_cancel_message m) books n h =
    reduced-AreTotalled m.header.stock_locate m.order_reference_number m.cancelled_shares books h
apply-AreTotalled (order_delete_message m) books n h =
    on_book-AreTotalled m.header.stock_locate (delete_order m.order_reference_number) books
      (λ b e k. delete_order-IsTotalled m.order_reference_number b k) h
apply-AreTotalled (order_replace_message m) books n h =
    on_book-AreTotalled m.header.stock_locate (replace_order m) books
      (λ b e k. replace_order-IsTotalled m b (λ o f. n b o e f) k) h
apply-AreTotalled (timestamp_seconds_message m) books n h = h
