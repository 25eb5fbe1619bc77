-- ===== src/Feed/BookBuilder.antt =====
-- `ItchBookBuilder` of src/feed/itch/book_builder.cpp.
use titan_engine.Prelude.{
  ℕ, zero, suc, ◌+◌, ◌-◌, Bool, true, false, ◌&&◌, not, List, [], ◌∷◌, ◌++◌, Option, none, some,
  leb, ◌==◌, if◌then◌else◌, min, add64, take, map, length, nat_eq,
}
use titan_engine.Prelude.OrderedMap
use titan_engine.Prelude.Assoc.{lookup, insert, erase}
use titan_engine.Core.{Side, buy, sell, Symbol, PriceLevel, before}
use titan_engine.Exchange.Registry.{BookSnapshot}
use titan_engine.Feed.Messages.{
  Header, AddOrderMessage, OrderExecutedMessage, OrderCancelMessage, OrderDeleteMessage,
  OrderReplaceMessage, ItchMessage, system_event_message, stock_directory_message,
  add_order_message, add_order_mpid_message, order_executed_message,
  order_executed_with_price_message, order_cancel_message, order_delete_message,
  order_replace_message, timestamp_seconds_message,
}
pub mod Isolation
pub mod Levels
pub mod Shares
pub mod Removal
pub mod Totals
pub mod Messages

pub record RestingOrder : Type 0 where
  pub side : Side
  pub price : ℕ
  pub remaining_shares : ℕ

pub record SymbolBook : Type 0 where
  pub symbol : Symbol
  pub orders : List (ℕ × RestingOrder)
  pub bid_levels : List (ℕ × ℕ)
  pub ask_levels : List (ℕ × ℕ)
  pub next_snapshot_sequence_number : ℕ

abbrev pub new_book : SymbolBook
new_book = record {
  symbol = [];
  orders = [];
  bid_levels = [];
  ask_levels = [];
  next_snapshot_sequence_number = 0;
}

-- `books_`.
abbrev pub Books : Type 0
Books = List (ℕ × SymbolBook)

-- A byte is kept where a byte that is not a space follows or stands.
unfoldable pub trim_trailing_spaces : List ℕ → List ℕ
trim_trailing_spaces [] = []
trim_trailing_spaces (c ∷ cs) =
    let rest = trim_trailing_spaces cs in
    elim rest [ [] ↦ if c == 32 then [] else c ∷ [] | d ∷ ds ↦ c ∷ d ∷ ds ]

abbrev pub levels : Side → SymbolBook → List (ℕ × ℕ)
levels buy b = b.bid_levels
levels sell b = b.ask_levels

abbrev pub with_levels : Side → List (ℕ × ℕ) → SymbolBook → SymbolBook
with_levels buy ls b = record b { bid_levels = ls }
with_levels sell ls b = record b { ask_levels = ls }

unfoldable pub add_level : Side → ℕ → ℕ → SymbolBook → SymbolBook
add_level s price qty b =
    with_levels s (OrderedMap.upsert (before s) price 0 (λ v. add64 v qty) (levels s b)) b

unfoldable pub remove_level : Side → ℕ → ℕ → SymbolBook → SymbolBook
remove_level s price qty b = elim (OrderedMap.find? price (levels s b)) [
  | none ↦ b
  | some v ↦
      if leb v qty
      then with_levels s (OrderedMap.erase price (levels s b)) b
      else with_levels s (OrderedMap.adjust price (λ w. w - qty) (levels s b)) b
]

unfoldable pub add_order : ℕ → Side → ℕ → ℕ → SymbolBook → SymbolBook
unfolding add_level insert
add_order ref s shares price b =
    let o : RestingOrder = record { side = s; price = price; remaining_shares = shares } in
    add_level s price shares (record b { orders = insert ref o b.orders })

unfoldable pub reduce_order : ℕ → ℕ → SymbolBook → SymbolBook
unfolding remove_level insert erase
reduce_order ref shares b = elim (lookup ref b.orders) [
  | none ↦ b
  | some o ↦
      let by = min shares o.remaining_shares in
      let b' = remove_level o.side o.price by b in
      if leb o.remaining_shares by then record b' { orders = erase ref b'.orders } else record b' {
        orders = insert ref (record o { remaining_shares = o.remaining_shares - by }) b'.orders;
      }
]

unfoldable pub delete_order : ℕ → SymbolBook → SymbolBook
unfolding remove_level erase
delete_order ref b = elim (lookup ref b.orders) [
  | none ↦ b
  | some o ↦
      let b' = remove_level o.side o.price o.remaining_shares b in
      record b' { orders = erase ref b'.orders }
]

unfoldable pub replace_order : OrderReplaceMessage → SymbolBook → SymbolBook
unfolding delete_order add_order
replace_order m b = elim (lookup m.original_order_reference_number b.orders) [
  | none ↦ b
  | some o ↦
      add_order m.new_order_reference_number o.side m.shares m.price
        (delete_order m.original_order_reference_number b)
]

-- `findBook`, and a change of the book that it finds.
unfoldable pub on_book : ℕ → (SymbolBook → SymbolBook) → Books → Books
unfolding insert
on_book locate f books = elim (lookup locate books) [
  | none ↦ books
  | some b ↦ insert locate (f b) books
]

unfoldable pub register : ℕ → List ℕ → Books → Books
unfolding insert trim_trailing_spaces
register locate stock books =
    let b : SymbolBook = elim (lookup locate books) [ none ↦ new_book | some b ↦ b ] in
    insert locate (record b { symbol = trim_trailing_spaces stock }) books

abbrev pub side_of : ℕ → Side
side_of c = if c == 66 then buy else sell

abbrev pub handle_add : AddOrderMessage → Books → Books
handle_add m =
    on_book m.header.stock_locate
      (add_order m.order_reference_number (side_of m.buy_sell_indicator) m.shares m.price)

abbrev pub handle_executed : OrderExecutedMessage → Books → Books
handle_executed m =
    on_book m.header.stock_locate (reduce_order m.order_reference_number m.executed_shares)

-- The overloads of `handle`.
unfoldable pub apply : ItchMessage → Books → Books
unfolding on_book register
apply (system_event_message m) books = if m.event_code == 67 then [] else books
apply (stock_directory_message m) books = register m.header.stock_locate m.stock books
apply (add_order_message m) books = handle_add m books
apply (add_order_mpid_message m) books = handle_add m.base books
apply (order_executed_message m) books = handle_executed m books
apply (order_executed_with_price_message m) books = handle_executed m.base books
apply (order_cancel_message m) books =
    on_book m.header.stock_locate (reduce_order m.order_reference_number m.cancelled_shares) books
apply (order_delete_message m) books =
    on_book m.header.stock_locate (delete_order m.order_reference_number) books
apply (order_replace_message m) books = on_book m.header.stock_locate (replace_order m) books
apply (timestamp_seconds_message m) books = books

abbrev pub price_level : ℕ × ℕ → PriceLevel
price_level l = record { price = l.0; quantity = l.1 }

unfoldable pub depth : Side → ℕ → SymbolBook → List PriceLevel
depth s n b = map price_level (take n (levels s b))

-- The snapshot, and the books with the counter of the symbol moved on.
unfoldable pub snapshot : ℕ → ℕ → Books → Books × Option BookSnapshot
unfolding depth insert
snapshot locate n books = elim (lookup locate books) [
  | none ↦ (books, none)
  | some b ↦ (
    insert locate
        (record b { next_snapshot_sequence_number = add64 b.next_snapshot_sequence_number 1 })
        books,
    some (record {
      symbol = b.symbol;
      sequence_number = b.next_snapshot_sequence_number;
      bids = depth buy n b;
      asks = depth sell n b;
    }),
  )
]

unfoldable pub symbol_for_locate : ℕ → Books → Option Symbol
unfolding lookup
symbol_for_locate locate books = elim (lookup locate books) [ none ↦ none | some b ↦ some b.symbol ]

unfoldable pub order_count : ℕ → Books → ℕ
unfolding lookup
order_count locate books = elim (lookup locate books) [ none ↦ 0 | some b ↦ length b.orders ]
