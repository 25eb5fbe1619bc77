-- ===== src/Feed/BookBuilder/Isolation.antt =====
-- A message changes the book of its own stock only.
use titan_engine.Prelude.{
  ℕ, ◌≡◌, refl, ◌∙◌, Bool, false, List, ◌==◌, Option-cases, inl, inr, nat_eq,
}
use titan_engine.Prelude.Assoc.{lookup, lookup-insert}
use titan_engine.Feed.Messages.{
  ItchMessage, system_event_message, stock_directory_message, add_order_message,
  add_order_mpid_message, order_executed_message, order_executed_with_price_message,
  order_cancel_message, order_delete_message, order_replace_message, timestamp_seconds_message,
}
use titan_engine.Feed.BookBuilder.{SymbolBook, Books, on_book, register, apply}

-- Whether a message may change the book of the locate code `l`: one that names it, or the end of
-- the messages.
abbrev pub touches : ℕ → ItchMessage → Bool
touches l (system_event_message m) = m.event_code == 67
touches l (stock_directory_message m) = m.header.stock_locate == l
touches l (add_order_message m) = m.header.stock_locate == l
touches l (add_order_mpid_message m) = m.base.header.stock_locate == l
touches l (order_executed_message m) = m.header.stock_locate == l
touches l (order_executed_with_price_message m) = m.base.header.stock_locate == l
touches l (order_cancel_message m) = m.header.stock_locate == l
touches l (order_delete_message m) = m.header.stock_locate == l
touches l (order_replace_message m) = m.header.stock_locate == l
touches l (timestamp_seconds_message m) = false

lookup-on_book :
    (l k : ℕ) (f : SymbolBook → SymbolBook) (books : Books)
    → (k == l) ≡ false
    → lookup l (on_book k f books) ≡ lookup l books
unfolding on_book
lookup-on_book l k f books h = elim (Option-cases (lookup k books)) [
  | inl e ↦ rw (on_book, e) refl
  | inr (b, e) ↦ rw (on_book, e) (lookup-insert k l (f b) books ∙ rw h refl)
]

lookup-register :
    (l k : ℕ) (stock : List ℕ) (books : Books)
    → (k == l) ≡ false
    → lookup l (register k stock books) ≡ lookup l books
unfolding register
lookup-register l k stock books h = lookup-insert k l _ books ∙ rw h refl

-- `ItchBookBuilder::apply` of a message that neither names a locate code nor ends the messages
-- leaves the book of that code, or that there is none, as it was.
pub lookup-apply :
    (l : ℕ) (m : ItchMessage) (books : Books)
    → touches l m ≡ false
    → lookup l (apply m books) ≡ lookup l books
unfolding apply
lookup-apply l (system_event_message m) books h = rw h refl
lookup-apply l (stock_directory_message m) books h =
    lookup-register l m.header.stock_locate m.stock books h
lookup-apply l (add_order_message m) books h = lookup-on_book l _ _ books h
lookup-apply l (add_order_mpid_message m) books h = lookup-on_book l _ _ books h
lookup-apply l (order_executed_message m) books h = lookup-on_book l _ _ books h
lookup-apply l (order_executed_with_price_message m) books h = lookup-on_book l _ _ books h
lookup-apply l (order_cancel_message m) books h = lookup-on_book l _ _ books h
lookup-apply l (order_delete_message m) books h = lookup-on_book l _ _ books h
lookup-apply l (order_replace_message m) books h = lookup-on_book l _ _ books h
lookup-apply l (timestamp_seconds_message m) books h = refl
