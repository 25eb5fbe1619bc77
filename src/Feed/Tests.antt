-- ===== src/Feed/Tests.antt =====
-- The feed on concrete bytes.
use titan_engine.Prelude.{
  Bool, true, ◌<◌, ltb, ◌&&◌, All, sym, ◌∙◌, subst, ◌==◌, Bool-cases, inl, inr, none, refl, ℕ, ◌≡◌,
  ◌≤◌, ◌+◌, List, [], ◌∷◌, ◌++◌, some, length, nat_eq, arith,
}
use titan_engine.Prelude.Assoc.{lookup}
use titan_engine.Core.{buy}
use titan_engine.Feed.BookBuilder.{SymbolBook}
use titan_engine.Feed.BookBuilder.Shares.{shares_at}
use titan_engine.Feed.BookBuilder.Totals.{IsTotalled}
use titan_engine.Feed.BookBuilder.Messages.{
  AreTotalled, IsNew, BringsNew, new_book-IsTotalled, apply-AreTotalled,
}
use titan_engine.Feed.Messages.{ItchMessage, add_order_message, order_delete_message}
use titan_engine.Feed.BookBuilder
use titan_engine.Feed.BookBuilder.{Books, new_book}
use titan_engine.Feed.BookBuilder.Isolation.{lookup-apply}
use titan_engine.Feed.Decoder.{decode_message, read_u16, read_u48, read_u64}
use titan_engine.Feed.Decoder.Sizes.{is_decoded, wire_sizes, fits, is_decoded-decode_message}
use titan_engine.Feed.Decoder.Layout.{encode, type_of, encode-decode_message}
use titan_engine.Feed.Parser.{ItchParser, ItchParseResult, feed, next, wait}
use titan_engine.Feed.Parser.Chunks.{feed-total, feed-append}

abbrev empty_parser : ItchParser
empty_parser = record { buffer = []; messages_decoded = 0; messages_skipped = 0 }

-- A message of the seconds, cut in its length and in its payload.
abbrev first_bytes : List ℕ
first_bytes = 0 ∷ []

abbrev last_bytes : List ℕ
last_bytes = 5 ∷ 84 ∷ 0 ∷ 0 ∷ 1 ∷ 2 ∷ 0 ∷ []

abbrev payload : List ℕ
payload = 0 ∷ 0 ∷ 1 ∷ 2 ∷ []

feed-total_example :
    (p' : ItchParser) × (rs : List ItchParseResult) × (feed last_bytes empty_parser ≡ some (p', rs))
    × (next p'.buffer ≡ wait)
    × (length p'.buffer ≤ 0 + 7)
feed-total_example = feed-total last_bytes empty_parser

feed-append_example :
    (p₁ p₂ : ItchParser) × (rs us : List ItchParseResult) × (feed first_bytes empty_parser
      ≡ some (p₁, rs))
    × (feed last_bytes p₁ ≡ some (p₂, us))
    × (feed (first_bytes ++ last_bytes) empty_parser ≡ some (p₂, rs ++ us))
feed-append_example = feed-append first_bytes last_bytes empty_parser

is_decoded-decode_message_example :
    is_decoded (decode_message 84 payload) ≡ fits (lookup 84 wire_sizes) 4
is_decoded-decode_message_example = is_decoded-decode_message 84 payload

abbrev all_bytes : List ℕ → Bool
all_bytes [] = true
all_bytes (b ∷ p) = ltb b 256 && all_bytes p

-- An order deletion: the header, and the reference number 258.
abbrev deletion : List ℕ
deletion = 0 ∷ 7 ∷ 0 ∷ 2 ∷ 0 ∷ 0 ∷ 0 ∷ 0 ∷ 1 ∷ 44 ∷ 0 ∷ 0 ∷ 0 ∷ 0 ∷ 0 ∷ 0 ∷ 1 ∷ 2 ∷ []

abbrev deleted : ItchMessage
deleted = order_delete_message (record {
  header = record { stock_locate = 7; tracking_number = 2; timestamp = 300 };
  order_reference_number = 258;
})

are_bytes : (p : List ℕ) → all_bytes p ≡ true → All (λ b. b < 256) p
are_bytes [] h = tt
are_bytes (b ∷ p) h = (ground (arith, h), are_bytes p (ground (arith, h)))

encode-decode_message_example : (type_of deleted ≡ 68) × (encode deleted ≡ deletion)
unfolding decode_message read_u16 read_u48 read_u64
encode-decode_message_example =
    encode-decode_message 68 deletion deleted (are_bytes deletion refl) refl

abbrev add_message : ItchMessage
add_message = add_order_message (record {
  header = record { stock_locate = 1; tracking_number = 0; timestamp = 0 };
  order_reference_number = 9;
  buy_sell_indicator = 66;
  shares = 10;
  stock = [];
  price = 100;
})

abbrev two_books : Books
two_books = (1, new_book) ∷ (2, new_book) ∷ []

lookup-apply_example : lookup 2 (BookBuilder.apply add_message two_books) ≡ lookup 2 two_books
lookup-apply_example = lookup-apply 2 add_message two_books refl

no_some : {A : Type 0} {a : A} → none ≡ some a → ⊥
no_some e = cc

two_books_new : (k : ℕ) (b : SymbolBook) → lookup k two_books ≡ some b → new_book ≡ b
unfolding lookup
two_books_new k b e = elim (Bool-cases (1 == k)) [
  | inl one ↦ let it : some new_book ≡ some b = sym (rw one refl) ∙ e in ground arith
  | inr other ↦ elim (Bool-cases (2 == k)) [
    | inl two ↦ let it : some new_book ≡ some b = sym (rw (other, two) refl) ∙ e in ground arith
    | inr three ↦ let it : none ≡ some b = sym (rw (other, three) refl) ∙ e in absurd (no_some it)
  ]
]

two_books-AreTotalled : AreTotalled two_books
two_books-AreTotalled k b e = subst IsTotalled (two_books_new k b e) new_book-IsTotalled

add_message-BringsNew : BringsNew add_message two_books
unfolding lookup shares_at
add_message-BringsNew b e = subst (IsNew 9 buy 10 100) (two_books_new 1 b e) (refl, omega arith)

apply-AreTotalled_example : AreTotalled (BookBuilder.apply add_message two_books)
apply-AreTotalled_example =
    apply-AreTotalled add_message two_books add_message-BringsNew two_books-AreTotalled
