-- ===== src/Book.antt =====
-- The order book of one symbol: reference/order_book.cpp, src/book/optimized_matcher.cpp.
pub mod Spec
pub mod Ladder
pub mod Machine
pub mod Reference
pub mod Optimized
pub mod Agreement
pub mod Guarantees
pub mod Checks
mod Tests
