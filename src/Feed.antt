-- ===== src/Feed.antt =====
-- The ITCH feed: src/feed/itch/decoder.cpp, parser.cpp and
-- book_builder.cpp.
pub mod Messages
pub mod Decoder
pub mod Parser
pub mod BookBuilder
mod Tests
