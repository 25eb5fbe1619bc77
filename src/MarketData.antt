-- ===== src/MarketData.antt =====
-- Execution reports: src/market_data/publisher.cpp.
pub mod Publisher
mod Tests
