-- ===== src/Exchange.antt =====
-- Order entry: src/exchange, src/pipeline/staged_processor.cpp, and the checks of a manager.
pub mod Validator
pub mod OrderManager
pub mod Checks
pub mod Registry
pub mod Pipeline
mod Tests
