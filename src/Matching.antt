-- ===== src/Matching.antt =====
-- The matching engine, capstone/matching/solution-reference: orders, the book, the engine.
pub mod Order
pub mod OrderBook
pub mod Engine
pub mod Ingress
pub mod MockData
