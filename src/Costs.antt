-- ===== src/Costs.antt =====
-- The extractors of costs: extractors/ and the record of models/__init__.py that they share.
pub mod Record
pub mod Llm
pub mod Rates
mod Tests
