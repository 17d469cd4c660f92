-- ===== src/Codebuddy.antt =====
-- The admission webhook of hadoop-dev-codebuddy/operator.
pub mod Types
pub mod Default
pub mod Validate
mod Tests
