-- ===== src/Utils.antt =====
-- Helpers of libs/utils.
pub mod Strings
pub mod BashQuote
pub mod Transaction
