-- ===== src/Domain.antt =====
-- src/domain: the values and the rules that need no database.
pub mod Errors
pub mod Amount
pub mod Decimal
pub mod Money
pub mod LedgerEntry
pub mod Wallet
pub mod WagerTransaction
pub mod Events
pub mod CanonicalJson
