-- ===== src/Wallets.antt =====
-- src/infrastructure/database/wallet.repository.ts and src/wallets: the creation of wallets, the
-- pages of their ledger, its reconciliation, and the routes.
pub mod Creation
pub mod Balances
pub mod Opening
pub mod Cursor
pub mod Pages
pub mod Ledger
pub mod Controller
