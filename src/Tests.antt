-- ===== src/Tests.antt =====
-- Concrete databases, runs of the program on them, and the theorems at these inputs.
mod Fixtures
mod Runs
mod Retries
mod DomainWitnesses
mod Witnesses
mod MessageWitnesses
mod WalletWitnesses
mod HttpWitnesses
