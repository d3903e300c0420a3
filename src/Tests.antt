-- ===== src/Tests.antt =====
-- Sample data, runs of the definitions on it, and the theorems at inputs that meet their hypotheses.
mod Program
mod Creation
mod Proofs
mod Models
mod Servers
mod Ledger
mod Money
mod Sources
mod Commits
