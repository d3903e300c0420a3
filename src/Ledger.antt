-- ===== src/Ledger.antt =====
-- The Java program of the ledger, under src/main/java/nl/tudelft/blockchain/scaleoutdistributedledger.
pub mod Word
pub mod Bytes
pub mod Transaction
pub mod TransactionTuple
pub mod TransactionCreator
pub mod Block
pub mod Chain
pub mod Commit
pub mod MetaKnowledge
pub mod Verification
pub mod LocalStore
pub mod Proof
pub mod Receipt
pub mod ProofConstructor
pub mod ChainView
