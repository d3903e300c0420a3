-- ===== src/Ledger/Verification/Messages.antt =====
-- `validateNewMessage` of validation/Verification.java. Chains grow between messages, so every
-- message comes with the blocks of the chains and the marks at its time.
pub mod Received
use scale_out_distributed_le.Common.{
  ℕ, Bool, true, false, not, Option, none, some, List, [], ◌∷◌, ◌++◌, if◌then◌else◌,
}
use scale_out_distributed_le.Ledger.Transaction.{Transaction}
use scale_out_distributed_le.Ledger.Block.{Block}
use scale_out_distributed_le.Ledger.LocalStore.{has}
use scale_out_distributed_le.Ledger.Proof.{Proof, Marks, chain_view_blocks, verify}
use scale_out_distributed_le.Ledger.Verification.{Cache, validate_transaction}

pub record Verification : Type 0 where
  pub validation_cache : Cache
  pub received_transactions : List Transaction

-- What is left by a message: the flagged transactions with it, and whether it was accepted.
pub record Handled : Type 0 where
  pub verification : Verification
  pub verified : List Transaction
  pub accepted : Bool

pub record Message : Type 0 where
  pub chains : ℕ → List Block
  pub marks : Marks
  pub proof : Proof

-- `validationCache.putAll(cache)`
abbrev pub put_all : (cache validation_cache : Cache) → Cache
put_all cache validation_cache = cache ++ validation_cache

module _ (same : Transaction → Transaction → Bool) where
  -- `validateNewMessage` once the transaction is received and its proof verified.
  unfoldable pub validate_received :
      Message → Verification → (verified : List Transaction) → Handled
  unfolding validate_transaction
  validate_received message v verified =
      elim (validate_transaction (chain_view_blocks message.chains message.proof) v.validation_cache
        message.proof.main_transaction []) [
          | none ↦ record { verification = v; verified = verified; accepted = false }
          | some cache ↦ record {
            verification = record v { validation_cache = put_all cache v.validation_cache };
            verified = verified;
            accepted = true;
          }
        ]

  unfoldable pub validate_new_message :
      Message → Verification → (verified : List Transaction) → Handled
  unfolding has verify validate_received
  validate_new_message message v verified =
      let t = message.proof.main_transaction in
      let received = record v { received_transactions = t ∷ v.received_transactions } in
      let (verified', proven) = verify message.chains message.marks same message.proof verified in
      if has t v.received_transactions
      then record { verification = v; verified = verified; accepted = false }
      else if not proven
      then record { verification = received; verified = verified'; accepted = false }
      else validate_received message received verified'

  -- The transactions that are accepted of a sequence of messages, oldest first.
  unfoldable pub accepted_of : List Message → Verification → List Transaction → List Transaction
  unfolding validate_new_message
  accepted_of [] v verified = []
  accepted_of (message ∷ messages) v verified =
      let handled = validate_new_message message v verified in
      let rest = accepted_of messages handled.verification handled.verified in
      if handled.accepted then message.proof.main_transaction ∷ rest else rest
