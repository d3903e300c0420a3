-- ===== src/Ledger/Verification/Messages/Received.antt =====
-- What `validateNewMessage` accepts.
use scale_out_distributed_le.Common.{
  ◌≡◌, ◌≢◌, refl, Bool, true, false, none, some, List, [], ◌∷◌, arith, Bool-cases, Option-cases,
  inl, inr, All, if◌then◌else◌,
}
use scale_out_distributed_le.Ledger.Transaction.{Transaction, sender, equals}
use scale_out_distributed_le.Ledger.LocalStore.{has}
use scale_out_distributed_le.Ledger.Proof.{chain_view_blocks, verify}
use scale_out_distributed_le.Ledger.Proof.Proven.{IsProven, verify_iff}
use scale_out_distributed_le.Ledger.Verification.{Cache, cached, validate_transaction}
use scale_out_distributed_le.Ledger.Verification.Closed.{Justified, validate_transaction-Justified}
use scale_out_distributed_le.Ledger.Verification.Messages.{
  Verification, Message, put_all, validate_received, validate_new_message, accepted_of,
}

-- No two transactions of a list are equal.
abbrev pub NoneRepeated : List Transaction → Type 0
NoneRepeated [] = Unit
NoneRepeated (t ∷ ts) = All (λ o. equals o t ≡ false) ts × NoneRepeated ts

module _ (same : Transaction → Transaction → Bool) where
  accepted-inv :
      (message : Message) (v : Verification) (verified : List Transaction)
      → (validate_new_message same message v verified).accepted ≡ true
      → (has message.proof.main_transaction v.received_transactions ≡ false)
        × ((verify message.chains message.marks same message.proof verified).1 ≡ true)
        × ((cache : Cache) × (validate_transaction
                (chain_view_blocks message.chains message.proof)
                v.validation_cache
                message.proof.main_transaction
                []
              ≡ some cache)
            × ((validate_new_message same message v verified).verification.validation_cache
                ≡ put_all cache v.validation_cache))
  unfolding validate_new_message validate_received
  accepted-inv message v verified e =
      elim (Option-cases (
        validate_transaction (chain_view_blocks message.chains message.proof) v.validation_cache
          message.proof.main_transaction [])) [
            | inl refused ↦ ground (arith, refused)
            | inr (cache, accepted) ↦
                (ground arith, ground arith, (cache, accepted, ground (arith, accepted)))
          ]

  received-validate_new_message :
      (message : Message) (v : Verification) (verified : List Transaction)
      → let v' = (validate_new_message same message v verified).verification in
        v'.received_transactions ≡ (
          if has message.proof.main_transaction v.received_transactions
          then v.received_transactions
          else message.proof.main_transaction ∷ v.received_transactions)
  unfolding validate_new_message validate_received
  received-validate_new_message message v verified = ground (
    arith,
    Option-cases (
        validate_transaction (chain_view_blocks message.chains message.proof) v.validation_cache
          message.proof.main_transaction []),
  )

  -- Where the identity of objects keeps their contents, a message that is accepted has a transaction
  -- with a sender, which was not received before and is proven; it is in the cache afterwards, to
  -- which only transactions are added that follow the rules of validation and have sources that were
  -- accepted before or are added too.
  pub validate_new_message-accepted :
      (message : Message) (v : Verification) (verified : List Transaction)
      → ((t o : Transaction) → same t o ≡ true → t ≡ o)
      → (validate_new_message same message v verified).accepted ≡ true
      → let t = message.proof.main_transaction in
        let views = chain_view_blocks message.chains message.proof in
        let v' = (validate_new_message same message v verified).verification in
        (has t v.received_transactions ≡ false)
        × (sender t ≢ none)
        × IsProven message.chains message.marks same message.proof verified t
        × ((cache : Cache) × (v'.validation_cache ≡ put_all cache v.validation_cache)
            × All (Justified v.validation_cache views cache) cache
            × (cached t cache ≡ some true))
  validate_new_message-accepted message v verified same-eq e =
      let (new, proven, (cache, valid, put)) = accepted-inv message v verified e in
      let (sent, shown) =
        (verify_iff message.chains message.marks same message.proof verified same-eq).0.0 proven in
      let (justified, own) =
        validate_transaction-Justified (chain_view_blocks message.chains message.proof)
          v.validation_cache message.proof.main_transaction cache valid in
      (new, sent, shown, (cache, put, justified, own))

  has-validate_new_message :
      (message : Message) (v : Verification) (verified : List Transaction) (t : Transaction)
      → has t v.received_transactions ≡ true
      → has t (validate_new_message same message v verified).verification.received_transactions
        ≡ true
  unfolding has
  has-validate_new_message message v verified t h =
      ground (arith, h, received-validate_new_message message v verified)

  received_once :
      (messages : List Message) (v : Verification) (verified : List Transaction) (t : Transaction)
      → ((o : Transaction) → equals o t ≡ true → has o v.received_transactions ≡ true)
      → All (λ o. equals o t ≡ false) (accepted_of same messages v verified)
  unfolding accepted_of
  received_once [] v verified t h = tt
  received_once (message ∷ messages) v verified t h =
      let handled = validate_new_message same message v verified in
      let m = message.proof.main_transaction in
      let rest =
        received_once messages handled.verification handled.verified t
          (λ o e. has-validate_new_message message v verified o (h o e)) in
      elim (Bool-cases handled.accepted) [
        | inl good ↦ rw good ((ground (arith, h m, (accepted-inv message v verified good).0), rest))
        | inr bad ↦ rw bad rest
      ]

  -- Whatever messages come, in whatever order and with whatever chains, no two of the transactions
  -- that are accepted are equal: nothing is paid twice by the same message.
  pub accepted_of-NoneRepeated :
      (messages : List Message) (v : Verification) (verified : List Transaction)
      → NoneRepeated (accepted_of same messages v verified)
  unfolding accepted_of has
  accepted_of-NoneRepeated [] v verified = tt
  accepted_of-NoneRepeated (message ∷ messages) v verified =
      let handled = validate_new_message same message v verified in
      let m = message.proof.main_transaction in
      let rest = accepted_of-NoneRepeated messages handled.verification handled.verified in
      elim (Bool-cases handled.accepted) [
        | inl good ↦
            let once = received_once messages handled.verification handled.verified m (λ o e.
              ground (
                arith,
                e,
                received-validate_new_message message v verified,
                (accepted-inv message v verified good).0,
              )) in
            rw good ((once, rest))
        | inr bad ↦ rw bad rest
      ]

  -- Once the first message with a transaction was handled, accepted or not, a message with an equal
  -- transaction is refused and changes nothing, also one with a correct proof after one without.
  pub resend_refused :
      (first second : Message) (v : Verification) (verified : List Transaction)
      → has first.proof.main_transaction v.received_transactions ≡ false
      → equals second.proof.main_transaction first.proof.main_transaction ≡ true
      → let handled = validate_new_message same first v verified in
        validate_new_message same second handled.verification handled.verified ≡ record {
          verification = handled.verification;
          verified = handled.verified;
          accepted = false;
        }
  unfolding has
  resend_refused first second v verified new e =
      let handled = validate_new_message same first v verified in
      let known : has second.proof.main_transaction handled.verification.received_transactions
          ≡ true =
        ground (arith, new, e, received-validate_new_message first v verified) in
      unfold validate_new_message in rw known refl
