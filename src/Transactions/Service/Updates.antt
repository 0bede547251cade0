-- ===== src/Transactions/Service/Updates.antt =====
-- src/transactions/transactions.service.ts: `update`, `verifyOnBlockchain` and `recordOnBlockchain`.
use prop_chain_back_end.Base.{
  ℕ, ◌≡◌, ◌≢◌, refl, true, ◌&&◌, ◌||◌, Option, some, if◌then◌else◌, arith, ok, err, bad_request,
  String,
}
use prop_chain_back_end.Table.Laws.{find_unique-update_self}
use prop_chain_back_end.Transactions.Rows.{
  TransactionStatus, StatusDto, Transaction, Database, Store,
}
use prop_chain_back_end.Transactions.Commissions.{update_commissions_status}
use prop_chain_back_end.Transactions.Service.{
  Blockchain, UpdateTransactionDto, update, verify_on_blockchain, record_on_blockchain, new_status,
  new_notes, is_held, non_empty, is_completed_dto, is_failed_dto, sync_commissions, Verification,
  update_transaction_status,
}
use prop_chain_back_end.Transactions.Status.{can_transition_transaction_status, allowed_transitions}

module _ (db : Database) (chain : Blockchain) (id : ℕ) (s : Store db) {tx : Transaction}
    (found : db.transactions.find_unique id s.transactions ≡ some tx) where
  open db use {transactions}

  -- For a found transaction, update refuses FAILED and refuses completion while an escrow is held,
  -- and otherwise writes the given status and notes; a refused call leaves the row as it was.
  pub update_outcome :
      (dto : UpdateTransactionDto)
      → let row = record tx {
        status = new_status dto.status tx.status;
        notes = new_notes dto.notes tx.notes;
      } in
        let (r, s') = update db chain id dto s in
        (r ≡ (
          if is_failed_dto dto.status
          then err (bad_request "FAILED is not a supported transaction status")
          else if is_completed_dto dto.status && is_held tx.escrow_status
          then err (bad_request "Escrow must be RELEASED before completing transaction")
          else ok row))
        × (transactions.find_unique id s'.transactions
            ≡ some (
                if is_failed_dto dto.status
                  || (is_completed_dto dto.status && is_held tx.escrow_status)
                then tx
                else row))
  unfolding update sync_commissions update_commissions_status
  update_outcome dto = ground (
    arith,
    find_unique-update_self transactions id
        (λ t. record t {
          status = new_status dto.status t.status;
          notes = new_notes dto.notes t.notes;
        })
        s.transactions (λ r. refl) found,
  )

  -- A transaction that is no longer pending, which updateTransactionStatus does not change to
  -- pending, is made pending again by update.
  pub update_reopens :
      (dto : UpdateTransactionDto) (now entry milestone : ℕ) (actor : Option ℕ)
      → dto.status ≡ some StatusDto.pending
      → tx.status ≢ TransactionStatus.pending
      → let (r, s') = update db chain id dto s in
        ((update_transaction_status db chain now entry milestone id TransactionStatus.pending actor
            s).1
          ≡ s)
        × (r
            ≡ ok (record tx {
              status = TransactionStatus.pending;
              notes = new_notes dto.notes tx.notes;
            }))
        × (transactions.find_unique id s'.transactions
            ≡ some (record tx {
              status = TransactionStatus.pending;
              notes = new_notes dto.notes tx.notes;
            }))
  unfolding update sync_commissions update_commissions_status update_transaction_status
      can_transition_transaction_status allowed_transitions
  update_reopens dto now entry milestone actor set final = ground (
    arith,
    find_unique-update_self transactions id
        (λ t. record t {
          status = new_status dto.status t.status;
          notes = new_notes dto.notes t.notes;
        })
        s.transactions (λ r. refl) found,
  )

  -- A transaction with a hash that the chain confirms is completed whatever its status, a
  -- cancelled one and one with a held escrow included.
  pub verify_completes :
      (hash : String) (v : Verification)
      → non_empty tx.blockchain_hash ≡ some hash
      → chain.verify_transaction hash ≡ ok v
      → v.verified ≡ true
      → v.is_success ≡ true
      → let (r, s') = verify_on_blockchain db chain id s in
        (r ≡ ok v)
        × (transactions.find_unique id s'.transactions
            ≡ some (record tx { status = TransactionStatus.completed }))
  unfolding verify_on_blockchain update_commissions_status
  verify_completes hash v hashed answer verified success = ground (
    arith,
    find_unique-update_self transactions id (λ t. record t { status = TransactionStatus.completed })
        s.transactions (λ r. refl) found,
  )

  -- A transaction is recorded once: with a hash in the row the call is refused and changes nothing.
  pub record_once :
      (hash : String)
      → non_empty tx.blockchain_hash ≡ some hash
      → record_on_blockchain db chain id s
        ≡ (err (bad_request "Transaction already recorded on blockchain"), s)
  unfolding record_on_blockchain
  record_once hash hashed = ground arith
