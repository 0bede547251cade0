-- ===== src/Transactions/Service.antt =====
-- src/transactions/transactions.service.ts, with timeline.service.ts (`addStageEvent`) and
-- transaction-audit.service.ts (`log`) as it calls them. A call returns the row that the source
-- turns into a response. `BlockchainService`, whose hashes and ledger are not modelled, is the
-- record `Blockchain`; metrics and log lines are left out.
mod Rows
pub mod Lifecycle
pub mod Updates
pub mod Synced
pub mod Creation
pub mod History
use prop_chain_back_end.Base.{
  ℕ, ◌+◌, suc, Bool, true, false, not, ◌&&◌, ◌||◌, List, [], ◌∷◌, map, Option, none, some, ◌==◌,
  String, str_eq, if◌then◌else◌, or_else, is_some, HttpException, not_found, forbidden, bad_request,
  Action, Result, ok, err, pure, throw, gets, or_throw, throw_if, modify, from_result, ◌>>=◌, ◌>>◌,
}
use prop_chain_back_end.Table.{Table}
use prop_chain_back_end.Transactions.Rows.{
  TransactionStatus, StatusDto, EscrowStatus, RefundStatus, MilestoneStatus, Transaction, User,
  Property, TransactionHistory, Milestone, Database, Store, unset, empty, released, other,
}
use prop_chain_back_end.Transactions.Status.{can_transition_transaction_status, transition_message}
use prop_chain_back_end.Transactions.Commissions.{
  create_commissions_for_transaction, update_commissions_status,
}
unfoldable pub use Rows.*

module _ (db : Database) (chain : Blockchain) where
  open db use {transactions, properties, users, history, milestones}

  -- `transaction.update` of the row with this id
  abbrev pub update_row : ℕ → (Transaction → Transaction) → Store db → Store db
  update_row id f s = record s { transactions = transactions.update id f s.transactions }

  -- the database's row, which the calls end with
  abbrev pub find_transaction : ℕ → Action (Store db) Transaction
  find_transaction id = do
    found ← gets (λ s. transactions.find_unique id s.transactions)
    or_throw found (not_found "Transaction not found")

  require_parties : CreateTransactionDto → Action (Store db) (User × User)
  require_parties dto = do
    property ← gets (λ s. properties.find_unique dto.property_id s.properties)
    buyer ← gets (λ s. users.find_unique dto.buyer_id s.users)
    seller ← gets (λ s. users.find_unique dto.seller_id s.users)
    or_throw property (not_found "Property not found")
    b ← or_throw buyer (not_found "Buyer not found")
    c ← or_throw seller (not_found "Seller not found")
    pure (b, c)

  auto_record_on_blockchain : ℕ → CreateTransactionDto → User → User → Store db → Store db
  auto_record_on_blockchain id dto buyer seller s =
      if chain.enabled then update_row id (with_hash chain id dto buyer seller) s else s

  -- `create`. The commissions are created while the new row is still uncommitted, by a service
  -- that reads through `this.prisma` and not through the transaction's client `tx`: such a read
  -- sees the rows that are committed, so it comes before the insertion here.
  pub create : ℕ → ℕ → CreateTransactionDto → Action (Store db) Transaction
  unfolding require_parties auto_record_on_blockchain new_transaction
  create id next_id dto = do
    (buyer, seller) ← require_parties dto
    modify (create_commissions_for_transaction db id next_id)
    modify (λ s. record s {
      transactions = transactions.create (new_transaction id dto) s.transactions;
    })
    modify (auto_record_on_blockchain id dto buyer seller)
    pure (new_transaction id dto)

  -- `createTransaction`: the same checks, and the row is committed before the commissions.
  pub create_transaction : ℕ → ℕ → CreateTransactionDto → Action (Store db) Transaction
  unfolding require_parties new_transaction
  create_transaction id next_id dto = do
    require_parties dto
    let row = record (new_transaction id dto) { notes = none }
    modify (λ s. record s { transactions = transactions.create row s.transactions })
    modify (create_commissions_for_transaction db id next_id)
    pure row

  -- `findOne`
  pub find_one : ℕ → Action (Store db) Transaction
  find_one id = find_transaction id

  -- `if (dto.status) await … updateCommissionsStatus(id, dto.status)`
  pub sync_commissions : ℕ → Option StatusDto → Store db → Store db
  sync_commissions id none s = s
  sync_commissions id (some status) s = update_commissions_status db id status s

  pub update : ℕ → UpdateTransactionDto → Action (Store db) Transaction
  update id dto = do
    tx ← find_transaction id
    throw_if (is_failed_dto dto.status) (bad_request "FAILED is not a supported transaction status")
    throw_if (is_completed_dto dto.status && is_held tx.escrow_status)
        (bad_request "Escrow must be RELEASED before completing transaction")
    modify (
        update_row id (λ t. record t {
          status = new_status dto.status t.status;
          notes = new_notes dto.notes t.notes;
        }))
    modify (sync_commissions id dto.status)
    pure (record tx {
      status = new_status dto.status tx.status;
      notes = new_notes dto.notes tx.notes;
    })

  pub record_on_blockchain : ℕ → Action (Store db) Transaction
  record_on_blockchain id = do
    tx ← find_transaction id
    throw_if (is_some (non_empty tx.blockchain_hash))
        (bad_request "Transaction already recorded on blockchain")
    recorded ← from_result (chain.record_transaction tx)
    modify (
        update_row id
          (λ t. record t { blockchain_hash = some recorded.0; contract_address = some recorded.1 }))
    pure (record tx { blockchain_hash = some recorded.0; contract_address = some recorded.1 })

  pub verify_on_blockchain : ℕ → Action (Store db) Verification
  verify_on_blockchain id = do
    tx ← find_transaction id
    hash ←
        or_throw (non_empty tx.blockchain_hash)
          (bad_request "Transaction not recorded on blockchain")
    verification ← from_result (chain.verify_transaction hash)
    modify (λ s.
        if verification.verified && verification.is_success
        then update_commissions_status db id StatusDto.completed
            (update_row id (λ t. record t { status = TransactionStatus.completed }) s)
        else s)
    pure verification

  -- `transactionAuditService.log`
  log_transition : ℕ → ℕ → TransactionStatus → TransactionStatus → Option ℕ → Store db → Store db
  log_transition entry_id id current next actor s = record s {
    history = history.create (history_entry entry_id id current next actor) s.history;
  }

  -- `timelineService.addStageEvent`
  add_stage_event : ℕ → ℕ → ℕ → TransactionStatus → Store db → Store db
  add_stage_event now milestone_id id status s = record s {
    milestones = milestones.create (stage_event now milestone_id id status) s.milestones;
  }

  pub update_transaction_status :
      (now entry_id milestone_id : ℕ)
      → ℕ
      → TransactionStatus
      → Option ℕ
      → Action (Store db) Transaction
  unfolding log_transition add_stage_event
  update_transaction_status now entry_id milestone_id id next actor = do
    tx ← find_transaction id
    throw_if (not (can_transition_transaction_status tx.status next))
        (bad_request (transition_message tx.status next))
    modify (update_row id (λ t. record t { status = next }))
    modify (log_transition entry_id id tx.status next actor)
    modify (update_commissions_status db id (to_dto next))
    modify (add_stage_event now milestone_id id next)
    pure (record tx { status = next })
