-- ===== src/Transactions/Service/Rows.antt =====
-- src/transactions/transactions.service.ts: the arguments of its methods, the calls of
-- `BlockchainService`, and the rows that the methods write.
use prop_chain_back_end.Base.{
  ℕ, Bool, true, false, Option, none, some, String, str_eq, if◌then◌else◌, Result,
}
use prop_chain_back_end.Transactions.Rows.{
  TransactionStatus, StatusDto, EscrowStatus, RefundStatus, MilestoneStatus, Transaction, User,
  TransactionHistory, Milestone, unset, other,
}

-- The calls of `BlockchainService`, and whether BLOCKCHAIN_ENABLED is other than 'false'.
pub record Verification : Type 0 where
  pub verified : Bool
  pub is_success : Bool

pub record Blockchain : Type 0 where
  pub enabled : Bool
  pub generate_blockchain_hash :
      (transaction_id property_id amount : ℕ) → (buyer seller : String) → String
  pub record_transaction : Transaction → Result (String × String)
  pub verify_transaction : String → Result Verification

pub record CreateTransactionDto : Type 0 where
  pub property_id : ℕ
  pub buyer_id : ℕ
  pub seller_id : ℕ
  pub amount : ℕ
  pub notes : Option String

pub record UpdateTransactionDto : Type 0 where
  pub status : Option StatusDto
  pub notes : Option String

-- The row that `transaction.create` writes, with the defaults of the schema.
unfoldable pub new_transaction : ℕ → CreateTransactionDto → Transaction
new_transaction id dto = record {
  id = id;
  property_id = dto.property_id;
  buyer_id = dto.buyer_id;
  seller_id = dto.seller_id;
  amount = dto.amount;
  status = TransactionStatus.pending;
  notes = dto.notes;
  blockchain_hash = none;
  contract_address = none;
  escrow_status = unset;
  escrow_amount = none;
  escrow_released_at = none;
  payment_status = none;
  cancellation_reason = none;
  cancelled_by_id = none;
  cancelled_at = none;
  refund_amount = none;
  refund_status = RefundStatus.none;
}

-- `phone || fallback`
abbrev or_fallback : Option String → String
or_fallback none = "0x0000000000000000000000000000000000000000"
or_fallback (some s) = if str_eq s "" then "0x0000000000000000000000000000000000000000" else s

-- a text that is neither null nor empty
abbrev pub non_empty : Option String → Option String
non_empty none = none
non_empty (some s) = if str_eq s "" then none else some s

-- `escrowStatus && escrowStatus !== 'RELEASED'`
abbrev pub is_held : EscrowStatus → Bool
is_held (other s) = true
is_held _ = false

abbrev pub is_completed_dto : Option StatusDto → Bool
is_completed_dto (some StatusDto.completed) = true
is_completed_dto _ = false

abbrev pub is_failed_dto : Option StatusDto → Bool
is_failed_dto (some StatusDto.failed) = true
is_failed_dto _ = false

-- What `data: { status: dto.status }` writes: an undefined status leaves the column as it is.
abbrev pub new_status : Option StatusDto → TransactionStatus → TransactionStatus
new_status (some StatusDto.pending) old = TransactionStatus.pending
new_status (some StatusDto.completed) old = TransactionStatus.completed
new_status (some StatusDto.cancelled) old = TransactionStatus.cancelled
new_status _ old = old

abbrev pub new_notes : Option String → Option String → Option String
new_notes none old = old
new_notes (some n) old = some n

abbrev pub to_dto : TransactionStatus → StatusDto
to_dto TransactionStatus.pending = StatusDto.pending
to_dto TransactionStatus.completed = StatusDto.completed
to_dto TransactionStatus.cancelled = StatusDto.cancelled

-- The row with the hash that `autoRecordOnBlockchain` computes.
abbrev pub with_hash :
    Blockchain → ℕ → CreateTransactionDto → User → User → Transaction → Transaction
with_hash chain id dto buyer seller t = record t {
  blockchain_hash = some (
      chain.generate_blockchain_hash id dto.property_id dto.amount (or_fallback buyer.phone)
        (or_fallback seller.phone));
}

abbrev pub history_entry :
    ℕ → ℕ → TransactionStatus → TransactionStatus → Option ℕ → TransactionHistory
history_entry entry_id id current next actor = record {
  id = entry_id;
  transaction_id = id;
  status = next;
  actor_id = actor;
  previous_status = current;
  new_status = next;
}

abbrev pub stage_event : ℕ → ℕ → ℕ → TransactionStatus → Milestone
stage_event now milestone_id id status = record {
  id = milestone_id;
  transaction_id = id;
  stage = status;
  expected_date = now;
  actual_date = some now;
  status = MilestoneStatus.completed;
}
