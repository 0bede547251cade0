-- ===== src/Transactions/Tests.antt =====
-- The theorems on the transaction services, at rows of one small shop.
use prop_chain_back_end.Base.{
  ℕ, ◌≡◌, refl, List, [], ◌∷◌, none, some, ok, err, bad_request, true, false,
}
use prop_chain_back_end.Table.InMemory.{in_memory}
use prop_chain_back_end.Transactions.Rows.{
  TransactionStatus, StatusDto, RefundStatus, Transaction, Property, User, Commission,
  TransactionHistory, Milestone, DisputeStatus, Dispute, Document, Database, Store, unset, other,
}
use prop_chain_back_end.Transactions.Status.{Lifecycle, can_transition_transaction_status}
use prop_chain_back_end.Transactions.Commissions.{create_commissions_for_transaction}
use prop_chain_back_end.Transactions.Commissions.Idempotent.{create_commissions_idem}
use prop_chain_back_end.Transactions.Service.{
  Blockchain, CreateTransactionDto, UpdateTransactionDto, create_transaction,
  update_transaction_status,
}
use prop_chain_back_end.Transactions.Service.Lifecycle.{
  StatusCall, run_status_calls, run_status_calls-Lifecycle, update_status_accepted, is_entry,
  is_stage,
}
use prop_chain_back_end.Transactions.Service.Synced.{AllSynced, RowsSynced}
use prop_chain_back_end.Transactions.Service.Creation.{IsFresh, HasParties}
use prop_chain_back_end.Transactions.Service.History.{Step, Reach, Reach-AllSynced}
use prop_chain_back_end.Transactions.Cancellation.{CancelTransactionDto}
use prop_chain_back_end.Transactions.Escrow.{UpdateEscrowDto, update_escrow}
use prop_chain_back_end.Transactions.Disputes.{
  ResolveDisputeDto, resolve, resolved_row, resolve_once,
}

abbrev db : Database
db = record {
  transactions = in_memory Transaction (λ r. r.id);
  properties = in_memory Property (λ r. r.id);
  users = in_memory User (λ r. r.id);
  commissions = in_memory Commission (λ r. r.id);
  history = in_memory TransactionHistory (λ r. r.id);
  milestones = in_memory Milestone (λ r. r.id);
  disputes = in_memory Dispute (λ r. r.id);
  documents = in_memory Document (λ r. r.id);
}

abbrev chain : Blockchain
chain = record {
  enabled = true;
  generate_blockchain_hash = λ id property amount buyer seller. "0x1";
  record_transaction = λ t. ok ("0x2", "0x3");
  verify_transaction = λ hash. ok (record { verified = true; is_success = true });
}

abbrev sale : TransactionStatus → Transaction
sale status = record {
  id = 7;
  property_id = 3;
  buyer_id = 1;
  seller_id = 2;
  amount = 500;
  status = status;
  notes = none;
  blockchain_hash = none;
  contract_address = none;
  escrow_status = unset;
  escrow_amount = none;
  escrow_released_at = none;
  payment_status = none;
  cancellation_reason = none;
  cancelled_by_id = none;
  cancelled_at = none;
  refund_amount = none;
  refund_status = RefundStatus.none;
}

abbrev house : Property
house = record { id = 3; agents = record { agent_id = 9; commission_rate = 2 } ∷ [] }

abbrev user : ℕ → User
user id = record { id = id; phone = none; is_admin = false }

abbrev paid : TransactionStatus → Commission
paid status = record {
  id = 1;
  transaction_id = 7;
  agent_id = 9;
  property_id = 3;
  amount = 1000;
  rate = 2;
  status = status;
}

abbrev complaint : DisputeStatus → Dispute
complaint status = record {
  id = 4;
  transaction_id = 7;
  initiator_id = 1;
  arbitrator_id = none;
  status = status;
  reason = "late";
  description = none;
  resolution_details = none;
  resolved_at = none;
}

-- One sale of that status with these commissions, and one dispute.
abbrev shop : TransactionStatus → List Commission → DisputeStatus → Store db
shop status commissions dispute = record {
  transactions = sale status ∷ [];
  properties = house ∷ [];
  users = user 1 ∷ user 2 ∷ [];
  commissions = commissions;
  history = [];
  milestones = [];
  disputes = complaint dispute ∷ [];
  documents = [];
  sent = [];
}

abbrev pending_shop : Store db
pending_shop = shop TransactionStatus.pending [] DisputeStatus.opened

abbrev paid_shop : Store db
paid_shop =
    shop TransactionStatus.pending (paid TransactionStatus.pending ∷ []) DisputeStatus.opened

abbrev calls : List StatusCall
calls =
    record {
      now = 10;
      entry = 1;
      milestone = 1;
      id = 7;
      next = TransactionStatus.completed;
      actor = some 1;
    }
    ∷ record {
      now = 11;
      entry = 2;
      milestone = 2;
      id = 7;
      next = TransactionStatus.cancelled;
      actor = none;
    }
    ∷ []

run_status_calls-Lifecycle_example :
    (tx' : Transaction) × (db.transactions.find_unique 7
        (run_status_calls db chain calls pending_shop).transactions
      ≡ some tx')
    × Lifecycle TransactionStatus.pending tx'.status
run_status_calls-Lifecycle_example =
    run_status_calls-Lifecycle db chain calls pending_shop 7 (sale TransactionStatus.pending) refl

update_status_accepted_example :
    let (r, s') =
      update_transaction_status db chain 10 1 2 7 TransactionStatus.completed none paid_shop in
    (r ≡ ok (sale TransactionStatus.completed))
    × (db.transactions.find_unique 7 s'.transactions ≡ some (sale TransactionStatus.completed))
    × (db.history.count_where
          (is_entry 7 TransactionStatus.pending TransactionStatus.completed)
          s'.history
        ≡ 1)
    × (db.milestones.count_where (is_stage 7 TransactionStatus.completed) s'.milestones ≡ 1)
unfolding can_transition_transaction_status
update_status_accepted_example =
    update_status_accepted db chain 10 1 2 7 TransactionStatus.completed none paid_shop refl refl

abbrev offer : CreateTransactionDto
offer = record { property_id = 3; buyer_id = 1; seller_id = 2; amount = 500; notes = none }

abbrev fresh_id : IsFresh db chain 8 pending_shop
fresh_id = record { no_row = refl; no_commission = refl }

-- The empty shop, where the first sale is made.
abbrev empty_shop : Store db
empty_shop = record pending_shop { transactions = [] }

abbrev fresh_first : IsFresh db chain 7 empty_shop
fresh_first = record { no_row = refl; no_commission = refl }

empty_shop-AllSynced : AllSynced db empty_shop
unfolding RowsSynced
empty_shop-AllSynced t tx found = refl

abbrev pay : UpdateEscrowDto
pay = record { escrow_status = none; escrow_amount = none; payment_status = some "COMPLETE" }

Reach-AllSynced_example :
    AllSynced db (update_escrow db 9 7 pay (create_transaction db chain 7 1 offer empty_shop).1).1
Reach-AllSynced_example =
    Reach-AllSynced db chain
      (Reach.next (Reach.next Reach.here (Step.creates_transaction 7 1 offer fresh_first))
        (Step.updates_escrow 9 7 pay))
      empty_shop-AllSynced

create_commissions_idem_example :
    create_commissions_for_transaction db 7 5
      (create_commissions_for_transaction db 7 1 pending_shop)
    ≡ create_commissions_for_transaction db 7 1 pending_shop
create_commissions_idem_example = create_commissions_idem db 7 1 5 pending_shop

abbrev request : CancelTransactionDto
request = record { reason = "changed my mind"; refund_amount = none }

abbrev complete : UpdateTransactionDto
complete = record { status = some StatusDto.completed; notes = none }

abbrev held_shop : Store db
held_shop = record pending_shop {
  transactions = record (sale TransactionStatus.pending) { escrow_status = other "HELD" } ∷ [];
}

abbrev reopen : UpdateTransactionDto
reopen = record { status = some StatusDto.pending; notes = none }

abbrev sold_shop : Store db
sold_shop = shop TransactionStatus.completed [] DisputeStatus.resolved

abbrev parties : HasParties db chain offer pending_shop
parties = record {
  property = house;
  buyer = user 1;
  seller = user 2;
  property_found = refl;
  buyer_found = refl;
  seller_found = refl;
}

abbrev ruling : ResolveDisputeDto
ruling = record { status = DisputeStatus.resolved; details = "refunded" }

resolve_once_example :
    let (r, s') = resolve db 30 4 5 ruling pending_shop in
    (r ≡ ok (resolved_row 30 5 ruling (complaint DisputeStatus.opened)))
    × (db.disputes.find_unique 4 s'.disputes
        ≡ some (resolved_row 30 5 ruling (complaint DisputeStatus.opened)))
    × (resolve db 31 4 6 ruling s' ≡ (err (bad_request "Dispute is already resolved"), s'))
resolve_once_example = resolve_once db 4 pending_shop refl 30 31 5 6 ruling ruling (λ e. cc) refl
