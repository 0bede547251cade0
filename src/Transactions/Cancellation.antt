-- ===== src/Transactions/Cancellation.antt =====
-- src/transactions/transaction-cancellation.service.ts
use prop_chain_back_end.Base.{
  ℕ, ◌≡◌, ◌≢◌, refl, Bool, true, false, not, ◌&&◌, ◌∷◌, Option, some, String, if◌then◌else◌,
  or_else, Action, ok, err, not_found, bad_request, pure, gets, or_throw, throw_if, modify, ◌>>=◌,
  ◌>>◌, arith, ◌≤◌, ◌==◌,
}
use prop_chain_back_end.Table.Laws.{find_unique-update_self, count_where_mono}
use prop_chain_back_end.Transactions.Rows.{
  TransactionStatus, RefundStatus, Transaction, Database, Store, transaction_cancelled,
  refund_processed,
}
use prop_chain_back_end.Transactions.Status.{status_eq}
use prop_chain_back_end.Transactions.Commissions.Sync.{is_stale}
use prop_chain_back_end.Transactions.Service.Synced.{AllSynced, RowsSynced}

pub record CancelTransactionDto : Type 0 where
  pub reason : String
  pub refund_amount : Option ℕ

abbrev pub is_processed : RefundStatus → Bool
is_processed RefundStatus.processed = true
is_processed _ = false

abbrev pub cancelled_row : ℕ → CancelTransactionDto → ℕ → Transaction → Transaction → Transaction
cancelled_row now dto actor tx t = record t {
  status = TransactionStatus.cancelled;
  cancellation_reason = some dto.reason;
  cancelled_by_id = some actor;
  cancelled_at = some now;
  refund_amount = some (or_else dto.refund_amount tx.amount);
  refund_status = RefundStatus.pending;
}

module _ (db : Database) where
  open db use {transactions}

  pub cancel : ℕ → ℕ → CancelTransactionDto → ℕ → Action (Store db) Transaction
  cancel now id dto actor = do
    found ← gets (λ s. transactions.find_unique id s.transactions)
    tx ← or_throw found (not_found "Transaction not found")
    throw_if (status_eq tx.status TransactionStatus.cancelled)
        (bad_request "Transaction is already cancelled")
    throw_if (status_eq tx.status TransactionStatus.completed)
        (bad_request "Completed transactions cannot be cancelled")
    modify (λ s. record s {
      transactions = transactions.update id (cancelled_row now dto actor tx) s.transactions;
    })
    modify (λ s. record s {
      sent = (tx.seller_id, transaction_cancelled) ∷ (tx.buyer_id, transaction_cancelled) ∷ s.sent;
    })
    pure (cancelled_row now dto actor tx tx)

  pub process_refund : ℕ → Action (Store db) Transaction
  process_refund id = do
    found ← gets (λ s. transactions.find_unique id s.transactions)
    tx ← or_throw found (not_found "Transaction not found")
    throw_if (not (status_eq tx.status TransactionStatus.cancelled))
        (bad_request "Transaction is not cancelled")
    throw_if (is_processed tx.refund_status) (bad_request "Refund already processed")
    modify (λ s. record s {
      transactions =
          transactions.update id (λ t. record t { refund_status = RefundStatus.processed })
            s.transactions;
    })
    modify (λ s. record s { sent = (tx.buyer_id, refund_processed) ∷ s.sent })
    pure (record tx { refund_status = RefundStatus.processed })

  module _ (id : ℕ) (s : Store db) {tx : Transaction}
      (found : transactions.find_unique id s.transactions ≡ some tx) where
    -- Only a pending transaction is cancelled, with the requested refund or else the whole amount
    -- pending; otherwise the call is refused and the row stays as it is.
    pub cancel_lem :
        (now : ℕ) (dto : CancelTransactionDto) (actor : ℕ)
        → let (r, s') = cancel now id dto actor s in
          (r ≡ (
            if status_eq tx.status TransactionStatus.pending
            then ok (cancelled_row now dto actor tx tx)
            else if status_eq tx.status TransactionStatus.cancelled
            then err (bad_request "Transaction is already cancelled")
            else err (bad_request "Completed transactions cannot be cancelled")))
          × (transactions.find_unique id s'.transactions
              ≡ some (
                  if status_eq tx.status TransactionStatus.pending
                  then cancelled_row now dto actor tx tx
                  else tx))
    unfolding cancel
    cancel_lem now dto actor = ground (
      arith,
      find_unique-update_self transactions id (cancelled_row now dto actor tx) s.transactions
          (λ r. refl) found,
    )

    -- The refund of a cancelled transaction that is not yet processed goes through once; the next
    -- call is refused and changes nothing.
    pub process_refund_once :
        tx.status ≡ TransactionStatus.cancelled
        → tx.refund_status ≢ RefundStatus.processed
        → let (r, s') = process_refund id s in
          (r ≡ ok (record tx { refund_status = RefundStatus.processed }))
          × (process_refund id s' ≡ (err (bad_request "Refund already processed"), s'))
    unfolding process_refund
    process_refund_once cancelled open_refund = ground (
      arith,
      find_unique-update_self transactions id
          (λ t. record t { refund_status = RefundStatus.processed }) s.transactions (λ r. refl)
          found,
    )

    -- Cancelling a pending transaction that has a pending commission leaves the commissions out of
    -- step with their transactions.
    pub cancel_unsynced :
        (now : ℕ) (dto : CancelTransactionDto) (actor : ℕ)
        → tx.status ≡ TransactionStatus.pending
        → 1
          ≤ db.commissions.count_where
              (λ c. c.transaction_id == id && status_eq c.status TransactionStatus.pending)
              s.commissions
        → ¬ (AllSynced db (cancel now id dto actor s).1)
    unfolding cancel RowsSynced
    cancel_unsynced now dto actor was_pending paid synced =
        let after =
          find_unique-update_self transactions id (cancelled_row now dto actor tx) s.transactions
            (λ r. refl) found in
        let s' = (cancel now id dto actor s).1 in
        let rows : s'.transactions
            ≡ transactions.update id (cancelled_row now dto actor tx) s.transactions =
          ground arith in
        let kept : s'.commissions ≡ s.commissions = ground arith in
        let none_stale = synced id (cancelled_row now dto actor tx tx) (rw rows after) in
        let all_pending =
          count_where_mono db.commissions
            (λ c. c.transaction_id == id && status_eq c.status TransactionStatus.pending)
            (is_stale id TransactionStatus.cancelled) s.commissions (λ c h. ground arith) in
        omega (arith, paid, all_pending, (rw kept at none_stale))
