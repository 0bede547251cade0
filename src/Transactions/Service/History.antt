-- ===== src/Transactions/Service/History.antt =====
-- src/transactions/transactions.service.ts: the histories of its calls.
use prop_chain_back_end.Base.{
  ℕ, ◌≡◌, refl, inl, inr, ◌∙◌, sym, Option, none, some, ◌==◌, arith, Option-cases, Bool-cases,
}
use prop_chain_back_end.Table.Laws.{find_unique-create_ne, count_where_mono, find_unique-key}
use prop_chain_back_end.Transactions.Rows.{TransactionStatus, Transaction, Database, Store}
use prop_chain_back_end.Transactions.Commissions.{create_commissions_for_transaction}
use prop_chain_back_end.Transactions.Commissions.Idempotent.{
  create_of_missing, create_commissions_frame,
}
use prop_chain_back_end.Transactions.Commissions.Sync.{create_commissions-IsSynced, is_stale}
use prop_chain_back_end.Transactions.Escrow.{UpdateEscrowDto, escrow_row, update_escrow}
use prop_chain_back_end.Transactions.Service.{
  Blockchain, CreateTransactionDto, UpdateTransactionDto, create, create_transaction,
  new_transaction, with_hash, update_transaction_status, update, record_on_blockchain,
  verify_on_blockchain,
}
use prop_chain_back_end.Transactions.Service.Creation.{IsFresh}
use prop_chain_back_end.Transactions.Service.Synced.{
  AllSynced, RowsSynced, keep_status, update_status-AllSynced, update-AllSynced,
  record_on_blockchain-AllSynced, verify_on_blockchain-AllSynced,
}

module _ (db : Database) (chain : Blockchain) where
  open db use {transactions, commissions}

  -- A fresh row has no commissions yet.
  insert-AllSynced :
      (row : Transaction) (s : Store db)
      → IsFresh db chain row.id s
      → AllSynced db s
      → AllSynced db (record s { transactions = transactions.create row s.transactions })
  unfolding RowsSynced
  insert-AllSynced row s fresh synced t tx found = elim (Bool-cases (row.id == t)) [
    | inl here ↦ omega (
      arith,
      fresh.no_commission,
      count_where_mono commissions (is_stale t tx.status) (λ c. c.transaction_id == row.id)
          s.commissions (λ c h. ground arith),
    )
    | inr elsewhere ↦
        synced t tx
          (sym (find_unique-create_ne transactions t row s.transactions (ground arith)) ∙ found)
  ]

  create_commissions-AllSynced :
      (u n : ℕ) (s : Store db)
      → AllSynced db s
      → AllSynced db (create_commissions_for_transaction db u n s)
  unfolding RowsSynced
  create_commissions-AllSynced u n s synced t tx found =
      let before : transactions.find_unique t s.transactions ≡ some tx =
        rw (create_commissions_frame db u n s) at found in
      create_commissions-IsSynced db u n t tx.status s
        (λ tx₂ found₂ same. ground (arith, find_unique-key transactions u s.transactions found₂))
        (synced t tx before)

  create_transaction-AllSynced :
      (id n : ℕ) (dto : CreateTransactionDto) (s : Store db)
      → IsFresh db chain id s
      → AllSynced db s
      → AllSynced db (create_transaction db chain id n dto s).1
  unfolding create_transaction new_transaction
  create_transaction-AllSynced id n dto s fresh synced =
      let row : Transaction = record (new_transaction id dto) { notes = none } in
      let done =
        create_commissions-AllSynced id n
          (record s { transactions = transactions.create row s.transactions })
          (insert-AllSynced row s fresh synced) in
      ground arith

  create-AllSynced :
      (id n : ℕ) (dto : CreateTransactionDto) (s : Store db)
      → IsFresh db chain id s
      → AllSynced db s
      → AllSynced db (create db chain id n dto s).1
  unfolding create new_transaction
  create-AllSynced id n dto s fresh synced =
      let inserted = insert-AllSynced (new_transaction id dto) s fresh synced in
      let same = create_of_missing db id n s fresh.no_row in
      elim (Option-cases (db.users.find_unique dto.buyer_id s.users)) [
        | inl no_buyer ↦ ground arith
        | inr (b, buyer) ↦ elim (Option-cases (db.users.find_unique dto.seller_id s.users)) [
          | inl no_seller ↦ ground arith
          | inr (c, seller) ↦
              let hashed =
                keep_status db chain id (with_hash chain id dto b c) (λ r. refl)
                  (record s {
                    transactions = transactions.create (new_transaction id dto) s.transactions;
                  })
                  inserted (λ r. refl) in
              ground arith
        ]
      ]

  -- An escrow update leaves the status alone.
  update_escrow-AllSynced :
      (now id : ℕ) (dto : UpdateEscrowDto) (s : Store db)
      → AllSynced db s
      → AllSynced db (update_escrow db now id dto s).1
  unfolding update_escrow
  update_escrow-AllSynced now id dto s synced =
      let kept = keep_status db chain id (escrow_row now dto) (λ r. refl) s synced (λ r. refl) in
      ground arith

  -- One call of the service, whether it succeeds or not.
  pub data Step (s : Store db) : Store db → Type 0 where
    creates :
        (id n : ℕ) (dto : CreateTransactionDto)
        → IsFresh db chain id s
        → Step s (create db chain id n dto s).1
    creates_transaction :
        (id n : ℕ) (dto : CreateTransactionDto)
        → IsFresh db chain id s
        → Step s (create_transaction db chain id n dto s).1
    updates : (id : ℕ) (dto : UpdateTransactionDto) → Step s (update db chain id dto s).1
    records : (id : ℕ) → Step s (record_on_blockchain db chain id s).1
    verifies : (id : ℕ) → Step s (verify_on_blockchain db chain id s).1
    updates_escrow : (now id : ℕ) (dto : UpdateEscrowDto) → Step s (update_escrow db now id dto s).1
    updates_status :
        (now entry milestone id : ℕ) (status : TransactionStatus) (actor : Option ℕ)
        → Step s (update_transaction_status db chain now entry milestone id status actor s).1

  pub data Reach (s : Store db) : Store db → Type 0 where
    here : Reach s s
    next : {t u : Store db} → Reach s t → Step t u → Reach s u

  Step-AllSynced : {s u : Store db} → Step s u → AllSynced db s → AllSynced db u
  Step-AllSynced {s} (creates id n dto fresh) h = create-AllSynced id n dto s fresh h
  Step-AllSynced {s} (creates_transaction id n dto fresh) h =
      create_transaction-AllSynced id n dto s fresh h
  Step-AllSynced {s} (updates id dto) h = update-AllSynced db chain s h id dto
  Step-AllSynced {s} (records id) h = record_on_blockchain-AllSynced db chain s h id
  Step-AllSynced {s} (verifies id) h = verify_on_blockchain-AllSynced db chain s h id
  Step-AllSynced {s} (updates_escrow now id dto) h = update_escrow-AllSynced now id dto s h
  Step-AllSynced {s} (updates_status now entry milestone id status actor) h =
      update_status-AllSynced db chain s h now entry milestone id status actor

  -- Where every commission has the status of its transaction, every commission still has it after
  -- any sequence of calls of create, createTransaction, update, updateTransactionStatus,
  -- updateEscrow, recordOnBlockchain and verifyOnBlockchain, in any order and with any outcome,
  -- provided that the database generates unused identifiers.
  pub Reach-AllSynced : {s u : Store db} → Reach s u → AllSynced db s → AllSynced db u
  Reach-AllSynced here h = h
  Reach-AllSynced (next r step) h = Step-AllSynced step (Reach-AllSynced r h)
