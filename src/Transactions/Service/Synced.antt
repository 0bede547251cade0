-- ===== src/Transactions/Service/Synced.antt =====
-- src/transactions/transactions.service.ts: the calls of `updateCommissionsStatus` after each write of
-- a status.
use prop_chain_back_end.Base.{
  ℕ, ◌≡◌, ◌≢◌, refl, inl, inr, subst, Option, some, ◌==◌, arith, Option-cases, Bool-cases,
  Result-cases, ==_iff,
}
use prop_chain_back_end.Table.Laws.{find_unique-update_inv}
use prop_chain_back_end.Transactions.Rows.{
  TransactionStatus, StatusDto, Transaction, Database, Store,
}
use prop_chain_back_end.Transactions.Commissions.{update_commissions_status, db_status}
use prop_chain_back_end.Transactions.Commissions.Sync.{
  is_stale, update_commissions_status-IsSynced, update_commissions_status_other,
}
use prop_chain_back_end.Transactions.Service.{
  Blockchain, update_row, update_transaction_status, to_dto, update, UpdateTransactionDto,
  record_on_blockchain, verify_on_blockchain, new_status, new_notes, sync_commissions,
}

to_dto-db_status : (st : TransactionStatus) → st ≡ db_status (to_dto st)
to_dto-db_status st = ground arith

module _ (db : Database) where
  unfoldable pub RowsSynced : db.transactions.Rows → db.commissions.Rows → Type 0
  RowsSynced transactions commissions =
      (t : ℕ) (tx : Transaction)
      → db.transactions.find_unique t transactions ≡ some tx
      → db.commissions.count_where (is_stale t tx.status) commissions ≡ 0

  -- Every commission has the status of its transaction.
  abbrev pub AllSynced : Store db → Type 0
  AllSynced s = RowsSynced s.transactions s.commissions

  module _ (chain : Blockchain) (id : ℕ) (f : Transaction → Transaction)
      (keeps : (r : Transaction) → (f r).id ≡ r.id) (s : Store db) (synced : AllSynced s) where
    -- A write that keeps the status keeps the commissions right.
    pub keep_status :
        ((r : Transaction) → (f r).status ≡ r.status) → AllSynced (update_row db chain id f s)
    unfolding RowsSynced
    keep_status same t tx found =
        let (r, before, e) =
          find_unique-update_inv db.transactions t id f s.transactions keeps found in
        let st : tx.status ≡ r.status = ground (arith, same r) in rw st (synced t r before)

    -- A write of a status is right with the update of the commissions behind it.
    write_status :
        (status : StatusDto)
        → ((r : Transaction)
            → db.transactions.find_unique id s.transactions ≡ some r
            → (f r).status ≡ db_status status)
        → AllSynced (update_commissions_status db id status (update_row db chain id f s))
    unfolding RowsSynced update_commissions_status
    write_status status fits t tx found =
        let (r, before, e) =
          find_unique-update_inv db.transactions t id f s.transactions keeps found in
        elim (Bool-cases (t == id)) [
          | inl here ↦
              let t_id : t ≡ id = (==_iff t id).0 here in
              let st : tx.status ≡ db_status status = ground (
                arith,
                fits r (
                    subst (λ k. db.transactions.find_unique k s.transactions ≡ some r) t_id before),
              ) in
              rw (st, t_id)
                (update_commissions_status-IsSynced db id status (update_row db chain id f s))
          | inr elsewhere ↦
              let st : tx.status ≡ r.status = ground arith in
              rw st (
                update_commissions_status_other db t id status r.status (update_row db chain id f s)
                  (ground arith) (synced t r before))
        ]

  module _ (chain : Blockchain) (s : Store db) (synced : AllSynced s) where
    open db use {transactions}

    -- Every status update keeps the commissions of all transactions at their status.
    pub update_status-AllSynced :
        (now entry milestone id : ℕ) (next : TransactionStatus) (actor : Option ℕ)
        → AllSynced (update_transaction_status db chain now entry milestone id next actor s).1
    unfolding update_transaction_status update_commissions_status
    update_status-AllSynced now entry milestone id next actor =
        let written =
          write_status chain id (λ t. record t { status = next }) (λ r. refl) s synced (to_dto next)
            (λ r found. to_dto-db_status next) in
        ground arith

    pub update-AllSynced :
        (id : ℕ) (dto : UpdateTransactionDto) → AllSynced (update db chain id dto s).1
    unfolding update update_commissions_status sync_commissions
    update-AllSynced id dto =
        let f : (Transaction → Transaction) = λ t. record t {
          status = new_status dto.status t.status;
          notes = new_notes dto.notes t.notes;
        } in
        elim (Option-cases dto.status) [
          | inl unset ↦
              let kept = keep_status chain id f (λ r. refl) s synced (λ r. ground arith) in
              ground arith
          | inr (x, set) ↦
              let written : (x ≢ StatusDto.failed
                  → AllSynced (update_commissions_status db id x (update_row db chain id f s))) =
                λ ok. write_status chain id f (λ r. refl) s synced x (λ r found. ground arith) in
              ground arith
        ]

    pub record_on_blockchain-AllSynced : (id : ℕ) → AllSynced (record_on_blockchain db chain id s).1
    unfolding record_on_blockchain
    record_on_blockchain-AllSynced id =
        elim (Option-cases (transactions.find_unique id s.transactions)) [
          | inl missing ↦ ground arith
          | inr (tx, found) ↦ elim (Result-cases (chain.record_transaction tx)) [
            | inr (e, failure) ↦ ground arith
            | inl (h, recorded) ↦
                let kept =
                  keep_status chain id
                    (λ t. record t { blockchain_hash = some h.0; contract_address = some h.1 })
                    (λ r. refl) s synced (λ r. refl) in
                ground arith
          ]
        ]

    pub verify_on_blockchain-AllSynced : (id : ℕ) → AllSynced (verify_on_blockchain db chain id s).1
    unfolding verify_on_blockchain update_commissions_status
    verify_on_blockchain-AllSynced id =
        let written =
          write_status chain id (λ t. record t { status = TransactionStatus.completed }) (λ r. refl)
            s synced StatusDto.completed (λ r found. refl) in
        ground arith
