-- ===== src/Transactions/Service/Lifecycle.antt =====
-- src/transactions/transactions.service.ts: `updateTransactionStatus`, for one call and for any number.
use prop_chain_back_end.Base.{
  ℕ, suc, ◌≡◌, ◌≢◌, refl, inl, inr, ◌∙◌, Bool, true, false, ◌&&◌, List, [], ◌∷◌, Option, none, some,
  ◌==◌, arith, Bool-cases, ok, err, ==_iff, not_found, bad_request,
}
use prop_chain_back_end.Table.Laws.{
  find_unique-update_self, find_unique-update_ne, count_where-create,
}
use prop_chain_back_end.Transactions.Rows.{
  TransactionStatus, Transaction, TransactionHistory, Milestone, Database, Store,
}
use prop_chain_back_end.Transactions.Status.{
  can_transition_transaction_status, Lifecycle, stay, Lifecycle-trans, Lifecycle_of_can,
  transition_message, status_eq, status_eq_iff,
}
use prop_chain_back_end.Transactions.Commissions.{update_commissions_status}
use prop_chain_back_end.Transactions.Service.{
  Blockchain, update_transaction_status, history_entry, stage_event,
}

abbrev pub is_entry : ℕ → TransactionStatus → TransactionStatus → TransactionHistory → Bool
is_entry id current next h =
    h.transaction_id == id && status_eq h.previous_status current && status_eq h.new_status next

abbrev pub is_stage : ℕ → TransactionStatus → Milestone → Bool
is_stage id status m = m.transaction_id == id && status_eq m.stage status

module _ (db : Database) (chain : Blockchain) where
  open db use {transactions, history, milestones}

  module _ (now entry milestone id : ℕ) (next : TransactionStatus) (actor : Option ℕ)
      (s : Store db) where
    -- An unknown transaction is reported, and nothing is written.
    pub update_status_unknown :
        transactions.find_unique id s.transactions ≡ none
        → update_transaction_status db chain now entry milestone id next actor s
          ≡ (err (not_found "Transaction not found"), s)
    unfolding update_transaction_status
    update_status_unknown missing = ground arith

    module _ {tx : Transaction} (found : transactions.find_unique id s.transactions ≡ some tx) where
      -- A transition outside the life cycle is refused, and nothing is written.
      pub update_status_refused :
          can_transition_transaction_status tx.status next ≡ false
          → update_transaction_status db chain now entry milestone id next actor s
            ≡ (err (bad_request (transition_message tx.status next)), s)
      unfolding update_transaction_status
      update_status_refused no_way = ground arith

      -- Where the life cycle allows the transition, updateTransactionStatus returns and stores the
      -- row with the new status and nothing else changed, and adds one entry for the transition to
      -- the history and one to the timeline.
      pub update_status_accepted :
          can_transition_transaction_status tx.status next ≡ true
          → let (r, s') = update_transaction_status db chain now entry milestone id next actor s in
            (r ≡ ok (record tx { status = next }))
            × (transactions.find_unique id s'.transactions ≡ some (record tx { status = next }))
            × (history.count_where (is_entry id tx.status next) s'.history
                ≡ suc (history.count_where (is_entry id tx.status next) s.history))
            × (milestones.count_where (is_stage id next) s'.milestones
                ≡ suc (milestones.count_where (is_stage id next) s.milestones))
      unfolding update_transaction_status update_commissions_status
      update_status_accepted can = ground (
        arith,
        find_unique-update_self transactions id (λ t. record t { status = next }) s.transactions
            (λ r. refl) found,
        count_where-create history (is_entry id tx.status next)
            (history_entry entry id tx.status next actor) s.history,
        count_where-create milestones (is_stage id next) (stage_event now milestone id next)
            s.milestones,
        (status_eq_iff tx.status tx.status).1 refl,
        (status_eq_iff next next).1 refl,
      )

    -- The rows of other transactions stay as they are.
    pub update_status_frame :
        (j : ℕ)
        → j ≢ id
        → transactions.find_unique j
            (update_transaction_status db chain now entry milestone id next actor s).1.transactions
          ≡ transactions.find_unique j s.transactions
    unfolding update_transaction_status update_commissions_status
    update_status_frame j ne = ground (
      arith,
      find_unique-update_ne transactions j id (λ t. record t { status = next }) s.transactions
          (λ r. refl) ne,
    )

    -- A call keeps every row, and moves its status along the life cycle.
    pub update_status-Lifecycle :
        (j : ℕ) (tx : Transaction)
        → transactions.find_unique j s.transactions ≡ some tx
        → let s' = (update_transaction_status db chain now entry milestone id next actor s).1 in
          (tx' : Transaction) × (transactions.find_unique j s'.transactions ≡ some tx')
          × Lifecycle tx.status tx'.status
    update_status-Lifecycle j tx found = elim (Bool-cases (j == id)) [
      | inr elsewhere ↦ (tx, update_status_frame j (ground arith) ∙ found, stay)
      | inl here ↦
          let at_id : transactions.find_unique id s.transactions ≡ some tx =
            rw (← (==_iff j id).0 here) found in
          elim (Bool-cases (can_transition_transaction_status tx.status next)) [
            | inr no_way ↦ (tx, rw (update_status_refused at_id no_way) found, stay)
            | inl can ↦ (
              record tx { status = next },
              rw ((==_iff j id).0 here) (update_status_accepted at_id can).1,
              Lifecycle_of_can tx.status next can,
            )
          ]
    ]

-- A call of `updateTransactionStatus` with its arguments.
pub record StatusCall : Type 0 where
  pub now : ℕ
  pub entry : ℕ
  pub milestone : ℕ
  pub id : ℕ
  pub next : TransactionStatus
  pub actor : Option ℕ

module _ (db : Database) (chain : Blockchain) where
  -- Any number of calls, each of which may fail.
  unfoldable pub run_status_calls : List StatusCall → Store db → Store db
  run_status_calls [] s = s
  run_status_calls (c ∷ cs) s =
      run_status_calls cs
        (update_transaction_status db chain c.now c.entry c.milestone c.id c.next c.actor s).1

  -- Over any number of calls of updateTransactionStatus, accepted or refused, a transaction stays
  -- in the table and its status moves along the life cycle: once completed or cancelled it never
  -- changes again.
  pub run_status_calls-Lifecycle :
      (cs : List StatusCall) (s : Store db) (j : ℕ) (tx : Transaction)
      → db.transactions.find_unique j s.transactions ≡ some tx
      → (tx' : Transaction) × (db.transactions.find_unique j (run_status_calls cs s).transactions
          ≡ some tx')
        × Lifecycle tx.status tx'.status
  unfolding run_status_calls
  run_status_calls-Lifecycle [] s j tx found = (tx, found, stay)
  run_status_calls-Lifecycle (c ∷ cs) s j tx found =
      let (tx', found', step) =
        update_status-Lifecycle db chain c.now c.entry c.milestone c.id c.next c.actor s j tx
          found in
      let (tx'', found'', steps) = run_status_calls-Lifecycle cs _ j tx' found' in
      (tx'', found'', Lifecycle-trans step steps)
