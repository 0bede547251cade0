-- ===== src/Transactions/Commissions/Sync.antt =====
-- src/commissions/commissions.service.ts: the status of the commissions, and who may read one.
use prop_chain_back_end.Base.{
  ℕ, ◌+◌, ◌≡◌, ◌≢◌, refl, inl, inr, ◌∙◌, Bool, true, not, ◌&&◌, ◌||◌, List, [], ◌∷◌, none, some,
  ◌==◌, if◌then◌else◌, arith, count, Option-cases, ok, err, forbidden,
}
use prop_chain_back_end.Table.Laws.{count_where-update_many, count_where-zero, count_where-congr}
use prop_chain_back_end.Transactions.Rows.{
  TransactionStatus, StatusDto, Transaction, PropertyAgent, Commission, Database, Store,
}
use prop_chain_back_end.Transactions.Status.{status_eq, status_eq_iff}
use prop_chain_back_end.Transactions.Commissions.{
  commission_rows, agents_of, existing_agent_ids, commissions_for,
  create_commissions_for_transaction, update_commissions_status, db_status, find_one,
  find_all_where, CommissionQuery, Caller, Role, is_admin,
}
use prop_chain_back_end.Transactions.Commissions.Laws.{count-insert_rows}
use prop_chain_back_end.Transactions.Commissions.Idempotent.{create_of_found, create_of_missing}

-- A commission of the transaction with another status.
abbrev pub is_stale : ℕ → TransactionStatus → Commission → Bool
is_stale t status c = c.transaction_id == t && not (status_eq c.status status)

rows_not_stale :
    (t : ℕ) (st : TransactionStatus) (tx : Transaction) (existing : List ℕ) (n : ℕ)
    (agents : List PropertyAgent)
    → (t ≡ tx.id → st ≡ tx.status)
    → count (is_stale t st) (commission_rows tx existing n agents) ≡ 0
unfolding commission_rows
rows_not_stale t st tx existing n [] same = refl
rows_not_stale t st tx existing n (g ∷ gs) same = ground (
  arith,
  rows_not_stale t st tx existing n gs same,
  rows_not_stale t st tx existing (n + 1) gs same,
  (status_eq_iff tx.status st).1,
)

module _ (db : Database) where
  open db use {transactions, properties, commissions}

  -- Every commission of the transaction has this status.
  abbrev pub IsSynced : ℕ → TransactionStatus → Store db → Type 0
  IsSynced t status s = commissions.count_where (is_stale t status) s.commissions ≡ 0

  -- `updateCommissionsStatus` gives every commission of the transaction the status,
  pub update_commissions_status-IsSynced :
      (t : ℕ) (status : StatusDto) (s : Store db)
      → IsSynced t (db_status status) (update_commissions_status db t status s)
  unfolding update_commissions_status
  update_commissions_status-IsSynced t status s =
      count_where-update_many commissions (is_stale t (db_status status))
        (λ c. c.transaction_id == t) (λ c. record c { status = db_status status }) s.commissions
      ∙ count_where-zero commissions _ s.commissions
          (λ c. ground (arith, (status_eq_iff (db_status status) (db_status status)).1 refl))

  -- and leaves those of every other transaction alone.
  pub update_commissions_status_other :
      (t u : ℕ) (status : StatusDto) (st : TransactionStatus) (s : Store db)
      → t ≢ u
      → IsSynced t st s
      → IsSynced t st (update_commissions_status db u status s)
  unfolding update_commissions_status
  update_commissions_status_other t u status st s ne h =
      count_where-update_many commissions (is_stale t st) (λ c. c.transaction_id == u)
        (λ c. record c { status = db_status status }) s.commissions
      ∙ count_where-congr commissions _ (is_stale t st) s.commissions (λ c. ground arith)
      ∙ h

  commissions_for-IsSynced :
      (tx : Transaction) (n t : ℕ) (st : TransactionStatus) (s : Store db)
      → (t ≡ tx.id → st ≡ tx.status)
      → IsSynced t st s
      → IsSynced t st (commissions_for db tx n s)
  unfolding commissions_for
  commissions_for-IsSynced tx n t st s same h =
      let agents = agents_of (properties.find_unique tx.property_id s.properties) in
      let existing = existing_agent_ids db tx.id agents s in
      count-insert_rows db (is_stale t st) (commission_rows tx existing n agents) s
      ∙ omega (arith, rows_not_stale t st tx existing n agents same)

  -- New commissions have the status of their transaction.
  pub create_commissions-IsSynced :
      (u n t : ℕ) (st : TransactionStatus) (s : Store db)
      → ((tx : Transaction)
          → transactions.find_unique u s.transactions ≡ some tx
          → t ≡ tx.id
          → st ≡ tx.status)
      → IsSynced t st s
      → IsSynced t st (create_commissions_for_transaction db u n s)
  create_commissions-IsSynced u n t st s same h =
      elim (Option-cases (transactions.find_unique u s.transactions)) [
        | inl missing ↦ rw (create_of_missing db u n s missing) h
        | inr (tx, found) ↦
            rw (create_of_found db u n s tx found)
              (commissions_for-IsSynced tx n t st s (same tx found) h)
      ]

  -- An administrator may read any commission and everybody else only their own; the refusal comes
  -- after the look-up, and the table is not changed.
  pub find_one_access :
      (id : ℕ) (caller : Caller) (s : Store db) (c : Commission)
      → commissions.find_unique id s.commissions ≡ some c
      → find_one db id caller s ≡ (
        (if is_admin caller.role || (c.agent_id == caller.sub)
            then ok c
            else err (forbidden "You are not authorized to view this commission record")),
        s,
      )
  unfolding find_one
  find_one_access id caller s c found = ground arith

-- The list shows an agent only the agent's own commissions, whatever the query asks for.
pub find_all_where_agent :
    (q : CommissionQuery) (caller : Caller) (c : Commission)
    → caller.role ≡ Role.agent
    → find_all_where q caller c ≡ true
    → c.agent_id ≡ caller.sub
unfolding find_all_where
find_all_where_agent q caller c e h = ground arith

-- A caller who is neither an agent nor an administrator is shown every commission by the list
-- with an empty query, and is refused each commission of another agent when it is read alone.
pub find_all_where-user :
    (db : Database) (id : ℕ) (caller : Caller) (s : Store db) (c : Commission)
    → caller.role ≡ Role.user
    → c.agent_id ≢ caller.sub
    → db.commissions.find_unique id s.commissions ≡ some c
    → (find_all_where
          (record { agent_id = none; property_id = none; transaction_id = none; status = none })
          caller
          c
        ≡ true)
      × (find_one db id caller s
          ≡ (err (forbidden "You are not authorized to view this commission record"), s))
unfolding find_all_where find_one
find_all_where-user db id caller s c e ne found = ground arith
