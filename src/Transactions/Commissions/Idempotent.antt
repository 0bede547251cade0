-- ===== src/Transactions/Commissions/Idempotent.antt =====
-- src/commissions/commissions.service.ts: `createCommissionsForTransaction`, called twice.
use prop_chain_back_end.Base.{
  ℕ, ◌≡◌, ◌∙◌, ◌≤◌, refl, inl, inr, true, List, [], ◌∷◌, none, some, ◌==◌, includes, arith, count,
  Option-cases,
}
use prop_chain_back_end.Transactions.Rows.{Transaction, PropertyAgent, Commission, Database, Store}
use prop_chain_back_end.Transactions.Commissions.{
  commission_rows, agent_ids, agents_of, existing_agent_ids, insert_rows, commissions_for,
  create_commissions_for_transaction,
}
use prop_chain_back_end.Transactions.Commissions.Laws.{
  commissions_of-commissions_for, includes-existing_agent_ids,
}

no_rows :
    (tx : Transaction) (existing : List ℕ) (n : ℕ) (agents : List PropertyAgent)
    → ((a : ℕ) → includes a (agent_ids agents) ≡ true → includes a existing ≡ true)
    → commission_rows tx existing n agents ≡ []
unfolding commission_rows
no_rows tx existing n [] h = refl
no_rows tx existing n (g ∷ gs) h =
    ground (arith, h g.agent_id, no_rows tx existing n gs (λ a k. h a (ground arith)))

count_listed :
    (a : ℕ) (agents : List PropertyAgent)
    → includes a (agent_ids agents) ≡ true
    → 1 ≤ count (λ g. g.agent_id == a) agents
count_listed a [] h = cc
count_listed a (g ∷ gs) h = ground (arith, count_listed a gs)

module _ (db : Database) where
  open db use {transactions, properties, commissions}

  insert_rows_frame :
      (rs : List Commission) (s : Store db)
      → ((insert_rows db rs s).transactions ≡ s.transactions)
        × ((insert_rows db rs s).properties ≡ s.properties)
  unfolding insert_rows
  insert_rows_frame [] s = (refl, refl)
  insert_rows_frame (c ∷ cs) s = (refl, refl)

  commissions_for_again :
      (tx : Transaction) (n m : ℕ) (s : Store db)
      → commissions_for db tx m (commissions_for db tx n s) ≡ commissions_for db tx n s
  unfolding commissions_for insert_rows
  commissions_for_again tx n m s =
      let agents = agents_of (properties.find_unique tx.property_id s.properties) in
      let s' =
        insert_rows db (commission_rows tx (existing_agent_ids db tx.id agents s) n agents) s in
      let same : (s'.properties ≡ s.properties) =
        (insert_rows_frame (commission_rows tx (existing_agent_ids db tx.id agents s) n agents)
          s).1 in
      let nothing_new : commission_rows tx (existing_agent_ids db tx.id agents s') m agents ≡ [] =
        no_rows tx (existing_agent_ids db tx.id agents s') m agents λ a listed. ground (
          arith,
          includes-existing_agent_ids db tx.id a agents s' listed,
          commissions_of-commissions_for db tx a n agents s,
          count_listed a agents listed,
        ) in
      rw same (rw nothing_new)

  pub create_of_missing :
      (t n : ℕ) (s : Store db)
      → transactions.find_unique t s.transactions ≡ none
      → create_commissions_for_transaction db t n s ≡ s
  unfolding create_commissions_for_transaction
  create_of_missing t n s missing = rw (missing, create_commissions_for_transaction)

  pub create_of_found :
      (t n : ℕ) (s : Store db) (tx : Transaction)
      → transactions.find_unique t s.transactions ≡ some tx
      → create_commissions_for_transaction db t n s ≡ commissions_for db tx n s
  unfolding create_commissions_for_transaction
  create_of_found t n s tx found = rw (found, create_commissions_for_transaction)

  commissions_for_frame :
      (tx : Transaction) (n : ℕ) (s : Store db)
      → (commissions_for db tx n s).transactions ≡ s.transactions
  unfolding commissions_for
  commissions_for_frame tx n s = (insert_rows_frame _ s).0

  -- A second call of createCommissionsForTransaction for the same transaction changes nothing,
  -- whatever identifiers it is given.
  pub create_commissions_idem :
      (t n m : ℕ) (s : Store db)
      → create_commissions_for_transaction db t m (create_commissions_for_transaction db t n s)
        ≡ create_commissions_for_transaction db t n s
  create_commissions_idem t n m s =
      elim (Option-cases (transactions.find_unique t s.transactions)) [
        | inl missing ↦ rw (create_of_missing t n s missing) (create_of_missing t m s missing)
        | inr (tx, found) ↦ rw (create_of_found t n s tx found) (
            create_of_found t m _ tx (rw (commissions_for_frame tx n s) found)
            ∙ commissions_for_again tx n m s)
      ]

  pub create_commissions_frame :
      (t n : ℕ) (s : Store db)
      → (create_commissions_for_transaction db t n s).transactions ≡ s.transactions
  create_commissions_frame t n s = elim (Option-cases (transactions.find_unique t s.transactions)) [
    | inl missing ↦ rw (create_of_missing t n s missing)
    | inr (tx, found) ↦ rw (create_of_found t n s tx found) (commissions_for_frame tx n s)
  ]
