-- ===== src/Transactions/Commissions/Laws.antt =====
-- src/commissions/commissions.service.ts: what `createCommissionsForTransaction` leaves in the table.
use prop_chain_back_end.Base.{
  ℕ, ◌+◌, ◌≡◌, refl, inl, inr, Bool, true, false, not, ◌&&◌, List, [], ◌∷◌, map, some, ◌==◌,
  includes, if◌then◌else◌, arith, count, filter, Bool-cases,
}
use prop_chain_back_end.Table.Laws.{count_where-create_many}
use prop_chain_back_end.Transactions.Rows.{Transaction, PropertyAgent, Commission, Database, Store}
use prop_chain_back_end.Transactions.Commissions.{
  commission_rows, agent_ids, agents_of, is_commission_of, existing_agent_ids, insert_rows,
  commissions_for, create_commissions_for_transaction,
}

-- The loop adds a row for an agent as often as the agent is listed, unless one is there already.
count-commission_rows :
    (tx : Transaction) (existing : List ℕ) (a n : ℕ) (agents : List PropertyAgent)
    → count (is_commission_of tx.id a) (commission_rows tx existing n agents)
      ≡ (if includes a existing then 0 else count (λ g. g.agent_id == a) agents)
unfolding commission_rows
count-commission_rows tx existing a n [] = ground arith
count-commission_rows tx existing a n (g ∷ gs) = ground (
  arith,
  count-commission_rows tx existing a n gs,
  count-commission_rows tx existing a (n + 1) gs,
)

-- An agent of the list has a commission exactly if the query for the existing ones finds it.
includes-existing :
    (t a : ℕ) (ids : List ℕ) (cs : List Commission)
    → includes a ids ≡ true
    → includes a (
        map
          (λ (c : Commission). c.agent_id)
          (filter (λ c. c.transaction_id == t && includes c.agent_id ids) cs))
      ≡ not (count (is_commission_of t a) cs == 0)
includes-existing t a ids [] h = refl
includes-existing t a ids (c ∷ cs) h = ground (arith, includes-existing t a ids cs h)

-- An agent that is not listed is counted nowhere in the list.
count_unlisted :
    (a : ℕ) (agents : List PropertyAgent)
    → includes a (agent_ids agents) ≡ false
    → count (λ g. g.agent_id == a) agents ≡ 0
count_unlisted a [] h = refl
count_unlisted a (g ∷ gs) h = ground (arith, count_unlisted a gs)

module _ (db : Database) where
  open db use {transactions, properties, commissions}

  -- The number of commissions of an agent for a transaction.
  abbrev pub commissions_of : ℕ → ℕ → Store db → ℕ
  commissions_of t a s = commissions.count_where (is_commission_of t a) s.commissions

  pub count-insert_rows :
      (p : Commission → Bool) (rs : List Commission) (s : Store db)
      → commissions.count_where p (insert_rows db rs s).commissions
        ≡ count p rs + commissions.count_where p s.commissions
  unfolding insert_rows
  count-insert_rows p [] s = omega arith
  count-insert_rows p (c ∷ cs) s = count_where-create_many commissions p (c ∷ cs) s.commissions

  pub includes-existing_agent_ids :
      (t a : ℕ) (agents : List PropertyAgent) (s : Store db)
      → includes a (agent_ids agents) ≡ true
      → includes a (existing_agent_ids db t agents s) ≡ not (commissions_of t a s == 0)
  unfolding existing_agent_ids
  includes-existing_agent_ids t a agents s h =
      rw
        (
          commissions.find_many_law
              (λ c. c.transaction_id == t && includes c.agent_id (agent_ids agents)) s.commissions,
          commissions.count_where_law (is_commission_of t a) s.commissions,
        )
        (includes-existing t a (agent_ids agents) (commissions.contents s.commissions) h)

  pub commissions_of-commissions_for :
      (tx : Transaction) (a n : ℕ) (agents : List PropertyAgent) (s : Store db)
      → commissions_of tx.id a
          (insert_rows db (commission_rows tx (existing_agent_ids db tx.id agents s) n agents) s)
        ≡ (if commissions_of tx.id a s == 0
            then count (λ g. g.agent_id == a) agents
            else commissions_of tx.id a s)
  commissions_of-commissions_for tx a n agents s =
      elim (Bool-cases (includes a (agent_ids agents))) [
        | inl listed ↦ ground (
          arith,
          count-insert_rows (is_commission_of tx.id a)
              (commission_rows tx (existing_agent_ids db tx.id agents s) n agents) s,
          count-commission_rows tx (existing_agent_ids db tx.id agents s) a n agents,
          includes-existing_agent_ids tx.id a agents s listed,
        )
        | inr absent ↦ ground (
          arith,
          count-insert_rows (is_commission_of tx.id a)
              (commission_rows tx (existing_agent_ids db tx.id agents s) n agents) s,
          count-commission_rows tx (existing_agent_ids db tx.id agents s) a n agents,
          count_unlisted a agents absent,
        )
      ]

  -- For a transaction that is found, createCommissionsForTransaction gives an agent without a
  -- commission as many as the agents of the property list it, and leaves the commissions of an
  -- agent that has one alone.
  pub commissions_of-create :
      (t a n : ℕ) (s : Store db) (tx : Transaction)
      → transactions.find_unique t s.transactions ≡ some tx
      → commissions_of tx.id a (create_commissions_for_transaction db t n s) ≡ (
          if commissions_of tx.id a s == 0
          then count
              (λ g. g.agent_id == a)
              (agents_of (properties.find_unique tx.property_id s.properties))
          else commissions_of tx.id a s)
  unfolding create_commissions_for_transaction commissions_for
  commissions_of-create t a n s tx found =
      rw (found, create_commissions_for_transaction)
        (commissions_of-commissions_for tx a n
          (agents_of (properties.find_unique tx.property_id s.properties)) s)
