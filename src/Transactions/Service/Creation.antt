-- ===== src/Transactions/Service/Creation.antt =====
-- src/transactions/transactions.service.ts: the two ways to create a transaction.
use prop_chain_back_end.Base.{ℕ, ◌≡◌, refl, none, some, ◌==◌, arith, ok, count}
use prop_chain_back_end.Table.Laws.{find_unique-create_self, count_where_mono}
use prop_chain_back_end.Transactions.Rows.{Transaction, Database, Store, Property, User}
use prop_chain_back_end.Transactions.Commissions.{
  create_commissions_for_transaction, is_commission_of, agents_of,
}
use prop_chain_back_end.Transactions.Commissions.Laws.{commissions_of, commissions_of-create}
use prop_chain_back_end.Transactions.Commissions.Idempotent.{create_of_missing}
use prop_chain_back_end.Transactions.Service.{
  Blockchain, CreateTransactionDto, create, create_transaction, new_transaction,
}

module _ (db : Database) (chain : Blockchain) where
  open db use {transactions, properties, users, commissions}

  -- An identifier that the database has not used: no transaction has it, no commission refers to it.
  pub record IsFresh (id : ℕ) (s : Store db) : Type 0 where
    pub no_row : transactions.find_unique id s.transactions ≡ none
    pub no_commission : commissions.count_where (λ c. c.transaction_id == id) s.commissions ≡ 0

  -- The property and both users exist.
  pub record HasParties (dto : CreateTransactionDto) (s : Store db) : Type 0 where
    pub property : Property
    pub buyer : User
    pub seller : User
    pub property_found : properties.find_unique dto.property_id s.properties ≡ some property
    pub buyer_found : users.find_unique dto.buyer_id s.users ≡ some buyer
    pub seller_found : users.find_unique dto.seller_id s.users ≡ some seller

  module _ (id next_id : ℕ) (dto : CreateTransactionDto) (s : Store db) (fresh : IsFresh id s)
      (parties : HasParties dto s) where
    -- With an unused identifier, and with the property and both users found, create returns the
    -- new row and adds no commission, whatever agents the property has.
    pub create_no_commissions :
        let (r, s') = create db chain id next_id dto s in
        (r ≡ ok (new_transaction id dto)) × (s'.commissions ≡ s.commissions)
    unfolding create
    create_no_commissions = ground (
      arith,
      fresh.no_row,
      parties.property_found,
      parties.buyer_found,
      parties.seller_found,
      create_of_missing db id next_id s fresh.no_row,
    )

    inserted : Transaction
    unfolding new_transaction
    inserted = record (new_transaction id dto) { notes = none }

    with_row : Store db
    unfolding inserted
    with_row = record s { transactions = transactions.create inserted s.transactions }

    create_transaction_run :
        create_transaction db chain id next_id dto s
        ≡ (ok inserted, create_commissions_for_transaction db id next_id with_row)
    unfolding create_transaction with_row
    create_transaction_run =
        ground (arith, parties.property_found, parties.buyer_found, parties.seller_found)

    inserted_found : transactions.find_unique id with_row.transactions ≡ some inserted
    unfolding with_row
    inserted_found = find_unique-create_self transactions inserted s.transactions

    none_before : (a : ℕ) → commissions_of db id a with_row ≡ 0
    unfolding with_row
    none_before a = omega (
      arith,
      fresh.no_commission,
      count_where_mono commissions (is_commission_of id a) (λ c. c.transaction_id == id)
          s.commissions (λ c h. ground arith),
    )

    agents_listed :
        agents_of (properties.find_unique inserted.property_id with_row.properties)
        ≡ parties.property.agents
    unfolding with_row
    agents_listed = rw parties.property_found

    -- `createTransaction` gives every agent of the property as many commissions as the list of
    -- agents names it: exactly one where each agent is listed once.
    pub create_transaction_commissions :
        (a : ℕ)
        → let (r, s') = create_transaction db chain id next_id dto s in
          (r ≡ ok (record (new_transaction id dto) { notes = none }))
          × (commissions_of db id a s' ≡ count (λ g. g.agent_id == a) parties.property.agents)
    unfolding inserted
    create_transaction_commissions a = rw create_transaction_run (
      refl,
      ground (
        arith,
        commissions_of-create db id a next_id with_row inserted inserted_found,
        none_before a,
        agents_listed,
      ),
    )
