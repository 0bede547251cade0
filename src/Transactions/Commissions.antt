-- ===== src/Transactions/Commissions.antt =====
-- src/commissions/commissions.service.ts: the commissions of a transaction.
-- Swallowed database errors (the `try`/`catch` round the queries) and log lines are left out.
pub mod Laws
pub mod Idempotent
pub mod Sync
use prop_chain_back_end.Base.{
  ℕ, ◌+◌, ◌*◌, suc, Bool, true, false, not, ◌&&◌, ◌||◌, List, [], ◌∷◌, map, Option, none, some,
  ◌==◌, includes, if◌then◌else◌, or_else, HttpException, not_found, forbidden, Action, pure, throw,
  gets, or_throw, throw_if, ◌>>=◌, ◌>>◌,
}
use prop_chain_back_end.Table.{Table}
use prop_chain_back_end.Transactions.Rows.{
  TransactionStatus, StatusDto, Transaction, PropertyAgent, Property, Commission, Database, Store,
}
use prop_chain_back_end.Transactions.Status.{status_eq}

-- The roles that a caller can have, and the authenticated caller.
pub data Role : Type 0 where
  user agent admin : Role

pub record Caller : Type 0 where
  pub sub : ℕ
  pub role : Role

abbrev pub is_admin : Role → Bool
is_admin Role.admin = true
is_admin _ = false

-- The `for` loop over the agents: a row for each agent that has none, numbered from `next_id`.
pub commission_rows : Transaction → List ℕ → ℕ → List PropertyAgent → List Commission
commission_rows tx existing next_id [] = []
commission_rows tx existing next_id (a ∷ rest) =
    if includes a.agent_id existing
    then commission_rows tx existing next_id rest
    else record {
      id = next_id;
      transaction_id = tx.id;
      agent_id = a.agent_id;
      property_id = tx.property_id;
      amount = tx.amount * a.commission_rate;
      rate = a.commission_rate;
      status = tx.status;
    }
      ∷ commission_rows tx existing (next_id + 1) rest

-- The status that `updateCommissionsStatus` writes for the status of a transaction.
abbrev pub db_status : StatusDto → TransactionStatus
db_status StatusDto.completed = TransactionStatus.completed
db_status StatusDto.cancelled = TransactionStatus.cancelled
db_status _ = TransactionStatus.pending

abbrev pub agent_ids : List PropertyAgent → List ℕ
agent_ids = map λ a. a.agent_id

-- The commission of one agent for one transaction.
abbrev pub is_commission_of : ℕ → ℕ → Commission → Bool
is_commission_of transaction_id agent_id c =
    c.transaction_id == transaction_id && c.agent_id == agent_id

abbrev pub agents_of : Option Property → List PropertyAgent
agents_of none = []
agents_of (some p) = p.agents

module _ (db : Database) where
  open db use {transactions, properties, commissions}

  -- The existing commissions of the transaction's agents, by agent.
  pub existing_agent_ids : ℕ → List PropertyAgent → Store db → List ℕ
  existing_agent_ids transaction_id agents s =
      map (λ (c : Commission). c.agent_id)
        (commissions.find_many
          (λ c. c.transaction_id == transaction_id && includes c.agent_id (agent_ids agents))
          s.commissions)

  pub insert_rows : List Commission → Store db → Store db
  insert_rows [] s = s
  insert_rows (c ∷ cs) s = record s { commissions = commissions.create_many (c ∷ cs) s.commissions }

  pub commissions_for : Transaction → ℕ → Store db → Store db
  unfolding existing_agent_ids insert_rows
  commissions_for tx next_id s =
      let agents = agents_of (properties.find_unique tx.property_id s.properties) in
      insert_rows (commission_rows tx (existing_agent_ids tx.id agents s) next_id agents) s

  -- With no transaction or no agent nothing is written.
  unfoldable pub create_commissions_for_transaction : ℕ → ℕ → Store db → Store db
  unfolding commissions_for
  create_commissions_for_transaction transaction_id next_id s =
      elim (transactions.find_unique transaction_id s.transactions) [
        | none ↦ s
        | some tx ↦ commissions_for tx next_id s
      ]

  unfoldable pub update_commissions_status : ℕ → StatusDto → Store db → Store db
  update_commissions_status transaction_id status s = record s {
    commissions =
        commissions.update_many (λ c. c.transaction_id == transaction_id)
          (λ c. record c { status = db_status status }) s.commissions;
  }

  -- `findOne`
  pub find_one : ℕ → Caller → Action (Store db) Commission
  find_one id caller = do
    found ← gets (λ s. commissions.find_unique id s.commissions)
    c ← or_throw found (not_found "Commission record not found")
    throw_if (not (is_admin caller.role) && not (c.agent_id == caller.sub))
        (forbidden "You are not authorized to view this commission record")
    pure c

-- The filter that `findAll` builds from the query and the caller.
pub record CommissionQuery : Type 0 where
  pub agent_id : Option ℕ
  pub property_id : Option ℕ
  pub transaction_id : Option ℕ
  pub status : Option TransactionStatus

abbrev matches : Option ℕ → ℕ → Bool
matches none x = true
matches (some y) x = x == y

abbrev matches_status : Option TransactionStatus → TransactionStatus → Bool
matches_status none x = true
matches_status (some y) x = status_eq x y

abbrev agent_filter : Role → ℕ → Option ℕ → ℕ → Bool
agent_filter Role.agent sub query x = x == sub
agent_filter _ sub query x = matches query x

pub find_all_where : CommissionQuery → Caller → Commission → Bool
find_all_where q caller c =
    agent_filter caller.role caller.sub q.agent_id c.agent_id
    && matches q.property_id c.property_id
    && matches q.transaction_id c.transaction_id
    && matches_status q.status c.status
