-- ===== src/Transactions/Rows.antt =====
-- The rows of prisma/schema.prisma that the transaction services read and write, and the store.
use prop_chain_back_end.Base.{ℕ, Bool, String, Option, List}
use prop_chain_back_end.Table.{Table}

-- `TransactionStatus` of types/prisma.types.ts
pub data TransactionStatus : Type 0 where
  pending completed cancelled : TransactionStatus

-- `TransactionStatusDto` of common/common.types.ts
pub data StatusDto : Type 0 where
  pending completed cancelled failed : StatusDto

pub data RefundStatus : Type 0 where
  none pending processed failed : RefundStatus

-- `escrowStatus` is a free text in the database: the values that the code tells apart are no
-- text (null), the empty text, 'RELEASED' and any other.
pub data EscrowStatus : Type 0 where
  unset empty released : EscrowStatus
  other : String → EscrowStatus

pub record Transaction : Type 0 where
  pub id : ℕ
  pub property_id : ℕ
  pub buyer_id : ℕ
  pub seller_id : ℕ
  pub amount : ℕ
  pub status : TransactionStatus
  pub notes : Option String
  pub blockchain_hash : Option String
  pub contract_address : Option String
  pub escrow_status : EscrowStatus
  pub escrow_amount : Option ℕ
  pub escrow_released_at : Option ℕ
  pub payment_status : Option String
  pub cancellation_reason : Option String
  pub cancelled_by_id : Option ℕ
  pub cancelled_at : Option ℕ
  pub refund_amount : Option ℕ
  pub refund_status : RefundStatus

-- A row of `property_agents`: an agent of a property with the rate of the commission.
pub record PropertyAgent : Type 0 where
  pub agent_id : ℕ
  pub commission_rate : ℕ

pub record Property : Type 0 where
  pub id : ℕ
  pub agents : List PropertyAgent

pub record User : Type 0 where
  pub id : ℕ
  pub phone : Option String
  pub is_admin : Bool

pub record Commission : Type 0 where
  pub id : ℕ
  pub transaction_id : ℕ
  pub agent_id : ℕ
  pub property_id : ℕ
  pub amount : ℕ
  pub rate : ℕ
  pub status : TransactionStatus

pub record TransactionHistory : Type 0 where
  pub id : ℕ
  pub transaction_id : ℕ
  pub status : TransactionStatus
  pub actor_id : Option ℕ
  pub previous_status : TransactionStatus
  pub new_status : TransactionStatus

pub data MilestoneStatus : Type 0 where
  pending completed delayed : MilestoneStatus

pub record Milestone : Type 0 where
  pub id : ℕ
  pub transaction_id : ℕ
  pub stage : TransactionStatus
  pub expected_date : ℕ
  pub actual_date : Option ℕ
  pub status : MilestoneStatus

pub data DisputeStatus : Type 0 where
  opened under_review resolved cancelled : DisputeStatus

pub record Dispute : Type 0 where
  pub id : ℕ
  pub transaction_id : ℕ
  pub initiator_id : ℕ
  pub arbitrator_id : Option ℕ
  pub status : DisputeStatus
  pub reason : String
  pub description : Option String
  pub resolution_details : Option String
  pub resolved_at : Option ℕ

pub record Document : Type 0 where
  pub id : ℕ
  pub user_id : ℕ
  pub dispute_id : Option ℕ

-- What a call of `NotificationsService.sendNotification` is about, and whom it addresses.
pub data Topic : Type 0 where
  transaction_update transaction_cancelled refund_processed dispute_filed : Topic

-- The tables, and what they hold together with the notifications sent so far, newest first.
pub record Database : Type 1 where
  pub transactions : Table Transaction (λ r. r.id)
  pub properties : Table Property (λ r. r.id)
  pub users : Table User (λ r. r.id)
  pub commissions : Table Commission (λ r. r.id)
  pub history : Table TransactionHistory (λ r. r.id)
  pub milestones : Table Milestone (λ r. r.id)
  pub disputes : Table Dispute (λ r. r.id)
  pub documents : Table Document (λ r. r.id)

pub record Store (db : Database) : Type 0 where
  pub transactions : db.transactions.Rows
  pub properties : db.properties.Rows
  pub users : db.users.Rows
  pub commissions : db.commissions.Rows
  pub history : db.history.Rows
  pub milestones : db.milestones.Rows
  pub disputes : db.disputes.Rows
  pub documents : db.documents.Rows
  pub sent : List (ℕ × Topic)
