-- ===== src/Transactions/Status.antt =====
-- src/transactions/transaction-status.constants.ts: the life cycle of a transaction's status.
use Prim.Native.String.{◌++◌}
use prop_chain_back_end.Base.{
  ◌≡◌, ◌↔◌, refl, Bool, true, false, ◌||◌, List, [], ◌∷◌, if◌then◌else◌, arith, String,
}
use prop_chain_back_end.Transactions.Rows.{TransactionStatus}

-- `===` on the values of the enumeration
abbrev pub status_eq : TransactionStatus → TransactionStatus → Bool
status_eq TransactionStatus.pending TransactionStatus.pending = true
status_eq TransactionStatus.completed TransactionStatus.completed = true
status_eq TransactionStatus.cancelled TransactionStatus.cancelled = true
status_eq _ _ = false

abbrev includes_status : TransactionStatus → List TransactionStatus → Bool
includes_status s [] = false
includes_status s (t ∷ ts) = status_eq t s || includes_status s ts

-- ALLOWED_TRANSACTION_STATUS_TRANSITIONS
unfoldable pub allowed_transitions : TransactionStatus → List TransactionStatus
allowed_transitions TransactionStatus.pending =
    TransactionStatus.completed ∷ TransactionStatus.cancelled ∷ []
allowed_transitions TransactionStatus.completed = []
allowed_transitions TransactionStatus.cancelled = []

unfoldable pub can_transition_transaction_status : TransactionStatus → TransactionStatus → Bool
unfolding allowed_transitions
can_transition_transaction_status current next =
    if status_eq current next then true else includes_status next (allowed_transitions current)

abbrev status_name : TransactionStatus → String
status_name TransactionStatus.pending = "PENDING"
status_name TransactionStatus.completed = "COMPLETED"
status_name TransactionStatus.cancelled = "CANCELLED"

-- The message of the exception that a refused transition raises.
pub transition_message : TransactionStatus → TransactionStatus → String
transition_message current next =
    "Invalid status transition from \""
    ++ status_name current
    ++ "\" to \""
    ++ status_name next
    ++ "\""

-- The life cycle as a relation: a pending transaction is completed or cancelled, once.
pub data Lifecycle : TransactionStatus → TransactionStatus → Type 0 where
  stay : {s : TransactionStatus} → Lifecycle s s
  complete : Lifecycle TransactionStatus.pending TransactionStatus.completed
  cancel : Lifecycle TransactionStatus.pending TransactionStatus.cancelled

pub status_eq_iff : (a b : TransactionStatus) → (status_eq a b ≡ true) ↔ (a ≡ b)
status_eq_iff a b = ground arith

pub Lifecycle-trans : {a b c : TransactionStatus} → Lifecycle a b → Lifecycle b c → Lifecycle a c
Lifecycle-trans stay k = k
Lifecycle-trans complete stay = complete
Lifecycle-trans cancel stay = cancel

pub Lifecycle_of_can :
    (a b : TransactionStatus) → can_transition_transaction_status a b ≡ true → Lifecycle a b
unfolding can_transition_transaction_status
Lifecycle_of_can TransactionStatus.pending TransactionStatus.pending h = stay
Lifecycle_of_can TransactionStatus.pending TransactionStatus.completed h = complete
Lifecycle_of_can TransactionStatus.pending TransactionStatus.cancelled h = cancel
Lifecycle_of_can TransactionStatus.completed TransactionStatus.completed h = stay
Lifecycle_of_can TransactionStatus.cancelled TransactionStatus.cancelled h = stay
Lifecycle_of_can TransactionStatus.completed TransactionStatus.pending h = cc
Lifecycle_of_can TransactionStatus.completed TransactionStatus.cancelled h = cc
Lifecycle_of_can TransactionStatus.cancelled TransactionStatus.pending h = cc
Lifecycle_of_can TransactionStatus.cancelled TransactionStatus.completed h = cc

pub can_of_Lifecycle :
    {a b : TransactionStatus} → Lifecycle a b → can_transition_transaction_status a b ≡ true
unfolding can_transition_transaction_status
can_of_Lifecycle (stay {s}) = ground arith
can_of_Lifecycle complete = refl
can_of_Lifecycle cancel = refl
