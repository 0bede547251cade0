-- ===== src/Transactions/Escrow.antt =====
-- `updateEscrow` of src/transactions/transactions.service.ts.
use prop_chain_back_end.Base.{
  ℕ, ◌≡◌, refl, Bool, true, false, ◌||◌, ◌∷◌, Option, none, some, String, str_eq, if◌then◌else◌,
  Action, ok, not_found, pure, gets, or_throw, modify, ◌>>=◌, ◌>>◌, arith,
}
use prop_chain_back_end.Table.Laws.{find_unique-update_self}
use prop_chain_back_end.Transactions.Rows.{
  Transaction, EscrowStatus, released, Database, Store, transaction_update,
}

-- `UpdateEscrowDto`: a field that is undefined leaves its column as it is.
pub record UpdateEscrowDto : Type 0 where
  pub escrow_status : Option EscrowStatus
  pub escrow_amount : Option ℕ
  pub payment_status : Option String

abbrev pub is_release : Option EscrowStatus → Bool
is_release (some released) = true
is_release _ = false

abbrev pub is_complete : Option String → Bool
is_complete none = false
is_complete (some p) = str_eq p "COMPLETE"

abbrev pub given {ℓ} : {A : Type ℓ} → Option A → A → A
given none old = old
given (some new) old = new

abbrev pub given_option {ℓ} : {A : Type ℓ} → Option A → Option A → Option A
given_option none old = old
given_option (some new) old = some new

-- The row that `data` makes of the old one.
abbrev pub escrow_row : ℕ → UpdateEscrowDto → Transaction → Transaction
escrow_row now dto t = record t {
  escrow_status = given dto.escrow_status t.escrow_status;
  escrow_amount = given_option dto.escrow_amount t.escrow_amount;
  payment_status = given_option dto.payment_status t.payment_status;
  escrow_released_at = if is_release dto.escrow_status then some now else t.escrow_released_at;
}

abbrev pub is_milestone : UpdateEscrowDto → Bool
is_milestone dto = is_release dto.escrow_status || is_complete dto.payment_status

module _ (db : Database) where
  open db use {transactions}

  unfoldable pub update_escrow : ℕ → ℕ → UpdateEscrowDto → Action (Store db) Transaction
  update_escrow now id dto = do
    found ← gets (λ s. transactions.find_unique id s.transactions)
    tx ← or_throw found (not_found "Transaction not found")
    modify (λ s. record s {
      transactions = transactions.update id (escrow_row now dto) s.transactions;
    })
    modify (λ s.
        if is_milestone dto
        then record s { sent = (tx.buyer_id, transaction_update) ∷ s.sent }
        else s)
    pure (escrow_row now dto tx)

  -- The row takes the given fields, the time of release is set exactly by a release, the status of
  -- the transaction is not touched, and the buyer is told of a release or of a complete payment.
  pub update_escrow_lem :
      (now id : ℕ) (dto : UpdateEscrowDto) (s : Store db) (tx : Transaction)
      → transactions.find_unique id s.transactions ≡ some tx
      → let (r, s') = update_escrow now id dto s in
        (r ≡ ok (escrow_row now dto tx))
        × ((escrow_row now dto tx).status ≡ tx.status)
        × (transactions.find_unique id s'.transactions ≡ some (escrow_row now dto tx))
        × (s'.sent
            ≡ (if is_milestone dto then (tx.buyer_id, transaction_update) ∷ s.sent else s.sent))
        × (s'.commissions ≡ s.commissions)
  unfolding update_escrow
  update_escrow_lem now id dto s tx found = ground (
    arith,
    find_unique-update_self transactions id (escrow_row now dto) s.transactions (λ r. refl) found,
  )
