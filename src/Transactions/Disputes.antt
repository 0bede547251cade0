-- ===== src/Transactions/Disputes.antt =====
-- src/transactions/disputes.service.ts
use prop_chain_back_end.Base.{
  ℕ, zero, suc, ◌≡◌, ◌≢◌, refl, Bool, true, false, not, ◌||◌, List, [], ◌∷◌, ◌++◌, map, Option,
  none, some, String, if◌then◌else◌, Action, ok, err, not_found, bad_request, forbidden, pure, gets,
  or_throw, throw_if, modify, ◌>>=◌, ◌>>◌, arith, ◌==◌,
}
use prop_chain_back_end.Table.Laws.{find_unique-update_self}
use prop_chain_back_end.Transactions.Rows.{
  Transaction, DisputeStatus, Dispute, Document, User, Database, Store, Topic, dispute_filed,
}

pub record CreateDisputeDto : Type 0 where
  pub transaction_id : ℕ
  pub reason : String
  pub description : Option String

pub record ResolveDisputeDto : Type 0 where
  pub status : DisputeStatus
  pub details : String

abbrev pub is_resolved : DisputeStatus → Bool
is_resolved DisputeStatus.resolved = true
is_resolved _ = false

abbrev pub new_dispute : ℕ → ℕ → CreateDisputeDto → Dispute
new_dispute id user_id dto = record {
  id = id;
  transaction_id = dto.transaction_id;
  initiator_id = user_id;
  arbitrator_id = none;
  status = DisputeStatus.opened;
  reason = dto.reason;
  description = dto.description;
  resolution_details = none;
  resolved_at = none;
}

abbrev pub is_party : ℕ → Transaction → Bool
is_party user_id t = (t.buyer_id == user_id) || (t.seller_id == user_id)

abbrev pub resolved_row : ℕ → ℕ → ResolveDisputeDto → Dispute → Dispute
resolved_row now admin dto d = record d {
  status = dto.status;
  arbitrator_id = some admin;
  resolution_details = some dto.details;
  resolved_at = some now;
}

abbrev pub moved_row : ℕ → DisputeStatus → Dispute → Dispute
moved_row admin status d = record d { status = status; arbitrator_id = some admin }

-- `take: 10`
abbrev take {ℓ} : {A : Type ℓ} → ℕ → List A → List A
take zero xs = []
take (suc n) [] = []
take (suc n) (x ∷ xs) = x ∷ take n xs

module _ (db : Database) where
  open db use {transactions, users, disputes, documents}

  -- the administrators that `create` notifies
  pub admins_to_notify : Store db → List (ℕ × Topic)
  admins_to_notify s =
      map (λ (u : User). (u.id, dispute_filed))
        (take 10 (users.find_many (λ u. u.is_admin) s.users))

  pub create : ℕ → ℕ → CreateDisputeDto → Action (Store db) Dispute
  unfolding admins_to_notify
  create id user_id dto = do
    found ← gets (λ s. transactions.find_unique dto.transaction_id s.transactions)
    tx ← or_throw found (not_found "Transaction not found")
    throw_if (not (is_party user_id tx))
        (forbidden "Only parties involved in the transaction can initiate a dispute")
    modify (λ s. record s { disputes = disputes.create (new_dispute id user_id dto) s.disputes })
    modify (λ s. record s { sent = admins_to_notify s ++ s.sent })
    pure (new_dispute id user_id dto)

  pub update_status : ℕ → ℕ → DisputeStatus → Action (Store db) Dispute
  update_status id admin status = do
    found ← gets (λ s. disputes.find_unique id s.disputes)
    d ← or_throw found (not_found "Dispute not found")
    modify (λ s. record s { disputes = disputes.update id (moved_row admin status) s.disputes })
    pure (moved_row admin status d)

  pub add_evidence : ℕ → ℕ → ℕ → Action (Store db) Document
  add_evidence dispute_id user_id document_id = do
    found ← gets (λ s. disputes.find_unique dispute_id s.disputes)
    or_throw found (not_found "Dispute not found")
    attached ← gets (λ s. documents.find_unique document_id s.documents)
    document ← or_throw attached (not_found "Document not found")
    throw_if (not (document.user_id == user_id))
        (forbidden "You can only attach your own documents as evidence")
    modify (λ s. record s {
      documents =
          documents.update document_id (λ r. record r { dispute_id = some dispute_id }) s.documents;
    })
    pure (record document { dispute_id = some dispute_id })

  pub resolve : ℕ → ℕ → ℕ → ResolveDisputeDto → Action (Store db) Dispute
  resolve now id admin dto = do
    found ← gets (λ s. disputes.find_unique id s.disputes)
    d ← or_throw found (not_found "Dispute not found")
    throw_if (is_resolved d.status) (bad_request "Dispute is already resolved")
    modify (λ s. record s { disputes = disputes.update id (resolved_row now admin dto) s.disputes })
    pure (resolved_row now admin dto d)

  -- A dispute is opened by the buyer or the seller, and by nobody else; a refusal writes nothing
  -- and notifies nobody.
  pub create_by_party :
      (id user_id : ℕ) (dto : CreateDisputeDto) (s : Store db) (tx : Transaction)
      → transactions.find_unique dto.transaction_id s.transactions ≡ some tx
      → create id user_id dto s ≡ (
          if is_party user_id tx
          then (
            ok (new_dispute id user_id dto),
            record s {
              disputes = disputes.create (new_dispute id user_id dto) s.disputes;
              sent = admins_to_notify s ++ s.sent;
            },
          )
          else (
            err (forbidden "Only parties involved in the transaction can initiate a dispute"),
            s,
          ))
  unfolding create
  create_by_party id user_id dto s tx found = ground arith

  -- Evidence is attached only by its owner: whatever the outcome, a document of somebody else keeps
  -- its place.
  pub add_evidence_owner :
      (dispute_id user_id document_id : ℕ) (s : Store db) (document : Document)
      → documents.find_unique document_id s.documents ≡ some document
      → document.user_id ≢ user_id
      → (add_evidence dispute_id user_id document_id s).1 ≡ s
  unfolding add_evidence
  add_evidence_owner dispute_id user_id document_id s document found ne = ground arith

  module _ (id : ℕ) (s : Store db) {d : Dispute}
      (found : disputes.find_unique id s.disputes ≡ some d) where
    -- A dispute that is not resolved and that a call resolves is not resolved again: the next call
    -- is refused and changes nothing.
    pub resolve_once :
        (now later admin other : ℕ) (dto again : ResolveDisputeDto)
        → d.status ≢ DisputeStatus.resolved
        → dto.status ≡ DisputeStatus.resolved
        → let (r, s') = resolve now id admin dto s in
          (r ≡ ok (resolved_row now admin dto d))
          × (disputes.find_unique id s'.disputes ≡ some (resolved_row now admin dto d))
          × (resolve later id other again s'
              ≡ (err (bad_request "Dispute is already resolved"), s'))
    unfolding resolve
    resolve_once now later admin other dto again open_one resolution = ground (
      arith,
      find_unique-update_self disputes id (resolved_row now admin dto) s.disputes (λ r. refl) found,
    )

    -- updateStatus opens a resolved dispute again, and a second resolution then replaces the
    -- first.
    pub update_status_reopens :
        (later admin : ℕ) (again : ResolveDisputeDto)
        → d.status ≡ DisputeStatus.resolved
        → let (r, s') = update_status id admin DisputeStatus.opened s in
          let (r', s'') = resolve later id admin again s' in
          (r ≡ ok (moved_row admin DisputeStatus.opened d))
          × (disputes.find_unique id s''.disputes
              ≡ some (resolved_row later admin again (moved_row admin DisputeStatus.opened d)))
    unfolding update_status resolve
    update_status_reopens later admin again was_resolved =
        let reopened =
          find_unique-update_self disputes id (moved_row admin DisputeStatus.opened) s.disputes
            (λ r. refl) found in
        let closed =
          find_unique-update_self disputes id (resolved_row later admin again)
            (disputes.update id (moved_row admin DisputeStatus.opened) s.disputes) (λ r. refl)
            reopened in
        ground arith
