-- ===== src/Fraud/Review.antt =====
-- src/fraud/fraud.service.ts: the review of an alert, the notes and the block of a user by an investigator.
-- The answers, which show the alert with its context, are left out.
use prop_chain_back_end.Base.{
  ℕ, ◌≡◌, refl, inl, inr, Option-cases, Bool, true, false, ◌||◌, [], ◌∷◌, Option, none, some,
  String, if◌then◌else◌, is_some, or_else, Action, ok, not_found, pure, gets, or_throw, modify,
  ◌>>=◌, ◌>>◌, arith,
}
use prop_chain_back_end.Table.Laws.{find_unique-update_self}
use prop_chain_back_end.Auth.Rows.{User, Database, Store}
use prop_chain_back_end.Auth.Tokens.{find_user}
use prop_chain_back_end.Fraud.{logs, blocked, marked, block_user_for_fraud}
use prop_chain_back_end.Fraud.Rows.{FraudStatus, FraudAlert, noted}

pub record ReviewFraudAlertDto : Type 0 where
  pub status : Option FraudStatus
  pub assigned_to_id : Option ℕ
  pub note : Option String
  pub block_user : Bool

abbrev pub is_closed : FraudStatus → Bool
is_closed FraudStatus.open_alert = false
is_closed FraudStatus.investigating = false
is_closed FraudStatus.resolved = true
is_closed FraudStatus.dismissed = true

-- `payload.status ?? (payload.note || payload.assignedToId ? INVESTIGATING : alert.status)`
abbrev pub next_status : ReviewFraudAlertDto → FraudAlert → FraudStatus
next_status dto alert = or_else dto.status (
    if is_some dto.note || is_some dto.assigned_to_id
    then FraudStatus.investigating
    else alert.status)

abbrev pub reviewed : ℕ → ℕ → ReviewFraudAlertDto → FraudStatus → FraudAlert → FraudAlert
reviewed now actor_id dto status alert = record alert {
  status = status;
  assigned_to_id = if is_some dto.assigned_to_id then dto.assigned_to_id else alert.assigned_to_id;
  resolved_at = if is_closed status then some now else none;
  resolved_by_id = if is_closed status then some actor_id else none;
}

module _ (db : Database) (sanitize_text : String → String) where
  abbrev pub find_alert : ℕ → Store db → Option FraudAlert
  find_alert id s = db.alerts.find_unique id s.alerts

  unfoldable pub add_investigation_note : ℕ → ℕ → String → Action (Store db) (Unit {0})
  add_investigation_note alert_id actor_id note = do
    found ← gets (find_alert alert_id)
    alert ← or_throw found (not_found "Fraud alert not found")
    modify (logs db (noted alert_id actor_id (sanitize_text note) ∷ []))

  abbrev pub add_note : ℕ → ℕ → Option String → Action (Store db) (Unit {0})
  add_note alert_id actor_id none = pure tt
  add_note alert_id actor_id (some note) = add_investigation_note alert_id actor_id note

  -- the block at the end of a review, for an alert on a user
  abbrev pub block_on_review : Bool → Option ℕ → ℕ → ℕ → Store db → Store db
  block_on_review block_user none alert_id actor_id s = s
  block_on_review block_user (some user_id) alert_id actor_id s =
      if block_user
      then block_user_for_fraud db user_id alert_id actor_id "Blocked during fraud review." s
      else s

  unfoldable pub review_alert : ℕ → ℕ → ReviewFraudAlertDto → ℕ → Action (Store db) (Unit {0})
  review_alert now alert_id dto actor_id = do
    found ← gets (find_alert alert_id)
    alert ← or_throw found (not_found "Fraud alert not found")
    modify (λ s. record s {
      alerts =
          db.alerts.update alert_id (reviewed now actor_id dto (next_status dto alert)) s.alerts;
    })
    add_note alert_id actor_id dto.note
    modify (block_on_review dto.block_user alert.user_id alert_id actor_id)

  unfoldable pub block_user_from_alert : ℕ → ℕ → Option String → Action (Store db) (Unit {0})
  block_user_from_alert alert_id actor_id reason = do
    found ← gets (find_alert alert_id)
    alert ← or_throw found (not_found "Fraud alert not found")
    user_id ← or_throw alert.user_id (not_found "Fraud alert is not linked to a user")
    modify (
        block_user_for_fraud db user_id alert_id actor_id (elim reason [
          | none ↦ "User blocked from fraud investigation workflow."
          | some text ↦ sanitize_text text
        ]))

  -- A review that blocks the user stores the alert with its new status and the assignee, closed by the
  -- investigator exactly where that status is resolved or dismissed, marked as blocked, and blocks the
  -- user of the alert.
  pub review_alert_blocks :
      (now alert_id actor_id user_id : ℕ) (dto : ReviewFraudAlertDto) (s : Store db)
      {alert : FraudAlert} {user : User}
      → find_alert alert_id s ≡ some alert
      → alert.user_id ≡ some user_id
      → dto.block_user ≡ true
      → find_user db user_id s ≡ some user
      → let (answer, s') = review_alert now alert_id dto actor_id s in
        let status = next_status dto alert in
        (answer ≡ ok tt)
        × (find_alert alert_id s' ≡ some (marked (reviewed now actor_id dto status alert)))
        × (find_user db user_id s' ≡ some (blocked user))
  unfolding review_alert add_investigation_note block_user_for_fraud
  review_alert_blocks now alert_id actor_id user_id dto s {alert} {user} found of_user blocks
        owner =
      let change = reviewed now actor_id dto (next_status dto alert) in
      let t = db.alerts.update alert_id change s.alerts in
      let stored = find_unique-update_self db.alerts alert_id change s.alerts (λ r. refl) found in
      let closed = find_unique-update_self db.alerts alert_id marked t (λ r. refl) stored in
      let stopped = find_unique-update_self db.users user_id blocked s.users (λ r. refl) owner in
      elim (Option-cases dto.note) [
        | inl silent ↦ (
          ground (arith, found, of_user, blocks, silent),
          ground (arith, found, of_user, blocks, silent, closed),
          ground (arith, found, of_user, blocks, silent, stopped),
        )
        | inr (note, e) ↦ (
          ground (arith, found, of_user, blocks, e, stored),
          ground (arith, found, of_user, blocks, e, stored, closed),
          ground (arith, found, of_user, blocks, e, stored, stopped),
        )
      ]
