-- ===== src/Fraud/Alerts.antt =====
-- src/fraud/fraud.service.ts: what raising an alert writes, and what it leaves alone.
use prop_chain_back_end.Base.{
  ℕ, suc, ◌+◌, ◌%◌, max, ◌≡◌, refl, ◌∙◌, inl, inr, Option-cases, Bool, true, false, not, ◌&&◌, ◌||◌,
  Option, none, String, if◌then◌else◌, arith, ◌==◌,
}
use prop_chain_back_end.Table.Laws.{find_unique-update}
use prop_chain_back_end.Auth.Rows.{User, Database, Store}
use prop_chain_back_end.Auth.Interfaces.{factors_of}
use prop_chain_back_end.Fraud.{
  AlertPayload, is_increase, detected_again, new_alert, blocked, logs, find_open_alert,
  block_user_for_fraud, deliver_notifications, owner_of, block_if, is_of_system, update_alert,
  create_alert, create_or_update_alert, creation_entry, severity_rank,
}
use prop_chain_back_end.Fraud.Rows.{FraudAlert}

module _ (db : Database) where
  -- What no call of the service touches: the sessions and tokens, the login attempts, and the second
  -- factors.
  pub record Keeps (s s' : Store db) : Type 0 where
    pub keeps_sessions : s'.sessions ≡ s.sessions
    pub keeps_attempts : s'.attempts ≡ s.attempts
    pub keeps_factors : (id : ℕ) → factors_of db id s' ≡ factors_of db id s

  pub Keeps-refl : (s : Store db) → Keeps s s
  Keeps-refl s = record { keeps_sessions = refl; keeps_attempts = refl; keeps_factors = λ id. refl }

  pub Keeps-trans : (s t u : Store db) → Keeps s t → Keeps t u → Keeps s u
  Keeps-trans s t u first rest = record {
    keeps_sessions = rest.keeps_sessions ∙ first.keeps_sessions;
    keeps_attempts = rest.keeps_attempts ∙ first.keeps_attempts;
    keeps_factors = λ id. rest.keeps_factors id ∙ first.keeps_factors id;
  }

  pub Keeps-if : (b : Bool) (s t : Store db) → Keeps s t → Keeps s (if b then t else s)
  Keeps-if true s t kept = kept
  Keeps-if false s t kept = Keeps-refl s

  factors_of-blocked :
      (user_id id : ℕ) (s : Store db)
      → factors_of db id (record s { users = db.users.update user_id blocked s.users })
        ≡ factors_of db id s
  factors_of-blocked user_id id s = elim (Option-cases (db.users.find_unique id s.users)) [
    | inl missing ↦
        ground (arith, missing, find_unique-update db.users id user_id blocked s.users (λ r. refl))
    | inr (user, found) ↦
        ground (arith, found, find_unique-update db.users id user_id blocked s.users (λ r. refl))
  ]

  pub block_user_for_fraud-Keeps :
      (user_id alert_id actor_id : ℕ) (reason : String) (s : Store db)
      → Keeps s (block_user_for_fraud db user_id alert_id actor_id reason s)
  unfolding block_user_for_fraud
  block_user_for_fraud-Keeps user_id alert_id actor_id reason s = record {
    keeps_sessions = refl;
    keeps_attempts = refl;
    keeps_factors = λ id. factors_of-blocked user_id id s;
  }

  deliver_notifications-Keeps :
      (has_recipients : Bool) (payload : AlertPayload) (alert_id : ℕ) (user : Option User)
      (s : Store db)
      → Keeps s (deliver_notifications db has_recipients payload alert_id user s)
  unfolding deliver_notifications
  deliver_notifications-Keeps has_recipients payload alert_id user s = record {
    keeps_sessions = refl;
    keeps_attempts = refl;
    keeps_factors = λ id. refl;
  }

module _ (db : Database) (has_recipients : Bool) (is_system : ℕ → Bool) where
  block_if-Keeps :
      (allowed : Bool) (payload : AlertPayload) (alert_id : ℕ) (reason : String) (s : Store db)
      → Keeps db s (block_if db has_recipients is_system allowed payload alert_id reason s)
  block_if-Keeps allowed payload alert_id reason s = elim (Option-cases payload.user_id) [
    | inl nobody ↦ rw nobody (Keeps-refl db s)
    | inr (id, e) ↦ rw e (
        Keeps-if db (payload.auto_block_user && allowed) s
          (block_user_for_fraud db id alert_id id reason s)
          (block_user_for_fraud-Keeps db id alert_id id reason s))
  ]

  update_alert-Keeps :
      (now : ℕ) (payload : AlertPayload) (alert : FraudAlert) (s : Store db)
      → Keeps db s (update_alert db has_recipients is_system now payload alert s)
  unfolding update_alert
  update_alert-Keeps now payload alert s =
      let updated = record s {
        alerts = db.alerts.update alert.id (detected_again now payload) s.alerts;
      } in
      let sent = deliver_notifications db has_recipients payload alert.id none updated in
      let tells = is_increase payload alert || ((alert.occurrence_count + 1) % 5 == 0) in
      let told = if tells then sent else updated in
      Keeps-trans db s updated
        (block_if db has_recipients is_system
          (not alert.auto_blocked && not (is_of_system db has_recipients is_system alert)) payload
          alert.id "Automatically blocked after repeated fraud detections." told)
        (record { keeps_sessions = refl; keeps_attempts = refl; keeps_factors = λ id. refl })
        (Keeps-trans db updated told
          (block_if db has_recipients is_system
            (not alert.auto_blocked && not (is_of_system db has_recipients is_system alert)) payload
            alert.id "Automatically blocked after repeated fraud detections." told)
          (Keeps-if db tells updated sent
            (deliver_notifications-Keeps db has_recipients payload alert.id none updated))
          (block_if-Keeps
            (not alert.auto_blocked && not (is_of_system db has_recipients is_system alert)) payload
            alert.id "Automatically blocked after repeated fraud detections." told))

  create_alert-Keeps :
      (now id : ℕ) (payload : AlertPayload) (s : Store db)
      → Keeps db s (create_alert db has_recipients is_system now id payload s)
  unfolding create_alert deliver_notifications
  create_alert-Keeps now id payload s =
      let created = record s { alerts = db.alerts.create (new_alert now id payload) s.alerts } in
      let logged = logs db (creation_entry db has_recipients is_system payload.user_id) created in
      let told =
        deliver_notifications db has_recipients payload id
          (owner_of db has_recipients is_system payload s) logged in
      Keeps-trans db s told
        (block_if db has_recipients is_system true payload id
          "Automatically blocked by the fraud detection engine." told)
        (record { keeps_sessions = refl; keeps_attempts = refl; keeps_factors = λ id. refl })
        (block_if-Keeps true payload id "Automatically blocked by the fraud detection engine." told)

  -- Raising an alert leaves the sessions, the tokens, the login attempts and every user's second factor
  -- alone.
  pub create_or_update_alert-Keeps :
      (now id : ℕ) (payload : AlertPayload) (s : Store db)
      → Keeps db s (create_or_update_alert db has_recipients is_system now id payload s)
  unfolding create_or_update_alert
  create_or_update_alert-Keeps now id payload s =
      elim (Option-cases (find_open_alert db payload s)) [
        | inl none_open ↦
            rw (none_open, create_or_update_alert) (create_alert-Keeps now id payload s)
        | inr (alert, found) ↦
            rw (found, create_or_update_alert) (update_alert-Keeps now payload alert s)
      ]

  -- A further detection changes the open alert it belongs to so that its severity is the greater of the
  -- two, and its score too, it is counted once more, and an automatic block is never taken back.
  pub update_alert_raises :
      (now : ℕ) (payload : AlertPayload) (alert : FraudAlert)
      → let alert' = detected_again now payload alert in
        (severity_rank alert'.severity
          ≡ max (severity_rank alert.severity) (severity_rank payload.severity))
        × (alert'.score ≡ max alert.score payload.score)
        × (alert'.occurrence_count ≡ suc alert.occurrence_count)
        × (alert'.auto_blocked ≡ (alert.auto_blocked || payload.auto_block_user))
  update_alert_raises now payload alert = (ground arith, refl, omega arith, refl)
