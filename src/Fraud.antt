-- ===== src/Fraud.antt =====
-- src/fraud/fraud.service.ts: the alerts on logins and tokens, and their review. A mail or a text that
-- cannot be sent is logged only, so that sending never fails here.
pub mod Rows
pub mod Alerts
pub mod Single
pub mod Detection
pub mod Review
use prop_chain_back_end.Base.{
  ℕ, ◌+◌, ◌-◌, ◌%◌, max, Bool, true, false, not, ◌&&◌, ◌||◌, List, [], ◌∷◌, ◌++◌, map, Option, none,
  some, String, if◌then◌else◌, is_some, or_else, Action, not_found, pure, gets, or_throw, throw_if,
  modify, ◌>>=◌, ◌>>◌, ◌==◌, ltb, leb, str_eq, length, filter, any, take, sort_desc,
}
use prop_chain_back_end.Auth.Rows.{User, LoginHistory, Database, Store}
use prop_chain_back_end.Auth.LoginRateLimit.{LoginAttempt}
use prop_chain_back_end.Auth.Interfaces.{FraudHooks}
use prop_chain_back_end.Auth.Tokens.{find_user}
use prop_chain_back_end.Fraud.Rows.{
  FraudPattern, FraudSeverity, FraudStatus, FraudAlert, FraudEvent, team_mailed, user_mailed,
  user_texted, notified, alert_created, user_blocked, noted,
}
use prop_chain_back_end.Sessions.{Session}

pub record AlertPayload : Type 0 where
  pub user_id : Option ℕ
  pub property_id : Option ℕ
  pub transaction_id : Option ℕ
  pub session_id : Option ℕ
  pub pattern : FraudPattern
  pub severity : FraudSeverity
  pub score : ℕ
  pub auto_block_user : Bool

-- an alert on a user alone
abbrev pub user_payload : ℕ → FraudPattern → FraudSeverity → ℕ → Bool → AlertPayload
user_payload user_id pattern severity score auto_block = record {
  user_id = some user_id;
  property_id = none;
  transaction_id = none;
  session_id = none;
  pattern = pattern;
  severity = severity;
  score = score;
  auto_block_user = auto_block;
}

abbrev pub pattern_code : FraudPattern → ℕ
pattern_code FraudPattern.excessive_failed_logins = 0
pattern_code FraudPattern.multiple_ips_for_account = 1
pattern_code FraudPattern.new_device_login = 2
pattern_code FraudPattern.shared_ip_multiple_accounts = 3
pattern_code FraudPattern.token_reuse = 4
pattern_code FraudPattern.rapid_property_listings = 5
pattern_code FraudPattern.duplicate_property_address = 6
pattern_code FraudPattern.high_value_new_account_listing = 7
pattern_code FraudPattern.velocity_exceeded = 8
pattern_code FraudPattern.impossible_travel = 9
pattern_code FraudPattern.device_fingerprint_mismatch = 10
pattern_code FraudPattern.duplicate_property_images = 11

abbrev pub severity_rank : FraudSeverity → ℕ
severity_rank FraudSeverity.critical = 4
severity_rank FraudSeverity.high = 3
severity_rank FraudSeverity.medium = 2
severity_rank FraudSeverity.low = 1

abbrev pub is_open_status : FraudStatus → Bool
is_open_status FraudStatus.open_alert = true
is_open_status FraudStatus.investigating = true
is_open_status FraudStatus.resolved = false
is_open_status FraudStatus.dismissed = false

-- a field of a `where` that is undefined does not restrict the query
abbrev pub matches : Option ℕ → Option ℕ → Bool
matches none value = true
matches (some x) none = false
matches (some x) (some y) = x == y

-- the `where` of `findOpenAlert`
abbrev pub is_open_alert : AlertPayload → FraudAlert → Bool
is_open_alert payload alert =
    (pattern_code alert.pattern == pattern_code payload.pattern)
    && (matches payload.user_id alert.user_id
        && (matches payload.property_id alert.property_id
            && (matches payload.transaction_id alert.transaction_id
                && (matches payload.session_id alert.session_id && is_open_status alert.status))))

abbrev pub is_increase : AlertPayload → FraudAlert → Bool
is_increase payload alert = ltb (severity_rank alert.severity) (severity_rank payload.severity)

abbrev pub detected_again : ℕ → AlertPayload → FraudAlert → FraudAlert
detected_again now payload alert = record alert {
  severity = if is_increase payload alert then payload.severity else alert.severity;
  score = max alert.score payload.score;
  last_detected_at = now;
  occurrence_count = alert.occurrence_count + 1;
  auto_blocked = alert.auto_blocked || payload.auto_block_user;
}

abbrev pub new_alert : ℕ → ℕ → AlertPayload → FraudAlert
new_alert now id payload = record {
  id = id;
  user_id = payload.user_id;
  property_id = payload.property_id;
  transaction_id = payload.transaction_id;
  session_id = payload.session_id;
  pattern = payload.pattern;
  severity = payload.severity;
  status = FraudStatus.open_alert;
  score = payload.score;
  auto_blocked = payload.auto_block_user;
  last_detected_at = now;
  occurrence_count = 1;
  assigned_to_id = none;
  resolved_by_id = none;
  resolved_at = none;
}

abbrev pub blocked : User → User
blocked user = record user { is_blocked = true }

abbrev pub marked : FraudAlert → FraudAlert
marked alert = record alert { auto_blocked = true }

abbrev pub first_of : {A : Type 0} → List A → Option A
first_of [] = none
first_of (x ∷ xs) = some x

module _ (db : Database) where
  abbrev pub logs : List FraudEvent → Store db → Store db
  logs events s = record s { fraud_log = events ++ s.fraud_log }

  unfoldable pub find_open_alert : AlertPayload → Store db → Option FraudAlert
  find_open_alert payload s = first_of (
      sort_desc (λ (a : FraudAlert). a.last_detected_at)
        (db.alerts.find_many (is_open_alert payload) s.alerts))

  -- `blockUserForFraud`; the reason is the text of the note
  unfoldable pub block_user_for_fraud : ℕ → ℕ → ℕ → String → Store db → Store db
  block_user_for_fraud user_id alert_id actor_id reason s =
      logs (noted alert_id actor_id reason ∷ user_blocked user_id alert_id actor_id ∷ [])
        (record s {
          users = db.users.update user_id blocked s.users;
          alerts = db.alerts.update alert_id marked s.alerts;
        })

  abbrev pub is_severe : FraudSeverity → Bool
  is_severe severity = leb 3 (severity_rank severity)

  -- the mail and the text to a user, whom only a new alert comes with
  abbrev pub user_messages : AlertPayload → ℕ → Option User → List FraudEvent
  user_messages payload alert_id none = []
  user_messages payload alert_id (some user) =
      (if severity_rank payload.severity == 4
        then (elim user.phone [ none ↦ [] | some phone ↦ user_texted phone alert_id ∷ [] ])
        else [])
      ++ (if is_severe payload.severity then user_mailed user.email alert_id ∷ [] else [])

  -- `deliverMultiChannelNotifications`, the last message first
  unfoldable pub deliver_notifications : Bool → AlertPayload → ℕ → Option User → Store db → Store db
  deliver_notifications has_recipients payload alert_id user s =
      logs
        ((elim payload.user_id [ none ↦ [] | some id ↦ notified id alert_id ∷ [] ])
          ++ (user_messages payload alert_id user
              ++ (if has_recipients then team_mailed alert_id ∷ [] else [])))
        s

module _ (db : Database) (has_recipients : Bool) (is_system : ℕ → Bool) where
  abbrev pub owner_of : AlertPayload → Store db → Option User
  owner_of payload s = elim payload.user_id [ none ↦ none | some id ↦ find_user db id s ]

  -- the block at the end of `createOrUpdateAlert`
  abbrev pub block_if : Bool → AlertPayload → ℕ → String → Store db → Store db
  block_if allowed payload alert_id reason s = elim payload.user_id [
    | none ↦ s
    | some id ↦
        if payload.auto_block_user && allowed
        then block_user_for_fraud db id alert_id id reason s
        else s
  ]

  abbrev pub is_of_system : FraudAlert → Bool
  is_of_system alert = elim alert.user_id [ none ↦ false | some id ↦ is_system id ]

  unfoldable pub update_alert : ℕ → AlertPayload → FraudAlert → Store db → Store db
  update_alert now payload alert s =
      let updated = record s {
        alerts = db.alerts.update alert.id (detected_again now payload) s.alerts;
      } in
      let told =
        if is_increase payload alert || ((alert.occurrence_count + 1) % 5 == 0)
        then deliver_notifications db has_recipients payload alert.id none updated
        else updated in
      block_if (not alert.auto_blocked && not (is_of_system alert)) payload alert.id
        "Automatically blocked after repeated fraud detections." told

  -- the activity entry of a new alert
  abbrev pub creation_entry : Option ℕ → List FraudEvent
  creation_entry none = []
  creation_entry (some user_id) = alert_created user_id ∷ []

  unfoldable pub create_alert : ℕ → ℕ → AlertPayload → Store db → Store db
  create_alert now id payload s =
      let created = record s { alerts = db.alerts.create (new_alert now id payload) s.alerts } in
      let logged = logs db (creation_entry payload.user_id) created in
      block_if true payload id "Automatically blocked by the fraud detection engine."
        (deliver_notifications db has_recipients payload id (owner_of payload s) logged)

  unfoldable pub create_or_update_alert : ℕ → ℕ → AlertPayload → Store db → Store db
  create_or_update_alert now id payload s = elim (find_open_alert db payload s) [
    | some alert ↦ update_alert now payload alert s
    | none ↦ create_alert now id payload s
  ]
