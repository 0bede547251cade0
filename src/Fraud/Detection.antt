-- ===== src/Fraud/Detection.antt =====
-- src/fraud/fraud.service.ts: the detections that a login and a refresh run, each of which raises at most
-- one alert of its pattern. A test on a past time, `time >= now - window`, is read as
-- `now <= time + window`. The login gives `recordLoginContext` no token, no location and no fingerprint.
pub mod Hooks
pub mod Reuse
use prop_chain_back_end.Base.{
  ℕ, ◌+◌, ◌*◌, Bool, true, false, not, ◌&&◌, ◌||◌, List, [], ◌∷◌, map, Option, none, some, String,
  if◌then◌else◌, truthy, ◌==◌, ltb, leb, str_eq, length, filter, take, sort_desc, distinct_count,
}
use prop_chain_back_end.Auth.Rows.{User, LoginHistory, Database, Store}
use prop_chain_back_end.Auth.LoginRateLimit.{LoginAttempt}
use prop_chain_back_end.Auth.Interfaces.{FraudHooks}
use prop_chain_back_end.Fraud.{
  AlertPayload, user_payload, first_of, matches, create_or_update_alert,
}
use prop_chain_back_end.Fraud.Rows.{FraudPattern, FraudSeverity}
use prop_chain_back_end.Sessions.{Session}

-- the ids of the alerts that a login may raise
pub record AlertIds : Type 0 where
  pub failed_login : ℕ
  pub multiple_ips : ℕ
  pub new_device : ℕ
  pub shared_ip : ℕ
  pub token_reuse : ℕ
  pub velocity : ℕ

abbrev pub minutes : ℕ → ℕ
minutes n = n * 60 * 1000

abbrev pub texts : List (Option String) → List String
texts [] = []
texts (none ∷ xs) = texts xs
texts (some x ∷ xs) = if str_eq x "" then texts xs else x ∷ texts xs

-- the filter of a query on a text, where one that is missing or empty filters nothing
abbrev pub opt_text_eq : Option String → Option String → Bool
opt_text_eq none b = true
opt_text_eq (some a) none = str_eq a ""
opt_text_eq (some a) (some b) = str_eq a "" || str_eq a b

abbrev pub same_text : String → Option String → Bool
same_text a none = false
same_text a (some b) = str_eq a b

-- `if (count < from) …; count >= severe ? … : …`
abbrev pub graded : ℕ → ℕ → FraudSeverity → FraudSeverity → FraudSeverity
graded severe count below above = if leb severe count then above else below

abbrev pub graded_score : ℕ → ℕ → ℕ → ℕ → ℕ
graded_score severe count below above = if leb severe count then above else below

abbrev pub failed_login_payload : ℕ → ℕ → AlertPayload
failed_login_payload user_id failed =
    user_payload user_id FraudPattern.excessive_failed_logins
      (graded 10 failed FraudSeverity.medium FraudSeverity.high) (graded_score 10 failed 58 82)
      false

abbrev pub multiple_ips_payload : ℕ → ℕ → AlertPayload
multiple_ips_payload user_id ips =
    user_payload user_id FraudPattern.multiple_ips_for_account
      (graded 6 ips FraudSeverity.medium FraudSeverity.high) (graded_score 6 ips 60 84) false

abbrev pub new_device_payload : ℕ → AlertPayload
new_device_payload user_id =
    user_payload user_id FraudPattern.new_device_login FraudSeverity.low 24 false

abbrev pub shared_ip_payload : ℕ → ℕ → AlertPayload
shared_ip_payload user_id accounts =
    user_payload user_id FraudPattern.shared_ip_multiple_accounts
      (graded 5 accounts FraudSeverity.high FraudSeverity.critical) (graded_score 5 accounts 78 95)
      (leb 5 accounts)

abbrev pub velocity_payload : ℕ → ℕ → AlertPayload
velocity_payload user_id logins =
    user_payload user_id FraudPattern.velocity_exceeded
      (graded 25 logins FraudSeverity.medium FraudSeverity.high) (graded_score 25 logins 62 80)
      false

abbrev pub token_reuse_payload : ℕ → Option ℕ → AlertPayload
token_reuse_payload user_id session_id =
    record (user_payload user_id FraudPattern.token_reuse FraudSeverity.critical 100 true) {
      session_id = session_id;
    }

module _ (db : Database) (has_recipients : Bool) (is_system : ℕ → Bool) (ids : AlertIds) where
  abbrev pub alert_if : Bool → ℕ → ℕ → AlertPayload → Store db → Store db
  alert_if detected now id payload s =
      if detected then create_or_update_alert db has_recipients is_system now id payload s else s

  abbrev pub recent_failures : ℕ → String → Store db → ℕ
  recent_failures now email s =
      db.attempts.count_where
        (λ a. str_eq a.email email && (not a.success && leb now (a.attempt_time + minutes 30)))
        s.attempts

  unfoldable pub evaluate_failed_login : ℕ → String → Store db → Store db
  evaluate_failed_login now email s =
      let failed = recent_failures now email s in
      elim (db.users.find_first (λ u. str_eq u.email email) s.users) [
        | none ↦ s
        | some user ↦
            alert_if (leb 5 failed) now ids.failed_login (failed_login_payload user.id failed) s
      ]

  abbrev pub day : ℕ
  day = minutes 1440

  -- the newest twenty logins of the user within a day
  abbrev pub recent_logins : ℕ → ℕ → Store db → List LoginHistory
  recent_logins now user_id s = take 20 (
      sort_desc (λ (h : LoginHistory). h.created_at)
        (db.login_history.find_many (λ h. (h.user_id == user_id) && leb now (h.created_at + day))
          s.login_history))

  abbrev pub matching_logins : ℕ → Option String → Option String → Store db → ℕ
  matching_logins user_id ip user_agent s =
      if truthy ip || truthy user_agent
      then db.login_history.count_where
          (λ h.
            (h.user_id == user_id)
            && (opt_text_eq ip h.ip_address && opt_text_eq user_agent h.user_agent))
          s.login_history
      else 0

  -- how many accounts logged in from the address within a day
  abbrev pub accounts_at : ℕ → Option String → Store db → ℕ
  accounts_at now none s = 0
  accounts_at now (some ip) s =
      if str_eq ip ""
      then 0
      else distinct_count (λ a b. a == b)
          (map (λ (h : LoginHistory). h.user_id)
            (db.login_history.find_many
              (λ h. same_text ip h.ip_address && leb now (h.created_at + day)) s.login_history))

  abbrev pub distinct_ips : ℕ → ℕ → Store db → ℕ
  distinct_ips now user_id s =
      distinct_count str_eq
        (texts (map (λ (h : LoginHistory). h.ip_address) (recent_logins now user_id s)))

  -- the queries come before the alerts
  unfoldable pub evaluate_successful_login :
      ℕ → ℕ → Option String → Option String → Store db → Store db
  evaluate_successful_login now user_id ip user_agent s =
      let ips = distinct_ips now user_id s in
      let is_new =
        ltb 1 (length (recent_logins now user_id s))
        && ((matching_logins user_id ip user_agent s == 1) && (truthy ip || truthy user_agent)) in
      let accounts = accounts_at now ip s in
      alert_if (truthy ip && leb 3 accounts) now ids.shared_ip (shared_ip_payload user_id accounts)
        (alert_if is_new now ids.new_device (new_device_payload user_id)
          (alert_if (leb 4 ips) now ids.multiple_ips (multiple_ips_payload user_id ips) s))

  -- the newest session that the token belongs to, as either of its tokens
  abbrev pub session_of : ℕ → Store db → Option ℕ
  session_of jti s =
      elim (sort_desc (λ (r : Session). r.created_at)
        (db.sessions.sessions.find_many
          (λ r. matches (some jti) r.refresh_jti || (r.access_jti == jti)) s.sessions.sessions)) [
            | [] ↦ none
            | session ∷ older ↦ some session.id
          ]

  unfoldable pub handle_token_reuse : ℕ → ℕ → ℕ → Store db → Store db
  handle_token_reuse now user_id jti s =
      create_or_update_alert db has_recipients is_system now ids.token_reuse
        (token_reuse_payload user_id (session_of jti s)) s

  unfoldable pub evaluate_velocity : ℕ → ℕ → Option String → Store db → Store db
  evaluate_velocity now user_id ip s =
      let logins =
        db.login_history.count_where
          (λ h.
            (h.user_id == user_id)
            && (leb now (h.created_at + minutes 5) && opt_text_eq ip h.ip_address))
          s.login_history in
      alert_if (leb 10 logins) now ids.velocity (velocity_payload user_id logins) s

  -- without a location, a fingerprint and a token the velocity is all that is evaluated
  unfoldable pub record_login_context : ℕ → ℕ → Option String → Store db → Store db
  record_login_context now user_id ip s = evaluate_velocity now user_id ip s

  -- the service as the login and the rotation of tokens use it
  abbrev pub hooks : FraudHooks db
  hooks = record {
    evaluate_failed_login = λ now email ip s. evaluate_failed_login now email s;
    evaluate_successful_login = evaluate_successful_login;
    record_login_context = record_login_context;
    handle_token_reuse = λ now user_id jti ip s. handle_token_reuse now user_id jti s;
  }
