-- ===== src/Fraud/Detection/Hooks.antt =====
-- src/fraud/fraud.service.ts: the service keeps the promises that the login and the rotation of tokens
-- rely on.
use prop_chain_back_end.Base.{
  ℕ, inl, inr, Option-cases, Bool, Option, String, truthy, leb, ltb, ◌==◌, ◌&&◌, ◌||◌, length,
  str_eq,
}
use prop_chain_back_end.Auth.Rows.{Database, Store}
use prop_chain_back_end.Auth.Interfaces.{KeepsTokens, KeepsFactors, KeepsAttempts}
use prop_chain_back_end.Fraud.{AlertPayload, create_or_update_alert}
use prop_chain_back_end.Fraud.Alerts.{
  Keeps, Keeps-refl, Keeps-trans, Keeps-if, create_or_update_alert-Keeps,
}
use prop_chain_back_end.Fraud.Detection.{
  AlertIds, failed_login_payload, multiple_ips_payload, new_device_payload, shared_ip_payload,
  token_reuse_payload, alert_if, recent_failures, evaluate_failed_login, recent_logins,
  matching_logins, accounts_at, distinct_ips, evaluate_successful_login, session_of,
  handle_token_reuse, evaluate_velocity, record_login_context, hooks,
}

module _ (db : Database) (has_recipients : Bool) (is_system : ℕ → Bool) (ids : AlertIds) where
  alert_if-Keeps :
      (detected : Bool) (now id : ℕ) (payload : AlertPayload) (s : Store db)
      → Keeps db s (alert_if db has_recipients is_system ids detected now id payload s)
  alert_if-Keeps detected now id payload s =
      Keeps-if db detected s (create_or_update_alert db has_recipients is_system now id payload s)
        (create_or_update_alert-Keeps db has_recipients is_system now id payload s)

  evaluate_failed_login-Keeps :
      (now : ℕ) (email : String) (s : Store db)
      → Keeps db s (evaluate_failed_login db has_recipients is_system ids now email s)
  unfolding evaluate_failed_login
  evaluate_failed_login-Keeps now email s =
      let failed = recent_failures db has_recipients is_system ids now email s in
      elim (Option-cases (db.users.find_first (λ u. str_eq u.email email) s.users)) [
        | inl missing ↦ rw (missing, evaluate_failed_login) (Keeps-refl db s)
        | inr (user, found) ↦
            rw (found, evaluate_failed_login)
              (alert_if-Keeps (leb 5 failed) now ids.failed_login
                (failed_login_payload user.id failed) s)
      ]

  evaluate_successful_login-Keeps :
      (now user_id : ℕ) (ip user_agent : Option String) (s : Store db)
      → Keeps db s
          (evaluate_successful_login db has_recipients is_system ids now user_id ip user_agent s)
  unfolding evaluate_successful_login
  evaluate_successful_login-Keeps now user_id ip user_agent s =
      let ips = distinct_ips db has_recipients is_system ids now user_id s in
      let is_new =
        ltb 1 (length (recent_logins db has_recipients is_system ids now user_id s))
        && ((matching_logins db has_recipients is_system ids user_id ip user_agent s == 1)
            && (truthy ip || truthy user_agent)) in
      let accounts = accounts_at db has_recipients is_system ids now ip s in
      let raise = alert_if db has_recipients is_system ids in
      let first = raise (leb 4 ips) now ids.multiple_ips (multiple_ips_payload user_id ips) s in
      let second = raise is_new now ids.new_device (new_device_payload user_id) first in
      Keeps-trans db s first
        (raise (truthy ip && leb 3 accounts) now ids.shared_ip (shared_ip_payload user_id accounts)
          second)
        (alert_if-Keeps (leb 4 ips) now ids.multiple_ips (multiple_ips_payload user_id ips) s)
        (Keeps-trans db first second
          (raise (truthy ip && leb 3 accounts) now ids.shared_ip
            (shared_ip_payload user_id accounts) second)
          (alert_if-Keeps is_new now ids.new_device (new_device_payload user_id) first)
          (alert_if-Keeps (truthy ip && leb 3 accounts) now ids.shared_ip
            (shared_ip_payload user_id accounts) second))

  record_login_context-Keeps :
      (now user_id : ℕ) (ip : Option String) (s : Store db)
      → Keeps db s (record_login_context db has_recipients is_system ids now user_id ip s)
  unfolding record_login_context evaluate_velocity
  record_login_context-Keeps now user_id ip s = alert_if-Keeps _ now ids.velocity _ s

  handle_token_reuse-Keeps :
      (now user_id jti : ℕ) (s : Store db)
      → Keeps db s (handle_token_reuse db has_recipients is_system ids now user_id jti s)
  unfolding handle_token_reuse
  handle_token_reuse-Keeps now user_id jti s =
      create_or_update_alert-Keeps db has_recipients is_system now ids.token_reuse
        (token_reuse_payload user_id (session_of db has_recipients is_system ids jti s)) s

  -- The fraud service keeps what the rotation of tokens relies on,
  pub hooks-KeepsTokens : KeepsTokens db (hooks db has_recipients is_system ids)
  hooks-KeepsTokens = record {
    handle_token_reuse_sessions =
        λ now sub jti ip s. (handle_token_reuse-Keeps now sub jti s).keeps_sessions;
  }

  -- what the lockout relies on,
  pub hooks-KeepsAttempts : KeepsAttempts db (hooks db has_recipients is_system ids)
  hooks-KeepsAttempts = record {
    evaluate_failed_login_attempts =
        λ now email ip s. (evaluate_failed_login-Keeps now email s).keeps_attempts;
  }

  -- and what the second factor relies on.
  pub hooks-KeepsFactors : KeepsFactors db (hooks db has_recipients is_system ids)
  hooks-KeepsFactors = record {
    evaluate_successful_login_factors = λ now user_id id ip user_agent s.
        (evaluate_successful_login-Keeps now user_id ip user_agent s).keeps_factors id;
    record_login_context_factors =
        λ now user_id id ip s. (record_login_context-Keeps now user_id ip s).keeps_factors id;
  }
