-- ===== src/Auth/Login.antt =====
-- src/auth/auth.service.ts: the login with a password. The answer of the CAPTCHA service is an argument;
-- mails that cannot be sent are logged only, so that sending never fails here.
mod Rows
pub mod Lockout
pub mod Preflight
pub mod SecondFactor
pub mod BackupCode
use prop_chain_back_end.Base.{
  ℕ, ◌+◌, Bool, true, false, not, ◌&&◌, ◌||◌, List, [], ◌∷◌, Option, none, some, String,
  if◌then◌else◌, is_some, truthy, or_else, Action, unauthorized, service_unavailable, pure, runs,
  throw, gets, or_throw, throw_if, modify, ◌>>=◌, ◌>>◌, ◌==◌, ltb, leb, str_eq, filter,
}
use prop_chain_back_end.Auth.Rows.{User, LoginHistory, Database, Store, locked_mail}
use prop_chain_back_end.Auth.Interfaces.{Crypto, Jwt, Config, FraudHooks}
use prop_chain_back_end.Auth.LoginRateLimit
use prop_chain_back_end.Auth.Tokens.{TokenIds, TokenPair, find_user, issue_token_pair}
use prop_chain_back_end.Auth.TwoFactor.{
  normalized, verify_totp_code, verify_backup_code, with_backup_codes, is_trusted_device,
  remember_device, update_user,
}
pub use Rows.*

abbrev pub accepts : RecaptchaVerifyResponse → Bool
accepts response =
    response.success && (elim response.score [ none ↦ true | some score ↦ leb 50 score ])

unfoldable pub verify_captcha : {S : Type 0} → Captcha → Action S Bool
verify_captcha captcha =
    if captcha.bypass
    then pure true
    else if captcha.has_secret
    then pure (elim captcha.response [ none ↦ false | some response ↦ accepts response ])
    else throw (service_unavailable "CAPTCHA verification is temporarily unavailable.")

-- a text that is there and not blank: `Boolean(text?.trim())`
abbrev pub has_text : Crypto → Option String → Bool
has_text crypto text = is_some (normalized crypto text)

module _ (db : Database) (crypto : Crypto) (config : Config) (fraud : FraudHooks db) where
  abbrev pub is_locked : ℕ → String → Store db → Bool
  is_locked now email s =
      LoginRateLimit.is_account_locked db.attempts config.login_attempts crypto.to_lower_case now
        email s.attempts

  abbrev pub failures : ℕ → String → Store db → ℕ
  failures now email s =
      LoginRateLimit.get_failed_attempts_count db.attempts config.login_attempts
        crypto.to_lower_case now email s.attempts

  -- `recordFailedAttempt`, whose answer is whether the account is to be locked
  unfoldable pub record_failed_attempt : ℕ → ℕ → String → Option String → Action (Store db) Bool
  record_failed_attempt now id email ip_address s =
      let (should_lock, attempts) =
        LoginRateLimit.record_failed_attempt db.attempts config.login_attempts crypto.to_lower_case
          now id email ip_address s.attempts in
      pure should_lock (record s { attempts = attempts })

  -- the CAPTCHA of `preflightChecks`, once there are failures enough
  abbrev pub check_captcha :
      ℕ → LoginIds → LoginDto → Captcha → Option String → Action (Store db) (Unit {0})
  check_captcha now ids dto captcha ip_address = do
    throw_if (not (truthy dto.captcha_token)) (unauthorized "CAPTCHA verification required")
    valid ← verify_captcha captcha
    elim valid [
      | true ↦ pure tt
      | false ↦
          record_failed_attempt now ids.attempt_id dto.email ip_address
          >> throw (unauthorized "Invalid CAPTCHA")
    ]

  unfoldable pub preflight_checks :
      ℕ → LoginIds → LoginDto → Captcha → Option String → Action (Store db) (Unit {0})
  preflight_checks now ids dto captcha ip_address = do
    locked ← gets (is_locked now dto.email)
    throw_if locked (unauthorized "Account temporarily locked")
    failed ← gets (failures now dto.email)
    if leb config.captcha_threshold failed
        then check_captcha now ids dto captcha ip_address
        else pure tt

  -- the wrong password of `verifyCredentials`
  abbrev pub refuse_password : ℕ → LoginIds → User → Option String → Action (Store db) (Unit {0})
  refuse_password now ids user ip_address = do
    should_lock ← record_failed_attempt now ids.attempt_id user.email ip_address
    modify (fraud.evaluate_failed_login now user.email ip_address)
    modify
        (λ s. if should_lock then record s { mails = locked_mail user.email 30 ∷ s.mails } else s)
    throw_if should_lock (unauthorized "Account locked due to too many failed login attempts")
    throw (unauthorized "Invalid credentials")

  unfoldable pub verify_credentials :
      ℕ → LoginIds → User → String → Option String → Action (Store db) (Unit {0})
  verify_credentials now ids user password ip_address = do
    throw_if user.is_blocked (unauthorized "Your account has been blocked")
    throw_if user.is_deactivated (unauthorized "Your account has been deactivated")
    throw_if (not user.is_verified) (unauthorized "Please verify your email before logging in.")
    elim (crypto.compare_password password (or_else user.password "")) [
      | true ↦ pure tt
      | false ↦ refuse_password now ids user ip_address
    ]

  -- the backup codes that are left once the one with a hash is used
  abbrev pub left_codes : String → User → List String
  left_codes hash user = filter (λ code. not (str_eq code hash)) user.two_factor_backup_codes

  abbrev pub valid_totp : ℕ → User → Option String → Bool
  valid_totp now user none = false
  valid_totp now user (some code) = elim user.two_factor_secret [
    | none ↦ false
    | some secret ↦ if str_eq secret "" then false else verify_totp_code crypto secret code now
  ]

  abbrev pub check_backup_code : User → Option String → Action (Store db) (Unit {0})
  check_backup_code user none = throw (unauthorized "Two-factor authentication code required")
  check_backup_code user (some code) = do
    hash ←
        or_throw (verify_backup_code crypto code user.two_factor_backup_codes)
          (unauthorized "Invalid backup code")
    modify (update_user db crypto user.id (with_backup_codes (left_codes hash user)))

  -- the challenge of a login whose device is not trusted
  unfoldable pub check_second_factor : ℕ → User → LoginDto → Action (Store db) (Unit {0})
  check_second_factor now user dto = do
    throw_if (not (has_text crypto dto.totp_code) && not (has_text crypto dto.backup_code))
        (unauthorized "Two-factor authentication code required")
    elim (has_text crypto dto.totp_code) [
      | true ↦
          throw_if (not (valid_totp now user dto.totp_code))
            (unauthorized "Invalid two-factor authentication code")
      | false ↦ check_backup_code user dto.backup_code
    ]

  -- whether the login's device is trusted; `isTrustedDevice` is asked where the second factor is on
  abbrev pub check_trusted_device : ℕ → User → LoginDto → Store db → Bool × Store db
  check_trusted_device now user dto s =
      if user.two_factor_enabled
      then is_trusted_device db crypto now user.id dto.trusted_device_token s
      else (false, s)

  -- the second factor of a login; the answer is whether the device is trusted
  unfoldable pub check_factor : ℕ → User → LoginDto → Action (Store db) Bool
  check_factor now user dto = do
    trusted ← runs (check_trusted_device now user dto)
    if user.two_factor_enabled && not trusted then check_second_factor now user dto else pure tt
    pure trusted

  abbrev pub login_entry : ℕ → LoginIds → User → Option String → Option String → LoginHistory
  login_entry now ids user ip_address user_agent = record {
    id = ids.history_id;
    user_id = user.id;
    ip_address = ip_address;
    user_agent = user_agent;
    created_at = now;
  }

  -- what follows the checks: the successful attempt and the login are recorded, and the fraud checks
  -- run; `recordLoginContext` is given no token, location or fingerprint
  unfoldable pub record_login :
      ℕ → LoginIds → User → String → Option String → Option String → Store db → Store db
  record_login now ids user email ip_address user_agent s =
      let attempted = record s {
        attempts =
            LoginRateLimit.record_successful_attempt db.attempts config.login_attempts
              crypto.to_lower_case now ids.attempt_id email ip_address s.attempts;
        login_history =
            db.login_history.create (login_entry now ids user ip_address user_agent)
              s.login_history;
      } in
      fraud.record_login_context now user.id ip_address
        (fraud.evaluate_successful_login now user.id ip_address user_agent attempted)

  -- `rememberDevice`, and the token and expiry that the answer shows
  abbrev pub remember :
      ℕ
      → LoginIds
      → User
      → LoginDto
      → Bool
      → Option String
      → Option String
      → Action (Store db) (Option (String × ℕ))
  remember now ids user dto trusted ip_address user_agent s =
      if dto.remember_device && (user.two_factor_enabled && not trusted)
      then pure (some (ids.device_token, now + config.trusted_device_ttl_ms)) (
          remember_device db crypto config.trusted_device_ttl_ms now ids.device_id user.id
            ids.device_token user_agent ip_address s)
      else pure none s

  abbrev pub find_by_email : String → Store db → Option User
  find_by_email email s = db.users.find_first (λ u. str_eq u.email email) s.users

  -- a login for an email that no user has
  abbrev pub refuse_unknown :
      {A : Type 0} → ℕ → LoginIds → LoginDto → Option String → Action (Store db) A
  refuse_unknown now ids dto ip_address = do
    should_lock ← record_failed_attempt now ids.attempt_id dto.email ip_address
    throw (unauthorized "Invalid credentials")

  -- the checks of a login, in their order; the answer is the user and whether the device is trusted
  unfoldable pub check_login :
      ℕ → LoginIds → LoginDto → Captcha → Option String → Action (Store db) (User × Bool)
  check_login now ids dto captcha ip_address = do
    preflight_checks now ids dto captcha ip_address
    found ← gets (find_by_email dto.email)
    user ← elim found [ some u ↦ pure u | none ↦ refuse_unknown now ids dto ip_address ]
    verify_credentials now ids user dto.password ip_address
    trusted ← check_factor now user dto
    pure (user, trusted)

module _ (db : Database) (crypto : Crypto) (jwt : Jwt) (config : Config)
    (fraud : FraudHooks db) where
  unfoldable pub login :
      ℕ
      → LoginIds
      → LoginDto
      → Captcha
      → Option String
      → Option String
      → Action (Store db) (LoginAnswer jwt.Token)
  login now ids dto captcha ip_address user_agent = do
    (user, trusted) ← check_login db crypto config fraud now ids dto captcha ip_address
    modify (record_login db crypto config fraud now ids user dto.email ip_address user_agent)
    again ← gets (find_user db user.id)
    refreshed ← or_throw again (unauthorized "User no longer exists")
    throw_if refreshed.is_blocked
        (unauthorized "Your account has been blocked after a fraud review")
    tokens ← issue_token_pair db jwt config now refreshed none ids.tokens ip_address user_agent
    device ← remember db crypto config fraud now ids refreshed dto trusted ip_address user_agent
    pure (record { user = refreshed; tokens = tokens; trusted_device = device })
