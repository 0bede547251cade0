-- ===== src/Auth/Sample.antt =====
-- Test data for the accounts: an in-memory database with one user, tokens that are their own payload, and
-- texts that are their own hashes.
use prop_chain_back_end.Base.{
  ℕ, ◌+◌, ◌*◌, ◌/◌, ◌%◌, refl, true, false, ◌&&◌, [], ◌∷◌, none, some, String, if◌then◌else◌, arith,
  ◌==◌, ltb, str_eq, eq_iff,
}
use prop_chain_back_end.Table.InMemory.{in_memory}
use prop_chain_back_end.Auth.LoginRateLimit.{LoginAttempt}
use prop_chain_back_end.Auth.Rows.{
  User, UserRole, UserTier, PasswordHistory, PasswordResetToken, TrustedDevice, ApiKey,
  ApiKeyUsageDaily, LoginHistory, Database, Store,
}
use prop_chain_back_end.Auth.Interfaces.{
  Jwt, JwtPayload, Crypto, Config, FraudHooks, VerifiesSigned, KeepsTokens, KeepsFactors,
  KeepsAttempts,
}
use prop_chain_back_end.Auth.Passwords.{PasswordRules}
use prop_chain_back_end.Auth.Tokens.{TokenIds}
use prop_chain_back_end.Fraud.Detection.{AlertIds, hooks}
use prop_chain_back_end.Fraud.Detection.Hooks.{
  hooks-KeepsTokens, hooks-KeepsAttempts, hooks-KeepsFactors,
}
use prop_chain_back_end.Fraud.Rows.{FraudAlert}
use prop_chain_back_end.Sessions.{Session, BlacklistedToken}

abbrev pub db : Database
db = record {
  users = in_memory User (λ r. r.id);
  password_history = in_memory PasswordHistory (λ r. r.id);
  reset_tokens = in_memory PasswordResetToken (λ r. r.id);
  trusted_devices = in_memory TrustedDevice (λ r. r.id);
  api_keys = in_memory ApiKey (λ r. r.id);
  usage = in_memory ApiKeyUsageDaily (λ r. r.id);
  attempts = in_memory LoginAttempt (λ r. r.id);
  login_history = in_memory LoginHistory (λ r. r.id);
  sessions = record {
    sessions = in_memory Session (λ r. r.id);
    blacklist = in_memory BlacklistedToken (λ r. r.jti);
  };
  alerts = in_memory FraudAlert (λ r. r.id);
}

abbrev pub jwt : Jwt
jwt = record {
  Token = JwtPayload × ℕ × String;
  sign = λ now payload secret ttl. (payload, now / 1000 + ttl, secret);
  verify = λ now token secret.
      (let (payload, exp, signed) = token in
        if str_eq signed secret && ltb (now / 1000) exp then some (payload, exp) else none);
}

pub jwt-VerifiesSigned : VerifiesSigned jwt
jwt-VerifiesSigned now later payload secret ttl in_time =
    ground (arith, in_time, (eq_iff secret secret).1 refl)

abbrev pub crypto : Crypto
crypto = record {
  sha256 = λ s. s;
  hash_password = λ salt p. p;
  compare_password = str_eq;
  totp_digest = λ secret counter. 0 ∷ counter % 256 ∷ 0 ∷ 0 ∷ 0 ∷ [];
  decimal = λ n. if n == 0 then "000000" else "000001";
  trim = λ s. s;
  to_lower_case = λ s. s;
  to_upper_case = λ s. s;
}

abbrev pub config : Config
config = record {
  jwt_secret = "access";
  jwt_refresh_secret = "refresh";
  access_token_ttl_seconds = 60;
  refresh_token_ttl_seconds = 600;
  max_concurrent_sessions = 1;
  password_history_limit = 5;
  captcha_threshold = 3;
  verification_ttl_seconds = 60;
  trusted_device_ttl_ms = 90000;
  login_attempts = record { max_attempts = 1; lockout_duration_minutes = 30 };
  sanitize_text = λ s. s;
  includes = λ s t. false;
}

abbrev pub rules : PasswordRules
rules = record {
  policy = record {
    min_length = 8;
    require_uppercase = false;
    require_lowercase = false;
    require_digit = false;
    require_special = false;
  };
  tests = record {
    text_length = λ s. 9;
    has_uppercase = λ s. false;
    has_lowercase = λ s. false;
    has_digit = λ s. false;
    has_special = λ s. false;
  };
}

abbrev pub alert_ids : AlertIds
alert_ids = record {
  failed_login = 1;
  multiple_ips = 2;
  new_device = 3;
  shared_ip = 4;
  token_reuse = 5;
  velocity = 6;
}

-- the fraud service
abbrev pub fraud : FraudHooks db
fraud = hooks db true (λ id. false) alert_ids

pub fraud-KeepsTokens : KeepsTokens db fraud
fraud-KeepsTokens = hooks-KeepsTokens db true (λ id. false) alert_ids

pub fraud-KeepsFactors : KeepsFactors db fraud
fraud-KeepsFactors = hooks-KeepsFactors db true (λ id. false) alert_ids

pub fraud-KeepsAttempts : KeepsAttempts db fraud
fraud-KeepsAttempts = hooks-KeepsAttempts db true (λ id. false) alert_ids

-- A user with a second factor and the backup code "c1".
abbrev pub alice : User
alice = record {
  id = 1;
  email = "alice";
  password = some "first";
  google_id = none;
  first_name = "Alice";
  last_name = "Li";
  phone = none;
  avatar = none;
  role = UserRole.user;
  tier = UserTier.free;
  is_verified = true;
  is_blocked = false;
  is_deactivated = false;
  two_factor_enabled = true;
  two_factor_secret = some "secret";
  two_factor_backup_codes = "c1" ∷ "c2" ∷ [];
  email_verification_token = none;
  email_verification_expires = none;
  last_activity_at = none;
  created_at = 0;
}

abbrev pub store : Store db
store = record {
  users = alice ∷ [];
  password_history = [];
  reset_tokens = [];
  trusted_devices = [];
  api_keys = [];
  usage = [];
  attempts = [];
  login_history = [];
  sessions = record { sessions = []; blacklist = []; published = [] };
  registration_ips = [];
  audit = [];
  mails = [];
  alerts = [];
  fraud_log = [];
}

abbrev pub token_ids : ℕ → TokenIds
token_ids n = record { session_id = n; access_jti = n * 10; refresh_jti = n * 10 + 1; family = 7 }
