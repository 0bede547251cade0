-- ===== src/Auth/Interfaces.antt =====
-- What src/auth/auth.service.ts uses of other code: packages (`jsonwebtoken`, `bcrypt`, `crypto`), the
-- methods of strings, the configuration, and the fraud service as the login sees it.
use prop_chain_back_end.Base.{ℕ, ◌+◌, ◌/◌, ◌≡◌, ◌<◌, Bool, true, List, Option, none, some, String}
use prop_chain_back_end.Auth.LoginRateLimit.{LoginAttemptConfig}
use prop_chain_back_end.Auth.Rows.{UserRole, UserTier, Database, Store}
use prop_chain_back_end.Sessions.{TokenType}

-- `JwtPayload`
pub record JwtPayload : Type 0 where
  pub sub : ℕ
  pub email : String
  pub role : UserRole
  pub tier : UserTier
  pub token_type : TokenType
  pub jti : ℕ
  pub family : Option ℕ

-- `jsonwebtoken`: times are milliseconds, expiry is kept in seconds; the issuer is always the same.
pub record Jwt : Type 1 where
  pub Token : Type 0
  pub sign : ℕ → JwtPayload → String → ℕ → Token
  pub verify : ℕ → Token → String → Option (JwtPayload × ℕ)

-- A token that was signed is verified with the same secret until it expires.
abbrev pub VerifiesSigned : Jwt → Type 0
VerifiesSigned jwt =
    (now later : ℕ) (payload : JwtPayload) (secret : String) (ttl : ℕ)
    → later / 1000 < now / 1000 + ttl
    → jwt.verify later (jwt.sign now payload secret ttl) secret ≡ some (payload, now / 1000 + ttl)

-- `bcrypt`, `crypto` and the methods of strings. A salt and random bytes are arguments of the calls;
-- `totp_digest` is the HMAC of a counter under a secret in base 32.
pub record Crypto : Type 0 where
  pub sha256 : String → String
  pub hash_password : ℕ → String → String
  pub compare_password : String → String → Bool
  pub totp_digest : String → ℕ → List ℕ
  pub decimal : ℕ → String
  pub trim : String → String
  pub to_lower_case : String → String
  pub to_upper_case : String → String

-- `bcrypt` accepts a password against the hash of it.
abbrev pub ComparesHashed : Crypto → Type 0
ComparesHashed crypto =
    (salt : ℕ) (password : String)
    → crypto.compare_password password (crypto.hash_password salt password) ≡ true

pub record Config : Type 0 where
  pub jwt_secret : String
  pub jwt_refresh_secret : String
  pub access_token_ttl_seconds : ℕ
  pub refresh_token_ttl_seconds : ℕ
  pub max_concurrent_sessions : ℕ
  pub password_history_limit : ℕ
  pub captcha_threshold : ℕ
  pub verification_ttl_seconds : ℕ
  pub trusted_device_ttl_ms : ℕ
  pub login_attempts : LoginAttemptConfig
  pub sanitize_text : String → String
  pub includes : String → String → Bool

-- The calls that the login and the rotation of tokens make of `FraudService`, each at a time and
-- with what the call is given.
pub record FraudHooks (db : Database) : Type 0 where
  pub evaluate_failed_login : ℕ → String → Option String → Store db → Store db
  pub evaluate_successful_login : ℕ → ℕ → Option String → Option String → Store db → Store db
  pub record_login_context : ℕ → ℕ → Option String → Store db → Store db
  pub handle_token_reuse : ℕ → ℕ → ℕ → Option String → Store db → Store db

-- The hooks write alerts and block users; they leave the tokens alone.
pub record KeepsTokens (db : Database) (fraud : FraudHooks db) : Type 0 where
  pub handle_token_reuse_sessions :
      (now sub jti : ℕ) (ip : Option String) (s : Store db)
      → (fraud.handle_token_reuse now sub jti ip s).sessions ≡ s.sessions

-- What the second factor of a user consists of.
abbrev pub factors_of : (db : Database) → ℕ → Store db → Option (Bool × Option String × List String)
factors_of db id s = elim (db.users.find_unique id s.users) [
  | none ↦ none
  | some user ↦ some (user.two_factor_enabled, user.two_factor_secret, user.two_factor_backup_codes)
]

-- The hooks of a login leave every user's second factor alone.
pub record KeepsFactors (db : Database) (fraud : FraudHooks db) : Type 0 where
  pub evaluate_successful_login_factors :
      (now user_id id : ℕ) (ip user_agent : Option String) (s : Store db)
      → factors_of db id (fraud.evaluate_successful_login now user_id ip user_agent s)
        ≡ factors_of db id s
  pub record_login_context_factors :
      (now user_id id : ℕ) (ip : Option String) (s : Store db)
      → factors_of db id (fraud.record_login_context now user_id ip s) ≡ factors_of db id s

-- The check after a failed login leaves the login attempts alone.
pub record KeepsAttempts (db : Database) (fraud : FraudHooks db) : Type 0 where
  pub evaluate_failed_login_attempts :
      (now : ℕ) (email : String) (ip : Option String) (s : Store db)
      → (fraud.evaluate_failed_login now email ip s).attempts ≡ s.attempts
