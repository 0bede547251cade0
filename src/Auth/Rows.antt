-- ===== src/Auth/Rows.antt =====
-- src/prisma/schema.prisma and src/auth/auth.service.ts: the rows that authentication reads and
-- writes, and the state of its services. Where the schema marks a column as unique and the service
-- looks a row up by it, the model takes the first row with that value.
use prop_chain_back_end.Base.{ℕ, Bool, List, Option, String}
use prop_chain_back_end.Table.{Table}
use prop_chain_back_end.Auth.LoginRateLimit.{LoginAttempt}
use prop_chain_back_end.Fraud.Rows.{FraudAlert, FraudEvent}
use prop_chain_back_end.Sessions

pub data UserRole : Type 0 where
  user admin agent : UserRole

pub data UserTier : Type 0 where
  free premium enterprise : UserTier

pub record User : Type 0 where
  pub id : ℕ
  pub email : String
  pub password : Option String
  pub google_id : Option String
  pub first_name : String
  pub last_name : String
  pub phone : Option String
  pub avatar : Option String
  pub role : UserRole
  pub tier : UserTier
  pub is_verified : Bool
  pub is_blocked : Bool
  pub is_deactivated : Bool
  pub two_factor_enabled : Bool
  pub two_factor_secret : Option String
  pub two_factor_backup_codes : List String
  pub email_verification_token : Option String
  pub email_verification_expires : Option ℕ
  pub last_activity_at : Option ℕ
  pub created_at : ℕ

pub record PasswordHistory : Type 0 where
  pub id : ℕ
  pub user_id : ℕ
  pub password_hash : String
  pub created_at : ℕ

pub record PasswordResetToken : Type 0 where
  pub id : ℕ
  pub user_id : ℕ
  pub token : String
  pub expires_at : ℕ
  pub used_at : Option ℕ

pub record TrustedDevice : Type 0 where
  pub id : ℕ
  pub user_id : ℕ
  pub token_hash : String
  pub label : Option String
  pub user_agent : Option String
  pub ip_address : Option String
  pub last_used_at : Option ℕ
  pub expires_at : ℕ
  pub revoked_at : Option ℕ

pub record ApiKey : Type 0 where
  pub id : ℕ
  pub user_id : ℕ
  pub name : String
  pub key_hash : String
  pub permissions : List String
  pub usage_count : ℕ
  pub monthly_quota : Option ℕ
  pub last_used_at : Option ℕ
  pub expires_at : Option ℕ
  pub revoked_at : Option ℕ

pub record ApiKeyUsageDaily : Type 0 where
  pub id : ℕ
  pub api_key_id : ℕ
  pub date : ℕ
  pub request_count : ℕ

pub record LoginHistory : Type 0 where
  pub id : ℕ
  pub user_id : ℕ
  pub ip_address : Option String
  pub user_agent : Option String
  pub created_at : ℕ

pub data AuthEvent : Type 0 where
  password_changed two_factor_enabled two_factor_disabled recovery_codes_regenerated
        two_factor_force_disabled :
      AuthEvent

-- a message of the mail service
pub data Mail : Type 0 where
  verification_mail : String → String → Mail
  reset_mail : String → String → Mail
  locked_mail : String → ℕ → Mail

pub record Database : Type 1 where
  pub users : Table User (λ r. r.id)
  pub password_history : Table PasswordHistory (λ r. r.id)
  pub reset_tokens : Table PasswordResetToken (λ r. r.id)
  pub trusted_devices : Table TrustedDevice (λ r. r.id)
  pub api_keys : Table ApiKey (λ r. r.id)
  pub usage : Table ApiKeyUsageDaily (λ r. r.id)
  pub attempts : Table LoginAttempt (λ r. r.id)
  pub login_history : Table LoginHistory (λ r. r.id)
  pub sessions : Sessions.Database
  pub alerts : Table FraudAlert (λ r. r.id)

-- The tables; the entries of `registrationIpMap`; the audit entries, the mails
-- and what the fraud detection wrote, newest first.
pub record Store (db : Database) : Type 0 where
  pub users : db.users.Rows
  pub password_history : db.password_history.Rows
  pub reset_tokens : db.reset_tokens.Rows
  pub trusted_devices : db.trusted_devices.Rows
  pub api_keys : db.api_keys.Rows
  pub usage : db.usage.Rows
  pub attempts : db.attempts.Rows
  pub login_history : db.login_history.Rows
  pub sessions : Sessions.Store db.sessions
  pub registration_ips : List (String × ℕ)
  pub audit : List (AuthEvent × ℕ)
  pub mails : List Mail
  pub alerts : db.alerts.Rows
  pub fraud_log : List FraudEvent
