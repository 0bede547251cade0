-- ===== src/Fraud/Rows.antt =====
-- src/prisma/schema.prisma and src/fraud/fraud.service.ts: the alerts of the fraud detection.
use prop_chain_back_end.Base.{ℕ, Bool, Option, String}

pub data FraudPattern : Type 0 where
  excessive_failed_logins multiple_ips_for_account new_device_login shared_ip_multiple_accounts
        token_reuse rapid_property_listings duplicate_property_address
        high_value_new_account_listing duplicate_property_images velocity_exceeded impossible_travel
        device_fingerprint_mismatch :
      FraudPattern

pub data FraudSeverity : Type 0 where
  low medium high critical : FraudSeverity

pub data FraudStatus : Type 0 where
  open_alert investigating resolved dismissed : FraudStatus

-- the text, the description and the evidence of an alert are left out
pub record FraudAlert : Type 0 where
  pub id : ℕ
  pub user_id : Option ℕ
  pub property_id : Option ℕ
  pub transaction_id : Option ℕ
  pub session_id : Option ℕ
  pub pattern : FraudPattern
  pub severity : FraudSeverity
  pub status : FraudStatus
  pub score : ℕ
  pub auto_blocked : Bool
  pub last_detected_at : ℕ
  pub occurrence_count : ℕ
  pub assigned_to_id : Option ℕ
  pub resolved_by_id : Option ℕ
  pub resolved_at : Option ℕ

-- what the service writes besides the alerts: mails and texts, notifications, activity entries and
-- the notes of an investigation
pub data FraudEvent : Type 0 where
  team_mailed : ℕ → FraudEvent
  user_mailed : String → ℕ → FraudEvent
  user_texted : String → ℕ → FraudEvent
  notified : ℕ → ℕ → FraudEvent
  alert_created : ℕ → FraudEvent
  user_blocked : ℕ → ℕ → ℕ → FraudEvent
  noted : ℕ → ℕ → String → FraudEvent
