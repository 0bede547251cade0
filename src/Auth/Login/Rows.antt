-- ===== src/Auth/Login/Rows.antt =====
-- src/auth/dto/auth.dto.ts and src/auth/auth.service.ts: what a login is given, and its answer.
use prop_chain_back_end.Base.{ℕ, Bool, Option, String}
use prop_chain_back_end.Auth.Rows.{User}
use prop_chain_back_end.Auth.Tokens.{TokenIds, TokenPair}

pub record LoginDto : Type 0 where
  pub email : String
  pub password : String
  pub captcha_token : Option String
  pub totp_code : Option String
  pub backup_code : Option String
  pub trusted_device_token : Option String
  pub remember_device : Bool

-- the answer of the CAPTCHA service, with a score in hundredths
pub record RecaptchaVerifyResponse : Type 0 where
  pub success : Bool
  pub score : Option ℕ

-- `CAPTCHA_BYPASS`, whether `RECAPTCHA_SECRET` is set, and the answer where the service gives one
pub record Captcha : Type 0 where
  pub bypass : Bool
  pub has_secret : Bool
  pub response : Option RecaptchaVerifyResponse

-- the ids and the random text that a login uses up
pub record LoginIds : Type 0 where
  pub attempt_id : ℕ
  pub history_id : ℕ
  pub device_id : ℕ
  pub device_token : String
  pub tokens : TokenIds

pub record LoginAnswer (Token : Type 0) : Type 0 where
  pub user : User
  pub tokens : TokenPair Token
  pub trusted_device : Option (String × ℕ)
