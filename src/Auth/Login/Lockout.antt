-- ===== src/Auth/Login/Lockout.antt =====
-- src/auth/auth.service.ts: a login with a wrong password, and what follows from it.
use prop_chain_back_end.Base.{ℕ, ◌≡◌, true, false, Option, String, arith, err, unauthorized}
use prop_chain_back_end.Auth.Rows.{User, Database, Store}
use prop_chain_back_end.Auth.Interfaces.{Crypto, Jwt, Config, FraudHooks}
use prop_chain_back_end.Auth.Login.{
  LoginDto, LoginIds, Captcha, is_locked, preflight_checks, check_login, login,
}

module _ (db : Database) (crypto : Crypto) (jwt : Jwt) (config : Config)
    (fraud : FraudHooks db) where
  -- A locked account refuses every login, whatever the credentials, and writes nothing.
  pub login_locked :
      (now : ℕ) (ids : LoginIds) (dto : LoginDto) (captcha : Captcha)
      (ip user_agent : Option String) (s : Store db)
      → is_locked db crypto config fraud now dto.email s ≡ true
      → login db crypto jwt config fraud now ids dto captcha ip user_agent s
        ≡ (err (unauthorized "Account temporarily locked"), s)
  unfolding login check_login preflight_checks
  login_locked now ids dto captcha ip user_agent s locked = ground (arith, locked)

  -- The account may log in but for the password.
  abbrev pub IsOpen : User → Type 0
  IsOpen user =
      (user.is_blocked ≡ false) × (user.is_deactivated ≡ false) × (user.is_verified ≡ true)
