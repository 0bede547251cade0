-- ===== src/Auth/Login/BackupCode.antt =====
-- src/auth/auth.service.ts: a backup code is good for one login.
use prop_chain_back_end.Base.{
  ℕ, ◌≡◌, refl, ◌∙◌, inl, inr, Option-cases, true, false, Option, none, some, String, arith, ok,
  eq_iff,
}
use prop_chain_back_end.Table.Laws.{find_unique-update_self}
use prop_chain_back_end.Auth.Rows.{User, Database, Store}
use prop_chain_back_end.Auth.Interfaces.{Crypto, Jwt, Config, FraudHooks, KeepsFactors, factors_of}
use prop_chain_back_end.Auth.Tokens.{find_user, issue_token_pair}
use prop_chain_back_end.Auth.TwoFactor.{
  normalized, verify_backup_code, backup_digest, find_device, is_trusted_device, remember_device,
  with_backup_codes, update_user,
}
use prop_chain_back_end.Auth.TwoFactor.Codes.{verify_backup_code_once}
use prop_chain_back_end.Auth.Login.{
  LoginDto, LoginIds, Captcha, has_text, preflight_checks, verify_credentials, left_codes,
  check_second_factor, check_factor, find_by_email, check_login, record_login, login,
}
use prop_chain_back_end.Auth.Login.SecondFactor.{preflight_checks_ok, verify_credentials_ok}
use prop_chain_back_end.Sessions

module _ (db : Database) (crypto : Crypto) (config : Config) (fraud : FraudHooks db) where
  is_trusted_device-false :
      (now user_id : ℕ) (token : Option String) (s : Store db)
      → (is_trusted_device db crypto now user_id token s).0 ≡ false
      → (is_trusted_device db crypto now user_id token s).1 ≡ s
  unfolding is_trusted_device
  is_trusted_device-false now user_id token s e = elim (Option-cases (normalized crypto token)) [
    | inl blank ↦ ground (arith, blank)
    | inr (text, given) ↦ elim (Option-cases (find_device db crypto (crypto.sha256 text) s)) [
      | inl missing ↦ ground (arith, given, missing)
      | inr (device, found) ↦ ground (arith, given, found, e)
    ]
  ]

  -- The login proves the second factor with a backup code alone.
  abbrev pub WithBackupCode : ℕ → LoginDto → User → String → String → Store db → Type 0
  WithBackupCode now dto user code hash s =
      (user.two_factor_enabled ≡ true)
      × ((is_trusted_device db crypto now user.id dto.trusted_device_token s).0 ≡ false)
      × (has_text crypto dto.totp_code ≡ false)
      × (dto.backup_code ≡ some code)
      × (has_text crypto (some code) ≡ true)
      × (verify_backup_code crypto code user.two_factor_backup_codes ≡ some hash)

  check_factor_backup :
      (now : ℕ) (dto : LoginDto) (user : User) (code hash : String) (s : Store db)
      → WithBackupCode now dto user code hash s
      → check_factor db crypto config fraud now user dto s ≡ (
        ok false,
        update_user db crypto user.id
            (with_backup_codes (left_codes db crypto config fraud hash user))
            s,
      )
  unfolding check_factor check_second_factor
  check_factor_backup now dto user code hash s (on, unknown, no_totp, given, has_code, right) =
      ground (
        arith,
        on,
        unknown,
        no_totp,
        given,
        has_code,
        right,
        is_trusted_device-false now user.id dto.trusted_device_token s unknown,
      )

  check_login_backup :
      (now : ℕ) (ids : LoginIds) (dto : LoginDto) (captcha : Captcha) (ip : Option String)
      (user : User) (code hash : String) (s : Store db)
      → (preflight_checks db crypto config fraud now ids dto captcha ip s).0 ≡ ok tt
      → find_by_email db crypto config fraud dto.email s ≡ some user
      → (verify_credentials db crypto config fraud now ids user dto.password ip s).0 ≡ ok tt
      → WithBackupCode now dto user code hash s
      → check_login db crypto config fraud now ids dto captcha ip s ≡ (
        ok (user, false),
        update_user db crypto user.id
            (with_backup_codes (left_codes db crypto config fraud hash user))
            s,
      )
  unfolding check_login
  check_login_backup now ids dto captcha ip user code hash s passed found accepted uses =
      let (same, unlocked) =
        preflight_checks_ok db crypto config fraud now ids dto captcha ip s passed in
      let (same', unblocked, active, verified, own) =
        verify_credentials_ok db crypto config fraud now ids user dto.password ip s accepted in
      ground (
        arith,
        passed,
        same,
        found,
        accepted,
        same',
        check_factor_backup now dto user code hash s uses,
      )

  record_login-factors :
      (laws : KeepsFactors db fraud) (now : ℕ) (ids : LoginIds) (user : User) (email : String)
      (ip user_agent : Option String) (id : ℕ) (s : Store db)
      → factors_of db id (record_login db crypto config fraud now ids user email ip user_agent s)
        ≡ factors_of db id s
  unfolding record_login
  record_login-factors laws now ids user email ip user_agent id s =
      laws.record_login_context_factors now user.id id ip _
      ∙ laws.evaluate_successful_login_factors now user.id id ip user_agent _

module _ (db : Database) (crypto : Crypto) (jwt : Jwt) (config : Config)
    (fraud : FraudHooks db) where
  login-factors :
      (laws : KeepsFactors db fraud) (now : ℕ) (ids : LoginIds) (dto : LoginDto) (captcha : Captcha)
      (ip user_agent : Option String) (user : User) (s t : Store db)
      → check_login db crypto config fraud now ids dto captcha ip s ≡ (ok (user, false), t)
      → factors_of db user.id
          (login db crypto jwt config fraud now ids dto captcha ip user_agent s).1
        ≡ factors_of db user.id t
  unfolding login issue_token_pair Sessions.create_session remember_device
  login-factors laws now ids dto captcha ip user_agent user s t checked =
      let u = record_login db crypto config fraud now ids user dto.email ip user_agent t in
      let kept =
        record_login-factors db crypto config fraud laws now ids user dto.email ip user_agent
          user.id t in
      elim (Option-cases (find_user db user.id u)) [
        | inl missing ↦ ground (arith, checked, missing, kept)
        | inr (again, found) ↦ ground (arith, checked, found, kept)
      ]

  -- A backup code is good for one login: one that gets past its checks with a backup code,
  -- whatever comes of the rest of it, leaves the user without that code, and the same code is not
  -- accepted again, provided that the fraud checks leave the second factors alone.
  pub login_uses_backup_code :
      (laws : KeepsFactors db fraud) (now : ℕ) (ids : LoginIds) (dto : LoginDto) (captcha : Captcha)
      (ip user_agent : Option String) (user : User) (code hash : String) (s : Store db)
      → (preflight_checks db crypto config fraud now ids dto captcha ip s).0 ≡ ok tt
      → find_by_email db crypto config fraud dto.email s ≡ some user
      → find_user db user.id s ≡ some user
      → (verify_credentials db crypto config fraud now ids user dto.password ip s).0 ≡ ok tt
      → WithBackupCode db crypto config fraud now dto user code hash s
      → let left = left_codes db crypto config fraud hash user in
        (factors_of db user.id
            (login db crypto jwt config fraud now ids dto captcha ip user_agent s).1
          ≡ some (true, user.two_factor_secret, left))
        × (verify_backup_code crypto code left ≡ none)
  login_uses_backup_code laws now ids dto captcha ip user_agent user code hash s passed found by_id
        accepted uses =
      let (on, unknown, no_totp, given, has_code, right) = uses in
      let change = with_backup_codes (left_codes db crypto config fraud hash user) in
      let stored = find_unique-update_self db.users user.id change s.users (λ r. refl) by_id in
      let once = verify_backup_code_once crypto code code user.two_factor_backup_codes right in
      let digest = backup_digest crypto code in
      (
        login-factors laws now ids dto captcha ip user_agent user s
              (update_user db crypto user.id change s)
              (check_login_backup db crypto config fraud now ids dto captcha ip user code hash s
                passed found accepted uses)
            ∙ ground (arith, stored, on),
        ground (arith, once, (eq_iff digest digest).1 refl),
      )
