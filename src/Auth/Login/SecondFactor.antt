-- ===== src/Auth/Login/SecondFactor.antt =====
-- src/auth/auth.service.ts: what a login has checked by the time it succeeds.
use prop_chain_back_end.Base.{
  ℕ, ◌≡◌, ◌≢◌, subst, inl, inr, ◌⊎◌, eq_iff, Option-cases, Bool-cases, Result-cases, Bool, true,
  false, Option, some, String, or_else, arith, ok,
}
use prop_chain_back_end.Auth.Rows.{User, Database, Store}
use prop_chain_back_end.Auth.Interfaces.{Crypto, Jwt, Config, FraudHooks}
use prop_chain_back_end.Auth.Tokens.{find_user}
use prop_chain_back_end.Auth.TwoFactor.{verify_totp_code, verify_backup_code, is_trusted_device}
use prop_chain_back_end.Auth.Login.Preflight.{PassedCaptcha, preflight_checks-PassedCaptcha}
use prop_chain_back_end.Auth.Login.{
  LoginDto, LoginIds, LoginAnswer, Captcha, accepts, record_login, verify_captcha, has_text,
  is_locked, record_failed_attempt, preflight_checks, verify_credentials, valid_totp,
  check_backup_code, check_second_factor, check_factor, find_by_email, check_login, login,
}

module _ (db : Database) (crypto : Crypto) (config : Config) (fraud : FraudHooks db) where
  -- Checks that let a login pass leave the state alone, and the account is not locked.
  pub preflight_checks_ok :
      (now : ℕ) (ids : LoginIds) (dto : LoginDto) (captcha : Captcha) (ip : Option String)
      (s : Store db)
      → (preflight_checks db crypto config fraud now ids dto captcha ip s).0 ≡ ok tt
      → ((preflight_checks db crypto config fraud now ids dto captcha ip s).1 ≡ s)
        × (is_locked db crypto config fraud now dto.email s ≡ false)
  unfolding preflight_checks verify_captcha
  preflight_checks_ok now ids dto captcha ip s done = elim (Option-cases captcha.response) [
    | inl silent ↦ (ground (arith, silent, done), ground (arith, silent, done))
    | inr (response, answered) ↦ elim (Bool-cases (accepts response)) [
      | inl human ↦ (ground (arith, answered, human, done), ground (arith, answered, human, done))
      | inr robot ↦ (ground (arith, answered, robot, done), ground (arith, answered, robot, done))
    ]
  ]

  pub verify_credentials_ok :
      (now : ℕ) (ids : LoginIds) (user : User) (password : String) (ip : Option String)
      (s : Store db)
      → (verify_credentials db crypto config fraud now ids user password ip s).0 ≡ ok tt
      → ((verify_credentials db crypto config fraud now ids user password ip s).1 ≡ s)
        × (user.is_blocked ≡ false)
        × (user.is_deactivated ≡ false)
        × (user.is_verified ≡ true)
        × (crypto.compare_password password (or_else user.password "") ≡ true)
  unfolding verify_credentials record_failed_attempt
  verify_credentials_ok now ids user password ip s done = (
    ground (arith, done),
    ground (arith, done),
    ground (arith, done),
    ground (arith, done),
    ground (arith, done),
  )

  -- The user has proved the second factor: with a code of the secret, or with a backup code.
  abbrev pub Proved : ℕ → User → LoginDto → Type 0
  Proved now user dto =
      ((code : String) × (secret : String) × (dto.totp_code ≡ some code)
        × (user.two_factor_secret ≡ some secret)
        × (secret ≢ "")
        × (verify_totp_code crypto secret code now ≡ true))
      ⊎ ((code : String) × (hash : String) × (dto.backup_code ≡ some code)
          × (verify_backup_code crypto code user.two_factor_backup_codes ≡ some hash))

  backup-Proved :
      (now : ℕ) (user : User) (dto : LoginDto) (s : Store db)
      → (check_backup_code db crypto config fraud user dto.backup_code s).0 ≡ ok tt
      → Proved now user dto
  backup-Proved now user dto s done = elim (Option-cases dto.backup_code) [
    | inl missing ↦ ground (arith, missing, done)
    | inr (code, e) ↦
        elim (Option-cases (verify_backup_code crypto code user.two_factor_backup_codes)) [
          | inl wrong ↦ ground (arith, e, wrong, done)
          | inr (hash, right) ↦ inr (code, hash, e, right)
        ]
  ]

  totp-Proved :
      (now : ℕ) (user : User) (dto : LoginDto)
      → valid_totp db crypto config fraud now user dto.totp_code ≡ true
      → Proved now user dto
  totp-Proved now user dto valid = elim (Option-cases dto.totp_code) [
    | inl missing ↦ ground (arith, missing, valid)
    | inr (code, e) ↦ elim (Option-cases user.two_factor_secret) [
      | inl unset ↦ ground (arith, e, unset, valid)
      | inr (secret, e') ↦ inl (
        code,
        secret,
        e,
        e',
        λ unset. ground (arith, e, e', valid, (eq_iff secret "").1 unset),
        ground (arith, e, e', valid),
      )
    ]
  ]

  check_second_factor-Proved :
      (now : ℕ) (user : User) (dto : LoginDto) (s : Store db)
      → (check_second_factor db crypto config fraud now user dto s).0 ≡ ok tt
      → Proved now user dto
  unfolding check_second_factor
  check_second_factor-Proved now user dto s done =
      elim (Bool-cases (has_text crypto dto.totp_code)) [
        | inl has_code ↦ totp-Proved now user dto (ground (arith, has_code, done))
        | inr no_code ↦ backup-Proved now user dto s (ground (arith, no_code, done))
      ]

  check_factor-Proved :
      (now : ℕ) (dto : LoginDto) (s : Store db) (user : User) {trusted : Bool}
      → (check_factor db crypto config fraud now user dto s).0 ≡ ok trusted
      → (user.two_factor_enabled ≡ false)
        ⊎ (((is_trusted_device db crypto now user.id dto.trusted_device_token s).0 ≡ true)
            ⊎ Proved now user dto)
  unfolding check_factor
  check_factor-Proved now dto s user done =
      let (trusts, s') = is_trusted_device db crypto now user.id dto.trusted_device_token s in
      elim (Bool-cases user.two_factor_enabled) [
        | inr off ↦ inl off
        | inl on ↦ elim (Bool-cases trusts) [
          | inl known ↦ inr (inl known)
          | inr unknown ↦
              elim (Result-cases (check_second_factor db crypto config fraud now user dto s').0) [
                | inr (e, refused) ↦ ground (arith, on, unknown, refused, done)
                | inl (t, proved) ↦ inr (inr (check_second_factor-Proved now user dto s' proved))
              ]
        ]
      ]

  -- What the checks of a login have found by the time they pass.
  abbrev pub IsChecked : ℕ → LoginDto → Captcha → Store db → User → Type 0
  IsChecked now dto captcha s user =
      PassedCaptcha db crypto config fraud now dto captcha s
      × (is_locked db crypto config fraud now dto.email s ≡ false)
      × (find_by_email db crypto config fraud dto.email s ≡ some user)
      × (user.is_blocked ≡ false)
      × (user.is_deactivated ≡ false)
      × (user.is_verified ≡ true)
      × (crypto.compare_password dto.password (or_else user.password "") ≡ true)
      × ((user.two_factor_enabled ≡ false)
          ⊎ (((is_trusted_device db crypto now user.id dto.trusted_device_token s).0 ≡ true)
              ⊎ Proved now user dto))

  check_login_found :
      (now : ℕ) (ids : LoginIds) (dto : LoginDto) (captcha : Captcha) (ip : Option String)
      (s : Store db) (u : User) {user : User} {trusted : Bool}
      → (check_login db crypto config fraud now ids dto captcha ip s).0 ≡ ok (user, trusted)
      → (preflight_checks db crypto config fraud now ids dto captcha ip s).0 ≡ ok tt
      → find_by_email db crypto config fraud dto.email s ≡ some u
      → IsChecked now dto captcha s user
  unfolding check_login
  check_login_found now ids dto captcha ip s u done passed found =
      let (same, unlocked) = preflight_checks_ok now ids dto captcha ip s passed in
      elim (Result-cases
        (verify_credentials db crypto config fraud now ids u dto.password ip s).0) [
          | inr (e, refused) ↦ ground (arith, passed, same, found, refused, done)
          | inl (t, accepted) ↦
              let (same', unblocked, active, verified, own) =
                verify_credentials_ok now ids u dto.password ip s accepted in
              elim (Result-cases (check_factor db crypto config fraud now u dto s).0) [
                | inr (e, refused) ↦
                    ground (arith, passed, same, found, accepted, same', refused, done)
                | inl (t, proved) ↦
                    subst (λ x. IsChecked now dto captcha s x)
                      (ground (arith, passed, same, found, accepted, same', proved, done))
                      (
                        preflight_checks-PassedCaptcha db crypto config fraud now ids dto captcha ip
                            s passed,
                        unlocked,
                        found,
                        unblocked,
                        active,
                        verified,
                        own,
                        check_factor-Proved now dto s u proved,
                      )
              ]
        ]

  pub check_login-IsChecked :
      (now : ℕ) (ids : LoginIds) (dto : LoginDto) (captcha : Captcha) (ip : Option String)
      (s : Store db) {user : User} {trusted : Bool}
      → (check_login db crypto config fraud now ids dto captcha ip s).0 ≡ ok (user, trusted)
      → IsChecked now dto captcha s user
  unfolding check_login
  check_login-IsChecked now ids dto captcha ip s done =
      elim (Result-cases (preflight_checks db crypto config fraud now ids dto captcha ip s).0) [
        | inr (e, refused) ↦ ground (arith, refused, done)
        | inl (t, passed) ↦ elim (Option-cases (find_by_email db crypto config fraud dto.email s)) [
          | inl missing ↦
              let (same, unlocked) = preflight_checks_ok now ids dto captcha ip s passed in
              ground (arith, passed, same, missing, done)
          | inr (u, found) ↦ check_login_found now ids dto captcha ip s u done passed found
        ]
      ]

module _ (db : Database) (crypto : Crypto) (jwt : Jwt) (config : Config)
    (fraud : FraudHooks db) where
  -- The row that is read again after the fraud checks is the one of the answer, and is not blocked.
  answered-unblocked :
      (now : ℕ) (ids : LoginIds) (dto : LoginDto) (captcha : Captcha)
      (ip user_agent : Option String) (s : Store db) (user again : User) (trusted : Bool)
      {answer : LoginAnswer jwt.Token}
      → (check_login db crypto config fraud now ids dto captcha ip s).0 ≡ ok (user, trusted)
      → find_user db user.id (
          record_login db crypto config fraud now ids user dto.email ip user_agent
            (check_login db crypto config fraud now ids dto captcha ip s).1)
        ≡ some again
      → (login db crypto jwt config fraud now ids dto captcha ip user_agent s).0 ≡ ok answer
      → (answer.user ≡ again) × (again.is_blocked ≡ false)
  unfolding login
  answered-unblocked now ids dto captcha ip user_agent s user again trusted passed found done =
      (ground (arith, passed, found, done), ground (arith, passed, found, done))

  -- A login that succeeds has passed every check. The account is not locked, and where the failed
  -- attempts ask for a CAPTCHA, one was given and solved, or bypassed by the configuration. The
  -- user with the email is neither blocked nor deactivated and has verified the email, the
  -- password is theirs, and where the second factor is on, the device is trusted, or a code of the
  -- secret or a backup code of the user was given. The user of the answer is that user's row after
  -- the fraud checks of this login, and is not blocked by then.
  pub login-IsChecked :
      (now : ℕ) (ids : LoginIds) (dto : LoginDto) (captcha : Captcha)
      (ip user_agent : Option String) (s : Store db) {answer : LoginAnswer jwt.Token}
      → (login db crypto jwt config fraud now ids dto captcha ip user_agent s).0 ≡ ok answer
      → (user : User) × IsChecked db crypto config fraud now dto captcha s user
        × (find_user db user.id (
              record_login db crypto config fraud now ids user dto.email ip user_agent
                (check_login db crypto config fraud now ids dto captcha ip s).1)
            ≡ some answer.user)
        × (answer.user.is_blocked ≡ false)
  unfolding login
  login-IsChecked now ids dto captcha ip user_agent s {answer} done =
      elim (Result-cases (check_login db crypto config fraud now ids dto captcha ip s).0) [
        | inr (e, refused) ↦ ground (arith, refused, done)
        | inl ((user, trusted), passed) ↦
            let s' =
              record_login db crypto config fraud now ids user dto.email ip user_agent
                (check_login db crypto config fraud now ids dto captcha ip s).1 in
            elim (Option-cases (find_user db user.id s')) [
              | inl gone ↦ ground (arith, passed, gone, done)
              | inr (again, found) ↦
                  let (same, unblocked) =
                    answered-unblocked now ids dto captcha ip user_agent s user again trusted passed
                      found done in
                  (
                    user,
                    check_login-IsChecked db crypto config fraud now ids dto captcha ip s passed,
                    ground (arith, found, same),
                    ground (arith, unblocked, same),
                  )
            ]
      ]
