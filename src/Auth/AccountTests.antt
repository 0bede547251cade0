-- ===== src/Auth/AccountTests.antt =====
-- The theorems on logins, passwords and second factors, at one user.
use prop_chain_back_end.Base.{
  ℕ, ◌≤◌, ◌≡◌, refl, none, some, true, false, ok, err, bad_request, arith,
}
use prop_chain_back_end.Auth.Rows.{User, Store}
use prop_chain_back_end.Auth.Interfaces.{factors_of}
use prop_chain_back_end.Auth.Login.{
  LoginDto, LoginIds, LoginAnswer, Captcha, check_factor, check_login, check_second_factor,
  left_codes, login, preflight_checks, record_login, verify_credentials,
}
use prop_chain_back_end.Auth.Login.BackupCode.{login_uses_backup_code}
use prop_chain_back_end.Auth.Login.SecondFactor.{IsChecked, login-IsChecked}
use prop_chain_back_end.Auth.LoginRateLimit
use prop_chain_back_end.Auth.Passwords.{
  change_password, owns, record_password_history, request_password_reset, reset_password,
  set_password, validate_password,
}
use prop_chain_back_end.Auth.Passwords.History.{
  change_password_revokes, record_password_history_bound,
}
use prop_chain_back_end.Auth.Passwords.Reset.{
  reset_password_once, request_password_reset-reset_password,
}
use prop_chain_back_end.Auth.Sample.{
  db, jwt, config, crypto, fraud, rules, fraud-KeepsFactors, alice, store, token_ids,
}
use prop_chain_back_end.Auth.Tokens.{find_user, issue_token_pair}
use prop_chain_back_end.Auth.TwoFactor.{
  generate_totp_code, is_trusted_device, remember_device, revoke_all_devices, verify_backup_code,
  verify_totp_code,
}
use prop_chain_back_end.Auth.TwoFactor.Codes.{verify_totp_code_window}
use prop_chain_back_end.Auth.TwoFactor.Devices.{revoke_all_devices-is_trusted_device}
use prop_chain_back_end.Fraud.Detection.{
  evaluate_successful_login, evaluate_velocity, record_login_context,
}
use prop_chain_back_end.Sessions.{to_revoke, create_session}

abbrev dto : LoginDto
dto = record {
  email = "alice";
  password = "first";
  captcha_token = none;
  totp_code = none;
  backup_code = some "c1";
  trusted_device_token = none;
  remember_device = true;
}

abbrev wrong_dto : LoginDto
wrong_dto = record dto { password = "wrong" }

abbrev no_captcha : Captcha
no_captcha = record { bypass = false; has_secret = true; response = none }

abbrev login_ids : ℕ → LoginIds
login_ids n = record {
  attempt_id = n;
  history_id = n;
  device_id = n;
  device_token = "device";
  tokens = token_ids n;
}

login_passes :
    ((preflight_checks db crypto config fraud 1000 (login_ids 1) dto no_captcha none store).0
      ≡ ok tt)
    × ((verify_credentials db crypto config fraud 1000 (login_ids 1) alice "first" none store).0
        ≡ ok tt)
    × ((is_trusted_device db crypto 1000 1 none store).0 ≡ false)
    × (verify_backup_code crypto "c1" alice.two_factor_backup_codes ≡ some "c1")
unfolding preflight_checks verify_credentials is_trusted_device verify_backup_code
    LoginRateLimit.is_account_locked LoginRateLimit.get_failed_attempts_count
login_passes = (refl, refl, refl, refl)

login_uses_backup_code_example :
    (factors_of db 1
        (login db crypto jwt config fraud 1000 (login_ids 1) dto no_captcha none none store).1
      ≡ some (true, some "secret", left_codes db crypto config fraud "c1" alice))
    × (verify_backup_code crypto "c1" (left_codes db crypto config fraud "c1" alice) ≡ none)
login_uses_backup_code_example =
    login_uses_backup_code db crypto jwt config fraud fraud-KeepsFactors 1000 (login_ids 1) dto
      no_captcha none none alice "c1" "c1" store login_passes.0 refl refl login_passes.1
      (refl, login_passes.2, refl, refl, refl, login_passes.3)

login_ok :
    (answer : LoginAnswer jwt.Token) × ((login db crypto jwt config fraud 1000
        (login_ids 1)
        dto
        no_captcha
        none
        none
        store).0
      ≡ ok answer)
unfolding login check_login check_factor check_second_factor preflight_checks verify_credentials
    is_trusted_device verify_backup_code LoginRateLimit.is_account_locked
    LoginRateLimit.get_failed_attempts_count LoginRateLimit.record_successful_attempt record_login
    evaluate_successful_login record_login_context evaluate_velocity issue_token_pair create_session
    remember_device
login_ok = (_, refl)

login-IsChecked_example :
    (user : User) × IsChecked db crypto config fraud 1000 dto no_captcha store user
    × (find_user db user.id (
          record_login db crypto config fraud 1000
            (login_ids 1)
            user
            "alice"
            none
            none
            (check_login db crypto config fraud 1000 (login_ids 1) dto no_captcha none store).1)
        ≡ some login_ok.0.user)
    × (login_ok.0.user.is_blocked ≡ false)
login-IsChecked_example =
    login-IsChecked db crypto jwt config fraud 1000 (login_ids 1) dto no_captcha none none store
      login_ok.1

abbrev requested : Store db
requested = request_password_reset db crypto rules 5 0 1 "alice" "link" store

request_password_reset-reset_password_example :
    let (answer, s'') = reset_password db crypto rules 5 1000 2 3 "link" "second" requested in
    (answer ≡ ok tt) × (find_user db 1 s'' ≡ some (set_password db crypto rules 5 "second" alice))
unfolding validate_password
request_password_reset-reset_password_example =
    request_password_reset-reset_password db crypto rules 5 0 1000 1 2 3 "link" "second" store
      {user = alice} refl refl refl (omega arith) refl refl

reset_password_done :
    (reset_password db crypto rules 5 1000 2 3 "link" "second" requested).0 ≡ ok tt
unfolding reset_password request_password_reset validate_password
reset_password_done = refl

reset_password_once_example :
    (reset_password db crypto rules 5 2000 4 5 "link" "third"
      (reset_password db crypto rules 5 1000 2 3 "link" "second" requested).1).0
    ≡ err (bad_request "Reset token has already been used")
reset_password_once_example =
    reset_password_once db crypto rules 5 1000 2000 2 4 3 5 "link" "second" "third" requested
      reset_password_done

change_password_done :
    (change_password db crypto rules 5 1000 2 3 1 "first" "second" store).0 ≡ ok tt
unfolding change_password validate_password
change_password_done = refl

change_password_revokes_example :
    let s' = (change_password db crypto rules 5 1000 2 3 1 "first" "second" store).1 in
    (db.sessions.sessions.count_where (to_revoke 1 none) s'.sessions.sessions ≡ 0)
    × ((is_trusted_device db crypto 2000 1 (some "device") s').0 ≡ false)
change_password_revokes_example =
    change_password_revokes db crypto rules 5 1000 2 3 1 2000 "first" "second" (some "device") store
      refl refl change_password_done

record_password_history_bound_example :
    db.password_history.count_where
      (owns 1)
      (record_password_history db crypto rules 0 1000 2 1 "second" store).password_history
    ≤ 0
record_password_history_bound_example =
    record_password_history_bound db crypto rules 0 1000 2 1 "second" store

revoke_all_devices-is_trusted_device_example :
    let before = remember_device db crypto 90000 0 1 1 "device" none none store in
    (is_trusted_device db crypto 2000 1
      (some "device")
      (revoke_all_devices db crypto 1000 1 before)).0
    ≡ false
revoke_all_devices-is_trusted_device_example =
    revoke_all_devices-is_trusted_device db crypto 1000 2000 1 1 (some "device")
      (remember_device db crypto 90000 0 1 1 "device" none none store)

verify_totp_code_window_example :
    verify_totp_code crypto "secret" (generate_totp_code crypto "secret" 60000) 90000 ≡ true
verify_totp_code_window_example =
    verify_totp_code_window crypto "secret" 60000 90000 (λ n. refl) (omega arith) (omega arith)
      (omega arith)
