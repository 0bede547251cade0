-- ===== src/Auth/KeyTests.antt =====
-- The theorems on API keys, registration, retries and fraud alerts, at one user.
use prop_chain_back_end.Base.{
  ℕ, ◌+◌, ◌≤◌, ◌<◌, ◌≡◌, refl, List, [], ◌∷◌, All, length, Option, none, some, String, true, false,
  ok, err, unauthorized, arith, max, ◌==◌, if◌then◌else◌, eq_iff,
}
use prop_chain_back_end.Auth.Rows.{User, ApiKey, Store}
use prop_chain_back_end.Auth.ApiKeys.{
  find_by_value, check_quota, record_usage, get_monthly_usage, new_key, rotate_api_key, rotated_dto,
  validate_api_key,
}
use prop_chain_back_end.Auth.ApiKeys.Validity.{rotate_api_key_lem}
use prop_chain_back_end.Auth.ApiKeys.Quota.{Request, run_requests, usage, run_requests-quota}
use prop_chain_back_end.Auth.Passwords.{validate_password}
use prop_chain_back_end.Auth.Registration.{
  RegisterDto, RegistrationIds, can_register_from_ip, register, registered, verify_initial_email,
}
use prop_chain_back_end.Auth.Registration.Verification.{register-verify_initial_email}
use prop_chain_back_end.Auth.Retry.{
  Outcome, returned, failed, retry_with_backoff, retry_with_backoff_bound,
  retry_with_backoff_returns,
}
use prop_chain_back_end.Auth.Sample.{db, jwt, config, crypto, rules, store, token_ids}
use prop_chain_back_end.Auth.Tokens.{find_user, token_pair}
use prop_chain_back_end.Fraud.{AlertPayload, create_or_update_alert, user_payload}
use prop_chain_back_end.Fraud.Rows.{FraudPattern, FraudSeverity}
use prop_chain_back_end.Fraud.Single.{open_alerts, create_or_update_alert_single}

-- a key of alice's with a quota of no use, and one without a quota
abbrev api_key : ℕ → String → Option ℕ → ApiKey
api_key id value quota = record {
  id = id;
  user_id = 1;
  name = "key";
  key_hash = value;
  permissions = [];
  usage_count = 0;
  monthly_quota = quota;
  last_used_at = none;
  expires_at = none;
  revoked_at = none;
}

abbrev with_keys : Store db
with_keys = record store {
  api_keys = api_key 1 "k1" (some 3) ∷ api_key 2 "k2" none ∷ [];
  usage = record { id = 1; api_key_id = 1; date = 0; request_count = 2 } ∷ [];
}

abbrev requests : List Request
requests =
    record { now = 1000; today = 0; usage_id = 2 }
    ∷ record { now = 2000; today = 0; usage_id = 3 }
    ∷ []

-- Of two requests the quota of three lets one through, after two earlier ones.
one_accepted : (run_requests db crypto "k1" 0 requests with_keys).0 ≡ 1
unfolding run_requests validate_api_key check_quota get_monthly_usage record_usage
one_accepted = refl

run_requests-quota_example :
    let (accepted, s') = run_requests db crypto "k1" 0 requests with_keys in
    (accepted + usage db crypto "k1" 0 1 with_keys ≤ max 3 (usage db crypto "k1" 0 1 with_keys))
    × (accepted + usage db crypto "k1" 0 1 with_keys ≤ usage db crypto "k1" 0 1 s')
run_requests-quota_example =
    run_requests-quota db crypto "k1" 0 requests (api_key 1 "k1" (some 3)) 3 with_keys (omega arith)
      (refl, refl, refl) (omega arith, (omega arith, tt))

rotate_api_key_lem_example :
    let (answer, s') = rotate_api_key db crypto 1000 3 1 2 "k3" with_keys in
    ((validate_api_key db crypto 2000 0 0 2 "k2" s').0 ≡ err (unauthorized "Invalid API key"))
    × (find_by_value db crypto "k3" s'
        ≡ some (new_key db crypto 3 1 (rotated_dto db crypto (api_key 2 "k2" none)) "k3"))
rotate_api_key_lem_example =
    rotate_api_key_lem db crypto 1000 2000 0 0 2 3 2 1 "k2" "k3" with_keys refl refl
      (λ e. ground (arith, (eq_iff "k3" "k2").1 e))

abbrev bob : RegisterDto
bob = record {
  email = "bob";
  password = "password";
  first_name = "Bob";
  last_name = "Ng";
  phone = none;
}

abbrev bob_ids : RegistrationIds
bob_ids = record { user_id = 2; history_id = 1; salt = 0; verification_token = "mailed" }

bob_registers :
    (register db crypto config rules 0 bob_ids bob (some "ip") store).0
    ≡ ok (registered db crypto config rules 0 bob_ids bob)
unfolding register can_register_from_ip validate_password
bob_registers = refl

abbrev verified_bob : User
verified_bob = record (registered db crypto config rules 0 bob_ids bob) {
  is_verified = true;
  email_verification_token = none;
  email_verification_expires = none;
}

register-verify_initial_email_example :
    let (answer, s') =
      verify_initial_email db jwt config 1000 "mailed"
        (token_ids 1)
        none
        none
        (register db crypto config rules 0 bob_ids bob (some "ip") store).1 in
    (answer ≡ ok (verified_bob, token_pair db jwt config 1000 verified_bob 7 (token_ids 1)))
    × (find_user db 2 s' ≡ some verified_bob)
register-verify_initial_email_example =
    register-verify_initial_email db crypto jwt config rules 0 1000 bob_ids (token_ids 1) bob
      (some "ip") none none store bob_registers (omega arith) (omega arith)

abbrev answers : ℕ → Outcome ℕ ℕ
answers n = if n == 3 then returned 7 else failed n

retry_with_backoff_bound_example :
    let (outcome, delays, calls) = retry_with_backoff answers (λ e. true) 3 300 2000 (λ n. 500) in
    (calls ≤ max 1 3) × (length delays + 1 ≡ calls) × All (λ delay. delay ≤ 2000) delays
retry_with_backoff_bound_example =
    retry_with_backoff_bound answers (λ e. true) 3 300 2000 (λ n. 500) (λ n. omega arith)

early_failure : (n : ℕ) → n < 3 → answers n ≡ failed n
early_failure n below = ground (arith, below)

retry_with_backoff_returns_example :
    (retry_with_backoff answers (λ e. true) 3 300 2000 (λ n. 500)).0 ≡ returned 7
retry_with_backoff_returns_example =
    retry_with_backoff_returns answers (λ e. true) 3 300 2000 (λ n. 500) 3 (omega arith)
      (omega arith) (λ n from upto. (n, early_failure n upto, refl)) refl

abbrev alert : AlertPayload
alert = user_payload 1 FraudPattern.new_device_login FraudSeverity.low 24 false

create_or_update_alert_single_example :
    open_alerts db alert (create_or_update_alert db true (λ id. false) 1000 1 alert store)
    ≡ max 1 (open_alerts db alert store)
create_or_update_alert_single_example =
    create_or_update_alert_single db true (λ id. false) 1000 1 alert store
