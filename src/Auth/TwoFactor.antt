-- ===== src/Auth/TwoFactor.antt =====
-- src/auth/two-factor.service.ts, src/auth/security.utils.ts and the calls of src/auth/auth.service.ts
-- that manage the second factor. A text is blank when it is empty once trimmed.
pub mod Devices
pub mod Codes
use prop_chain_back_end.Base.{
  ℕ, ◌+◌, ◌-◌, ◌*◌, ◌/◌, ◌%◌, ◌^◌, Bool, true, false, not, ◌&&◌, ◌||◌, List, [], ◌∷◌, map, Option,
  none, some, String, if◌then◌else◌, is_some, or_else, Action, unauthorized, not_found, bad_request,
  pure, gets, or_throw, throw_if, modify, ◌>>=◌, ◌>>◌, ◌==◌, ltb, leb, str_eq, find, filter,
}
use prop_chain_back_end.Auth.Rows.{
  User, TrustedDevice, Database, Store, AuthEvent, password_changed, two_factor_enabled,
  two_factor_disabled, recovery_codes_regenerated, two_factor_force_disabled,
}
use prop_chain_back_end.Auth.Interfaces.{Crypto, Config}
use prop_chain_back_end.Auth.Tokens.{find_user}

-- the byte of a list at a place; 0 past the end, where `hmac[i]` is undefined
abbrev pub byte_at : List ℕ → ℕ → ℕ
byte_at [] i = 0
byte_at (x ∷ xs) i = if i == 0 then x else byte_at xs (i - 1)

abbrev pub last_byte : List ℕ → ℕ
last_byte [] = 0
last_byte (x ∷ []) = x
last_byte (x ∷ y ∷ xs) = last_byte (y ∷ xs)

-- `generateTotpCode` from the HMAC: the bits of the source, `& 0x7f`, `<< 24` and so on, are
-- remainders and multiples of powers of two. The digits are 6, and the code is a number here.
unfoldable pub truncate : List ℕ → ℕ
truncate hmac =
    let offset = last_byte hmac % 16 in
    ((byte_at hmac offset % 128) * 2 ^ 24
      + (byte_at hmac (offset + 1) % 256) * 2 ^ 16
      + (byte_at hmac (offset + 2) % 256) * 2 ^ 8
      + byte_at hmac (offset + 3) % 256)
    % 1000000

-- the period of a code is 30 seconds
unfoldable pub generate_totp_code : Crypto → String → ℕ → String
generate_totp_code crypto secret timestamp =
    crypto.decimal (truncate (crypto.totp_digest secret (timestamp / 1000 / 30)))

-- the code of the period before, of this one and of the one after; the clock is past its first period
unfoldable pub verify_totp_code : Crypto → String → String → ℕ → Bool
verify_totp_code crypto secret code timestamp =
    str_eq (generate_totp_code crypto secret (timestamp - 30000)) (crypto.trim code)
    || (str_eq (generate_totp_code crypto secret timestamp) (crypto.trim code)
        || str_eq (generate_totp_code crypto secret (timestamp + 30000)) (crypto.trim code))

-- the hash of a code as `verifyBackupCode` computes it
abbrev pub backup_digest : Crypto → String → String
backup_digest crypto candidate = crypto.sha256 (crypto.to_upper_case (crypto.trim candidate))

unfoldable pub verify_backup_code : Crypto → String → List String → Option String
verify_backup_code crypto candidate hashes =
    find (λ hash. str_eq hash (backup_digest crypto candidate)) hashes

-- `token?.trim()`, and nothing where that is empty
abbrev pub normalized : Crypto → Option String → Option String
normalized crypto none = none
normalized crypto (some token) =
    if str_eq (crypto.trim token) "" then none else some (crypto.trim token)

abbrev pub is_of : ℕ → TrustedDevice → Bool
is_of user_id device = (device.user_id == user_id) && not (is_some device.revoked_at)

-- the tests of `isTrustedDevice` on the device that has the token
abbrev pub is_trusted : ℕ → ℕ → TrustedDevice → Bool
is_trusted now user_id device = is_of user_id device && ltb now device.expires_at

abbrev pub touched : ℕ → TrustedDevice → TrustedDevice
touched now device = record device { last_used_at = some now }

abbrev pub revoked_device : ℕ → TrustedDevice → TrustedDevice
revoked_device now device = record device { revoked_at = some now }

abbrev pub with_backup_codes : List String → User → User
with_backup_codes codes user = record user { two_factor_backup_codes = codes }

abbrev pub enrolled : String → List String → User → User
enrolled secret codes user = record user {
  two_factor_secret = some secret;
  two_factor_enabled = false;
  two_factor_backup_codes = codes;
}

abbrev pub enabled : User → User
enabled user = record user { two_factor_enabled = true }

abbrev pub disabled : User → User
disabled user = record user {
  two_factor_enabled = false;
  two_factor_secret = none;
  two_factor_backup_codes = [];
}

module _ (db : Database) (crypto : Crypto) where
  abbrev pub find_device : String → Store db → Option TrustedDevice
  find_device hash s =
      db.trusted_devices.find_first (λ d. str_eq d.token_hash hash) s.trusted_devices

  abbrev pub touch : ℕ → ℕ → Store db → Store db
  touch now id s = record s {
    trusted_devices = db.trusted_devices.update id (touched now) s.trusted_devices;
  }

  unfoldable pub is_trusted_device : ℕ → ℕ → Option String → Store db → Bool × Store db
  is_trusted_device now user_id token s = elim (normalized crypto token) [
    | none ↦ (false, s)
    | some text ↦ elim (find_device (crypto.sha256 text) s) [
      | none ↦ (false, s)
      | some device ↦
          if is_trusted now user_id device then (true, touch now device.id s) else (false, s)
    ]
  ]

  -- the row of `rememberDevice`; `token` is the random text of `randomToken`
  abbrev pub trusted_device : ℕ → ℕ → ℕ → ℕ → String → Option String → Option String → TrustedDevice
  trusted_device ttl_ms now id user_id token user_agent ip_address = record {
    id = id;
    user_id = user_id;
    token_hash = crypto.sha256 token;
    label = none;
    user_agent = user_agent;
    ip_address = ip_address;
    last_used_at = none;
    expires_at = now + ttl_ms;
    revoked_at = none;
  }

  unfoldable pub remember_device :
      ℕ → ℕ → ℕ → ℕ → String → Option String → Option String → Store db → Store db
  remember_device ttl_ms now id user_id token user_agent ip_address s = record s {
    trusted_devices =
        db.trusted_devices.create (trusted_device ttl_ms now id user_id token user_agent ip_address)
          s.trusted_devices;
  }

  unfoldable pub list_devices : ℕ → ℕ → Store db → List TrustedDevice
  list_devices now user_id s =
      db.trusted_devices.find_many (is_trusted now user_id) s.trusted_devices

  -- the answer tells whether the device was revoked already
  unfoldable pub revoke_device : ℕ → ℕ → ℕ → Action (Store db) Bool
  revoke_device now user_id id = do
    found ← gets (λ s. db.trusted_devices.find_unique id s.trusted_devices)
    device ← or_throw found (not_found "Trusted device not found")
    throw_if (not (device.user_id == user_id)) (not_found "Trusted device not found")
    modify (λ s. if is_some device.revoked_at then s else record s {
      trusted_devices = db.trusted_devices.update id (revoked_device now) s.trusted_devices;
    })
    pure (is_some device.revoked_at)

  unfoldable pub revoke_all_devices : ℕ → ℕ → Store db → Store db
  revoke_all_devices now user_id s = record s {
    trusted_devices =
        db.trusted_devices.update_many (is_of user_id) (revoked_device now) s.trusted_devices;
  }

  abbrev pub update_user : ℕ → (User → User) → Store db → Store db
  update_user id f s = record s { users = db.users.update id f s.users }

  abbrev pub audit : AuthEvent → ℕ → Store db → Store db
  audit event user_id s = record s { audit = (event, user_id) ∷ s.audit }

  -- the secret and the plain codes are random; the answer, which shows them, is left out
  unfoldable pub setup_two_factor : ℕ → String → List String → Action (Store db) (Unit {0})
  setup_two_factor user_id secret codes = do
    found ← gets (find_user db user_id)
    user ← or_throw found (not_found "User not found")
    modify (update_user user.id (enrolled secret (map crypto.sha256 codes)))

  abbrev pub secret_of : Option User → Option String
  secret_of none = none
  secret_of (some user) = user.two_factor_secret

  unfoldable pub verify_two_factor : ℕ → ℕ → String → Action (Store db) (Unit {0})
  verify_two_factor now user_id code = do
    found ← gets (find_user db user_id)
    secret ←
        or_throw (secret_of found)
          (bad_request "Two-factor authentication has not been initialized")
    throw_if (not (verify_totp_code crypto secret code now))
        (unauthorized "Invalid two-factor authentication code")
    modify (update_user user_id enabled)
    modify (audit two_factor_enabled user_id)

  unfoldable pub disable_two_factor : ℕ → ℕ → String → Action (Store db) (Unit {0})
  disable_two_factor now user_id password = do
    found ← gets (find_user db user_id)
    user ← or_throw found (not_found "User not found")
    throw_if (not (crypto.compare_password password (or_else user.password "")))
        (unauthorized "Password is incorrect")
    modify (update_user user.id disabled)
    modify (revoke_all_devices now user.id)
    modify (audit two_factor_disabled user_id)

  unfoldable pub regenerate_recovery_codes : ℕ → List String → Action (Store db) (List String)
  regenerate_recovery_codes user_id codes = do
    found ← gets (find_user db user_id)
    user ← or_throw found (not_found "User not found")
    throw_if (not user.two_factor_enabled) (bad_request "Two-factor authentication is not enabled")
    modify (update_user user_id (with_backup_codes (map crypto.sha256 codes)))
    modify (audit recovery_codes_regenerated user_id)
    pure codes

  unfoldable pub admin_force_disable_two_factor : ℕ → String → Action (Store db) ℕ
  admin_force_disable_two_factor now email = do
    found ← gets (λ s.
        db.users.find_first (λ u. str_eq u.email (crypto.to_lower_case (crypto.trim email)))
          s.users)
    user ← or_throw found (not_found "User not found")
    modify (update_user user.id disabled)
    modify (revoke_all_devices now user.id)
    modify (audit two_factor_force_disabled user.id)
    pure user.id
