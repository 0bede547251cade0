-- ===== src/Auth/Registration.antt =====
-- src/auth/auth.service.ts: registration, the verification of the email, the login with Google and the
-- two calls on the lockout. Sending a mail never fails here, since its failures are logged only.
mod Rows
pub mod Verification
use prop_chain_back_end.Auth.LoginRateLimit
use prop_chain_back_end.Base.{
  ℕ, ◌+◌, ◌*◌, Bool, true, false, not, ◌&&◌, ◌||◌, List, [], ◌∷◌, Option, none, some, String,
  if◌then◌else◌, is_some, or_else, Action, bad_request, not_found, pure, runs, gets, or_throw,
  throw_if, modify, ◌>>=◌, ◌>>◌, ◌==◌, ltb, leb, str_eq, filter, find,
}
use prop_chain_back_end.Auth.Rows.{
  User, UserRole, UserTier, PasswordHistory, Database, Store, verification_mail,
}
use prop_chain_back_end.Auth.Interfaces.{Crypto, Jwt, Config}
use prop_chain_back_end.Auth.LoginRateLimit.{LockoutInfo}
use prop_chain_back_end.Auth.Passwords.{PasswordRules, validate_password, is_empty}
use prop_chain_back_end.Auth.Tokens.{TokenIds, TokenPair, find_user, issue_token_pair}
pub use Rows.*

module _ (db : Database) where
  abbrev pub registration_of : String → Store db → Option (String × ℕ)
  registration_of ip s = find (λ (addr, expires). str_eq addr ip) s.registration_ips

  abbrev pub forget_ip : String → List (String × ℕ) → List (String × ℕ)
  forget_ip ip entries = filter (λ (addr, expires). not (str_eq addr ip)) entries

  unfoldable pub can_register_from_ip : ℕ → String → Store db → Bool × Store db
  can_register_from_ip now ip s = elim (registration_of ip s) [
    | none ↦ (true, s)
    | some (addr, expires) ↦
        if ltb expires now
        then (true, record s { registration_ips = forget_ip ip s.registration_ips })
        else (false, s)
  ]

  -- the test of `register` on the address, where there is one
  abbrev pub check_ip : ℕ → Option String → Action (Store db) (Unit {0})
  check_ip now none = pure tt
  check_ip now (some ip) = do
    allowed ← runs (can_register_from_ip now ip)
    throw_if (not allowed)
        (bad_request "A registration from this IP is already pending email verification.")

  -- `registrationIpMap.set`
  abbrev pub track_ip : ℕ → Option String → Store db → Store db
  track_ip expires none s = s
  track_ip expires (some ip) s = record s {
    registration_ips = (ip, expires) ∷ forget_ip ip s.registration_ips;
  }

  abbrev pub find_by_email : String → Store db → Option User
  find_by_email email s = db.users.find_first (λ u. str_eq u.email email) s.users

module _ (db : Database) (crypto : Crypto) (config : Config) (rules : PasswordRules) where
  abbrev pub verification_expires : ℕ → ℕ
  verification_expires now = now + config.verification_ttl_seconds * 1000

  abbrev pub registered : ℕ → RegistrationIds → RegisterDto → User
  registered now ids dto =
      record (new_user now ids.user_id dto.email dto.first_name dto.last_name) {
        password = some (crypto.hash_password ids.salt dto.password);
        phone = dto.phone;
        email_verification_token = some ids.verification_token;
        email_verification_expires = some (verification_expires now);
      }

  abbrev pub first_password : ℕ → RegistrationIds → RegisterDto → PasswordHistory
  first_password now ids dto = record {
    id = ids.history_id;
    user_id = ids.user_id;
    password_hash = crypto.hash_password ids.salt dto.password;
    created_at = now;
  }

  abbrev pub store_user : ℕ → RegistrationIds → RegisterDto → Store db → Store db
  store_user now ids dto s = record s {
    users = db.users.create (registered now ids dto) s.users;
    password_history = db.password_history.create (first_password now ids dto) s.password_history;
    mails = verification_mail dto.email ids.verification_token ∷ s.mails;
  }

  unfoldable pub register :
      ℕ → RegistrationIds → RegisterDto → Option String → Action (Store db) User
  register now ids dto ip = do
    check_ip db now ip
    existing ← gets (find_by_email db dto.email)
    throw_if (is_some existing) (bad_request "A user with that email already exists")
    throw_if (not (is_empty (validate_password rules.policy rules.tests dto.password)))
        (bad_request "Password does not meet complexity requirements")
    modify (store_user now ids dto)
    modify (track_ip db (verification_expires now) ip)
    pure (registered now ids dto)

  unfoldable pub resend_email_verification : ℕ → String → String → Action (Store db) (Unit {0})
  resend_email_verification now email token = do
    found ← gets (find_by_email db email)
    elim found [
      | none ↦ pure tt
      | some user ↦
          if user.is_blocked
          then pure tt
          else throw_if user.is_verified (bad_request "Email already verified")
            >> modify (λ s. record s {
              users = db.users.update user.id (with_token token (verification_expires now)) s.users;
              mails = verification_mail user.email token ∷ s.mails;
            })
    ]

  unfoldable pub unlock_account : ℕ → String → Store db → Store db
  unlock_account now email s = record s {
    attempts =
        LoginRateLimit.unlock_account db.attempts config.login_attempts crypto.to_lower_case now
          email s.attempts;
  }

  -- whether a login may be tried; the rest of the answer is what the lockout gives
  unfoldable pub get_login_status : ℕ → String → Store db → Option LockoutInfo × Bool
  get_login_status now email s =
      let info =
        LoginRateLimit.get_lockout_info db.attempts config.login_attempts crypto.to_lower_case now
          email s.attempts in
      (info, elim info [ none ↦ true | some i ↦ not i.is_locked ])

module _ (db : Database) (jwt : Jwt) (config : Config) where
  abbrev pub find_by_token : String → Store db → Option User
  find_by_token token s =
      db.users.find_first (λ u. opt_str_eq u.email_verification_token token) s.users

  -- the token is cleared before the refusal of an expired one; an update answers the row as it is
  -- then, and throws where there is none
  unfoldable pub verify_initial_email :
      ℕ
      → String
      → TokenIds
      → Option String
      → Option String
      → Action (Store db) (User × TokenPair jwt.Token)
  verify_initial_email now token ids ip_address user_agent = do
    found ← gets (find_by_token token)
    user ← or_throw found (bad_request "Invalid or expired verification token")
    modify (λ s.
        if is_past now user.email_verification_expires
        then record s { users = db.users.update user.id token_cleared s.users }
        else s)
    throw_if (is_past now user.email_verification_expires)
        (bad_request "Verification token has expired")
    throw_if user.is_verified (bad_request "Email already verified")
    modify (λ s. record s { users = db.users.update user.id verified s.users })
    row ← gets (find_user db user.id)
    updated ← or_throw row (not_found "Record to update not found")
    tokens ← issue_token_pair db jwt config now updated none ids ip_address user_agent
    pure (updated, tokens)

  -- the user of a Google profile: found by its id, linked by the email, or created
  abbrev pub google_sync : ℕ → ℕ → GoogleProfile → Store db → User × Store db
  google_sync now id profile s =
      elim (db.users.find_first (λ u. opt_str_eq u.google_id profile.google_id) s.users) [
        | some user ↦ (
          synced profile user,
          record s { users = db.users.update user.id (synced profile) s.users },
        )
        | none ↦ elim (find_by_email db profile.email s) [
          | some user ↦ (
            linked profile user,
            record s { users = db.users.update user.id (linked profile) s.users },
          )
          | none ↦ (
            google_user now id profile,
            record s { users = db.users.create (google_user now id profile) s.users },
          )
        ]
      ]

  unfoldable pub google_oauth_login :
      ℕ → ℕ → GoogleProfile → TokenIds → Action (Store db) (User × TokenPair jwt.Token)
  google_oauth_login now id profile ids = do
    user ← runs (google_sync now id profile)
    tokens ← issue_token_pair db jwt config now user none ids none none
    pure (user, tokens)
