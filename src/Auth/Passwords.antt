-- ===== src/Auth/Passwords.antt =====
-- src/auth/password.utils.ts and the password operations of src/auth/auth.service.ts. A query that
-- orders rows by a time gives them newest first.
pub mod History
pub mod Reset
use prop_chain_back_end.Base.{
  ℕ, ◌+◌, Bool, true, false, not, ◌&&◌, ◌||◌, List, [], ◌∷◌, ◌++◌, map, Option, none, some, String,
  if◌then◌else◌, is_some, or_else, Action, unauthorized, not_found, bad_request, pure, gets,
  or_throw, throw_if, modify, ◌>>=◌, ◌>>◌, ◌==◌, ltb, leb, str_eq, any, take, drop, sort_desc,
}
use prop_chain_back_end.Auth.Rows.{
  User, PasswordHistory, PasswordResetToken, Database, Store, password_changed, reset_mail,
}
use prop_chain_back_end.Auth.Interfaces.{Crypto, Config}
use prop_chain_back_end.Auth.Tokens.{find_user, set_sessions}
use prop_chain_back_end.Auth.TwoFactor.{update_user, audit, revoke_all_devices}
use prop_chain_back_end.Sessions

pub record PasswordPolicy : Type 0 where
  pub min_length : ℕ
  pub require_uppercase : Bool
  pub require_lowercase : Bool
  pub require_digit : Bool
  pub require_special : Bool

-- the length of a password and what the four regular expressions answer
pub record PasswordTests : Type 0 where
  pub text_length : String → ℕ
  pub has_uppercase : String → Bool
  pub has_lowercase : String → Bool
  pub has_digit : String → Bool
  pub has_special : String → Bool

pub data PasswordError : Type 0 where
  too_short : ℕ → PasswordError
  no_uppercase no_lowercase no_digit no_special : PasswordError

-- the value of a configuration entry, where it is a number: `minLength > 0 ? minLength : 8`
abbrev pub min_length_of : Option ℕ → ℕ
min_length_of none = 8
min_length_of (some n) = if n == 0 then 8 else n

abbrev pub is_required : Option String → Bool
is_required none = true
is_required (some text) = str_eq text "true"

abbrev pub get_password_policy :
    Option ℕ → Option String → Option String → Option String → Option String → PasswordPolicy
get_password_policy min_length uppercase lowercase digit special = record {
  min_length = min_length_of min_length;
  require_uppercase = is_required uppercase;
  require_lowercase = is_required lowercase;
  require_digit = is_required digit;
  require_special = is_required special;
}

abbrev pub error_if : Bool → PasswordError → List PasswordError
error_if failed e = if failed then e ∷ [] else []

unfoldable pub validate_password : PasswordPolicy → PasswordTests → String → List PasswordError
validate_password policy tests password =
    error_if (ltb (tests.text_length password) policy.min_length) (too_short policy.min_length)
    ++ (error_if (policy.require_uppercase && not (tests.has_uppercase password)) no_uppercase
        ++ (error_if (policy.require_lowercase && not (tests.has_lowercase password)) no_lowercase
            ++ (error_if (policy.require_digit && not (tests.has_digit password)) no_digit
                ++ error_if (policy.require_special && not (tests.has_special password))
                    no_special)))

abbrev pub is_empty : List PasswordError → Bool
is_empty [] = true
is_empty (e ∷ es) = false

-- the policy, and the tests that it is checked by
pub record PasswordRules : Type 0 where
  pub policy : PasswordPolicy
  pub tests : PasswordTests

-- `getPasswordHistoryLimit` for a configured number
abbrev pub get_password_history_limit : Option ℕ → ℕ
get_password_history_limit none = 5
get_password_history_limit (some n) = if n == 0 then 5 else n

abbrev pub owns : ℕ → PasswordHistory → Bool
owns user_id entry = entry.user_id == user_id

abbrev pub has_id : List PasswordHistory → PasswordHistory → Bool
has_id expired entry = any (λ (e : PasswordHistory). e.id == entry.id) expired

abbrev pub expires_now : ℕ → PasswordResetToken → PasswordResetToken
expires_now now token = record token { expires_at = now }

-- `userId, usedAt: null, expiresAt: { gt: now }`
abbrev pub is_open : ℕ → ℕ → PasswordResetToken → Bool
is_open user_id now token =
    (token.user_id == user_id) && (not (is_some token.used_at) && ltb now token.expires_at)

module _ (db : Database) (crypto : Crypto) (rules : PasswordRules) (history_limit : ℕ) where
  -- `assertPasswordMeetsPolicy` and `assertPasswordNotReused`
  abbrev pub meets_policy : String → Bool
  meets_policy password = is_empty (validate_password rules.policy rules.tests password)

  abbrev pub is_reused : String → List PasswordHistory → Bool
  is_reused password recent =
      any (λ (e : PasswordHistory). crypto.compare_password password e.password_hash) recent

  -- the newest entries of the user's history, as many as the limit
  abbrev pub recent_passwords : ℕ → Store db → List PasswordHistory
  recent_passwords user_id s = take history_limit (
      sort_desc (λ (e : PasswordHistory). e.created_at)
        (db.password_history.find_many (owns user_id) s.password_history))

  abbrev pub history_entry : ℕ → ℕ → ℕ → String → PasswordHistory
  history_entry now id user_id password_hash = record {
    id = id;
    user_id = user_id;
    password_hash = password_hash;
    created_at = now;
  }

  unfoldable pub record_password_history : ℕ → ℕ → ℕ → String → Store db → Store db
  record_password_history now id user_id password_hash s =
      let history =
        db.password_history.create (history_entry now id user_id password_hash)
          s.password_history in
      let expired = drop history_limit (
        sort_desc (λ (e : PasswordHistory). e.created_at)
          (db.password_history.find_many (owns user_id) history)) in
      record s { password_history = db.password_history.delete_many (has_id expired) history }

  abbrev pub set_password : String → User → User
  set_password password_hash user = record user { password = some password_hash }

  abbrev pub revoke_sessions : ℕ → ℕ → Store db → Store db
  revoke_sessions now user_id s =
      set_sessions db (Sessions.revoke_all_sessions db.sessions now user_id none s.sessions).1 s

  -- `salt` is that of `hashPassword`, `id` that of the history entry
  unfoldable pub change_password : ℕ → ℕ → ℕ → ℕ → String → String → Action (Store db) (Unit {0})
  change_password now id salt user_id current_password new_password = do
    found ← gets (find_user db user_id)
    user ← or_throw found (not_found "User not found")
    throw_if (not (crypto.compare_password current_password (or_else user.password "")))
        (unauthorized "Current password is incorrect")
    throw_if (not (meets_policy new_password))
        (bad_request "Password does not meet complexity requirements")
    recent ← gets (recent_passwords user_id)
    throw_if (is_reused new_password recent) (bad_request "Password reuse is not allowed")
    modify (update_user db crypto user.id (set_password (crypto.hash_password salt new_password)))
    modify (record_password_history now id user.id (crypto.hash_password salt new_password))
    modify (audit db crypto password_changed user_id)
    modify (revoke_sessions now user.id)
    modify (revoke_all_devices db crypto now user.id)

  abbrev pub find_reset_token : String → Store db → Option PasswordResetToken
  find_reset_token hash s = db.reset_tokens.find_first (λ t. str_eq t.token hash) s.reset_tokens

  abbrev pub reset_row : ℕ → ℕ → ℕ → String → PasswordResetToken
  reset_row now id user_id token = record {
    id = id;
    user_id = user_id;
    token = crypto.sha256 token;
    expires_at = now + 3600000;
    used_at = none;
  }

  -- `reset_token` is the random text that the mail carries; the mail is sent at last
  abbrev pub send_reset : ℕ → ℕ → User → String → Store db → Store db
  send_reset now id user reset_token s = record s {
    reset_tokens =
        db.reset_tokens.create (reset_row now id user.id reset_token)
          (db.reset_tokens.update_many (is_open user.id now) (expires_now now) s.reset_tokens);
    mails = reset_mail user.email reset_token ∷ s.mails;
  }

  unfoldable pub request_password_reset : ℕ → ℕ → String → String → Store db → Store db
  request_password_reset now id email reset_token s =
      elim (db.users.find_first (λ u. str_eq u.email email) s.users) [
        | none ↦ s
        | some user ↦ if user.is_blocked then s else send_reset now id user reset_token s
      ]

  abbrev pub used_row : ℕ → PasswordResetToken → PasswordResetToken
  used_row now token = record token { used_at = some now }

  -- the three calls of the database transaction
  abbrev pub store_reset : ℕ → ℕ → ℕ → ℕ → String → Store db → Store db
  store_reset now id token_id user_id password_hash s =
      record_password_history now id user_id password_hash
        (record (update_user db crypto user_id (set_password password_hash) s) {
          reset_tokens = db.reset_tokens.update token_id (used_row now) s.reset_tokens;
        })

  -- the foreign key gives every token a user; the model answers as to a missing token where none is
  unfoldable pub reset_password : ℕ → ℕ → ℕ → String → String → Action (Store db) (Unit {0})
  reset_password now id salt token new_password = do
    found ← gets (find_reset_token (crypto.sha256 token))
    row ← or_throw found (bad_request "Invalid or expired reset token")
    throw_if (is_some row.used_at) (bad_request "Reset token has already been used")
    throw_if (ltb row.expires_at now) (bad_request "Reset token has expired")
    owner ← gets (find_user db row.user_id)
    user ← or_throw owner (bad_request "Invalid or expired reset token")
    throw_if user.is_blocked (bad_request "Account is blocked")
    throw_if (not (meets_policy new_password))
        (bad_request "Password does not meet complexity requirements")
    recent ← gets (recent_passwords row.user_id)
    throw_if (is_reused new_password recent) (bad_request "Password reuse is not allowed")
    modify (store_reset now id row.id row.user_id (crypto.hash_password salt new_password))
    modify (revoke_sessions now row.user_id)
