-- ===== src/Auth/Passwords/Reset.antt =====
-- src/auth/auth.service.ts: the tokens that reset a password.
use prop_chain_back_end.Base.{
  ℕ, ◌+◌, ◌≡◌, ◌≢◌, ◌≤◌, ◌<◌, refl, inl, inr, Option-cases, Bool-cases, Bool, true, false, some,
  String, arith, ok, err, bad_request, str_eq, eq_iff,
}
use prop_chain_back_end.Table.Laws.{find_unique-update_self}
use prop_chain_back_end.Table.First.{find_first-create, find_first-update_many, find_first-update}
use prop_chain_back_end.Auth.Rows.{User, PasswordResetToken, Database, Store}
use prop_chain_back_end.Auth.Interfaces.{Crypto}
use prop_chain_back_end.Auth.Tokens.{find_user}
use prop_chain_back_end.Auth.Passwords.{
  PasswordRules, is_open, expires_now, meets_policy, is_reused, recent_passwords, set_password,
  record_password_history, find_reset_token, reset_row, request_password_reset, used_row,
  reset_password,
}
use prop_chain_back_end.Sessions

module _ (db : Database) (crypto : Crypto) (rules : PasswordRules) (history_limit : ℕ) where
  abbrev pub has_hash : String → PasswordResetToken → Bool
  has_hash hash t = str_eq t.token hash

  -- A reset token is used up by the call that it succeeds for: a call that follows with it, at
  -- whatever time, is refused.
  pub reset_password_once :
      (now later id id' salt salt' : ℕ) (token new new' : String) (s : Store db)
      → let (answer, s') = reset_password db crypto rules history_limit now id salt token new s in
        answer ≡ ok tt
        → (reset_password db crypto rules history_limit later id' salt' token new' s').0
          ≡ err (bad_request "Reset token has already been used")
  unfolding reset_password record_password_history Sessions.revoke_all_sessions
  reset_password_once now later id id' salt salt' token new new' s done =
      let hash = crypto.sha256 token in
      elim (Option-cases (find_reset_token db crypto rules history_limit hash s)) [
        | inl missing ↦ ground (arith, missing, done)
        | inr (row, found) ↦ elim (Option-cases (find_user db row.user_id s)) [
          | inl missing ↦ ground (arith, found, missing, done)
          | inr (user, owner) ↦
              let kept =
                find_first-update db.reset_tokens (has_hash hash) row.id
                  (used_row db crypto rules history_limit now) s.reset_tokens (λ r. refl) in
              ground (arith, found, owner, done, kept)
        ]
      ]

  -- A token that requestPasswordReset mails to a user who is not blocked resets the password
  -- within the hour, to any password that meets the policy and is not a recent one.
  pub request_password_reset-reset_password :
      (now later id id' salt : ℕ) (token new : String) (s : Store db) {user : User}
      → db.users.find_first (λ u. str_eq u.email user.email) s.users ≡ some user
      → find_user db user.id s ≡ some user
      → user.is_blocked ≡ false
      → later ≤ now + 3600000
      → meets_policy db crypto rules history_limit new ≡ true
      → is_reused db crypto rules history_limit new
          (recent_passwords db crypto rules history_limit user.id s)
        ≡ false
      → let s' = request_password_reset db crypto rules history_limit now id user.email token s in
        let (answer, s'') =
          reset_password db crypto rules history_limit later id' salt token new s' in
        (answer ≡ ok tt)
        × (find_user db user.id s''
            ≡ some
                (set_password db crypto rules history_limit (crypto.hash_password salt new) user))
  unfolding request_password_reset reset_password record_password_history
      Sessions.revoke_all_sessions
  request_password_reset-reset_password now later id id' salt token new s {user} by_email by_id
        unblocked soon policy fresh =
      let hash = crypto.sha256 token in
      let row = reset_row db crypto rules history_limit now id user.id token in
      let older =
        db.reset_tokens.update_many (is_open user.id now) (expires_now now) s.reset_tokens in
      let created = find_first-create db.reset_tokens (has_hash hash) row older in
      let set = set_password db crypto rules history_limit (crypto.hash_password salt new) in
      let stored = find_unique-update_self db.users user.id set s.users (λ r. refl) by_id in
      (
        ground (
          arith,
          by_email,
          by_id,
          unblocked,
          soon,
          policy,
          fresh,
          created,
          (eq_iff hash hash).1 refl,
        ),
        ground (
          arith,
          by_email,
          by_id,
          unblocked,
          soon,
          policy,
          fresh,
          created,
          stored,
          (eq_iff hash hash).1 refl,
        ),
      )

  -- A new request ends the tokens that the user was mailed before: one that is open at that time is
  -- refused at every later time.
  pub request_password_reset_expires :
      (now later id id' salt : ℕ) (token old new : String) (s : Store db) {user : User}
      {row : PasswordResetToken}
      → db.users.find_first (λ u. str_eq u.email user.email) s.users ≡ some user
      → user.is_blocked ≡ false
      → find_reset_token db crypto rules history_limit (crypto.sha256 old) s ≡ some row
      → is_open user.id now row ≡ true
      → crypto.sha256 token ≢ crypto.sha256 old
      → now < later
      → let s' = request_password_reset db crypto rules history_limit now id user.email token s in
        (reset_password db crypto rules history_limit later id' salt old new s').0
        ≡ err (bad_request "Reset token has expired")
  unfolding request_password_reset reset_password
  request_password_reset_expires now later id id' salt token old new s {user} {row} by_email
        unblocked found still_open differs after =
      let hash = crypto.sha256 old in
      let made = reset_row db crypto rules history_limit now id user.id token in
      let older =
        db.reset_tokens.update_many (is_open user.id now) (expires_now now) s.reset_tokens in
      let kept =
        find_first-update_many db.reset_tokens (has_hash hash) (is_open user.id now)
          (expires_now now) s.reset_tokens (λ r. refl) in
      elim (Bool-cases (str_eq made.token hash)) [
        | inl same ↦ elim (differs ((eq_iff made.token hash).0 same)) [ ]
        | inr other ↦ ground (
          arith,
          by_email,
          unblocked,
          found,
          still_open,
          after,
          kept,
          other,
          find_first-create db.reset_tokens (has_hash hash) made older,
        )
      ]
