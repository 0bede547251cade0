-- ===== src/Auth/Passwords/History.antt =====
-- src/auth/auth.service.ts: the history of a user's passwords, and what changing a password does.
use prop_chain_back_end.Sessions
use prop_chain_back_end.Base.{
  ℕ, ◌≡◌, ◌≤◌, refl, true, false, not, ◌&&◌, List, [], ◌∷◌, Option, none, some, String, or_else,
  arith, ok, count, filter, count_mono, count-filter, drop, sort_desc, count-sort_desc,
  count-take-drop, count-take,
}
use prop_chain_back_end.Table.Laws.{
  count_where-delete_many, count_where-congr, find_unique-update_self,
}
use prop_chain_back_end.Auth.Rows.{User, PasswordHistory, Database, Store, password_changed}
use prop_chain_back_end.Auth.Interfaces.{Crypto, ComparesHashed}
use prop_chain_back_end.Auth.Tokens.{find_user}
use prop_chain_back_end.Auth.TwoFactor.{update_user, audit, is_trusted_device, revoke_all_devices}
use prop_chain_back_end.Auth.TwoFactor.Devices.{revoke_all_devices-is_trusted_device}
use prop_chain_back_end.Auth.Passwords.{
  PasswordRules, owns, has_id, meets_policy, is_reused, recent_passwords, history_entry,
  record_password_history, set_password, revoke_sessions, change_password,
}
use prop_chain_back_end.Sessions.{to_revoke}
use prop_chain_back_end.Sessions.Revocation.{revoke_all_sessions_none_left}

has_id_self :
    (xs : List PasswordHistory) → count (λ (e : PasswordHistory). not (has_id xs e)) xs ≡ 0
has_id_self [] = refl
has_id_self (x ∷ xs) = ground (
  arith,
  has_id_self xs,
  count_mono (λ (e : PasswordHistory). not (has_id (x ∷ xs) e))
      (λ (e : PasswordHistory). not (has_id xs e)) xs (λ e h. ground arith),
)

module _ (db : Database) (crypto : Crypto) (rules : PasswordRules) (history_limit : ℕ) where
  -- After a new password is recorded, the history of its user has at most as many entries as the
  -- limit, whatever it had before.
  pub record_password_history_bound :
      (now id user_id : ℕ) (hash : String) (s : Store db)
      → db.password_history.count_where
          (owns user_id)
          (record_password_history db crypto rules history_limit now id user_id hash
            s).password_history
        ≤ history_limit
  unfolding record_password_history
  record_password_history_bound now id user_id hash s =
      let T = db.password_history in
      let history =
        T.create (history_entry db crypto rules history_limit now id user_id hash)
          s.password_history in
      let own = filter (owns user_id) (T.contents history) in
      let sorted = sort_desc (λ (e : PasswordHistory). e.created_at) own in
      let kept = λ (e : PasswordHistory). not (has_id (drop history_limit sorted) e) in
      rw
        (
          T.find_many_law (owns user_id) history,
          count_where-delete_many T (owns user_id) (has_id (drop history_limit sorted)) history,
          count_where-congr T (λ e. kept e && owns user_id e) (λ e. owns user_id e && kept e)
              history (λ e. ground arith),
          T.count_where_law (λ e. owns user_id e && kept e) history,
        )
        (omega (
          arith,
          count-filter kept (owns user_id) (T.contents history),
          count-sort_desc kept (λ (e : PasswordHistory). e.created_at) own,
          count-take-drop kept history_limit sorted,
          count-take kept history_limit sorted,
          has_id_self (drop history_limit sorted),
        ))

  -- Where changePassword succeeds, the current password was right, the new one meets the policy and
  -- is none of the recent ones, and the user's row has a hash that accepts the new password.
  pub change_password_lem :
      (hashes : ComparesHashed crypto) (now id salt user_id : ℕ) (old new : String) (s : Store db)
      {user : User}
      → find_user db user_id s ≡ some user
      → user.id ≡ user_id
      → let (answer, s') =
          change_password db crypto rules history_limit now id salt user_id old new s in
        answer ≡ ok tt
        → (crypto.compare_password old (or_else user.password "") ≡ true)
          × (meets_policy db crypto rules history_limit new ≡ true)
          × (is_reused db crypto rules history_limit new
                (recent_passwords db crypto rules history_limit user_id s)
              ≡ false)
          × (find_user db user_id s'
              ≡ some
                  (set_password db crypto rules history_limit (crypto.hash_password salt new) user))
          × (crypto.compare_password new (crypto.hash_password salt new) ≡ true)
  unfolding change_password record_password_history Sessions.revoke_all_sessions revoke_all_devices
  change_password_lem hashes now id salt user_id old new s {user} found same done =
      let set = set_password db crypto rules history_limit (crypto.hash_password salt new) in
      let stored = find_unique-update_self db.users user_id set s.users (λ r. refl) found in
      (
        ground (arith, found, done),
        ground (arith, found, done),
        ground (arith, found, done),
        ground (arith, found, done, same, stored),
        hashes salt new,
      )

  -- Where changePassword succeeds, the user has no unrevoked session and no trusted device left.
  pub change_password_revokes :
      (now id salt user_id later : ℕ) (old new : String) (token : Option String) (s : Store db)
      {user : User}
      → find_user db user_id s ≡ some user
      → user.id ≡ user_id
      → let (answer, s') =
          change_password db crypto rules history_limit now id salt user_id old new s in
        answer ≡ ok tt
        → (db.sessions.sessions.count_where (to_revoke user_id none) s'.sessions.sessions ≡ 0)
          × ((is_trusted_device db crypto later user_id token s').0 ≡ false)
  unfolding change_password record_password_history revoke_all_devices
  change_password_revokes now id salt user_id later old new token s {user} found same done =
      let hash = crypto.hash_password salt new in
      let stored =
        update_user db crypto user.id (set_password db crypto rules history_limit hash) s in
      let recorded =
        record_password_history db crypto rules history_limit now id user.id hash stored in
      let logged_out =
        revoke_sessions db crypto rules history_limit now user.id
          (audit db crypto password_changed user_id recorded) in
      ground (
        arith,
        found,
        done,
        same,
        revoke_all_sessions_none_left db.sessions now user.id none s.sessions,
        revoke_all_devices-is_trusted_device db crypto now later user.id user_id token logged_out,
      )
