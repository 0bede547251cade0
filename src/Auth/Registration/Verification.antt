-- ===== src/Auth/Registration/Verification.antt =====
-- src/auth/auth.service.ts: from the registration to the first tokens, and the logins with Google.
use prop_chain_back_end.Base.{
  ℕ, ◌≡◌, ◌≤◌, ◌<◌, refl, inl, inr, Option-cases, Bool, true, Option, none, some, String, arith, ok,
  err, bad_request, eq_iff,
}
use prop_chain_back_end.Table.First.{find_first-create}
use prop_chain_back_end.Table.Laws.{find_unique-create_self, find_unique-update_self}
use prop_chain_back_end.Auth.Rows.{User, Database, Store}
use prop_chain_back_end.Auth.Interfaces.{Crypto, Jwt, Config}
use prop_chain_back_end.Auth.Passwords.{PasswordRules}
use prop_chain_back_end.Auth.Tokens.{TokenIds, find_user, token_pair, issue_token_pair}
use prop_chain_back_end.Auth.Registration.{
  RegisterDto, GoogleProfile, RegistrationIds, opt_str_eq, verified, synced, registration_of,
  can_register_from_ip, verification_expires, registered, register, find_by_token,
  verify_initial_email, google_oauth_login,
}
use prop_chain_back_end.Sessions.{is_active}
use prop_chain_back_end.Sessions

module _ (db : Database) (crypto : Crypto) (jwt : Jwt) (config : Config)
    (rules : PasswordRules) where
  abbrev pub HasRoom : ℕ → ℕ → Store db → Type 0
  HasRoom user_id now s =
      db.sessions.sessions.count_where (is_active user_id now) s.sessions.sessions
      < config.max_concurrent_sessions

  -- Registering stores the user, whom the token that is mailed finds.
  register_stores :
      (now : ℕ) (ids : RegistrationIds) (dto : RegisterDto) (ip : Option String) (s : Store db)
      {user : User}
      → (register db crypto config rules now ids dto ip s).0 ≡ ok user
      → let s' = (register db crypto config rules now ids dto ip s).1 in
        let row = registered db crypto config rules now ids dto in
        (find_by_token db jwt config ids.verification_token s' ≡ some row)
        × (find_user db ids.user_id s' ≡ some row)
        × (s'.sessions ≡ s.sessions)
  unfolding register can_register_from_ip
  register_stores now ids dto none s done =
      let user = registered db crypto config rules now ids dto in
      let holds : (User → Bool) =
        λ u. opt_str_eq u.email_verification_token ids.verification_token in
      let same = (eq_iff ids.verification_token ids.verification_token).1 refl in
      (
        ground (arith, done, same, find_first-create db.users holds user s.users),
        ground (arith, done, find_unique-create_self db.users user s.users),
        ground (arith, done),
      )
  register_stores now ids dto (some ip) s done =
      let user = registered db crypto config rules now ids dto in
      let holds : (User → Bool) =
        λ u. opt_str_eq u.email_verification_token ids.verification_token in
      let same = (eq_iff ids.verification_token ids.verification_token).1 refl in
      elim (Option-cases (registration_of db ip s)) [
        | inl unknown ↦ (
          ground (arith, done, unknown, same, find_first-create db.users holds user s.users),
          ground (arith, done, unknown, find_unique-create_self db.users user s.users),
          ground (arith, done, unknown),
        )
        | inr ((addr, expires), known) ↦ (
          ground (arith, done, known, same, find_first-create db.users holds user s.users),
          ground (arith, done, known, find_unique-create_self db.users user s.users),
          ground (arith, done, known),
        )
      ]

  -- A user who registers gets tokens for the token that was mailed, until it expires, where the
  -- user has fewer active sessions than the limit. The answer shows the user verified, and so is
  -- the stored row, which holds no token and no expiry any more.
  pub register-verify_initial_email :
      (now later : ℕ) (ids : RegistrationIds) (token_ids : TokenIds) (dto : RegisterDto)
      (ip ip' user_agent : Option String) (s : Store db) {user : User}
      → (register db crypto config rules now ids dto ip s).0 ≡ ok user
      → later ≤ verification_expires db crypto config rules now
      → HasRoom ids.user_id later s
      → let s' = (register db crypto config rules now ids dto ip s).1 in
        let (answer, s'') =
          verify_initial_email db jwt config later ids.verification_token token_ids ip' user_agent
            s' in
        let row = record (registered db crypto config rules now ids dto) {
          is_verified = true;
          email_verification_token = none;
          email_verification_expires = none;
        } in
        (answer ≡ ok (row, token_pair db jwt config later row token_ids.family token_ids))
        × (find_user db ids.user_id s'' ≡ some row)
  unfolding verify_initial_email issue_token_pair Sessions.create_session
  register-verify_initial_email now later ids token_ids dto ip ip' user_agent s done soon room =
      let s' = (register db crypto config rules now ids dto ip s).1 in
      let user = registered db crypto config rules now ids dto in
      let (by_token, by_id, same) = register_stores now ids dto ip s done in
      let written =
        find_unique-update_self db.users ids.user_id verified s'.users (λ r. refl) by_id in
      (
        ground (arith, by_token, same, soon, room, written),
        ground (arith, by_token, same, soon, room, written),
      )

  register_tracks :
      (now : ℕ) (ids : RegistrationIds) (dto : RegisterDto) (ip : String) (s : Store db)
      {user : User}
      → (register db crypto config rules now ids dto (some ip) s).0 ≡ ok user
      → registration_of db ip (register db crypto config rules now ids dto (some ip) s).1
        ≡ some (ip, verification_expires db crypto config rules now)
  unfolding register can_register_from_ip
  register_tracks now ids dto ip s done = elim (Option-cases (registration_of db ip s)) [
    | inl unknown ↦ ground (arith, done, unknown, (eq_iff ip ip).1 refl)
    | inr ((addr, expires), known) ↦ ground (arith, done, known, (eq_iff ip ip).1 refl)
  ]

  verify_initial_email_ips :
      (now : ℕ) (token : String) (ids : TokenIds) (ip user_agent : Option String) (s : Store db)
      → (verify_initial_email db jwt config now token ids ip user_agent s).1.registration_ips
        ≡ s.registration_ips
  unfolding verify_initial_email issue_token_pair Sessions.create_session
  verify_initial_email_ips now token ids ip user_agent s =
      elim (Option-cases (find_by_token db jwt config token s)) [
        | inl missing ↦ ground (arith, missing)
        | inr (user, found) ↦
            let t = db.users.update user.id verified s.users in
            elim (Option-cases (db.users.find_unique user.id t)) [
              | inl gone ↦ ground (arith, found, gone)
              | inr (row, there) ↦ ground (arith, found, there)
            ]
      ]

  -- An address that registered cannot register again until the token of that registration expires,
  -- also where the email was verified in between.
  pub register_same_ip :
      (now later at : ℕ) (ids ids' : RegistrationIds) (token_ids : TokenIds)
      (dto dto' : RegisterDto) (ip token : String) (ip' user_agent : Option String) (s : Store db)
      {user : User}
      → (register db crypto config rules now ids dto (some ip) s).0 ≡ ok user
      → later ≤ verification_expires db crypto config rules now
      → let s' = (register db crypto config rules now ids dto (some ip) s).1 in
        let s'' = (verify_initial_email db jwt config at token token_ids ip' user_agent s').1 in
        register db crypto config rules later ids' dto' (some ip) s'' ≡ (
          err (bad_request "A registration from this IP is already pending email verification."),
          s'',
        )
  unfolding register can_register_from_ip
  register_same_ip now later at ids ids' token_ids dto dto' ip token ip' user_agent s done soon =
      let s' = (register db crypto config rules now ids dto (some ip) s).1 in
      ground (
        arith,
        soon,
        register_tracks now ids dto ip s done,
        verify_initial_email_ips at token token_ids ip' user_agent s',
      )

  -- A login with Google that finds the user by the Google id gives tokens whatever the user's row
  -- says: one who is blocked or deactivated, or has a second factor, is logged in as any other.
  pub google_oauth_login_found :
      (now id : ℕ) (profile : GoogleProfile) (ids : TokenIds) (s : Store db) {user : User}
      → db.users.find_first (λ (u : User). opt_str_eq u.google_id profile.google_id) s.users
        ≡ some user
      → HasRoom user.id now s
      → (google_oauth_login db jwt config now id profile ids s).0
        ≡ ok
            (synced profile user, token_pair db jwt config now (synced profile user) ids.family ids)
  unfolding google_oauth_login issue_token_pair Sessions.create_session
  google_oauth_login_found now id profile ids s found room = ground (arith, found, room)
