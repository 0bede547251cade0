-- ===== src/Auth/Tokens/Blacklist.antt =====
-- src/auth/auth.service.ts: a token stays on the blacklist, whatever calls of the service follow.
use prop_chain_back_end.Sessions
use prop_chain_back_end.Base.{
  ℕ, ◌≡◌, refl, inl, inr, Option-cases, Bool-cases, Bool, true, false, ◌||◌, Option, none, some,
  String, if◌then◌else◌, is_some, arith, ◌==◌,
}
use prop_chain_back_end.Table.Laws.{
  find_unique-update, find_unique-create_self, find_unique-create_ne,
}
use prop_chain_back_end.Auth.Rows.{User, Database, Store}
use prop_chain_back_end.Auth.Interfaces.{Jwt, Config, FraudHooks, KeepsTokens}
use prop_chain_back_end.Auth.Tokens.{
  TokenIds, TokenToBlacklist, blacklist_row, blacklist_update, find_token, find_user,
  ensure_token_not_blacklisted, blacklist_token, reused_row, handle_token_reuse, issue_token_pair,
  refresh_token, logout, logout_all_devices, validate_access_token, end_access, end_refresh, ended,
  rotated,
}
use prop_chain_back_end.Sessions.{BlacklistedToken, blacklisted_tokens, to_revoke, access, refresh}
use prop_chain_back_end.Sessions.Revocation.{is_blacklisted-insert_tokens}

module _ (db : Database) where
  abbrev pub is_blacklisted : ℕ → Store db → Bool
  is_blacklisted jti s = is_some (find_token db jti s)

  is_some-update :
      (k jti : ℕ) (f : BlacklistedToken → BlacklistedToken) (t : db.sessions.blacklist.Rows)
      → ((r : BlacklistedToken) → (f r).jti ≡ r.jti)
      → is_some (db.sessions.blacklist.find_unique jti (db.sessions.blacklist.update k f t))
        ≡ is_some (db.sessions.blacklist.find_unique jti t)
  is_some-update k jti f t same = elim (Option-cases (db.sessions.blacklist.find_unique jti t)) [
    | inl missing ↦ ground (arith, missing, find_unique-update db.sessions.blacklist jti k f t same)
    | inr (r, found) ↦
        ground (arith, found, find_unique-update db.sessions.blacklist jti k f t same)
  ]

  is_some-create :
      (jti : ℕ) (r : BlacklistedToken) (t : db.sessions.blacklist.Rows)
      → is_some (db.sessions.blacklist.find_unique jti (db.sessions.blacklist.create r t))
        ≡ ((r.jti == jti) || is_some (db.sessions.blacklist.find_unique jti t))
  is_some-create jti r t = ground (
    arith,
    find_unique-create_self db.sessions.blacklist r t,
    find_unique-create_ne db.sessions.blacklist jti r t,
  )

  -- blacklistToken adds its token to the blacklist, which is there before or not, and no other.
  pub is_blacklisted-blacklist_token :
      (jti : ℕ) (call : TokenToBlacklist) (s : Store db)
      → is_blacklisted jti (blacklist_token db call s) ≡ ((call.jti == jti) || is_blacklisted jti s)
  unfolding blacklist_token
  is_blacklisted-blacklist_token jti call s =
      let t = s.sessions.blacklist in
      elim (Bool-cases (is_blacklisted call.jti s)) [
        | inl there ↦
            ground (arith, there, is_some-update call.jti jti (blacklist_update call) t (λ r. refl))
        | inr fresh ↦ ground (arith, fresh, is_some-create jti (blacklist_row call) t)
      ]

  -- handleTokenReuse puts no token on the blacklist and takes none off it.
  pub is_blacklisted-handle_token_reuse :
      (now jti k : ℕ) (ip_address user_agent : Option String) (s : Store db)
      → is_blacklisted jti (handle_token_reuse db now k ip_address user_agent s)
        ≡ is_blacklisted jti s
  unfolding handle_token_reuse
  is_blacklisted-handle_token_reuse now jti k ip_address user_agent s =
      is_some-update k jti (reused_row db now ip_address user_agent) s.sessions.blacklist
        (λ r. refl)

module _ (db : Database) (jwt : Jwt) (config : Config) where
  open jwt use {Token}

  pub is_blacklisted-issue_token_pair :
      (now jti : ℕ) (user : User) (family : Option ℕ) (ids : TokenIds)
      (ip_address user_agent : Option String) (s : Store db)
      → is_blacklisted db jti
          (issue_token_pair db jwt config now user family ids ip_address user_agent s).1
        ≡ is_blacklisted db jti s
  unfolding issue_token_pair Sessions.create_session
  is_blacklisted-issue_token_pair now jti user family ids ip_address user_agent s = ground arith

  end_access-keeps :
      (now jti user_id : ℕ) (token : Option Token) (with_family : Bool) (s : Store db)
      → is_blacklisted db jti s ≡ true
      → is_blacklisted db jti (end_access db jwt config now user_id token with_family s) ≡ true
  end_access-keeps now jti user_id none with_family s h = h
  end_access-keeps now jti user_id (some token) with_family s h =
      elim (Option-cases (jwt.verify now token config.jwt_secret)) [
        | inl refused ↦ ground (arith, refused, h)
        | inr ((payload, exp), e) ↦ ground (
          arith,
          e,
          h,
          is_blacklisted-blacklist_token db jti
              (ended db jwt config payload exp access user_id
                (if with_family then payload.family else none))
              s,
        )
      ]

  -- A token on the blacklist stays there when a token is refreshed,
  pub refresh_token-keeps :
      (fraud : FraudHooks db) (laws : KeepsTokens db fraud) (now jti : ℕ) (token : Token)
      (ids : TokenIds) (ip_address user_agent : Option String) (s : Store db)
      → is_blacklisted db jti s ≡ true
      → is_blacklisted db jti
          (refresh_token db jwt config fraud now token ids ip_address user_agent s).1
        ≡ true
  unfolding refresh_token
  refresh_token-keeps fraud laws now jti token ids ip_address user_agent s h =
      elim (Option-cases (jwt.verify now token config.jwt_refresh_secret)) [
        | inl refused ↦ ground (arith, refused, h)
        | inr ((payload, exp), e) ↦ elim (Option-cases (find_user db payload.sub s)) [
          | inl missing ↦ ground (
            arith,
            e,
            h,
            missing,
            is_blacklisted-handle_token_reuse db now jti payload.jti ip_address user_agent s,
            laws.handle_token_reuse_sessions now payload.sub payload.jti ip_address
                (handle_token_reuse db now payload.jti ip_address user_agent s),
          )
          | inr (user, found) ↦
              let call = rotated db jwt config payload exp user.id ip_address user_agent in
              ground (
                arith,
                e,
                h,
                found,
                is_blacklisted-handle_token_reuse db now jti payload.jti ip_address user_agent s,
                laws.handle_token_reuse_sessions now payload.sub payload.jti ip_address
                    (handle_token_reuse db now payload.jti ip_address user_agent s),
                is_blacklisted-blacklist_token db jti call s,
                is_blacklisted-issue_token_pair now jti user payload.family ids ip_address
                    user_agent (blacklist_token db call s),
              )
        ]
      ]

  pub end_refresh-keeps :
      (now jti user_id : ℕ) (token : Option Token) (s : Store db)
      → is_blacklisted db jti s ≡ true
      → is_blacklisted db jti (end_refresh db jwt config now user_id token s).1 ≡ true
  end_refresh-keeps now jti user_id none s h = h
  end_refresh-keeps now jti user_id (some token) s h =
      elim (Option-cases (jwt.verify now token config.jwt_refresh_secret)) [
        | inl refused ↦ ground (arith, refused, h)
        | inr ((payload, exp), e) ↦ ground (
          arith,
          e,
          h,
          is_blacklisted-blacklist_token db jti
              (ended db jwt config payload exp refresh user_id payload.family) s,
        )
      ]

  -- when a session is logged out,
  pub logout-keeps :
      (now jti user_id : ℕ) (refresh_token access_token : Option Token) (s : Store db)
      → is_blacklisted db jti s ≡ true
      → is_blacklisted db jti (logout db jwt config now user_id refresh_token access_token s).1
        ≡ true
  unfolding logout
  logout-keeps now jti user_id refresh_token access_token s h =
      end_refresh-keeps now jti user_id refresh_token
        (end_access db jwt config now user_id access_token true s)
        (end_access-keeps now jti user_id access_token true s h)

  -- when all of them are,
  pub logout_all_devices-keeps :
      (now jti user_id : ℕ) (access_token : Option Token) (s : Store db)
      → is_blacklisted db jti s ≡ true
      → is_blacklisted db jti (logout_all_devices db jwt config now user_id access_token s).1 ≡ true
  unfolding logout_all_devices Sessions.revoke_all_sessions
  logout_all_devices-keeps now jti user_id access_token s h =
      let s' = end_access db jwt config now user_id access_token false s in
      let found = db.sessions.sessions.find_many (to_revoke user_id none) s'.sessions.sessions in
      ground (
        arith,
        end_access-keeps now jti user_id access_token false s h,
        is_blacklisted-insert_tokens db.sessions jti (blacklisted_tokens user_id found)
            s'.sessions.blacklist,
      )

  -- and when a request is authenticated.
  pub validate_access_token-keeps :
      (now jti : ℕ) (token : Token) (s : Store db)
      → is_blacklisted db jti s ≡ true
      → is_blacklisted db jti (validate_access_token db jwt config now token s).1 ≡ true
  unfolding validate_access_token ensure_token_not_blacklisted
  validate_access_token-keeps now jti token s h =
      elim (Option-cases (jwt.verify now token config.jwt_secret)) [
        | inl refused ↦ ground (arith, refused, h)
        | inr ((payload, exp), e) ↦ elim (Option-cases (find_user db payload.sub s)) [
          | inl missing ↦ ground (arith, e, h, missing)
          | inr (user, found) ↦ ground (arith, e, h, found)
        ]
      ]
