-- ===== src/Auth/Tokens/Access.antt =====
-- src/auth/auth.service.ts: what the tokens that are issued are good for, and how long.
use prop_chain_back_end.Base.{
  ℕ, ◌+◌, ◌/◌, ◌≡◌, ◌≤◌, ◌<◌, Bool, true, false, Option, none, some, String, if◌then◌else◌, arith,
  ok, err, unauthorized, conflict,
}
use prop_chain_back_end.Auth.Rows.{User, Database, Store}
use prop_chain_back_end.Auth.Interfaces.{
  JwtPayload, Jwt, Config, FraudHooks, KeepsTokens, VerifiesSigned,
}
use prop_chain_back_end.Auth.Tokens.{
  TokenIds, find_user, blacklist_token, is_refresh, ensure_token_not_blacklisted, issue_token_pair,
  refresh_token, logout, validate_access_token, rotated, token_pair, payload_of, auth_user,
  end_access, ended,
}
use prop_chain_back_end.Auth.Tokens.Blacklist.{
  is_blacklisted, end_refresh-keeps, is_blacklisted-blacklist_token,
}
use prop_chain_back_end.Auth.Tokens.Rotation.{Run, Run-keeps}
use prop_chain_back_end.Sessions.{is_active, access, refresh}
use prop_chain_back_end.Sessions

module _ (db : Database) (jwt : Jwt) (config : Config) (fraud : FraudHooks db) where
  open jwt use {Token}

  -- The user may be given tokens.
  abbrev pub IsAllowed : User → Type 0
  IsAllowed user = (user.is_blocked ≡ false) × (user.is_deactivated ≡ false)

  abbrev pub active_sessions : ℕ → ℕ → Store db → ℕ
  active_sessions user_id now s =
      db.sessions.sessions.count_where (is_active user_id now) s.sessions.sessions

  -- The refresh token of a pair is accepted until it expires and gives a new pair of the same
  -- family: where its id is not on the blacklist, the user is there, neither blocked nor
  -- deactivated, and has fewer active sessions than the limit.
  pub refresh_token-token_pair :
      (signs : VerifiesSigned jwt) (now later family : ℕ) (owner user : User) (ids ids' : TokenIds)
      (ip user_agent : Option String) (s : Store db)
      → later / 1000 < now / 1000 + config.refresh_token_ttl_seconds
      → is_blacklisted db ids.refresh_jti s ≡ false
      → find_user db owner.id s ≡ some user
      → user.id ≡ owner.id
      → IsAllowed user
      → active_sessions owner.id later s < config.max_concurrent_sessions
      → (refresh_token db jwt config fraud later
          (token_pair db jwt config now owner family ids).refresh_token
          ids'
          ip
          user_agent
          s).0
        ≡ ok (token_pair db jwt config later user family ids')
  unfolding refresh_token issue_token_pair Sessions.create_session blacklist_token
  refresh_token-token_pair signs now later family owner user ids ids' ip user_agent s in_time fresh
        found same (unblocked, active) room =
      ground (
        arith,
        found,
        fresh,
        same,
        unblocked,
        active,
        room,
        signs now later (payload_of owner refresh ids.refresh_jti family) config.jwt_refresh_secret
            config.refresh_token_ttl_seconds in_time,
      )

  -- Where the user's active sessions are as many as the limit, a refresh is refused, and the
  -- refresh token is on the blacklist all the same.
  pub refresh_token_full :
      (now exp : ℕ) (token : Token) (payload : JwtPayload) (user : User) (ids : TokenIds)
      (ip user_agent : Option String) (s : Store db)
      → jwt.verify now token config.jwt_refresh_secret ≡ some (payload, exp)
      → is_refresh payload.token_type ≡ true
      → is_blacklisted db payload.jti s ≡ false
      → find_user db payload.sub s ≡ some user
      → IsAllowed user
      → config.max_concurrent_sessions ≤ active_sessions user.id now s
      → let (answer, s') = refresh_token db jwt config fraud now token ids ip user_agent s in
        (answer ≡ err (conflict "Maximum concurrent sessions reached"))
        × (is_blacklisted db payload.jti s' ≡ true)
        × (s'.sessions.sessions ≡ s.sessions.sessions)
  unfolding refresh_token issue_token_pair Sessions.create_session blacklist_token
  refresh_token_full now exp token payload user ids ip user_agent s e is_one fresh found
        (unblocked, active) full =
      let call = rotated db jwt config payload exp user.id ip user_agent in
      let added = is_blacklisted-blacklist_token db payload.jti call s in
      (
        ground (arith, e, is_one, fresh, found, unblocked, active, full),
        ground (arith, e, is_one, fresh, found, unblocked, active, full, added),
        ground (arith, e, is_one, fresh, found, unblocked, active, full),
      )

  -- The access token of a pair authenticates requests until it expires, as the user's row is at
  -- that time: where its id is not on the blacklist and the user is there.
  pub validate_access_token-token_pair :
      (signs : VerifiesSigned jwt) (now later family : ℕ) (owner user : User) (ids : TokenIds)
      (s : Store db)
      → later / 1000 < now / 1000 + config.access_token_ttl_seconds
      → is_blacklisted db ids.access_jti s ≡ false
      → find_user db owner.id s ≡ some user
      → (validate_access_token db jwt config later
          (token_pair db jwt config now owner family ids).access_token
          s).0
        ≡ ok (auth_user db jwt config (payload_of owner access ids.access_jti family) user)
  unfolding validate_access_token ensure_token_not_blacklisted
  validate_access_token-token_pair signs now later family owner user ids s in_time fresh found =
      ground (
        arith,
        found,
        fresh,
        signs now later (payload_of owner access ids.access_jti family) config.jwt_secret
            config.access_token_ttl_seconds in_time,
      )

  end_access-blacklists :
      (now user_id : ℕ) (token : Token) (with_family : Bool) (s : Store db) {payload : JwtPayload}
      {exp : ℕ}
      → jwt.verify now token config.jwt_secret ≡ some (payload, exp)
      → is_blacklisted db payload.jti
          (end_access db jwt config now user_id (some token) with_family s)
        ≡ true
  end_access-blacklists now user_id token with_family s {payload} {exp} e = ground (
    arith,
    e,
    is_blacklisted-blacklist_token db payload.jti
        (ended db jwt config payload exp access user_id
          (if with_family then payload.family else none))
        s,
  )

  logout-blacklists :
      (now user_id : ℕ) (refresh_token : Option Token) (token : Token) (s : Store db)
      {payload : JwtPayload} {exp : ℕ}
      → jwt.verify now token config.jwt_secret ≡ some (payload, exp)
      → is_blacklisted db payload.jti
          (logout db jwt config now user_id refresh_token (some token) s).1
        ≡ true
  unfolding logout
  logout-blacklists now user_id refresh_token token s {payload} e =
      let s' = end_access db jwt config now user_id (some token) true s in
      end_refresh-keeps db jwt config now payload.jti user_id refresh_token s'
        (end_access-blacklists now user_id token true s e)

  -- An access token that logout is given is refused as long as it verifies, whatever refresh token
  -- logout is given with it or none, also where logout itself is refused for that token, and
  -- whatever refreshes, logouts and authenticated requests follow, provided that the fraud checks
  -- leave the token tables alone.
  pub logout-validate_access_token :
      (laws : KeepsTokens db fraud) (now later user_id : ℕ) (refresh_token : Option Token)
      (token : Token) (s s' : Store db) {payload : JwtPayload} {exp : ℕ}
      → jwt.verify now token config.jwt_secret ≡ some (payload, exp)
      → jwt.verify later token config.jwt_secret ≡ some (payload, exp)
      → is_refresh payload.token_type ≡ false
      → Run db jwt config fraud (logout db jwt config now user_id refresh_token (some token) s).1 s'
      → (validate_access_token db jwt config later token s').0
        ≡ err (unauthorized "Token has been revoked")
  unfolding validate_access_token ensure_token_not_blacklisted
  logout-validate_access_token laws now later user_id refresh_token token s s' {payload} e e' kind
        run =
      let kept =
        Run-keeps db jwt config fraud payload.jti laws
          (logout db jwt config now user_id refresh_token (some token) s).1 s' run
          (logout-blacklists now user_id refresh_token token s e) in
      ground (arith, e', kind, kept)

  -- A logout with an expired or invalid refresh token is refused, although its access token is on
  -- the blacklist by then.
  pub logout_invalid_refresh :
      (now user_id : ℕ) (token old : Token) (s : Store db) {payload : JwtPayload} {exp : ℕ}
      → jwt.verify now token config.jwt_secret ≡ some (payload, exp)
      → jwt.verify now old config.jwt_refresh_secret ≡ none
      → let (answer, s') = logout db jwt config now user_id (some old) (some token) s in
        (answer ≡ err (unauthorized "Invalid or expired token"))
        × (is_blacklisted db payload.jti s' ≡ true)
  unfolding logout
  logout_invalid_refresh now user_id token old s e invalid =
      let ended_there = end_access-blacklists now user_id token true s e in
      (ground (arith, invalid), ground (arith, invalid, ended_there))
