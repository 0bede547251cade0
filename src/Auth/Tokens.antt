-- ===== src/Auth/Tokens.antt =====
-- src/auth/auth.service.ts: the tokens, their rotation, the blacklist and the two logouts. Ids that the
-- database or `randomUUID` generates are arguments of the calls.
mod Rows
pub mod Blacklist
pub mod Rotation
pub mod Access
use prop_chain_back_end.Base.{
  ℕ, ◌+◌, ◌*◌, Bool, true, false, not, ◌&&◌, ◌||◌, Option, none, some, String, if◌then◌else◌,
  or_else, is_some, Action, Result, ok, err, unauthorized, not_found, pure, gets, throw,
  from_result, or_throw, throw_if, modify, within, ◌>>=◌, ◌>>◌, ◌==◌, ltb, opt_eq,
}
use prop_chain_back_end.Auth.Rows.{User, Database, Store}
use prop_chain_back_end.Auth.Interfaces.{JwtPayload, Jwt, Config, FraudHooks}
use prop_chain_back_end.Sessions.{TokenType, BlacklistedToken, access, refresh}
use prop_chain_back_end.Sessions
pub use Rows.*

module _ (db : Database) where
  abbrev pub set_sessions : Sessions.Store db.sessions → Store db → Store db
  set_sessions t s = record s { sessions = t }

  abbrev pub find_token : ℕ → Store db → Option BlacklistedToken
  find_token jti s = db.sessions.blacklist.find_unique jti s.sessions.blacklist

  abbrev pub find_user : ℕ → Store db → Option User
  find_user id s = db.users.find_unique id s.users

  -- `blacklistToken`
  unfoldable pub blacklist_token : TokenToBlacklist → Store db → Store db
  blacklist_token call s =
      let t = s.sessions.blacklist in
      set_sessions
        (record s.sessions {
          blacklist =
              if is_some (find_token call.jti s)
              then db.sessions.blacklist.update call.jti (blacklist_update call) t
              else db.sessions.blacklist.create (blacklist_row call) t;
        })
        s

  -- `ensureTokenNotBlacklisted`
  unfoldable pub ensure_token_not_blacklisted : ℕ → Action (Store db) (Unit {0})
  ensure_token_not_blacklisted jti = do
    found ← gets (find_token jti)
    throw_if (is_some found) (unauthorized "Token has been revoked")

  -- the row of a token that is used again; an address that is missing does not replace the old one
  abbrev pub reused_row : ℕ → Option String → Option String → BlacklistedToken → BlacklistedToken
  reused_row now ip_address user_agent r = record r {
    reused_at = some now;
    ip_address = if is_some ip_address then ip_address else r.ip_address;
    user_agent = if is_some user_agent then user_agent else r.user_agent;
  }

  -- `handleTokenReuse`: the tokens of the family are counted for the log, and nothing else
  unfoldable pub handle_token_reuse : ℕ → ℕ → Option String → Option String → Store db → Store db
  handle_token_reuse now jti ip_address user_agent s =
      set_sessions
        (record s.sessions {
          blacklist =
              db.sessions.blacklist.update jti (reused_row now ip_address user_agent)
                s.sessions.blacklist;
        })
        s

module _ (db : Database) (jwt : Jwt) (config : Config) where
  open jwt use {Token}

  -- `verifyToken`
  abbrev pub verify_token : ℕ → Token → String → Result (JwtPayload × ℕ)
  verify_token now token secret = elim (jwt.verify now token secret) [
    | none ↦ err (unauthorized "Invalid or expired token")
    | some found ↦ ok found
  ]

  abbrev pub token_pair : ℕ → User → ℕ → TokenIds → TokenPair Token
  token_pair now user family ids = record {
    access_token =
        jwt.sign now (payload_of user access ids.access_jti family) config.jwt_secret
          config.access_token_ttl_seconds;
    refresh_token =
        jwt.sign now (payload_of user refresh ids.refresh_jti family) config.jwt_refresh_secret
          config.refresh_token_ttl_seconds;
    access_token_expires_in = config.access_token_ttl_seconds;
    refresh_token_expires_in = config.refresh_token_ttl_seconds;
  }

  abbrev pub session_call : TokenIds → Option String → Option String → Sessions.NewSession
  session_call ids ip_address user_agent = record {
    id = ids.session_id;
    access_jti = ids.access_jti;
    refresh_jti = ids.refresh_jti;
    ip_address = ip_address;
    user_agent = user_agent;
    expires_in_seconds = config.refresh_token_ttl_seconds;
  }

  -- `issueTokenPair`
  unfoldable pub issue_token_pair :
      ℕ
      → User
      → Option ℕ
      → TokenIds
      → Option String
      → Option String
      → Action (Store db) (TokenPair Token)
  issue_token_pair now user family ids ip_address user_agent = do
    session ←
        within (λ s. s.sessions) (set_sessions db)
          (Sessions.create_session db.sessions config.sanitize_text config.includes
            config.max_concurrent_sessions now user.id (session_call ids ip_address user_agent))
    pure (token_pair now user (or_else family ids.family) ids)

  -- the token that a rotation uses up
  abbrev pub rotated : JwtPayload → ℕ → ℕ → Option String → Option String → TokenToBlacklist
  rotated payload exp user_id ip_address user_agent = record {
    jti = payload.jti;
    token_type = refresh;
    expires_at = exp * 1000;
    user_id = user_id;
    token_family = payload.family;
    ip_address = ip_address;
    user_agent = user_agent;
  }

  -- `refreshToken` for a token that was used before
  abbrev pub refuse_reuse :
      FraudHooks db
      → ℕ
      → JwtPayload
      → Option String
      → Option String
      → Action (Store db) (TokenPair Token)
  refuse_reuse fraud now payload ip_address user_agent = do
    modify (handle_token_reuse db now payload.jti ip_address user_agent)
    modify (fraud.handle_token_reuse now payload.sub payload.jti ip_address)
    throw (unauthorized "Token reuse detected")

  -- `refreshToken` for a token that was not
  abbrev pub rotate :
      ℕ
      → JwtPayload
      → ℕ
      → TokenIds
      → Option String
      → Option String
      → Action (Store db) (TokenPair Token)
  rotate now payload exp ids ip_address user_agent = do
    found ← gets (find_user db payload.sub)
    user ← or_throw found (unauthorized "User no longer exists")
    throw_if user.is_blocked (unauthorized "Your account has been blocked")
    throw_if user.is_deactivated (unauthorized "Your account has been deactivated")
    modify (blacklist_token db (rotated payload exp user.id ip_address user_agent))
    issue_token_pair now user payload.family ids ip_address user_agent

  -- the answer leaves out the user
  unfoldable pub refresh_token :
      FraudHooks db
      → ℕ
      → Token
      → TokenIds
      → Option String
      → Option String
      → Action (Store db) (TokenPair Token)
  refresh_token fraud now token ids ip_address user_agent = do
    (payload, exp) ← from_result (verify_token now token config.jwt_refresh_secret)
    throw_if (not (is_refresh payload.token_type)) (unauthorized "Invalid refresh token")
    used ← gets (find_token db payload.jti)
    elim (is_some used) [
      | true ↦ refuse_reuse fraud now payload ip_address user_agent
      | false ↦ rotate now payload exp ids ip_address user_agent
    ]

  -- the token of a logout; a logout has no address and no agent
  abbrev pub ended : JwtPayload → ℕ → TokenType → ℕ → Option ℕ → TokenToBlacklist
  ended payload exp token_type user_id family = record {
    jti = payload.jti;
    token_type = token_type;
    expires_at = exp * 1000;
    user_id = user_id;
    token_family = family;
    ip_address = none;
    user_agent = none;
  }

  -- the access token of a logout; an invalid one is passed over
  abbrev pub end_access : ℕ → ℕ → Option Token → Bool → Store db → Store db
  end_access now user_id none with_family s = s
  end_access now user_id (some token) with_family s =
      elim (jwt.verify now token config.jwt_secret) [
        | none ↦ s
        | some (payload, exp) ↦
            blacklist_token db
              (ended payload exp access user_id (if with_family then payload.family else none)) s
      ]

  -- the refresh token of a logout; the `catch` throws an UnauthorizedException again
  abbrev pub end_refresh : ℕ → ℕ → Option Token → Action (Store db) (Unit {0})
  end_refresh now user_id none = pure tt
  end_refresh now user_id (some token) = do
    (payload, exp) ← from_result (verify_token now token config.jwt_refresh_secret)
    throw_if (not (payload.sub == user_id))
        (unauthorized "Refresh token does not belong to the current user")
    modify (blacklist_token db (ended payload exp refresh user_id payload.family))

  unfoldable pub logout : ℕ → ℕ → Option Token → Option Token → Action (Store db) (Unit {0})
  logout now user_id refresh_token access_token = do
    modify (end_access now user_id access_token true)
    end_refresh now user_id refresh_token

  -- the answer is the number of refresh tokens of the user on the blacklist that have not expired
  unfoldable pub logout_all_devices : ℕ → ℕ → Option Token → Action (Store db) ℕ
  logout_all_devices now user_id access_token = do
    modify (end_access now user_id access_token false)
    modify (λ s.
        set_sessions db (Sessions.revoke_all_sessions db.sessions now user_id none s.sessions).1 s)
    gets (λ s.
        db.sessions.blacklist.count_where
          (λ r. (r.user_id == user_id) && (is_refresh r.token_type && ltb now r.expires_at))
          s.sessions.blacklist)

  -- what a request is authenticated as; the email, the role and the tier are those of the row
  abbrev pub auth_user : JwtPayload → User → JwtPayload
  auth_user payload user = record payload {
    email = user.email;
    role = user.role;
    tier = user.tier;
    family = none;
  }

  unfoldable pub validate_access_token : ℕ → Token → Action (Store db) JwtPayload
  validate_access_token now token = do
    (payload, exp) ← from_result (verify_token now token config.jwt_secret)
    throw_if (is_refresh payload.token_type) (unauthorized "Invalid access token")
    ensure_token_not_blacklisted db payload.jti
    found ← gets (find_user db payload.sub)
    user ← or_throw found (unauthorized "User no longer exists")
    modify (λ s.
        if is_inactive now user
        then record s {
          users =
              db.users.update payload.sub (λ (r : User). record r { last_activity_at = some now })
                s.users;
        }
        else s)
    pure (auth_user payload user)

  unfoldable pub me : ℕ → Action (Store db) User
  me user_id = do found ← gets (find_user db user_id); or_throw found (not_found "User not found")
