-- ===== src/Sessions.antt =====
-- src/sessions/sessions.service.ts. The time is an argument of each call; identifiers and token ids are
-- numbers, so that `sanitizeIdentifier` has nothing left to do.
mod Tests
pub mod Device
pub mod Limit
pub mod Revocation
use mathlib.Core.Option
use prop_chain_back_end.Base.{
  ℕ, ◌+◌, ◌*◌, Bool, true, false, not, ◌&&◌, List, [], ◌∷◌, ◌++◌, map, Option, none, some, String,
  if◌then◌else◌, or_else, is_some, Action, not_found, conflict, pure, gets, or_throw, throw_if,
  modify, ◌>>=◌, ◌>>◌, ◌==◌, ltb, leb,
}
use prop_chain_back_end.Table.{Table}
use prop_chain_back_end.Sessions.Device.{DeviceInfo, Geo, parse_device_info, lookup_geo_from_ip}

pub record Session : Type 0 where
  pub id : ℕ
  pub user_id : ℕ
  pub access_jti : ℕ
  pub refresh_jti : Option ℕ
  pub ip_address : Option String
  pub user_agent : Option String
  pub display_name : Option String
  pub device_info : DeviceInfo
  pub geo_location : Option Geo
  pub is_revoked : Bool
  pub revoked_at : Option ℕ
  pub expires_at : ℕ
  pub last_activity_at : ℕ
  pub created_at : ℕ

pub data TokenType : Type 0 where
  access refresh : TokenType

pub record BlacklistedToken : Type 0 where
  pub jti : ℕ
  pub token_type : TokenType
  pub expires_at : ℕ
  pub user_id : ℕ
  pub token_family : Option ℕ
  pub ip_address : Option String
  pub user_agent : Option String
  pub reused_at : Option ℕ

pub record Database : Type 1 where
  pub sessions : Table Session (λ r. r.id)
  pub blacklist : Table BlacklistedToken (λ r. r.jti)

-- The tables, and the lists of session ids that were published as revoked, newest first.
pub record Store (db : Database) : Type 0 where
  pub sessions : db.sessions.Rows
  pub blacklist : db.blacklist.Rows
  pub published : List (List ℕ)

pub record NewSession : Type 0 where
  pub id : ℕ
  pub access_jti : ℕ
  pub refresh_jti : ℕ
  pub ip_address : Option String
  pub user_agent : Option String
  pub expires_in_seconds : ℕ

pub record SessionsList : Type 0 where
  pub sessions : List (Session × Bool)
  pub active_count : ℕ
  pub revoked_count : ℕ

-- `where: { userId, isRevoked: false, expiresAt: { gt: now } }`
abbrev pub is_active : ℕ → ℕ → Session → Bool
is_active user_id now s = (s.user_id == user_id) && (not s.is_revoked && ltb now s.expires_at)

abbrev pub is_revoked_of : ℕ → Session → Bool
is_revoked_of user_id s = (s.user_id == user_id) && s.is_revoked

-- `where: { userId, id: { not: exceptSessionId }, isRevoked: false }`
abbrev pub to_revoke : ℕ → Option ℕ → Session → Bool
to_revoke user_id none s = (s.user_id == user_id) && not s.is_revoked
to_revoke user_id (some except) s =
    (s.user_id == user_id) && (not (s.id == except) && not s.is_revoked)

unfoldable pub new_session : (includes : String → String → Bool) → ℕ → ℕ → NewSession → Session
new_session includes now user_id call = record {
  id = call.id;
  user_id = user_id;
  access_jti = call.access_jti;
  refresh_jti = some call.refresh_jti;
  ip_address = call.ip_address;
  user_agent = call.user_agent;
  display_name = none;
  device_info = parse_device_info includes call.user_agent;
  geo_location = lookup_geo_from_ip call.ip_address;
  is_revoked = false;
  revoked_at = none;
  expires_at = now + call.expires_in_seconds * 1000;
  last_activity_at = now;
  created_at = now;
}

abbrev pub revoked_row : ℕ → Session → Session
revoked_row now s = record s { is_revoked = true; revoked_at = some now }

abbrev pub renamed_row : Option String → Session → Session
renamed_row none s = s
renamed_row (some name) s = record s { display_name = some name }

abbrev pub touched_row : ℕ → Session → Session
touched_row now s = record s { last_activity_at = now }

abbrev pub session_token : ℕ → ℕ → TokenType → ℕ → BlacklistedToken
session_token user_id jti token_type expires_at = record {
  jti = jti;
  token_type = token_type;
  expires_at = expires_at;
  user_id = user_id;
  token_family = none;
  ip_address = none;
  user_agent = none;
  reused_at = none;
}

-- the tokens of one session, as `revokeAllSessions` lists them
abbrev pub tokens_of : ℕ → Session → List BlacklistedToken
tokens_of user_id s = session_token user_id s.access_jti access s.expires_at ∷ (elim s.refresh_jti [
  | none ↦ []
  | some jti ↦ session_token user_id jti refresh s.expires_at ∷ []
])

abbrev pub blacklisted_tokens : ℕ → List Session → List BlacklistedToken
blacklisted_tokens user_id [] = []
blacklisted_tokens user_id (s ∷ ss) = tokens_of user_id s ++ blacklisted_tokens user_id ss

module _ (db : Database) (sanitize_text : String → String) (includes : String → String → Bool)
    (max_concurrent_sessions : ℕ) where
  open db use {sessions, blacklist}

  unfoldable pub create_session : ℕ → ℕ → NewSession → Action (Store db) Session
  create_session now user_id call = do
    active ← gets (λ s. sessions.count_where (is_active user_id now) s.sessions)
    throw_if (leb max_concurrent_sessions active) (conflict "Maximum concurrent sessions reached")
    modify (λ s. record s {
      sessions = sessions.create (new_session includes now user_id call) s.sessions;
    })
    pure (new_session includes now user_id call)

  -- `updateSession`: the display name is sanitized again before it is stored
  unfoldable pub update_session : ℕ → ℕ → Option String → Action (Store db) Session
  update_session user_id id display_name = do
    found ← gets (λ s. sessions.find_unique id s.sessions)
    session ← or_throw found (not_found "Session not found")
    throw_if (not (session.user_id == user_id)) (not_found "Session not found")
    modify (λ s. record s {
      sessions =
          sessions.update id (renamed_row (Option.map sanitize_text display_name)) s.sessions;
    })
    pure (renamed_row (Option.map sanitize_text display_name) session)

module _ (db : Database) where
  open db use {sessions, blacklist}

  unfoldable pub get_user_sessions : ℕ → ℕ → ℕ → Store db → SessionsList
  get_user_sessions now user_id current_jti s = record {
    sessions =
        map (λ (r : Session). (r, r.access_jti == current_jti))
          (sessions.find_many (λ r. r.user_id == user_id) s.sessions);
    active_count = sessions.count_where (is_active user_id now) s.sessions;
    revoked_count = sessions.count_where (is_revoked_of user_id) s.sessions;
  }

  unfoldable pub get_session : ℕ → Action (Store db) Session
  get_session id = do
    found ← gets (λ s. sessions.find_unique id s.sessions)
    or_throw found (not_found "Session not found")

  unfoldable pub revoke_session : ℕ → ℕ → ℕ → Action (Store db) ℕ
  revoke_session now user_id id = do
    found ← gets (λ s. sessions.find_unique id s.sessions)
    session ← or_throw found (not_found "Session not found")
    throw_if (not (session.user_id == user_id)) (not_found "Session not found")
    modify (λ s. record s { sessions = sessions.update id (revoked_row now) s.sessions })
    modify (λ s. record s { published = (id ∷ []) ∷ s.published })
    pure id

  -- `createMany` with `skipDuplicates`: a token whose jti is there already is left out
  unfoldable pub insert_tokens : List BlacklistedToken → blacklist.Rows → blacklist.Rows
  insert_tokens [] t = t
  insert_tokens (x ∷ xs) t =
      insert_tokens xs (if is_some (blacklist.find_unique x.jti t) then t else blacklist.create x t)

  -- the answer is the number of sessions revoked
  unfoldable pub revoke_all_sessions : ℕ → ℕ → Option ℕ → Store db → ℕ × Store db
  revoke_all_sessions now user_id except s =
      let found = sessions.find_many (to_revoke user_id except) s.sessions in
      (
        sessions.count_where (to_revoke user_id except) s.sessions,
        record s {
          blacklist = insert_tokens (blacklisted_tokens user_id found) s.blacklist;
          sessions = sessions.update_many (to_revoke user_id except) (revoked_row now) s.sessions;
          published = map (λ (r : Session). r.id) found ∷ s.published;
        },
      )

  -- Prisma refuses the update of a session that is missing; nothing is written then, as here.
  unfoldable pub update_session_activity : ℕ → ℕ → Store db → Store db
  update_session_activity now id s = record s {
    sessions = sessions.update id (touched_row now) s.sessions;
  }

  unfoldable pub is_session_valid : ℕ → ℕ → Store db → Bool
  is_session_valid now id s = elim (sessions.find_unique id s.sessions) [
    | none ↦ false
    | some r ↦ not r.is_revoked && ltb now r.expires_at
  ]

  unfoldable pub get_session_by_access_token_jti : ℕ → Store db → Option Session
  get_session_by_access_token_jti jti s = sessions.find_first (λ r. r.access_jti == jti) s.sessions

  unfoldable pub cleanup_expired_sessions : ℕ → Store db → ℕ × Store db
  cleanup_expired_sessions now s = (
    sessions.count_where (λ r. ltb r.expires_at now) s.sessions,
    record s { sessions = sessions.delete_many (λ r. ltb r.expires_at now) s.sessions },
  )
