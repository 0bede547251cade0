-- ===== src/Auth/Tokens/Rows.antt =====
-- src/auth/auth.service.ts: the payloads of the tokens, the rows of the blacklist, and what a pair is
-- issued with.
use prop_chain_back_end.Base.{
  ℕ, ◌+◌, Bool, true, false, Option, none, some, String, if◌then◌else◌, is_some, ltb,
}
use prop_chain_back_end.Auth.Rows.{User}
use prop_chain_back_end.Auth.Interfaces.{JwtPayload}
use prop_chain_back_end.Sessions.{TokenType, BlacklistedToken, access, refresh}

-- the two token ids and the family of `issueTokenPair`, and the id of the session it creates
pub record TokenIds : Type 0 where
  pub session_id : ℕ
  pub access_jti : ℕ
  pub refresh_jti : ℕ
  pub family : ℕ

pub record TokenPair (Token : Type 0) : Type 0 where
  pub access_token : Token
  pub refresh_token : Token
  pub access_token_expires_in : ℕ
  pub refresh_token_expires_in : ℕ

pub record TokenToBlacklist : Type 0 where
  pub jti : ℕ
  pub token_type : TokenType
  pub expires_at : ℕ
  pub user_id : ℕ
  pub token_family : Option ℕ
  pub ip_address : Option String
  pub user_agent : Option String

-- the `create` of the upsert
abbrev pub blacklist_row : TokenToBlacklist → BlacklistedToken
blacklist_row call = record {
  jti = call.jti;
  token_type = call.token_type;
  expires_at = call.expires_at;
  user_id = call.user_id;
  token_family = call.token_family;
  ip_address = call.ip_address;
  user_agent = call.user_agent;
  reused_at = none;
}

-- the `update` of the upsert: what is undefined stays as it was
abbrev pub blacklist_update : TokenToBlacklist → BlacklistedToken → BlacklistedToken
blacklist_update call r = record r {
  token_type = call.token_type;
  expires_at = call.expires_at;
  user_id = call.user_id;
  token_family = if is_some call.token_family then call.token_family else r.token_family;
  ip_address = if is_some call.ip_address then call.ip_address else r.ip_address;
  user_agent = if is_some call.user_agent then call.user_agent else r.user_agent;
}

abbrev pub payload_of : User → TokenType → ℕ → ℕ → JwtPayload
payload_of user token_type jti family = record {
  sub = user.id;
  email = user.email;
  role = user.role;
  tier = user.tier;
  token_type = token_type;
  jti = jti;
  family = some family;
}

abbrev pub is_refresh : TokenType → Bool
is_refresh access = false
is_refresh refresh = true

-- `now - lastActivityAt > 5 * 60 * 1000`, or no activity yet
abbrev pub is_inactive : ℕ → User → Bool
is_inactive now user = elim user.last_activity_at [ none ↦ true | some t ↦ ltb (t + 300000) now ]
