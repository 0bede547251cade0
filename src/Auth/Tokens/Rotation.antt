-- ===== src/Auth/Tokens/Rotation.antt =====
-- src/auth/auth.service.ts: a refresh token is used up by the call that accepts it, and the pair that
-- this call issues is accepted in its turn.
use prop_chain_back_end.Base.{
  ℕ, ◌≡◌, inl, inr, Option-cases, Bool-cases, true, Option, some, String, arith, ok, err,
  unauthorized,
}
use prop_chain_back_end.Auth.Rows.{Database, Store}
use prop_chain_back_end.Auth.Interfaces.{JwtPayload, Jwt, Config, FraudHooks, KeepsTokens}
use prop_chain_back_end.Auth.Tokens.{
  TokenIds, TokenPair, find_user, blacklist_token, is_refresh, refresh_token, logout,
  logout_all_devices, validate_access_token, rotated,
}
use prop_chain_back_end.Auth.Tokens.Blacklist.{
  is_blacklisted, is_blacklisted-blacklist_token, is_blacklisted-issue_token_pair,
  refresh_token-keeps, logout-keeps, logout_all_devices-keeps, validate_access_token-keeps,
}

module _ (db : Database) (jwt : Jwt) (config : Config) (fraud : FraudHooks db) where
  open jwt use {Token}

  -- The calls of the service that write tokens.
  pub data Step : Store db → Store db → Type 0 where
    refreshes :
        (now : ℕ) (token : Token) (ids : TokenIds) (ip user_agent : Option String) (s : Store db)
        → Step s (refresh_token db jwt config fraud now token ids ip user_agent s).1
    logs_out :
        (now user_id : ℕ) (refresh_token access_token : Option Token) (s : Store db)
        → Step s (logout db jwt config now user_id refresh_token access_token s).1
    logs_out_all :
        (now user_id : ℕ) (access_token : Option Token) (s : Store db)
        → Step s (logout_all_devices db jwt config now user_id access_token s).1
    authenticates :
        (now : ℕ) (token : Token) (s : Store db)
        → Step s (validate_access_token db jwt config now token s).1

  pub data Run : Store db → Store db → Type 0 where
    done : (s : Store db) → Run s s
    step : (s s' s'' : Store db) → Step s s' → Run s' s'' → Run s s''

  Step-keeps :
      (jti : ℕ) (laws : KeepsTokens db fraud) (s s' : Store db)
      → Step s s'
      → is_blacklisted db jti s ≡ true
      → is_blacklisted db jti s' ≡ true
  Step-keeps jti laws s _ (refreshes now token ids ip user_agent _) h =
      refresh_token-keeps db jwt config fraud laws now jti token ids ip user_agent s h
  Step-keeps jti laws s _ (logs_out now user_id refresh_token access_token _) h =
      logout-keeps db jwt config now jti user_id refresh_token access_token s h
  Step-keeps jti laws s _ (logs_out_all now user_id access_token _) h =
      logout_all_devices-keeps db jwt config now jti user_id access_token s h
  Step-keeps jti laws s _ (authenticates now token _) h =
      validate_access_token-keeps db jwt config now jti token s h

  pub Run-keeps :
      (jti : ℕ) (laws : KeepsTokens db fraud) (s s' : Store db)
      → Run s s'
      → is_blacklisted db jti s ≡ true
      → is_blacklisted db jti s' ≡ true
  Run-keeps jti laws s _ (done _) h = h
  Run-keeps jti laws s s' (step _ t _ first rest) h =
      Run-keeps jti laws t s' rest (Step-keeps jti laws s t first h)

  -- A refresh token that is accepted was not on the blacklist, and is on it afterwards.
  refresh_token_uses_up :
      (now : ℕ) (token : Token) (ids : TokenIds) (ip user_agent : Option String) (s : Store db)
      {payload : JwtPayload} {exp : ℕ} {pair : TokenPair Token}
      → jwt.verify now token config.jwt_refresh_secret ≡ some (payload, exp)
      → (refresh_token db jwt config fraud now token ids ip user_agent s).0 ≡ ok pair
      → is_blacklisted db payload.jti
          (refresh_token db jwt config fraud now token ids ip user_agent s).1
        ≡ true
  unfolding refresh_token
  refresh_token_uses_up now token ids ip user_agent s {payload} {exp} e accepted =
      elim (Option-cases (find_user db payload.sub s)) [
        | inl missing ↦ ground (arith, e, accepted, missing)
        | inr (user, found) ↦
            let call = rotated db jwt config payload exp user.id ip user_agent in
            ground (
              arith,
              e,
              accepted,
              found,
              is_blacklisted-blacklist_token db payload.jti call s,
              is_blacklisted-issue_token_pair db jwt config now payload.jti user payload.family ids
                  ip user_agent (blacklist_token db call s),
            )
      ]

  -- A refresh token is accepted at most once: after it was, every later call with it is refused as
  -- a reuse, as long as it still verifies, whatever refreshes, logouts and authenticated requests
  -- come in between, in any order, provided that the fraud checks leave the token tables alone.
  pub refresh_token_once :
      (laws : KeepsTokens db fraud) (now later : ℕ) (token : Token) (ids ids' : TokenIds)
      (ip ip' user_agent user_agent' : Option String) (s s' : Store db) {payload : JwtPayload}
      {exp : ℕ} {pair : TokenPair Token}
      → jwt.verify now token config.jwt_refresh_secret ≡ some (payload, exp)
      → jwt.verify later token config.jwt_refresh_secret ≡ some (payload, exp)
      → (refresh_token db jwt config fraud now token ids ip user_agent s).0 ≡ ok pair
      → Run (refresh_token db jwt config fraud now token ids ip user_agent s).1 s'
      → (refresh_token db jwt config fraud later token ids' ip' user_agent' s').0
        ≡ err (unauthorized "Token reuse detected")
  unfolding refresh_token
  refresh_token_once laws now later token ids ids' ip ip' user_agent user_agent' s s' {payload} e e'
        accepted run =
      let used = refresh_token_uses_up now token ids ip user_agent s e accepted in
      let kept =
        Run-keeps payload.jti laws
          (refresh_token db jwt config fraud now token ids ip user_agent s).1 s' run used in
      elim (Bool-cases (is_refresh payload.token_type)) [
        | inl is_one ↦ ground (arith, e', kept, is_one)
        | inr is_none ↦ ground (arith, e, accepted, is_none)
      ]
