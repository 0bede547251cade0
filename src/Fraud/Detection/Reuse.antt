-- ===== src/Fraud/Detection/Reuse.antt =====
-- src/auth/auth.service.ts and src/fraud/fraud.service.ts together: what follows when a refresh token is
-- used again.
use prop_chain_back_end.Auth.Tokens
use prop_chain_back_end.Base.{
  ℕ, ◌≡◌, refl, Bool, true, false, Option, none, some, String, err, unauthorized, arith,
}
use prop_chain_back_end.Auth.Rows.{User, Database, Store}
use prop_chain_back_end.Auth.Interfaces.{Jwt, JwtPayload, Config}
use prop_chain_back_end.Auth.Tokens.{TokenIds, find_user, is_refresh, refresh_token}
use prop_chain_back_end.Auth.Tokens.Blacklist.{is_blacklisted, is_blacklisted-handle_token_reuse}
use prop_chain_back_end.Fraud.{blocked, find_open_alert}
use prop_chain_back_end.Fraud.Single.{create_or_update_alert_blocks}
use prop_chain_back_end.Fraud.Detection.{
  AlertIds, token_reuse_payload, session_of, handle_token_reuse, hooks,
}
use prop_chain_back_end.Fraud.Detection.Hooks.{hooks-KeepsTokens}

module _ (db : Database) (jwt : Jwt) (config : Config) (has_recipients : Bool)
    (is_system : ℕ → Bool) (ids : AlertIds) where
  open jwt use {Token}

  handle_token_reuse_blocks :
      (now sub jti : ℕ) (s : Store db) {user : User}
      → find_user db sub s ≡ some user
      → find_open_alert db
          (token_reuse_payload sub (session_of db has_recipients is_system ids jti s))
          s
        ≡ none
      → find_user db sub (handle_token_reuse db has_recipients is_system ids now sub jti s)
        ≡ some (blocked user)
  unfolding handle_token_reuse
  handle_token_reuse_blocks now sub jti s found fresh =
      create_or_update_alert_blocks db has_recipients is_system now ids.token_reuse sub
        (token_reuse_payload sub (session_of db has_recipients is_system ids jti s)) s refl refl
        fresh found

  -- A refresh token that is used again blocks its user, where no alert on the reuse is open: a
  -- refresh that follows with another token of that user, valid and unused, is refused.
  pub refresh_token_reuse_blocks :
      (now later : ℕ) (token other : Token) (token_ids ids' : TokenIds)
      (ip ip' user_agent user_agent' : Option String) (s : Store db) (payload payload' : JwtPayload)
      (exp exp' : ℕ) (user : User)
      → jwt.verify now token config.jwt_refresh_secret ≡ some (payload, exp)
      → is_refresh payload.token_type ≡ true
      → is_blacklisted db payload.jti s ≡ true
      → find_user db payload.sub s ≡ some user
      → find_open_alert db
          (token_reuse_payload payload.sub
            (session_of db has_recipients is_system ids payload.jti s))
          s
        ≡ none
      → jwt.verify later other config.jwt_refresh_secret ≡ some (payload', exp')
      → is_refresh payload'.token_type ≡ true
      → payload'.sub ≡ payload.sub
      → is_blacklisted db payload'.jti s ≡ false
      → let fraud = hooks db has_recipients is_system ids in
        let (answer, s') = refresh_token db jwt config fraud now token token_ids ip user_agent s in
        (answer ≡ err (unauthorized "Token reuse detected"))
        × ((refresh_token db jwt config fraud later other ids' ip' user_agent' s').0
            ≡ err (unauthorized "Your account has been blocked"))
  unfolding refresh_token Tokens.handle_token_reuse find_open_alert
  refresh_token_reuse_blocks now later token other token_ids ids' ip ip' user_agent user_agent' s
        payload payload' exp exp' user e kind used found fresh e' kind' same unused =
      let marked = Tokens.handle_token_reuse db now payload.jti ip user_agent s in
      let raised =
        handle_token_reuse db has_recipients is_system ids now payload.sub payload.jti marked in
      let stopped = handle_token_reuse_blocks now payload.sub payload.jti marked found fresh in
      let kept =
        (hooks-KeepsTokens db has_recipients is_system ids).handle_token_reuse_sessions now
          payload.sub payload.jti ip marked in
      (
        ground (arith, e, kind, used),
        ground (
          arith,
          e,
          kind,
          used,
          e',
          kind',
          same,
          unused,
          stopped,
          kept,
          is_blacklisted-handle_token_reuse db now payload'.jti payload.jti ip user_agent s,
        ),
      )
