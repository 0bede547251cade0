-- ===== src/Auth/TokenTests.antt =====
-- The theorems on tokens, at the tokens of one user.
use prop_chain_back_end.Base.{
  ◌≤◌, ◌≡◌, refl, none, some, true, false, ok, err, unauthorized, conflict, arith, ◌==◌, ◌||◌,
}
use prop_chain_back_end.Auth.Rows.{Store}
use prop_chain_back_end.Auth.Sample.{
  db, jwt, config, fraud, jwt-VerifiesSigned, fraud-KeepsTokens, alice, store, token_ids, alert_ids,
}
use prop_chain_back_end.Auth.Tokens.{
  TokenToBlacklist, blacklist_token, payload_of, token_pair, issue_token_pair, refresh_token,
  logout, validate_access_token, ended, find_user,
}
use prop_chain_back_end.Auth.Tokens.Blacklist.{is_blacklisted, is_blacklisted-blacklist_token}
use prop_chain_back_end.Auth.Tokens.Rotation.{Run, refresh_token_once}
use prop_chain_back_end.Auth.Tokens.Access.{
  active_sessions, refresh_token-token_pair, refresh_token_full, logout-validate_access_token,
}
use prop_chain_back_end.Fraud.{find_open_alert}
use prop_chain_back_end.Fraud.Detection.{token_reuse_payload, session_of}
use prop_chain_back_end.Fraud.Detection.Reuse.{refresh_token_reuse_blocks}
use prop_chain_back_end.Sessions.{access, refresh, create_session, new_session}

abbrev first_pair : jwt.Token × jwt.Token
first_pair =
    let pair = token_pair db jwt config 0 alice 7 (token_ids 1) in
    (pair.access_token, pair.refresh_token)

abbrev refreshed : Store db
refreshed = (refresh_token db jwt config fraud 1000 first_pair.1 (token_ids 2) none none store).1

refresh_accepted :
    (refresh_token db jwt config fraud 1000 first_pair.1 (token_ids 2) none none store).0
    ≡ ok (token_pair db jwt config 1000 alice 7 (token_ids 2))
unfolding refresh_token issue_token_pair create_session blacklist_token
refresh_accepted = refl

refresh_token_once_example :
    (refresh_token db jwt config fraud 2000 first_pair.1 (token_ids 3) none none refreshed).0
    ≡ err (unauthorized "Token reuse detected")
refresh_token_once_example =
    refresh_token_once db jwt config fraud fraud-KeepsTokens 1000 2000 first_pair.1 (token_ids 2)
      (token_ids 3) none none none none store refreshed refl refl refresh_accepted
      (Run.done refreshed)

refresh_token-token_pair_example :
    (refresh_token db jwt config fraud 1000 first_pair.1 (token_ids 2) none none store).0
    ≡ ok (token_pair db jwt config 1000 alice 7 (token_ids 2))
refresh_token-token_pair_example =
    refresh_token-token_pair db jwt config fraud jwt-VerifiesSigned 0 1000 7 alice alice
      (token_ids 1) (token_ids 2) none none store (omega arith) refl refl refl (refl, refl)
      (omega arith)

abbrev full_refresh : jwt.Token
full_refresh = (token_pair db jwt config 1000 alice 7 (token_ids 2)).refresh_token

refreshed_state :
    (is_blacklisted db 21 refreshed ≡ false)
    × (find_user db 1 refreshed ≡ some alice)
    × (is_blacklisted db 11 refreshed ≡ true)
unfolding refresh_token issue_token_pair create_session blacklist_token
refreshed_state = (refl, refl, refl)

refreshed_full :
    config.max_concurrent_sessions ≤ active_sessions db jwt config fraud 1 2000 refreshed
unfolding refresh_token issue_token_pair create_session blacklist_token new_session
refreshed_full = omega arith

refresh_token_full_example :
    let (answer, s') =
      refresh_token db jwt config fraud 2000 full_refresh (token_ids 3) none none refreshed in
    (answer ≡ err (conflict "Maximum concurrent sessions reached"))
    × (is_blacklisted db 21 s' ≡ true)
    × (s'.sessions.sessions ≡ refreshed.sessions.sessions)
refresh_token_full_example =
    refresh_token_full db jwt config fraud 2000 601 full_refresh (payload_of alice refresh 21 7)
      alice (token_ids 3) none none refreshed refl refl refreshed_state.0 refreshed_state.1
      (refl, refl) refreshed_full

logout-validate_access_token_example :
    (validate_access_token db jwt config 2000 first_pair.0
      (logout db jwt config 1000 1 (some first_pair.1) (some first_pair.0) store).1).0
    ≡ err (unauthorized "Token has been revoked")
logout-validate_access_token_example =
    logout-validate_access_token db jwt config fraud fraud-KeepsTokens 1000 2000 1
      (some first_pair.1) first_pair.0 store
      (logout db jwt config 1000 1 (some first_pair.1) (some first_pair.0) store).1 refl refl refl
      (Run.done (logout db jwt config 1000 1 (some first_pair.1) (some first_pair.0) store).1)

abbrev ended_token : TokenToBlacklist
ended_token = ended db jwt config (payload_of alice access 10 7) 60 access 1 (some 7)

is_blacklisted-blacklist_token_example :
    is_blacklisted db 10 (blacklist_token db ended_token store)
    ≡ ((10 == 10) || is_blacklisted db 10 store)
is_blacklisted-blacklist_token_example = is_blacklisted-blacklist_token db 10 ended_token store

-- the refresh token of another pair of the same user
abbrev other : jwt.Token
other = (token_pair db jwt config 1000 alice 8 (token_ids 4)).refresh_token

no_alert :
    find_open_alert db
      (token_reuse_payload 1 (session_of db true (λ id. false) alert_ids 11 refreshed))
      refreshed
    ≡ none
unfolding refresh_token issue_token_pair create_session blacklist_token find_open_alert
no_alert = refl

other_unused : is_blacklisted db 41 refreshed ≡ false
unfolding refresh_token issue_token_pair create_session blacklist_token
other_unused = refl

refresh_token_reuse_blocks_example :
    let (answer, s') =
      refresh_token db jwt config fraud 2000 first_pair.1 (token_ids 3) none none refreshed in
    (answer ≡ err (unauthorized "Token reuse detected"))
    × ((refresh_token db jwt config fraud 3000 other (token_ids 5) none none s').0
        ≡ err (unauthorized "Your account has been blocked"))
refresh_token_reuse_blocks_example =
    refresh_token_reuse_blocks db jwt config true (λ id. false) alert_ids 2000 3000 first_pair.1
      other (token_ids 3) (token_ids 5) none none none none refreshed
      (payload_of alice refresh 11 7) (payload_of alice refresh 41 8) 600 601 alice refl refl
      refreshed_state.2 refreshed_state.1 no_alert refl refl refl other_unused
