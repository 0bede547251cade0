-- ===== src/Sessions/Revocation.antt =====
-- src/sessions/sessions.service.ts: what revoking a session, revoking all of them and the cleanup leave.
use prop_chain_back_end.Base.{
  ℕ, ◌≡◌, refl, sym, ◌∙◌, inl, inr, Option-cases, Bool-cases, Bool, true, false, ◌||◌, List, [],
  ◌∷◌, ◌++◌, Option, none, some, if◌then◌else◌, is_some, opt_eq, ok, err, not_found, arith, ◌==◌,
  ltb, filter, patch, any, find,
}
use prop_chain_back_end.Table.Laws.{
  find_unique-update_self, find_unique-update_many, find_unique-create_self, find_unique-create_ne,
  find_unique-delete_many, count_where-update_many, count_where-zero,
}
use prop_chain_back_end.Sessions.{
  Session, BlacklistedToken, Database, Store, to_revoke, revoked_row, tokens_of, blacklisted_tokens,
  revoke_session, insert_tokens, revoke_all_sessions, is_session_valid, cleanup_expired_sessions,
}

abbrev has_jti : ℕ → BlacklistedToken → Bool
has_jti jti x = x.jti == jti

any-append :
    {A : Type 0} (p : A → Bool) (xs ys : List A) → any p (xs ++ ys) ≡ (any p xs || any p ys)
any-append p [] ys = refl
any-append p (x ∷ xs) ys = ground (arith, any-append p xs ys)

-- A session that passes the test has its tokens among those of the sessions that do.
any-blacklisted_tokens :
    (user_id id jti : ℕ) (p : Session → Bool) (xs : List Session) (r : Session)
    → find (λ (x : Session). x.id == id) xs ≡ some r
    → p r ≡ true
    → any (has_jti jti) (tokens_of user_id r) ≡ true
    → any (has_jti jti) (blacklisted_tokens user_id (filter p xs)) ≡ true
any-blacklisted_tokens user_id id jti p [] r e pass own = cc
any-blacklisted_tokens user_id id jti p (x ∷ xs) r e pass own = elim (Bool-cases (p x)) [
  | inl taken ↦
      rw
        (
          taken,
          any-append (has_jti jti) (tokens_of user_id x) (blacklisted_tokens user_id (filter p xs)),
        )
        (ground (arith, any-blacklisted_tokens user_id id jti p xs r))
  | inr left_out ↦ ground (arith, any-blacklisted_tokens user_id id jti p xs r)
]

module _ (db : Database) where
  open db use {sessions, blacklist}

  -- revokeSession succeeds for the owner of the session alone, publishes it as revoked, and makes
  -- it valid at no time; to anyone else the session is not found, nothing is published and its
  -- validity stays as it was.
  pub revoke_session_owner :
      (now later user_id id : ℕ) (s : Store db) {r : Session}
      → sessions.find_unique id s.sessions ≡ some r
      → let (answer, s') = revoke_session db now user_id id s in
        let own = r.user_id == user_id in
        (answer ≡ (if own then ok id else err (not_found "Session not found")))
        × (s'.published ≡ (if own then (id ∷ []) ∷ s.published else s.published))
        × (is_session_valid db later id s'
            ≡ (if own then false else is_session_valid db later id s))
  unfolding revoke_session is_session_valid
  revoke_session_owner now later user_id id s found =
      let kept =
        find_unique-update_self sessions id (revoked_row now) s.sessions (λ x. refl) found in
      ground arith

  -- After revokeAllSessions the user has no unrevoked session but the excepted one, and the answer
  -- is the number of the sessions revoked.
  pub revoke_all_sessions_none_left :
      (now user_id : ℕ) (except : Option ℕ) (s : Store db)
      → let (n, s') = revoke_all_sessions db now user_id except s in
        (sessions.count_where (to_revoke user_id except) s'.sessions ≡ 0)
        × (n ≡ sessions.count_where (to_revoke user_id except) s.sessions)
  unfolding revoke_all_sessions
  revoke_all_sessions_none_left now user_id none s = (
    count_where-update_many sessions (to_revoke user_id none) (to_revoke user_id none)
          (revoked_row now) s.sessions
        ∙ count_where-zero sessions
            (λ r. to_revoke user_id none (patch (to_revoke user_id none) (revoked_row now) r))
            s.sessions (λ r. ground arith),
    refl,
  )
  revoke_all_sessions_none_left now user_id (some id) s = (
    count_where-update_many sessions (to_revoke user_id (some id)) (to_revoke user_id (some id))
          (revoked_row now) s.sessions
        ∙ count_where-zero sessions
            (λ r.
              to_revoke user_id (some id) (patch (to_revoke user_id (some id)) (revoked_row now) r))
            s.sessions (λ r. ground arith),
    refl,
  )

  -- revokeAllSessions leaves alone every session that is of another user, excepted or revoked
  -- before.
  pub revoke_all_sessions_frame :
      (now user_id id : ℕ) (except : Option ℕ) (s : Store db) {r : Session}
      → sessions.find_unique id s.sessions ≡ some r
      → to_revoke user_id except r ≡ false
      → sessions.find_unique id (revoke_all_sessions db now user_id except s).1.sessions ≡ some r
  unfolding revoke_all_sessions
  revoke_all_sessions_frame now user_id id except s found kept = ground (
    arith,
    find_unique-update_many sessions id (to_revoke user_id except) (revoked_row now) s.sessions,
  )

  abbrev pub is_blacklisted : ℕ → blacklist.Rows → Bool
  is_blacklisted jti t = is_some (blacklist.find_unique jti t)

  -- What is blacklisted after an insertion is what was before, and the tokens inserted.
  pub is_blacklisted-insert_tokens :
      (jti : ℕ) (xs : List BlacklistedToken) (t : blacklist.Rows)
      → is_blacklisted jti (insert_tokens db xs t) ≡ (is_blacklisted jti t || any (has_jti jti) xs)
  unfolding insert_tokens
  is_blacklisted-insert_tokens jti [] t = ground arith
  is_blacklisted-insert_tokens jti (x ∷ xs) t =
      rw
        (is_blacklisted-insert_tokens jti xs
          (if is_some (blacklist.find_unique x.jti t) then t else blacklist.create x t))
        (elim (Option-cases (blacklist.find_unique x.jti t)) [
          | inl fresh ↦ ground (
            arith,
            find_unique-create_self blacklist x t,
            find_unique-create_ne blacklist jti x t,
          )
          | inr (y, there) ↦ ground arith
        ])

  -- The access token and the refresh token of each session that revokeAllSessions revokes are on
  -- the blacklist after the call.
  pub revoke_all_sessions_blacklists :
      (now user_id id jti : ℕ) (except : Option ℕ) (s : Store db) {r : Session}
      → sessions.find_unique id s.sessions ≡ some r
      → to_revoke user_id except r ≡ true
      → ((r.access_jti == jti) || opt_eq r.refresh_jti jti) ≡ true
      → is_blacklisted jti (revoke_all_sessions db now user_id except s).1.blacklist ≡ true
  unfolding revoke_all_sessions
  revoke_all_sessions_blacklists now user_id id jti except s {r} found revoked own =
      let listed =
        any-blacklisted_tokens user_id id jti (to_revoke user_id except)
          (sessions.contents s.sessions) r (sym (sessions.find_unique_law id s.sessions) ∙ found)
          revoked (ground arith) in
      rw
        (
          is_blacklisted-insert_tokens jti
              (blacklisted_tokens user_id
                (sessions.find_many (to_revoke user_id except) s.sessions))
              s.blacklist,
          sessions.find_many_law (to_revoke user_id except) s.sessions,
        )
        (ground (arith, listed))

  -- cleanupExpiredSessions keeps every session that is valid at that time valid.
  pub cleanup_expired_sessions-valid :
      (now id : ℕ) (s : Store db)
      → is_session_valid db now id s ≡ true
      → is_session_valid db now id (cleanup_expired_sessions db now s).1 ≡ true
  unfolding is_session_valid cleanup_expired_sessions
  cleanup_expired_sessions-valid now id s valid =
      elim (Option-cases (sessions.find_unique id s.sessions)) [
        | inl missing ↦ ground arith
        | inr (r, found) ↦ ground (
          arith,
          find_unique-delete_many sessions id (λ x. ltb x.expires_at now) s.sessions found,
        )
      ]
