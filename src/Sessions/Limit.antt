-- ===== src/Sessions/Limit.antt =====
-- src/sessions/sessions.service.ts: the limit on the sessions that a user has active at one time.
use prop_chain_back_end.Base.{
  ℕ, ◌≡◌, ◌≤◌, Bool, true, not, ◌&&◌, Option, none, some, String, arith, ◌==◌, ltb, patch,
}
use prop_chain_back_end.Table.Laws.{
  count_where-update_many, count_where-update, count_where-create, count_where-delete_many,
  count_where_mono,
}
use prop_chain_back_end.Sessions.{
  Session, Database, Store, NewSession, is_active, to_revoke, new_session, revoked_row, renamed_row,
  touched_row, create_session, update_session, revoke_session, revoke_all_sessions,
  update_session_activity, cleanup_expired_sessions,
}

module _ (db : Database) (sanitize_text : String → String) (contains : String → String → Bool)
    (max_sessions : ℕ) where
  open db use {sessions}

  -- The calls of the service, each made at a time of its own.
  pub data Step : ℕ → Store db → Store db → Type 0 where
    creates :
        (now user_id : ℕ) (call : NewSession) (s : Store db)
        → Step now s (create_session db sanitize_text contains max_sessions now user_id call s).1
    renames :
        (now user_id id : ℕ) (name : Option String) (s : Store db)
        → Step now s (update_session db sanitize_text contains max_sessions user_id id name s).1
    revokes :
        (now user_id id : ℕ) (s : Store db) → Step now s (revoke_session db now user_id id s).1
    revokes_all :
        (now user_id : ℕ) (except : Option ℕ) (s : Store db)
        → Step now s (revoke_all_sessions db now user_id except s).1
    touches : (now id : ℕ) (s : Store db) → Step now s (update_session_activity db now id s)
    cleans : (now : ℕ) (s : Store db) → Step now s (cleanup_expired_sessions db now s).1

  -- No user has more active sessions than the limit allows.
  unfoldable pub WithinLimit : ℕ → Store db → Type 0
  WithinLimit now s =
      (user_id : ℕ) → sessions.count_where (is_active user_id now) s.sessions ≤ max_sessions

  -- Time passing ends sessions, and starts none.
  pub WithinLimit-later :
      (now later : ℕ) (s : Store db) → now ≤ later → WithinLimit now s → WithinLimit later s
  unfolding WithinLimit
  WithinLimit-later now later s le h user_id = omega (
    arith,
    h user_id,
    count_where_mono sessions (is_active user_id later) (is_active user_id now) s.sessions
        (λ r e. ground arith),
  )

  update-WithinLimit :
      (now id : ℕ) (f : Session → Session) (s : Store db)
      → ((user_id : ℕ) (r : Session)
          → is_active user_id now (f r) ≡ true
          → is_active user_id now r ≡ true)
      → WithinLimit now s
      → WithinLimit now (record s { sessions = sessions.update id f s.sessions })
  unfolding WithinLimit
  update-WithinLimit now id f s weaker h user_id = omega (
    arith,
    h user_id,
    count_where-update sessions (is_active user_id now) id f s.sessions,
    count_where_mono sessions (λ r. is_active user_id now (patch (λ r. r.id == id) f r))
        (is_active user_id now) s.sessions (λ r e. ground (arith, weaker user_id r)),
  )

  create_session-WithinLimit :
      (now user_id : ℕ) (call : NewSession) (s : Store db)
      → WithinLimit now s
      → WithinLimit now (create_session db sanitize_text contains max_sessions now user_id call s).1
  unfolding create_session WithinLimit new_session
  create_session-WithinLimit now user_id call s h u = ground (
    arith,
    h u,
    h user_id,
    count_where-create sessions (is_active u now) (new_session contains now user_id call)
        s.sessions,
  )

  update_session-WithinLimit :
      (now user_id id : ℕ) (name : Option String) (s : Store db)
      → WithinLimit now s
      → WithinLimit now (update_session db sanitize_text contains max_sessions user_id id name s).1
  unfolding update_session
  update_session-WithinLimit now user_id id none s h =
      ground (arith, h, update-WithinLimit now id (renamed_row none) s (λ u r e. e) h)
  update_session-WithinLimit now user_id id (some text) s h = ground (
    arith,
    h,
    update-WithinLimit now id (renamed_row (some (sanitize_text text))) s (λ u r e. e) h,
  )

  revoke_session-WithinLimit :
      (now user_id id : ℕ) (s : Store db)
      → WithinLimit now s
      → WithinLimit now (revoke_session db now user_id id s).1
  unfolding revoke_session WithinLimit
  revoke_session-WithinLimit now user_id id s h u =
      ground (arith, h u, update-WithinLimit now id (revoked_row now) s (λ u r e. ground arith) h u)

  revoke_all_sessions-WithinLimit :
      (now user_id : ℕ) (except : Option ℕ) (s : Store db)
      → WithinLimit now s
      → WithinLimit now (revoke_all_sessions db now user_id except s).1
  unfolding revoke_all_sessions WithinLimit
  revoke_all_sessions-WithinLimit now user_id except s h u = omega (
    arith,
    h u,
    count_where-update_many sessions (is_active u now) (to_revoke user_id except) (revoked_row now)
        s.sessions,
    count_where_mono sessions
        (λ r. is_active u now (patch (to_revoke user_id except) (revoked_row now) r))
        (is_active u now) s.sessions (λ r e. ground arith),
  )

  touch-WithinLimit :
      (now id : ℕ) (s : Store db)
      → WithinLimit now s
      → WithinLimit now (update_session_activity db now id s)
  unfolding update_session_activity
  touch-WithinLimit now id s h = update-WithinLimit now id (touched_row now) s (λ u r e. e) h

  cleanup-WithinLimit :
      (now : ℕ) (s : Store db)
      → WithinLimit now s
      → WithinLimit now (cleanup_expired_sessions db now s).1
  unfolding cleanup_expired_sessions WithinLimit
  cleanup-WithinLimit now s h u = omega (
    arith,
    h u,
    count_where-delete_many sessions (is_active u now) (λ r. ltb r.expires_at now) s.sessions,
    count_where_mono sessions (λ r. not (ltb r.expires_at now) && is_active u now r)
        (is_active u now) s.sessions (λ r e. ground arith),
  )

  -- Every call keeps the limit.
  pub Step-WithinLimit :
      (now : ℕ) (s s' : Store db) → Step now s s' → WithinLimit now s → WithinLimit now s'
  Step-WithinLimit _ _ _ (creates now user_id call s) h =
      create_session-WithinLimit now user_id call s h
  Step-WithinLimit _ _ _ (renames now user_id id name s) h =
      update_session-WithinLimit now user_id id name s h
  Step-WithinLimit _ _ _ (revokes now user_id id s) h =
      revoke_session-WithinLimit now user_id id s h
  Step-WithinLimit _ _ _ (revokes_all now user_id except s) h =
      revoke_all_sessions-WithinLimit now user_id except s h
  Step-WithinLimit _ _ _ (touches now id s) h = touch-WithinLimit now id s h
  Step-WithinLimit _ _ _ (cleans now s) h = cleanup-WithinLimit now s h

  -- A run of calls, whose times do not decrease.
  pub data Run : ℕ → Store db → ℕ → Store db → Type 0 where
    done : (now : ℕ) (s : Store db) → Run now s now s
    next :
        (start now later : ℕ) (s s' s'' : Store db)
        → Run start s now s'
        → now ≤ later
        → Step later s' s''
        → Run start s later s''

  -- Where no user has more active sessions than the limit, none has after any run of creations,
  -- renamings, revocations, activity updates and cleanups at times that do not decrease.
  pub Run-WithinLimit :
      (start now : ℕ) (s s' : Store db)
      → Run start s now s'
      → WithinLimit start s
      → WithinLimit now s'
  Run-WithinLimit _ _ _ _ (done now s) h = h
  Run-WithinLimit _ _ _ _ (next start now later s s' s'' run le step) h =
      Step-WithinLimit later s' s'' step
        (WithinLimit-later now later s' le (Run-WithinLimit start now s s' run h))
