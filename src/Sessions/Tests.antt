-- ===== src/Sessions/Tests.antt =====
-- The theorems on sessions, at the sessions of one user.
use prop_chain_back_end.Base.{
  ℕ, ◌+◌, ◌*◌, ◌≡◌, refl, [], ◌∷◌, none, some, String, Bool, true, false, ok, arith,
}
use prop_chain_back_end.Table.InMemory.{in_memory}
use prop_chain_back_end.Sessions.{
  Session, BlacklistedToken, Database, Store, NewSession, create_session, revoke_session,
  revoke_all_sessions, is_session_valid,
}
use prop_chain_back_end.Sessions.Limit.{Step, Run, WithinLimit, Run-WithinLimit}
use prop_chain_back_end.Sessions.Revocation.{
  revoke_session_owner, is_blacklisted, revoke_all_sessions_blacklists,
}

abbrev db : Database
db = record {
  sessions = in_memory Session (λ r. r.id);
  blacklist = in_memory BlacklistedToken (λ r. r.jti);
}

abbrev session : ℕ → ℕ → Session
session id user_id = record {
  id = id;
  user_id = user_id;
  access_jti = id * 10;
  refresh_jti = some (id * 10 + 1);
  ip_address = none;
  user_agent = none;
  display_name = none;
  device_info = record { browser = none; os = none; device_type = none };
  geo_location = none;
  is_revoked = false;
  revoked_at = none;
  expires_at = 1000;
  last_activity_at = 0;
  created_at = 0;
}

-- Two sessions of user 1 and one of user 2.
abbrev online : Store db
online = record {
  sessions = session 4 1 ∷ session 5 1 ∷ session 6 2 ∷ [];
  blacklist = [];
  published = [];
}

abbrev nobody : Store db
nobody = record { sessions = []; blacklist = []; published = [] }

abbrev contains : String → String → Bool
contains ua s = false

abbrev login : NewSession
login = record {
  id = 1;
  access_jti = 10;
  refresh_jti = 11;
  ip_address = none;
  user_agent = none;
  expires_in_seconds = 60;
}

abbrev after_login : Store db
after_login = (create_session db (λ s. s) contains 1 5 1 login nobody).1

nobody-WithinLimit : WithinLimit db (λ s. s) contains 1 0 nobody
unfolding WithinLimit
nobody-WithinLimit user_id = omega arith

Run-WithinLimit_example :
    WithinLimit db
      (λ s. s)
      contains
      1
      9
      (create_session db (λ s. s) contains 1 9 1 login after_login).1
Run-WithinLimit_example =
    Run-WithinLimit db (λ s. s) contains 1 0 9 nobody
      (create_session db (λ s. s) contains 1 9 1 login after_login).1
      (Run.next 0 5 9 nobody after_login
        (create_session db (λ s. s) contains 1 9 1 login after_login).1
        (Run.next 0 0 5 nobody nobody after_login (Run.done 0 nobody) (omega arith)
          (Step.creates 5 1 login nobody))
        (omega arith) (Step.creates 9 1 login after_login))
      nobody-WithinLimit

revoke_session_owner_example :
    let (answer, s') = revoke_session db 100 1 4 online in
    (answer ≡ ok 4) × (s'.published ≡ (4 ∷ []) ∷ []) × (is_session_valid db 101 4 s' ≡ false)
revoke_session_owner_example = revoke_session_owner db 100 101 1 4 online refl

revoke_all_sessions_blacklists_example :
    is_blacklisted db 41 (revoke_all_sessions db 100 1 none online).1.blacklist ≡ true
revoke_all_sessions_blacklists_example =
    revoke_all_sessions_blacklists db 100 1 4 41 none online refl refl refl
