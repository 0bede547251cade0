-- ===== src/AccountDeletion.antt =====
-- src/users/account-deletion.service.ts. The time is an argument of each call; the texts of the mails
-- and of the audit's metadata are left out, as are the failures of the two, which the source logs.
mod Tests
pub mod Retention
use prop_chain_back_end.Base.{
  ℕ, suc, ◌+◌, ◌*◌, min, max, Bool, true, false, not, ◌&&◌, List, [], ◌∷◌, Option, none, some,
  String, if◌then◌else◌, or_else, is_some, Action, not_found, bad_request, pure, gets, or_throw,
  throw_if, modify, ◌>>=◌, ◌>>◌, ◌==◌, leb,
}
use prop_chain_back_end.Table.{Table}

pub record User : Type 0 where
  pub id : ℕ
  pub email : String
  pub legal_hold : Bool
  pub is_deactivated : Bool
  pub deactivated_at : Option ℕ
  pub scheduled_deletion_at : Option ℕ
  pub deletion_reason : Option String

-- DELETION_AUDIT_ACTIONS, those that the service writes
pub data AuditAction : Type 0 where
  requested cancelled performed legal_hold_blocked : AuditAction

pub data Mail : Type 0 where
  scheduled cancellation completion : Mail

-- The users, the audit entries and the mails sent, both newest first.
pub record Store (table : Table User (λ r. r.id)) : Type 0 where
  pub users : table.Rows
  pub audits : List (ℕ × AuditAction)
  pub mails : List (String × Mail)

pub record DeletionInput : Type 0 where
  pub user_id : ℕ
  pub retention_days : Option ℕ
  pub reason : Option String

pub record DeletionJobResult : Type 0 where
  pub deleted_count : ℕ
  pub blocked_by_legal_hold : ℕ

abbrev day : ℕ
day = 24 * 60 * 60 * 1000

-- `getDefaultRetentionDays`: the number that the environment gives, if it gives one
unfoldable pub get_default_retention_days : Option ℕ → ℕ
get_default_retention_days none = 30
get_default_retention_days (some parsed) = min 90 (max 7 parsed)

unfoldable pub resolve_retention_days : Option ℕ → Option ℕ → ℕ
resolve_retention_days configured none = get_default_retention_days configured
resolve_retention_days configured (some days) = min 90 (max 7 days)

abbrev pub scheduled_row : ℕ → ℕ → Option String → User → User
scheduled_row now days reason u = record u {
  is_deactivated = true;
  deactivated_at = some now;
  scheduled_deletion_at = some (now + days * day);
  deletion_reason = reason;
}

abbrev pub restored_row : User → User
restored_row u = record u {
  is_deactivated = false;
  deactivated_at = none;
  scheduled_deletion_at = none;
  deletion_reason = none;
}

-- `where: { isDeactivated: true, scheduledDeletionAt: { lte: now } }`
abbrev pub has_passed : Option ℕ → ℕ → Bool
has_passed none now = false
has_passed (some t) now = leb t now

abbrev pub is_due : ℕ → User → Bool
is_due now u = u.is_deactivated && has_passed u.scheduled_deletion_at now

module _ (users : Table User (λ r. r.id)) where
  abbrev pub record_audit : ℕ → AuditAction → Store users → Store users
  record_audit id action s = record s { audits = (id, action) ∷ s.audits }

  abbrev pub send : String → Mail → Store users → Store users
  send email mail s = record s { mails = (email, mail) ∷ s.mails }

  abbrev pub write : ℕ → (User → User) → Store users → Store users
  write id f s = record s { users = users.update id f s.users }

  unfoldable pub request_deletion : Option ℕ → ℕ → DeletionInput → Action (Store users) ℕ
  request_deletion configured now input = do
    found ← gets (λ s. users.find_unique input.user_id s.users)
    user ← or_throw found (not_found "users.not_found")
    modify (λ s. if user.legal_hold then record_audit user.id legal_hold_blocked s else s)
    throw_if user.legal_hold (bad_request "users.self_deletion_blocked_by_legal_hold")
    throw_if (user.is_deactivated && is_some user.scheduled_deletion_at)
        (bad_request "users.self_deletion_already_requested")
    modify (
        write user.id
          (scheduled_row now (resolve_retention_days configured input.retention_days) input.reason))
    modify (record_audit user.id requested)
    modify (send user.email scheduled)
    pure (now + resolve_retention_days configured input.retention_days * day)

  unfoldable pub cancel_deletion : ℕ → ℕ → Action (Store users) ℕ
  cancel_deletion now user_id = do
    found ← gets (λ s. users.find_unique user_id s.users)
    user ← or_throw found (not_found "users.not_found")
    throw_if (not (user.is_deactivated && is_some user.scheduled_deletion_at))
        (bad_request "users.self_deletion_not_requested")
    throw_if (has_passed user.scheduled_deletion_at now)
        (bad_request "users.self_deletion_already_permanent")
    modify (write user.id restored_row)
    modify (record_audit user.id cancelled)
    modify (send user.email cancellation)
    pure user.id

  -- One round of the loop of `performScheduledDeletion`; `deletable` tells whether the database lets
  -- the user be deleted, since it may refuse, and the loop then goes on.
  unfoldable pub delete_one :
      (ℕ → Bool) → User → DeletionJobResult × Store users → DeletionJobResult × Store users
  delete_one deletable u (result, s) =
      if u.legal_hold
      then (
        record result { blocked_by_legal_hold = suc result.blocked_by_legal_hold },
        record_audit u.id legal_hold_blocked s,
      )
      else if deletable u.id
      then (
        record result { deleted_count = suc result.deleted_count },
        send u.email completion (
            record_audit u.id performed
              (record s { users = users.delete_many (λ r. r.id == u.id) s.users })),
      )
      else (result, s)

  unfoldable pub delete_all :
      (ℕ → Bool) → List User → DeletionJobResult × Store users → DeletionJobResult × Store users
  delete_all deletable [] state = state
  delete_all deletable (u ∷ us) state = delete_all deletable us (delete_one deletable u state)

  unfoldable pub perform_scheduled_deletion :
      (ℕ → Bool) → ℕ → Store users → DeletionJobResult × Store users
  perform_scheduled_deletion deletable now s =
      delete_all deletable (users.find_many (is_due now) s.users)
        (record { deleted_count = 0; blocked_by_legal_hold = 0 }, s)
