-- ===== src/AccountDeletion/Retention.antt =====
-- src/users/account-deletion.service.ts: how long a deletion can be undone, and who is never deleted.
use prop_chain_back_end.Base.{
  ℕ, ◌+◌, ◌*◌, ◌≡◌, ◌≤◌, ◌<◌, refl, ◌∙◌, Bool, true, false, not, ◌&&◌, List, [], ◌∷◌, Option, none,
  some, ok, err, arith, bad_request, ◌==◌, count, count-filter,
}
use prop_chain_back_end.Table.{Table}
use prop_chain_back_end.Table.Laws.{
  find_unique-update_self, find_unique-delete_many, find_unique-key,
}
use prop_chain_back_end.AccountDeletion.{
  User, legal_hold_blocked, Store, DeletionInput, DeletionJobResult, get_default_retention_days,
  resolve_retention_days, scheduled_row, restored_row, is_due, request_deletion, cancel_deletion,
  delete_one, delete_all, perform_scheduled_deletion,
}

-- The retention is between a week and ninety days, whatever the environment and the caller ask for.
pub resolve_retention_days-bounds :
    (configured asked : Option ℕ)
    → (7 ≤ resolve_retention_days configured asked) × (resolve_retention_days configured asked ≤ 90)
unfolding resolve_retention_days get_default_retention_days
resolve_retention_days-bounds none none = omega arith
resolve_retention_days-bounds (some n) none = omega arith
resolve_retention_days-bounds configured (some n) = omega arith

module _ (users : Table User (λ r. r.id)) where
  -- For an active user without legal hold, a cancellation before the end of the retention undoes
  -- the request: it succeeds and the stored user is the one from before.
  pub cancel_deletion-request_deletion :
      (configured : Option ℕ) (now later : ℕ) (input : DeletionInput) (s : Store users) {u : User}
      → users.find_unique input.user_id s.users ≡ some u
      → u.legal_hold ≡ false
      → restored_row u ≡ u
      → later < now + resolve_retention_days configured input.retention_days * 86400000
      → let (r, s') = request_deletion users configured now input s in
        let (r', s'') = cancel_deletion users later input.user_id s' in
        (r' ≡ ok input.user_id) × (users.find_unique input.user_id s''.users ≡ some u)
  unfolding request_deletion cancel_deletion
  cancel_deletion-request_deletion configured now later input s {u} found free active soon =
      let days = resolve_retention_days configured input.retention_days in
      let row = scheduled_row now days input.reason in
      let asked = find_unique-update_self users input.user_id row s.users (λ r. refl) found in
      let undone =
        find_unique-update_self users input.user_id restored_row
          (users.update input.user_id row s.users) (λ r. refl) asked in
      ground (arith, find_unique-key users input.user_id s.users found)

  -- On legal hold no deletion is requested: the call is refused, and all it writes is the audit entry.
  pub request_deletion-legal_hold :
      (configured : Option ℕ) (now : ℕ) (input : DeletionInput) (s : Store users) {u : User}
      → users.find_unique input.user_id s.users ≡ some u
      → u.legal_hold ≡ true
      → request_deletion users configured now input s ≡ (
        err (bad_request "users.self_deletion_blocked_by_legal_hold"),
        record s { audits = (u.id, legal_hold_blocked) ∷ s.audits },
      )
  unfolding request_deletion
  request_deletion-legal_hold configured now input s found held = ground arith

  delete_all-kept :
      (deletable : ℕ → Bool) (id : ℕ) (us : List User) (result : DeletionJobResult)
      (s : Store users) (u : User)
      → count (λ c. (c.id == id) && not c.legal_hold) us ≡ 0
      → users.find_unique id s.users ≡ some u
      → users.find_unique id (delete_all users deletable us (result, s)).1.users ≡ some u
  unfolding delete_all delete_one
  delete_all-kept deletable id [] result s u spared found = found
  delete_all-kept deletable id (c ∷ cs) result s u spared found = ground (
    arith,
    spared,
    found,
    delete_all-kept deletable id cs (delete_one users deletable c (result, s)).0
        (delete_one users deletable c (result, s)).1 u,
    find_unique-delete_many users id (λ r. r.id == c.id) s.users found,
    find_unique-key users id s.users found,
  )

  of_due :
      (now : ℕ) (s : Store users) (p : User → Bool)
      → count p (users.find_many (is_due now) s.users)
        ≡ users.count_where (λ c. is_due now c && p c) s.users
  of_due now s p =
      rw (users.find_many_law (is_due now) s.users, users.count_where_law)
        (count-filter p (is_due now) (users.contents s.users))

  -- performScheduledDeletion keeps a user of whom no row is both due and free of a legal hold, so
  -- nobody on legal hold and nobody before the scheduled time is deleted.
  pub perform_scheduled_deletion-kept :
      (deletable : ℕ → Bool) (now id : ℕ) (s : Store users) (u : User)
      → users.find_unique id s.users ≡ some u
      → users.count_where (λ c. is_due now c && ((c.id == id) && not c.legal_hold)) s.users ≡ 0
      → users.find_unique id (perform_scheduled_deletion users deletable now s).1.users ≡ some u
  unfolding perform_scheduled_deletion
  perform_scheduled_deletion-kept deletable now id s u found spared =
      delete_all-kept deletable id (users.find_many (is_due now) s.users)
        (record { deleted_count = 0; blocked_by_legal_hold = 0 }) s u
        (of_due now s (λ c. (c.id == id) && not c.legal_hold) ∙ spared) found

  delete_all-counts :
      (deletable : ℕ → Bool) (us : List User) (result : DeletionJobResult) (s : Store users)
      → let r = (delete_all users deletable us (result, s)).0 in
        (r.blocked_by_legal_hold ≡ count (λ c. c.legal_hold) us + result.blocked_by_legal_hold)
        × (r.deleted_count
            ≡ count (λ c. not c.legal_hold && deletable c.id) us + result.deleted_count)
  unfolding delete_all delete_one
  delete_all-counts deletable [] result s = (omega arith, omega arith)
  delete_all-counts deletable (c ∷ cs) result s = ground (
    arith,
    delete_all-counts deletable cs (delete_one users deletable c (result, s)).0
        (delete_one users deletable c (result, s)).1,
  )

  -- The job reports as blocked the due users on legal hold, and as deleted the other due users
  -- that the database lets go.
  pub perform_scheduled_deletion-counts :
      (deletable : ℕ → Bool) (now : ℕ) (s : Store users)
      → let r = (perform_scheduled_deletion users deletable now s).0 in
        (r.blocked_by_legal_hold ≡ users.count_where (λ c. is_due now c && c.legal_hold) s.users)
        × (r.deleted_count
            ≡ users.count_where (λ c. is_due now c && (not c.legal_hold && deletable c.id)) s.users)
  unfolding perform_scheduled_deletion
  perform_scheduled_deletion-counts deletable now s =
      let due = users.find_many (is_due now) s.users in
      let (held, gone) =
        delete_all-counts deletable due (record { deleted_count = 0; blocked_by_legal_hold = 0 })
          s in
      (
        omega (arith, held, of_due now s (λ c. c.legal_hold)),
        omega (arith, gone, of_due now s (λ c. not c.legal_hold && deletable c.id)),
      )
