-- ===== src/AccountDeletion/Tests.antt =====
-- The theorems on the deletion of accounts, at two users.
use prop_chain_back_end.Base.{◌≡◌, refl, [], ◌∷◌, none, some, true, false, ok, arith}
use prop_chain_back_end.Table.{Table}
use prop_chain_back_end.Table.InMemory.{in_memory}
use prop_chain_back_end.AccountDeletion.{
  User, Store, DeletionInput, request_deletion, cancel_deletion, perform_scheduled_deletion,
  resolve_retention_days, get_default_retention_days,
}
use prop_chain_back_end.AccountDeletion.Retention.{
  cancel_deletion-request_deletion, perform_scheduled_deletion-kept,
}

abbrev users : Table User (λ r. r.id)
users = in_memory User (λ r. r.id)

abbrev member : User
member = record {
  id = 1;
  email = "a@b.c";
  legal_hold = false;
  is_deactivated = false;
  deactivated_at = none;
  scheduled_deletion_at = none;
  deletion_reason = none;
}

abbrev held : User
held = record member {
  id = 2;
  legal_hold = true;
  is_deactivated = true;
  scheduled_deletion_at = some 10;
}

abbrev leaving : User
leaving = record member { id = 3; is_deactivated = true; scheduled_deletion_at = some 20 }

abbrev accounts : Store users
accounts = record { users = member ∷ held ∷ leaving ∷ []; audits = []; mails = [] }

abbrev wish : DeletionInput
wish = record { user_id = 1; retention_days = none; reason = none }

cancel_deletion-request_deletion_example :
    let (r, s') = request_deletion users none 100 wish accounts in
    let (r', s'') = cancel_deletion users 200 1 s' in
    (r' ≡ ok 1) × (users.find_unique 1 s''.users ≡ some member)
unfolding resolve_retention_days get_default_retention_days
cancel_deletion-request_deletion_example =
    cancel_deletion-request_deletion users none 100 200 wish accounts refl refl refl (omega arith)

perform_scheduled_deletion-kept_example :
    users.find_unique 2 (perform_scheduled_deletion users (λ id. true) 100 accounts).1.users
    ≡ some held
perform_scheduled_deletion-kept_example =
    perform_scheduled_deletion-kept users (λ id. true) 100 2 accounts held refl refl
