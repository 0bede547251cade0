-- ===== src/Auth/Registration/Rows.antt =====
-- src/auth/dto/auth.dto.ts and src/auth/auth.service.ts: what a registration and a login with Google are
-- given, and the rows that they write.
use prop_chain_back_end.Base.{
  ℕ, Bool, true, false, [], Option, none, some, String, if◌then◌else◌, is_some, ltb, str_eq,
}
use prop_chain_back_end.Auth.Rows.{User, UserRole, UserTier}

pub record RegisterDto : Type 0 where
  pub email : String
  pub password : String
  pub first_name : String
  pub last_name : String
  pub phone : Option String

pub record GoogleProfile : Type 0 where
  pub google_id : String
  pub email : String
  pub first_name : String
  pub last_name : String
  pub avatar : Option String

-- the ids, the salt and the random text that a registration uses up
pub record RegistrationIds : Type 0 where
  pub user_id : ℕ
  pub history_id : ℕ
  pub salt : ℕ
  pub verification_token : String

-- the columns that the schema gives a default
abbrev pub new_user : ℕ → ℕ → String → String → String → User
new_user now id email first_name last_name = record {
  id = id;
  email = email;
  password = none;
  google_id = none;
  first_name = first_name;
  last_name = last_name;
  phone = none;
  avatar = none;
  role = UserRole.user;
  tier = UserTier.free;
  is_verified = false;
  is_blocked = false;
  is_deactivated = false;
  two_factor_enabled = false;
  two_factor_secret = none;
  two_factor_backup_codes = [];
  email_verification_token = none;
  email_verification_expires = none;
  last_activity_at = none;
  created_at = now;
}

abbrev pub opt_str_eq : Option String → String → Bool
opt_str_eq none b = false
opt_str_eq (some a) b = str_eq a b

-- `new Date() > expires`
abbrev pub is_past : ℕ → Option ℕ → Bool
is_past now none = true
is_past now (some expires) = ltb expires now

abbrev pub verified : User → User
verified user = record user {
  is_verified = true;
  email_verification_token = none;
  email_verification_expires = none;
}

abbrev pub token_cleared : User → User
token_cleared user = record user {
  email_verification_token = none;
  email_verification_expires = none;
}

abbrev pub with_token : String → ℕ → User → User
with_token token expires user = record user {
  email_verification_token = some token;
  email_verification_expires = some expires;
}

abbrev pub linked : GoogleProfile → User → User
linked profile user = record user {
  google_id = some profile.google_id;
  avatar = if is_some user.avatar then user.avatar else profile.avatar;
}

abbrev pub synced : GoogleProfile → User → User
synced profile user = record user {
  first_name = profile.first_name;
  last_name = profile.last_name;
  avatar = if is_some user.avatar then user.avatar else profile.avatar;
}

abbrev pub google_user : ℕ → ℕ → GoogleProfile → User
google_user now id profile =
    record (new_user now id profile.email profile.first_name profile.last_name) {
      google_id = some profile.google_id;
      avatar = profile.avatar;
      is_verified = true;
    }
