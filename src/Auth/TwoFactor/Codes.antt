-- ===== src/Auth/TwoFactor/Codes.antt =====
-- src/auth/security.utils.ts: the codes of the second factor.
use prop_chain_back_end.Base.{
  ℕ, ◌+◌, ◌-◌, ◌/◌, ◌≡◌, ◌≤◌, ◌<◌, refl, ap, subst, Bool-cases, not, if◌then◌else◌, inl, inr, ◌⊎◌,
  true, ◌||◌, some, none, String, List, [], ◌∷◌, arith, str_eq, eq_iff, filter, find, find-eq-some,
}
use prop_chain_back_end.Auth.Interfaces.{Crypto}
use prop_chain_back_end.Auth.TwoFactor.{
  truncate, backup_digest, generate_totp_code, verify_totp_code, verify_backup_code,
}

str_refl : (s : String) → str_eq s s ≡ true
str_refl s = (eq_iff s s).1 refl

-- A code has at most six digits.
pub truncate_bound : (hmac : List ℕ) → truncate hmac < 1000000
unfolding truncate
truncate_bound hmac = omega arith

near_period :
    (issued now : ℕ)
    → 30000 ≤ now
    → issued / 1000 / 30 ≤ now / 1000 / 30 + 1
    → now / 1000 / 30 ≤ issued / 1000 / 30 + 1
    → (issued / 1000 / 30 ≡ (now - 30000) / 1000 / 30)
      ⊎ ((issued / 1000 / 30 ≡ now / 1000 / 30) ⊎ (issued / 1000 / 30 ≡ (now + 30000) / 1000 / 30))
near_period issued now started early late = ground arith

one_matches :
    (trim : String → String) (code : ℕ → String) (i a b c : ℕ)
    → trim (code i) ≡ code i
    → (i ≡ a) ⊎ ((i ≡ b) ⊎ (i ≡ c))
    → (str_eq (code a) (trim (code i))
        || (str_eq (code b) (trim (code i)) || str_eq (code c) (trim (code i))))
      ≡ true
one_matches trim code i a b c trimmed (inl e) =
    ground (arith, ap code e, trimmed, str_refl (code a))
one_matches trim code i a b c trimmed (inr (inl e)) =
    ground (arith, ap code e, trimmed, str_refl (code b))
one_matches trim code i a b c trimmed (inr (inr e)) =
    ground (arith, ap code e, trimmed, str_refl (code c))

-- A code is accepted in its own period of 30 seconds, in the one before and in the one after,
-- where trimming leaves decimal digits as they are and the clock is past its first period.
pub verify_totp_code_window :
    (crypto : Crypto) (secret : String) (issued now : ℕ)
    → ((n : ℕ) → crypto.trim (crypto.decimal n) ≡ crypto.decimal n)
    → 30000 ≤ now
    → issued / 1000 / 30 ≤ now / 1000 / 30 + 1
    → now / 1000 / 30 ≤ issued / 1000 / 30 + 1
    → verify_totp_code crypto secret (generate_totp_code crypto secret issued) now ≡ true
unfolding verify_totp_code generate_totp_code
verify_totp_code_window crypto secret issued now trimmed started early late =
    one_matches (crypto.trim)
      (λ counter. crypto.decimal (truncate (crypto.totp_digest secret counter)))
      (issued / 1000 / 30) ((now - 30000) / 1000 / 30) (now / 1000 / 30) ((now + 30000) / 1000 / 30)
      (trimmed (truncate (crypto.totp_digest secret (issued / 1000 / 30))))
      (near_period issued now started early late)

find-without :
    (d h : String) (xs : List String)
    → find (λ y. str_eq y d) (filter (λ y. not (str_eq y h)) xs)
      ≡ (if str_eq d h then none else find (λ y. str_eq y d) xs)
find-without d h [] = ground arith
find-without d h (x ∷ xs) = elim (Bool-cases (str_eq x d)) [
  | inl same ↦ rw ((eq_iff x d).0 same) (ground (arith, str_refl d, find-without d h xs))
  | inr differs ↦ ground (arith, differs, find-without d h xs)
]

-- What the login leaves of the backup codes once a code was accepted: neither that code nor one with
-- the same hash is accepted again, and each other code is as it was.
pub verify_backup_code_once :
    (crypto : Crypto) (used code : String) (hashes : List String) {hash : String}
    → verify_backup_code crypto used hashes ≡ some hash
    → verify_backup_code crypto code (filter (λ h. not (str_eq h hash)) hashes) ≡ (
        if str_eq (backup_digest crypto code) (backup_digest crypto used)
        then none
        else verify_backup_code crypto code hashes)
unfolding verify_backup_code
verify_backup_code_once crypto used code hashes {hash} accepted =
    let same =
      (eq_iff hash (backup_digest crypto used)).0
        (find-eq-some (λ h. str_eq h (backup_digest crypto used)) hashes hash accepted) in
    subst
      (λ h.
        find (λ y. str_eq y (backup_digest crypto code)) (filter (λ y. not (str_eq y hash)) hashes)
        ≡ (if str_eq (backup_digest crypto code) h
            then none
            else find (λ y. str_eq y (backup_digest crypto code)) hashes))
      same (find-without (backup_digest crypto code) hash hashes)
