-- ===== src/Auth/ApiKeys/Permissions.antt =====
-- src/auth/auth.service.ts: the permissions that an API key is stored with.
use prop_chain_back_end.Base.{
  ◌≡◌, ◌≤◌, refl, subst, inl, inr, Bool-cases, Bool, not, ◌&&◌, List, [], ◌∷◌, map, String, arith,
  str_eq, eq_iff, filter, count, any, count-filter, count-zero, count_mono,
}
use prop_chain_back_end.Auth.ApiKeys.{dedupe, normalize_permissions}

abbrev pub is : String → String → Bool
is p q = str_eq q p

any-filter_ne :
    (x p : String) (xs : List String)
    → any (is p) (filter (λ y. not (str_eq y x)) xs) ≡ (not (str_eq p x) && any (is p) xs)
any-filter_ne x p [] = ground arith
any-filter_ne x p (y ∷ ys) = elim (Bool-cases (str_eq y p)) [
  | inl same ↦ rw ((eq_iff y p).0 same) (ground (arith, any-filter_ne x p ys, (eq_iff p p).1 refl))
  | inr differs ↦ ground (arith, differs, any-filter_ne x p ys)
]

any-dedupe : (p : String) (xs : List String) → any (is p) (dedupe xs) ≡ any (is p) xs
any-dedupe p [] = refl
any-dedupe p (x ∷ xs) = elim (Bool-cases (str_eq x p)) [
  | inl same ↦ ground (arith, same)
  | inr differs ↦ elim (Bool-cases (str_eq p x)) [
    | inl same ↦ rw ((eq_iff p x).0 same) (ground (arith, (eq_iff x x).1 refl))
    | inr other ↦ ground (arith, differs, other, any-filter_ne x p (dedupe xs), any-dedupe p xs)
  ]
]

count-filter_ne :
    (x p : String) (xs : List String)
    → count (is p) (filter (λ y. not (str_eq y x)) xs) ≤ count (is p) xs
count-filter_ne x p xs = ground (
  arith,
  count-filter (is p) (λ y. not (str_eq y x)) xs,
  count_mono (λ y. not (str_eq y x) && is p y) (is p) xs (λ y h. ground arith),
)

count-filter_self :
    (x : String) (xs : List String) → count (is x) (filter (λ y. not (str_eq y x)) xs) ≡ 0
count-filter_self x xs = ground (
  arith,
  count-filter (is x) (λ y. not (str_eq y x)) xs,
  count-zero (λ y. not (str_eq y x) && is x y) xs (λ y. ground arith),
)

count-dedupe : (p : String) (xs : List String) → count (is p) (dedupe xs) ≤ 1
count-dedupe p [] = omega arith
count-dedupe p (x ∷ xs) = elim (Bool-cases (str_eq x p)) [
  | inl same ↦
      let none_left =
        subst (λ q. count (is q) (filter (λ y. not (str_eq y x)) (dedupe xs)) ≡ 0)
          ((eq_iff x p).0 same) (count-filter_self x (dedupe xs)) in
      ground (arith, same, none_left)
  | inr differs ↦ ground (arith, differs, count-filter_ne x p (dedupe xs), count-dedupe p xs)
]

-- No permission is stored twice, and those that are stored are the ones asked for, trimmed, less the
-- blank ones.
pub normalize_permissions_lem :
    (trim : String → String) (permissions : List String) (p : String)
    → (count (is p) (normalize_permissions trim permissions) ≤ 1)
      × (any (is p) (normalize_permissions trim permissions)
          ≡ any (is p) (filter (λ q. not (str_eq q "")) (map trim permissions)))
unfolding normalize_permissions
normalize_permissions_lem trim permissions p = (
  count-dedupe p (filter (λ q. not (str_eq q "")) (map trim permissions)),
  any-dedupe p (filter (λ q. not (str_eq q "")) (map trim permissions)),
)
