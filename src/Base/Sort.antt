-- ===== src/Base/Sort.antt =====
-- `orderBy: { … : 'desc' }`, `take` and `skip`: the order in which a query gives its rows.
use Prim.Native.Nat.{ℕ, ◌+◌, ◌-◌, ◌≤◌}
use mathlib.Core.Path.{◌≡◌, refl}
use mathlib.Core.Bool.{Bool}
use mathlib.Core.List.{List, [], ◌∷◌}
use native.Mathlib.Omega.{arith}
use prop_chain_back_end.Base.Tests.{if◌then◌else◌, ◌==◌, leb}
use prop_chain_back_end.Base.Lists.{count}

module _ {A : Type 0} where
  abbrev pub take : ℕ → List A → List A
  take n [] = []
  take n (x ∷ xs) = if n == 0 then [] else x ∷ take (n - 1) xs

  abbrev pub drop : ℕ → List A → List A
  drop n [] = []
  drop n (x ∷ xs) = if n == 0 then x ∷ xs else drop (n - 1) xs

  abbrev pub insert_desc : (A → ℕ) → A → List A → List A
  insert_desc f x [] = x ∷ []
  insert_desc f x (y ∷ ys) = if leb (f y) (f x) then x ∷ y ∷ ys else y ∷ insert_desc f x ys

  abbrev pub sort_desc : (A → ℕ) → List A → List A
  sort_desc f [] = []
  sort_desc f (x ∷ xs) = insert_desc f x (sort_desc f xs)

  count-insert_desc :
      (p : A → Bool) (f : A → ℕ) (x : A) (xs : List A)
      → count p (insert_desc f x xs) ≡ count p (x ∷ xs)
  count-insert_desc p f x [] = refl
  count-insert_desc p f x (y ∷ ys) = ground (arith, count-insert_desc p f x ys)

  -- Sorting keeps the rows.
  pub count-sort_desc :
      (p : A → Bool) (f : A → ℕ) (xs : List A) → count p (sort_desc f xs) ≡ count p xs
  count-sort_desc p f [] = refl
  count-sort_desc p f (x ∷ xs) =
      ground (arith, count-insert_desc p f x (sort_desc f xs), count-sort_desc p f xs)

  -- The rows are those that are taken and those that are skipped.
  pub count-take-drop :
      (p : A → Bool) (n : ℕ) (xs : List A) → count p xs ≡ count p (take n xs) + count p (drop n xs)
  count-take-drop p n [] = omega arith
  count-take-drop p n (x ∷ xs) = ground (arith, count-take-drop p (n - 1) xs)

  pub count-take : (p : A → Bool) (n : ℕ) (xs : List A) → count p (take n xs) ≤ n
  count-take p n [] = omega arith
  count-take p n (x ∷ xs) = ground (arith, count-take p (n - 1) xs)
