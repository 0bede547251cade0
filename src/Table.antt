-- ===== src/Table.antt =====
-- The database tables as `PrismaService` offers them (src/database/prisma.service.ts wraps the
-- generated client, which is not part of the repository): an interface of the calls that the
-- services make, with the documented behaviour of each call as a law.
pub mod InMemory
pub mod Laws
pub mod First
use prop_chain_back_end.Base.{
  ℕ, ◌+◌, ◌≡◌, Bool, true, not, List, ◌∷◌, ◌++◌, Option, map, ◌==◌, filter, find, count, patch,
}

-- `contents` is the table's rows in an order of its own; only the laws speak of it.
pub record Table (Row : Type 0) (key : Row → ℕ) : Type 1 where
  pub Rows : Type 0
  pub contents : Rows → List Row
  pub find_unique : ℕ → Rows → Option Row
  pub find_first : (Row → Bool) → Rows → Option Row
  pub find_many : (Row → Bool) → Rows → List Row
  pub count_where : (Row → Bool) → Rows → ℕ
  pub create : Row → Rows → Rows
  pub create_many : List Row → Rows → Rows
  pub update : ℕ → (Row → Row) → Rows → Rows
  pub update_many : (Row → Bool) → (Row → Row) → Rows → Rows
  pub delete_many : (Row → Bool) → Rows → Rows
  pub find_unique_law : (k : ℕ) (t : Rows) → find_unique k t ≡ find (λ r. key r == k) (contents t)
  pub find_first_law : (p : Row → Bool) (t : Rows) → find_first p t ≡ find p (contents t)
  pub find_many_law : (p : Row → Bool) (t : Rows) → find_many p t ≡ filter p (contents t)
  pub count_where_law : (p : Row → Bool) (t : Rows) → count_where p t ≡ count p (contents t)
  pub create_law : (r : Row) (t : Rows) → contents (create r t) ≡ r ∷ contents t
  pub create_many_law : (rs : List Row) (t : Rows) → contents (create_many rs t) ≡ rs ++ contents t
  pub update_law :
      (k : ℕ) (f : Row → Row) (t : Rows)
      → contents (update k f t) ≡ map (patch (λ r. key r == k) f) (contents t)
  pub update_many_law :
      (p : Row → Bool) (f : Row → Row) (t : Rows)
      → contents (update_many p f t) ≡ map (patch p f) (contents t)
  pub delete_many_law :
      (p : Row → Bool) (t : Rows)
      → contents (delete_many p t) ≡ filter (λ r. not (p r)) (contents t)
