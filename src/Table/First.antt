-- ===== src/Table/First.antt =====
-- The laws of `Table` for the first row that passes a test: how creations and updates change it.
use mathlib.Core.Option
use prop_chain_back_end.Base.{
  ℕ, ◌≡◌, refl, arith, Bool, List, [], ◌∷◌, some, map, if◌then◌else◌, ◌==◌, find, patch,
}
use prop_chain_back_end.Table.{Table}

find-map-patch :
    {Row : Type 0} (p q : Row → Bool) (f : Row → Row) (xs : List Row)
    → ((r : Row) → p (f r) ≡ p r)
    → find p (map (patch q f) xs) ≡ Option.map (patch q f) (find p xs)
find-map-patch p q f [] h = refl
find-map-patch p q f (x ∷ xs) h = ground (arith, h x, find-map-patch p q f xs h)

module _ {Row : Type 0} {key : Row → ℕ} (T : Table Row key) where
  open T use {Rows, find_first, create, update, update_many}

  pub find_first-create :
      (p : Row → Bool) (r : Row) (t : Rows)
      → find_first p (create r t) ≡ (if p r then some r else find_first p t)
  find_first-create p r t =
      rw (T.find_first_law p (create r t), T.create_law r t, T.find_first_law p t)

  pub find_first-update_many :
      (p q : Row → Bool) (f : Row → Row) (t : Rows)
      → ((r : Row) → p (f r) ≡ p r)
      → find_first p (update_many q f t) ≡ Option.map (patch q f) (find_first p t)
  find_first-update_many p q f t h =
      rw (T.find_first_law p (update_many q f t), T.update_many_law q f t, T.find_first_law p t)
        (find-map-patch p q f (T.contents t) h)

  pub find_first-update :
      (p : Row → Bool) (k : ℕ) (f : Row → Row) (t : Rows)
      → ((r : Row) → p (f r) ≡ p r)
      → find_first p (update k f t) ≡ Option.map (patch (λ r. key r == k) f) (find_first p t)
  find_first-update p k f t h =
      rw (T.find_first_law p (update k f t), T.update_law k f t, T.find_first_law p t)
        (find-map-patch p (λ r. key r == k) f (T.contents t) h)
