-- ===== src/Table/Laws.antt =====
-- What the calls do to one another's results, from the laws of `Table`.
use mathlib.Core.Option
use prop_chain_back_end.Base.{
  ℕ, ◌≤◌, suc, ◌≡◌, ◌≢◌, inl, inr, Option-cases, refl, sym, ◌∙◌, Bool, true, false, not, ◌&&◌, List,
  [], ◌∷◌, none, some, map, ◌==◌, ==_iff, filter, find, patch, if◌then◌else◌, arith, count-map,
  count-zero, ap, fun_ext, count-append, ◌+◌, count, count_mono, count-filter, find-eq-some,
  find-none, find-pos, length, length-filter,
}
use prop_chain_back_end.Table.{Table}

find-delete :
    {Row : Type 0} (p q : Row → Bool) (xs : List Row) (r : Row)
    → find q xs ≡ some r
    → p r ≡ false
    → find q (filter (λ x. not (p x)) xs) ≡ some r
find-delete p q [] r e h = cc
find-delete p q (x ∷ xs) r e h = ground (arith, find-delete p q xs r)

count-found :
    {Row : Type 0} (q p : Row → Bool) (xs : List Row) (r : Row)
    → find q xs ≡ some r
    → p r ≡ true
    → 1 ≤ count p xs
count-found q p [] r e h = cc
count-found q p (x ∷ xs) r e h = ground (arith, count-found q p xs r)

module _ {Row : Type 0} {key : Row → ℕ} where
  find-patch :
      (j : ℕ) (p : Row → Bool) (f : Row → Row) (xs : List Row)
      → ((r : Row) → key (f r) ≡ key r)
      → find (λ r. key r == j) (map (patch p f) xs)
        ≡ Option.map (patch p f) (find (λ r. key r == j) xs)
  find-patch j p f [] h = refl
  find-patch j p f (x ∷ xs) h = ground (arith, h x, find-patch j p f xs h)

  module _ (T : Table Row key) where
    open T use {
      Rows, find_unique, find_first, find_many, count_where, create, create_many, update,
      update_many, delete_many,
    }

    pub find_unique-key : (k : ℕ) (t : Rows) {r : Row} → find_unique k t ≡ some r → key r ≡ k
    find_unique-key k t {r} e =
        (==_iff (key r) k).0
          (find-eq-some (λ x. key x == k) (T.contents t) r (sym (T.find_unique_law k t) ∙ e))

    pub find_unique-update :
        (j k : ℕ) (f : Row → Row) (t : Rows)
        → ((r : Row) → key (f r) ≡ key r)
        → find_unique j (update k f t) ≡ Option.map (patch (λ r. key r == k) f) (find_unique j t)
    find_unique-update j k f t h =
        rw (T.find_unique_law j (update k f t), T.update_law k f t, T.find_unique_law j t)
          (find-patch j (λ r. key r == k) f (T.contents t) h)

    -- `update` changes the row of that key,
    pub find_unique-update_self :
        (k : ℕ) (f : Row → Row) (t : Rows) {r : Row}
        → ((r : Row) → key (f r) ≡ key r)
        → find_unique k t ≡ some r
        → find_unique k (update k f t) ≡ some (f r)
    find_unique-update_self k f t {r} h e =
        rw (find_unique-update k k f t h, e, find_unique-key k t e) (ground arith)

    -- and no other.
    pub find_unique-update_ne :
        (j k : ℕ) (f : Row → Row) (t : Rows)
        → ((r : Row) → key (f r) ≡ key r)
        → j ≢ k
        → find_unique j (update k f t) ≡ find_unique j t
    find_unique-update_ne j k f t h ne = elim (Option-cases (find_unique j t)) [
      | inl missing ↦ rw (find_unique-update j k f t h, missing)
      | inr (r, found) ↦
          rw (find_unique-update j k f t h, found) (ground (arith, find_unique-key j t found))
    ]

    pub find_unique-update_many :
        (j : ℕ) (p : Row → Bool) (f : Row → Row) (t : Rows)
        → ((r : Row) → key (f r) ≡ key r)
        → find_unique j (update_many p f t) ≡ Option.map (patch p f) (find_unique j t)
    find_unique-update_many j p f t h =
        rw (T.find_unique_law j (update_many p f t), T.update_many_law p f t, T.find_unique_law j t)
          (find-patch j p f (T.contents t) h)

    pub find_unique-create_self : (r : Row) (t : Rows) → find_unique (key r) (create r t) ≡ some r
    find_unique-create_self r t =
        rw (T.find_unique_law (key r) (create r t), T.create_law r t) (ground arith)

    pub find_unique-create_ne :
        (j : ℕ) (r : Row) (t : Rows) → key r ≢ j → find_unique j (create r t) ≡ find_unique j t
    find_unique-create_ne j r t ne =
        rw (T.find_unique_law j (create r t), T.create_law r t, T.find_unique_law j t)
          (ground arith)

    pub find_unique-delete_many :
        (j : ℕ) (p : Row → Bool) (t : Rows) {r : Row}
        → find_unique j t ≡ some r
        → p r ≡ false
        → find_unique j (delete_many p t) ≡ some r
    find_unique-delete_many j p t {r} e h =
        rw (T.find_unique_law j (delete_many p t), T.delete_many_law p t)
          (find-delete p (λ x. key x == j) (T.contents t) r (sym (T.find_unique_law j t) ∙ e) h)

    pub count_where-create :
        (p : Row → Bool) (r : Row) (t : Rows)
        → count_where p (create r t) ≡ (if p r then suc (count_where p t) else count_where p t)
    count_where-create p r t =
        rw (T.count_where_law p (create r t), T.create_law r t, T.count_where_law p t)

    pub count_where-create_many :
        (p : Row → Bool) (rs : List Row) (t : Rows)
        → count_where p (create_many rs t) ≡ count p rs + count_where p t
    count_where-create_many p rs t =
        rw (T.count_where_law p (create_many rs t), T.create_many_law rs t, T.count_where_law p t)
          (count-append p rs (T.contents t))

    pub count_where-update_many :
        (p q : Row → Bool) (f : Row → Row) (t : Rows)
        → count_where p (update_many q f t) ≡ count_where (λ r. p (patch q f r)) t
    count_where-update_many p q f t =
        rw (T.count_where_law p (update_many q f t), T.update_many_law q f t, T.count_where_law)
          (count-map (patch q f) p (T.contents t))

    pub count_where-update :
        (p : Row → Bool) (k : ℕ) (f : Row → Row) (t : Rows)
        → count_where p (update k f t) ≡ count_where (λ r. p (patch (λ r. key r == k) f r)) t
    count_where-update p k f t =
        rw (T.count_where_law p (update k f t), T.update_law k f t, T.count_where_law)
          (count-map (patch (λ r. key r == k) f) p (T.contents t))

    pub count_where-delete_many :
        (p q : Row → Bool) (t : Rows)
        → count_where p (delete_many q t) ≡ count_where (λ r. not (q r) && p r) t
    count_where-delete_many p q t =
        rw (T.count_where_law p (delete_many q t), T.delete_many_law q t, T.count_where_law)
          (count-filter p (λ r. not (q r)) (T.contents t))

    pub count_where_mono :
        (p q : Row → Bool) (t : Rows)
        → ((r : Row) → p r ≡ true → q r ≡ true)
        → count_where p t ≤ count_where q t
    count_where_mono p q t h =
        rw (T.count_where_law p t, T.count_where_law q t) (count_mono p q (T.contents t) h)

    pub find_first-eq-some :
        (p : Row → Bool) (t : Rows) (r : Row) → find_first p t ≡ some r → p r ≡ true
    find_first-eq-some p t r e = find-eq-some p (T.contents t) r (sym (T.find_first_law p t) ∙ e)

    pub find_first-none : (p : Row → Bool) (t : Rows) → find_first p t ≡ none → count_where p t ≡ 0
    find_first-none p t e =
        rw (T.count_where_law p t) (find-none p (T.contents t) (sym (T.find_first_law p t) ∙ e))

    pub find_first-pos :
        (p : Row → Bool) (t : Rows) (r : Row) → find_first p t ≡ some r → 1 ≤ count_where p t
    find_first-pos p t r e =
        rw (T.count_where_law p t) (find-pos p (T.contents t) r (sym (T.find_first_law p t) ∙ e))

    pub length-find_many : (p : Row → Bool) (t : Rows) → length (find_many p t) ≡ count_where p t
    length-find_many p t =
        rw (T.find_many_law p t, T.count_where_law p t) (length-filter p (T.contents t))

    pub count_where-zero :
        (p : Row → Bool) (t : Rows) → ((r : Row) → p r ≡ false) → count_where p t ≡ 0
    count_where-zero p t h = rw (T.count_where_law p t) (count-zero p (T.contents t) h)

    pub count_where-congr :
        (p q : Row → Bool) (t : Rows) → ((r : Row) → p r ≡ q r) → count_where p t ≡ count_where q t
    count_where-congr p q t h = ap (λ f. count_where f t) (fun_ext h)

    -- A row that is found is counted.
    pub find_unique-counted :
        (k : ℕ) (p : Row → Bool) (t : Rows) {r : Row}
        → find_unique k t ≡ some r
        → p r ≡ true
        → 1 ≤ count_where p t
    find_unique-counted k p t {r} e h =
        rw (T.count_where_law p t)
          (count-found (λ x. key x == k) p (T.contents t) r (sym (T.find_unique_law k t) ∙ e) h)

    -- What is found after an update was there before it.
    pub find_unique-update_inv :
        (j k : ℕ) (f : Row → Row) (t : Rows) {r' : Row}
        → ((r : Row) → key (f r) ≡ key r)
        → find_unique j (update k f t) ≡ some r'
        → (r : Row) × (find_unique j t ≡ some r) × (r' ≡ (if j == k then f r else r))
    find_unique-update_inv j k f t {r'} h e = elim (Option-cases (find_unique j t)) [
      | inl missing ↦ cc (find_unique-update j k f t h, missing)
      | inr (r, found) ↦
          (r, found, ground (arith, find_unique-update j k f t h, find_unique-key j t found))
    ]
