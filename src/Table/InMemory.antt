-- ===== src/Table/InMemory.antt =====
-- A table as a list of rows: it meets the laws of `Table`, and runs the models on test data.
use prop_chain_back_end.Base.{ℕ, refl, not, List, ◌∷◌, ◌++◌, map, ◌==◌, filter, find, count, patch}
use prop_chain_back_end.Table.{Table}

abbrev pub in_memory : (Row : Type 0) (key : Row → ℕ) → Table Row key
in_memory Row key = record {
  Rows = List Row;
  contents = λ t. t;
  find_unique = λ k t. find (λ r. key r == k) t;
  find_first = λ p t. find p t;
  find_many = λ p t. filter p t;
  count_where = λ p t. count p t;
  create = λ r t. r ∷ t;
  create_many = λ rs t. rs ++ t;
  update = λ k f t. map (patch (λ r. key r == k) f) t;
  update_many = λ p f t. map (patch p f) t;
  delete_many = λ p t. filter (λ r. not (p r)) t;
  find_unique_law = λ k t. refl;
  find_first_law = λ p t. refl;
  find_many_law = λ p t. refl;
  count_where_law = λ p t. refl;
  create_law = λ r t. refl;
  create_many_law = λ rs t. refl;
  update_law = λ k f t. refl;
  update_many_law = λ p f t. refl;
  delete_many_law = λ p t. refl;
}
