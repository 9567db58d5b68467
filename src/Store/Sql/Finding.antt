-- ===== src/Store/Sql/Finding.antt =====
-- Finding a row by a key, before and after a change of the table.
use xrestream.Base.{
  ◌++◌, ◌==◌, ◌||◌, ◌∷◌, ◌≡◌, ◌⊎◌, ==_iff, ==_self, Bool, Bool-cases, List, Text, [], arith, false,
  inl, inr, refl, some, text_eq, true,
}
use xrestream.Store.Sql.{any_where, first_where, update_where}
use xrestream.Store.Sql.Rows.{IsUnique}

module _ {A : Type 0} where
  first_where-excluded :
      (p q : A → Bool) (row : A) (rows : List A)
      → first_where p rows ≡ some row
      → any_where q rows ≡ false
      → q row ≡ false
  unfolding first_where any_where
  first_where-excluded p q row [] f n = cc
  first_where-excluded p q row (other ∷ rows) f n =
      ground (arith, first_where-excluded p q row rows)

  pub first_where-passes :
      (p : A → Bool) (row : A) (rows : List A) → first_where p rows ≡ some row → p row ≡ true
  unfolding first_where
  first_where-passes p row [] f = cc
  first_where-passes p row (other ∷ rows) f = ground (arith, first_where-passes p row rows)

  -- A new row is found by a test that no other row passes.
  pub first_where-append :
      (p : A → Bool) (row : A) (rows : List A)
      → any_where p rows ≡ false
      → p row ≡ true
      → first_where p (rows ++ row ∷ []) ≡ some row
  unfolding first_where any_where
  first_where-append p row [] n h = ground arith
  first_where-append p row (other ∷ rows) n h = ground (arith, first_where-append p row rows)

module _ {A : Type 0} (key : A → Text) where
  -- A row that is found by any test is found by its key, when keys are unique.
  pub first_where-key :
      (p : A → Bool) (row : A) (rows : List A)
      → IsUnique key rows
      → first_where p rows ≡ some row
      → first_where (λ other. key other == key row) rows ≡ some row
  unfolding first_where
  first_where-key p row [] u f = cc
  first_where-key p row (other ∷ rows) (here, u) f = elim (Bool-cases (p other)) [
    | inl e ↦ ground (arith, ==_self (key row))
    | inr e ↦ ground (
      arith,
      first_where-key p row rows u,
      first_where-excluded p (λ o. key o == key other) row rows,
      ==_iff (key row) (key other),
      ==_iff (key other) (key row),
    )
  ]

  -- After an update that keeps the keys the row is found as it was, or changed.
  pub first_where-update_where :
      (p : A → Bool) (change : A → A) (k : Text) (row : A) (rows : List A)
      → ((o : A) → key (change o) ≡ key o)
      → first_where (λ o. key o == k) rows ≡ some row
      → (first_where (λ o. key o == k) (update_where p change rows) ≡ some row)
        ⊎ (first_where (λ o. key o == k) (update_where p change rows) ≡ some (change row))
  unfolding first_where update_where
  first_where-update_where p change k row [] keeps f = cc
  first_where-update_where p change k row (other ∷ rows) keeps f =
      ground (arith, keeps other, first_where-update_where p change k row rows keeps)

module _ {A : Type 0} (p q : A → Bool) where
  pub neither_left :
      (rows : List A) → any_where (λ o. p o || q o) rows ≡ false → any_where p rows ≡ false
  unfolding any_where
  neither_left [] n = refl
  neither_left (row ∷ rows) n = ground (arith, neither_left rows)

  pub neither_right :
      (rows : List A) → any_where (λ o. p o || q o) rows ≡ false → any_where q rows ≡ false
  unfolding any_where
  neither_right [] n = refl
  neither_right (row ∷ rows) n = ground (arith, neither_right rows)
