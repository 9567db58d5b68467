-- ===== src/Store/Sql/Rows.antt =====
-- How the statements of Store/Sql.antt act on the rows that a second test picks out.
use xrestream.Base.{
  ℕ, ◌&&◌, ◌++◌, ◌==◌, ◌∷◌, ◌≡◌, ==_iff, All, Bool, Bool-cases, List, Text, [], arith, false,
  if_both, inl, inr, leb, none, refl, some, subst, text_eq, true,
}
use xrestream.Store.Sql.{
  all_where, any_where, delete_where, first_where, order_asc, place, update_where,
}

-- Each row that `p` picks is none that `q` picks.
abbrev pub Disjoint : {A : Type 0} → (A → Bool) → (A → Bool) → List A → Type 0
Disjoint p q [] = Unit
Disjoint p q (row ∷ rows) = (p row ≡ true → q row ≡ false) × Disjoint p q rows

module _ {A : Type 0} (p q : A → Bool) where
  pub all_where-delete_where :
      (rows : List A) → Disjoint p q rows → all_where q (delete_where p rows) ≡ all_where q rows
  unfolding all_where delete_where
  all_where-delete_where [] d = refl
  all_where-delete_where (row ∷ rows) (here, d) = ground (arith, all_where-delete_where rows d)

  pub all_where-update_where :
      (change : A → A) (rows : List A)
      → ((row : A) → q row ≡ false → q (change row) ≡ false)
      → Disjoint p q rows
      → all_where q (update_where p change rows) ≡ all_where q rows
  unfolding all_where update_where
  all_where-update_where change [] keeps d = refl
  all_where-update_where change (row ∷ rows) keeps (here, d) =
      ground (arith, keeps row, all_where-update_where change rows keeps d)

  pub Disjoint-append :
      (row : A) (rows : List A)
      → Disjoint p q rows
      → q row ≡ false
      → Disjoint p q (rows ++ row ∷ [])
  Disjoint-append row [] d n = (λ e. n, tt)
  Disjoint-append row (other ∷ rows) (here, d) n = (here, Disjoint-append row rows d n)

  pub Disjoint-update_where :
      (change : A → A) (rows : List A)
      → ((row : A) → q row ≡ false → q (change row) ≡ false)
      → Disjoint p q rows
      → Disjoint p q (update_where p change rows)
  unfolding update_where
  Disjoint-update_where change [] keeps d = tt
  Disjoint-update_where change (row ∷ rows) keeps (here, d) = elim (Bool-cases (p row)) [
    | inl e ↦ rw e (λ h. keeps row (here e), Disjoint-update_where change rows keeps d)
    | inr e ↦ rw e (here, Disjoint-update_where change rows keeps d)
  ]

module _ {A : Type 0} (q : A → Bool) where
  pub all_where-append :
      (rows : List A) (row : A) → q row ≡ false → all_where q (rows ++ row ∷ []) ≡ all_where q rows
  unfolding all_where
  all_where-append [] row n = ground arith
  all_where-append (other ∷ rows) row n = ground (arith, all_where-append rows row n)

-- Nothing is found where there is nothing.
module _ {A : Type 0} (p : A → Bool) where
  pub first_where-missing : (rows : List A) → any_where p rows ≡ false → first_where p rows ≡ none
  unfolding any_where first_where
  first_where-missing [] h = refl
  first_where-missing (row ∷ rows) h = ground (arith, first_where-missing rows)

-- A column in which no value stands twice.
module _ {A : Type 0} (key : A → Text) where
  abbrev pub IsUnique : List A → Type 0
  IsUnique [] = Unit
  IsUnique (row ∷ rows) = (any_where (λ other. key other == key row) rows ≡ false) × IsUnique rows

  -- Nothing is picked by a key that does not stand in the column.
  pub Disjoint-missing :
      (q : A → Bool) (k : Text) (rows : List A)
      → any_where (λ row. key row == k) rows ≡ false
      → Disjoint (λ row. key row == k) q rows
  unfolding any_where
  Disjoint-missing q k [] h = tt
  Disjoint-missing q k (row ∷ rows) h =
      (λ e. ground arith, Disjoint-missing q k rows (ground arith))

  -- In a unique column, what is not true of the row that a key finds is true of no row with the key.
  pub Disjoint-found :
      (q : A → Bool) (k : Text) (found : A) (rows : List A)
      → IsUnique rows
      → first_where (λ row. key row == k) rows ≡ some found
      → q found ≡ false
      → Disjoint (λ row. key row == k) q rows
  unfolding first_where any_where
  Disjoint-found q k found [] u f n = tt
  Disjoint-found q k found (row ∷ rows) (here, u) f n = elim (Bool-cases (key row == k)) [
    | inl same ↦ (
      λ e. ground (arith),
      Disjoint-missing q k rows (
          subst (λ j. any_where (λ other. key other == j) rows ≡ false)
            ((==_iff (key row) k).0 same) here),
    )
    | inr other ↦ (λ e. ground (arith), Disjoint-found q k found rows u (ground (arith)) n)
  ]

-- What holds of all rows.
module _ {κ} {A : Type 0} (P : A → Type κ) where
  place-All :
      (key : A → ℕ) (row : A) (rows : List A) → P row → All P rows → All P (place key row rows)
  unfolding place
  place-All key row [] h hs = (h, tt)
  place-All key row (other ∷ rows) h (k, hs) =
      if_both (All P) (leb (key row) (key other)) (h, (k, hs)) (k, place-All key row rows h hs)

  pub order_asc-All : (key : A → ℕ) (rows : List A) → All P rows → All P (order_asc key rows)
  unfolding order_asc
  order_asc-All key [] hs = tt
  order_asc-All key (row ∷ rows) (h, hs) = place-All key row _ h (order_asc-All key rows hs)

module _ {A : Type 0} (q p : A → Bool) where
  -- The rows that are picked have no property that excludes the test.
  pub all_where-excludes :
      (rows : List A)
      → All (λ row. (p row && q row) ≡ false) rows
      → All (λ row. p row ≡ false) (all_where q rows)
  unfolding all_where
  all_where-excludes [] h = tt
  all_where-excludes (row ∷ rows) (here, h) = elim (Bool-cases (q row)) [
    | inl e ↦ rw e (ground arith, all_where-excludes rows h)
    | inr e ↦ rw e (all_where-excludes rows h)
  ]
