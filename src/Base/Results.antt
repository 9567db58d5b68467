-- ===== src/Base/Results.antt =====
-- A Go result `(A, error)`.
use xrestream.Base.Strings.{Text}

-- The errors that a caller tells apart by errors.Is, a violated constraint of the database, and all
-- others by their message. `not_found` is the package's own ErrNotFound, `no_rows` pgx.ErrNoRows.
pub data Error : Type 0 where
  not_found : Error
  no_rows : Error
  violation : Error
  message : Text → Error

pub data Result {ℓ} (A : Type ℓ) : Type ℓ where
  ok : A → Result A
  err : Error → Result A

infixl 5 ◌>>=◌
abbrev pub ◌>>=◌ {ℓ κ} : {A : Type ℓ} {B : Type κ} → Result A → (A → Result B) → Result B
ok a >>= f = f a
err e >>= f = err e
