-- ===== src/Base/Separators.antt =====
-- Texts that are put together with a separator, and taken apart at its first or its last place.
use Prim.Native.Nat.{ℕ}
use mathlib.Core.Path.{◌≡◌, refl, subst}
use mathlib.Core.Logic.{◌≢◌}
use mathlib.Core.List.{[], ◌∷◌, ◌++◌}
use xrestream.Base.Strings.{Text}

abbrev pub Without : ℕ → Text → Type 0
Without a [] = Unit
Without a (b ∷ s) = (a ≢ b) × Without a s

Without-append : (a : ℕ) (s t : Text) → ¬ Without a (s ++ a ∷ t)
Without-append a [] t w = w.0 refl
Without-append a (b ∷ s) t w = Without-append a s t w.1

pub split_last :
    (a : ℕ) (s s' t t' : Text)
    → Without a t
    → Without a t'
    → s ++ a ∷ t ≡ s' ++ a ∷ t'
    → (s ≡ s') × (t ≡ t')
split_last a [] [] t t' w w' e = (refl, cc)
split_last a [] (b ∷ s') t t' w w' e = absurd (Without-append a s' t' (subst (Without a) (cc) w))
split_last a (b ∷ s) [] t t' w w' e = absurd (Without-append a s t (subst (Without a) (cc) w'))
split_last a (b ∷ s) (b' ∷ s') t t' w w' e =
    let (here, rest) = split_last a s s' t t' w w' (cc) in (cc, rest)

pub split_first :
    (a : ℕ) (s s' t t' : Text)
    → Without a s
    → Without a s'
    → s ++ a ∷ t ≡ s' ++ a ∷ t'
    → (s ≡ s') × (t ≡ t')
split_first a [] [] t t' w w' e = (refl, cc)
split_first a [] (b ∷ s') t t' w w' e = absurd (w'.0 (cc))
split_first a (b ∷ s) [] t t' w w' e = absurd (w.0 (cc))
split_first a (b ∷ s) (b' ∷ s') t t' w w' e =
    let (front, back) = split_first a s s' t t' w.1 w'.1 (cc) in (cc, back)
