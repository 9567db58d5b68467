-- ===== src/Base/Trims.antt =====
-- strings.TrimRight(s, "/") and strings.Trim(s, " ").
use mathlib.Core.Path.{◌≡◌, refl}
use mathlib.Core.List.{[], ◌∷◌, reverse}
use xrestream.Base.Tests.{if◌then◌else◌, nat_beq}
use xrestream.Base.Strings.{Text, codes}

-- strings.TrimRight(s, "/") on the reversed text.
drop_slashes : Text → Text
drop_slashes [] = []
drop_slashes (a ∷ s) = if nat_beq a b'/' then drop_slashes s else a ∷ s

unfoldable pub trim_slashes : Text → Text
unfolding drop_slashes
trim_slashes s = reverse (drop_slashes (reverse s))

drop_blanks : Text → Text
drop_blanks [] = []
drop_blanks (a ∷ s) = if nat_beq a b' ' then drop_blanks s else a ∷ s

unfoldable pub trim_blanks : Text → Text
unfolding drop_blanks
trim_blanks s = reverse (drop_blanks (reverse (drop_blanks s)))

trim_blanks_test : trim_blanks (codes "  a b ") ≡ codes "a b"
unfolding trim_blanks
trim_blanks_test = refl

trim_slashes_test : trim_slashes (codes "a/b//") ≡ codes "a/b"
unfolding trim_slashes
trim_slashes_test = refl
