-- ===== src/Base/Urls.antt =====
-- url.PathEscape and url.QueryEscape of Go.
use Prim.Native.Nat.{ℕ, ◌+◌, ◌/◌, ◌%◌}
use mathlib.Core.Path.{◌≡◌, refl}
use mathlib.Core.Bool.{Bool, false, ◌&&◌, ◌||◌}
use mathlib.Core.List.{[], ◌∷◌}
use xrestream.Base.Tests.{if◌then◌else◌, leb, ltb, nat_beq}
use xrestream.Base.Strings.{Text, codes}

one_of : Text → ℕ → Bool
one_of [] c = false
one_of (a ∷ s) c = nat_beq a c || one_of s c

-- The bytes that shouldEscape leaves in a path segment.
is_plain : ℕ → Bool
unfolding one_of
is_plain c =
    (leb b'a' c && leb c b'z')
    || (leb b'A' c && leb c b'Z')
    || (leb b'0' c && leb c b'9')
    || one_of (codes "-_.~$&+=:@") c

hex_digit : ℕ → ℕ
hex_digit d = if ltb d 10 then 48 + d else 55 + d

unfoldable pub path_escape : Text → Text
unfolding is_plain hex_digit
path_escape [] = []
path_escape (c ∷ s) =
    if is_plain c
    then c ∷ path_escape s
    else b'%' ∷ hex_digit (c / 16) ∷ hex_digit (c % 16) ∷ path_escape s

escape_test : path_escape (codes "a/b c?") ≡ codes "a%2Fb%20c%3F"
unfolding path_escape
escape_test = refl

-- The bytes that shouldEscape leaves in a query component.
is_query_plain : ℕ → Bool
unfolding one_of
is_query_plain c =
    (leb b'a' c && leb c b'z')
    || (leb b'A' c && leb c b'Z')
    || (leb b'0' c && leb c b'9')
    || one_of (codes "-_.~") c

-- url.QueryEscape
unfoldable pub query_escape : Text → Text
unfolding is_query_plain hex_digit
query_escape [] = []
query_escape (c ∷ s) =
    if nat_beq c b' '
    then b'+' ∷ query_escape s
    else if is_query_plain c
    then c ∷ query_escape s
    else b'%' ∷ hex_digit (c / 16) ∷ hex_digit (c % 16) ∷ query_escape s

query_test : query_escape (codes "a b&c") ≡ codes "a+b%26c"
unfolding query_escape
query_test = refl
