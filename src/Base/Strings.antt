-- ===== src/Base/Strings.antt =====
-- Go strings as lists of bytes, and the functions of Go's package strings that the program calls.
use Prim.Native.Nat.{ℕ, ◌≤◌}
use Prim.Native.Char.{code}
use Prim.Native.String.{String}
use mathlib.Core.Path.{◌≡◌, refl, ap, sym, ◌∙◌}
use mathlib.Core.Logic.{◌↔◌}
use mathlib.Core.Bool.{Bool, true, false, ◌&&◌, ◌||◌}
use mathlib.Core.List.{List, [], ◌∷◌, ◌++◌, reverse, reverse-cons, reverse-append, reverse-reverse}
use native.Mathlib.Omega.{arith}
use xrestream.Base.Tests.{if◌then◌else◌, nat_beq, leb, Eq}
use xrestream.Base.Lists.{length, drop}

abbrev pub Text : Type 0
Text = List ℕ

-- The bytes of an ASCII literal.
abbrev pub codes : String → Text
codes String.[] = []
codes (String.◌∷◌ c s) = code c ∷ codes s

unfoldable pub text_beq : Text → Text → Bool
text_beq [] [] = true
text_beq (a ∷ s) (b ∷ t) = nat_beq a b && text_beq s t
text_beq [] (b ∷ t) = false
text_beq (a ∷ s) [] = false

pub text_beq_iff : (s t : Text) → (text_beq s t ≡ true) ↔ (s ≡ t)
unfolding text_beq
text_beq_iff [] [] = ground arith
text_beq_iff (a ∷ s) (b ∷ t) = ground (arith, text_beq_iff s t)
text_beq_iff [] (b ∷ t) = ground arith
text_beq_iff (a ∷ s) [] = ground arith

instance abbrev pub text_eq : Eq Text
text_eq = record { compares = text_beq; correct = text_beq_iff }

abbrev pub is_empty : Text → Bool
is_empty [] = true
is_empty (a ∷ s) = false

-- strings.HasPrefix(s, p)
unfoldable pub has_prefix : Text → Text → Bool
has_prefix s [] = true
has_prefix [] (b ∷ p) = false
has_prefix (a ∷ s) (b ∷ p) = nat_beq a b && has_prefix s p

-- strings.HasSuffix(s, p)
unfoldable pub has_suffix : Text → Text → Bool
unfolding has_prefix
has_suffix s p = has_prefix (reverse s) (reverse p)

-- strings.TrimPrefix(s, p)
unfoldable pub trim_prefix : Text → Text → Text
unfolding has_prefix
trim_prefix s p = if has_prefix s p then drop (length p) s else s

-- strings.Contains(s, p)
unfoldable pub contains : Text → Text → Bool
unfolding has_prefix
contains [] p = has_prefix [] p
contains (a ∷ s) p = has_prefix (a ∷ s) p || contains s p

-- unicode.IsSpace, by the UTF-8 bytes of the character: the spaces of one, two and three bytes.
unfoldable pub is_space : ℕ → Bool
is_space a = nat_beq a 32 || (leb 9 a && leb a 13)

unfoldable pub is_space₂ : ℕ → ℕ → Bool
is_space₂ a b = nat_beq a 0xC2 && (nat_beq b 0x85 || nat_beq b 0xA0)

unfoldable pub is_space₃ : ℕ → ℕ → ℕ → Bool
is_space₃ a b c =
    (nat_beq a 0xE1 && nat_beq b 0x9A && nat_beq c 0x80)
    || (nat_beq a 0xE2
        && nat_beq b 0x80
        && ((leb 0x80 c && leb c 0x8A) || nat_beq c 0xA8 || nat_beq c 0xA9 || nat_beq c 0xAF))
    || (nat_beq a 0xE2 && nat_beq b 0x81 && nat_beq c 0x9F)
    || (nat_beq a 0xE3 && nat_beq b 0x80 && nat_beq c 0x80)

trim_left : Text → Text
unfolding is_space is_space₂ is_space₃
trim_left [] = []
trim_left (a ∷ []) = if is_space a then [] else a ∷ []
trim_left (a ∷ b ∷ []) =
    let after₁ = trim_left (b ∷ []) in
    if is_space a then after₁ else if is_space₂ a b then [] else a ∷ b ∷ []
trim_left (a ∷ b ∷ c ∷ r) =
    let after₁ = trim_left (b ∷ c ∷ r) in
    let after₂ = trim_left (c ∷ r) in
    let after₃ = trim_left r in
    if is_space a
    then after₁
    else if is_space₂ a b
    then after₂
    else if is_space₃ a b c
    then after₃
    else a ∷ b ∷ c ∷ r

-- The same on a reversed text: the bytes of a character stand last first.
trim_left_reversed : Text → Text
unfolding is_space is_space₂ is_space₃
trim_left_reversed [] = []
trim_left_reversed (a ∷ []) = if is_space a then [] else a ∷ []
trim_left_reversed (b ∷ a ∷ []) =
    let after₁ = trim_left_reversed (a ∷ []) in
    if is_space b then after₁ else if is_space₂ a b then [] else b ∷ a ∷ []
trim_left_reversed (c ∷ b ∷ a ∷ r) =
    let after₁ = trim_left_reversed (b ∷ a ∷ r) in
    let after₂ = trim_left_reversed (a ∷ r) in
    let after₃ = trim_left_reversed r in
    if is_space c
    then after₁
    else if is_space₂ b c
    then after₂
    else if is_space₃ a b c
    then after₃
    else c ∷ b ∷ a ∷ r

-- strings.TrimSpace(s)
unfoldable pub trim_space : Text → Text
unfolding trim_left trim_left_reversed
trim_space s = reverse (trim_left_reversed (reverse (trim_left s)))

trim_space_test : trim_space (codes "  #EXTM3U \n") ≡ codes "#EXTM3U"
unfolding trim_space
trim_space_test = refl

-- strings.Split(s, sep) for a separator of one byte; `cur` is the piece read so far, reversed.
split_from : ℕ → Text → Text → List Text
split_from sep cur [] = reverse cur ∷ []
split_from sep cur (a ∷ s) =
    let closed = reverse cur ∷ split_from sep [] s in
    let longer = split_from sep (a ∷ cur) s in if nat_beq a sep then closed else longer

unfoldable pub split : Text → ℕ → List Text
unfolding split_from
split s sep = split_from sep [] s

-- strings.Join(parts, sep)
unfoldable pub join : List Text → Text → Text
join [] sep = []
join (s ∷ []) sep = s
join (s ∷ t ∷ ts) sep = s ++ (sep ++ join (t ∷ ts) sep)

-- A text whose first byte is a printing character of ASCII.
abbrev pub Visible : ℕ → Type 0
Visible a = (33 ≤ a) × (a ≤ 126)

ends_in : ℕ → Text → Bool
ends_in a [] = false
ends_in a (b ∷ []) = nat_beq a b
ends_in a (b ∷ c ∷ s) = ends_in a (c ∷ s)

ends_in-append : (a : ℕ) (s : Text) → ends_in a (s ++ a ∷ []) ≡ true
unfolding ends_in
ends_in-append a [] = ground arith
ends_in-append a (b ∷ []) = ground arith
ends_in-append a (b ∷ c ∷ s) = ends_in-append a (c ∷ s)

ends_in-trim :
    (a : ℕ) (s : Text) → Visible a → ends_in a s ≡ true → ends_in a (trim_left_reversed s) ≡ true
unfolding ends_in trim_left_reversed is_space is_space₂ is_space₃
ends_in-trim a [] v e = cc
ends_in-trim a (b ∷ []) v e = ground arith
ends_in-trim a (c ∷ b ∷ []) v e = ground (arith, ends_in-trim a (b ∷ []) v)
ends_in-trim a (c ∷ b ∷ d ∷ []) v e =
    ground (arith, ends_in-trim a (b ∷ d ∷ []) v, ends_in-trim a (d ∷ []) v)
ends_in-trim a (c ∷ b ∷ d ∷ x ∷ r) v e = ground (
  arith,
  ends_in-trim a (b ∷ d ∷ x ∷ r) v,
  ends_in-trim a (d ∷ x ∷ r) v,
  ends_in-trim a (x ∷ r) v,
)

abbrev pub starts_with : ℕ → Text → Bool
starts_with a [] = false
starts_with a (b ∷ s) = nat_beq a b

starts_with-append : (a : ℕ) (s t : Text) → starts_with a s ≡ true → starts_with a (s ++ t) ≡ true
starts_with-append a [] t e = absurd (cc)
starts_with-append a (b ∷ s) t e = e

starts_with-reverse : (a : ℕ) (s : Text) → ends_in a s ≡ true → starts_with a (reverse s) ≡ true
unfolding ends_in
starts_with-reverse a [] e = absurd (cc)
starts_with-reverse a (b ∷ []) e = e
starts_with-reverse a (b ∷ c ∷ s) e =
    rw (reverse-cons b (c ∷ s))
      (starts_with-append a (reverse (c ∷ s)) (b ∷ []) (starts_with-reverse a (c ∷ s) e))

trim_left-Visible : (a : ℕ) (s : Text) → Visible a → trim_left (a ∷ s) ≡ a ∷ s
unfolding trim_left is_space is_space₂ is_space₃
trim_left-Visible a [] v = ground arith
trim_left-Visible a (b ∷ []) v = ground arith
trim_left-Visible a (b ∷ c ∷ s) v = ground arith

-- Trimming keeps a printing first byte.
pub trim_space-Visible : (a : ℕ) (s : Text) → Visible a → starts_with a (trim_space (a ∷ s)) ≡ true
unfolding trim_space
trim_space-Visible a s v = rw (trim_left-Visible a s v) (
    starts_with-reverse a (trim_left_reversed (reverse (a ∷ s)))
      (ends_in-trim a (reverse (a ∷ s)) v (rw (reverse-cons a s) (ends_in-append a (reverse s)))))

pub has_prefix-head :
    (s p : Text) (a : ℕ) → has_prefix s (a ∷ p) ≡ true → has_prefix s (a ∷ []) ≡ true
unfolding has_prefix
has_prefix-head [] p a h = absurd (cc)
has_prefix-head (b ∷ s) p a h = ground arith

pub has_prefix_of_starts_with :
    (s : Text) (a : ℕ) → starts_with a s ≡ true → has_prefix s (a ∷ []) ≡ true
unfolding has_prefix
has_prefix_of_starts_with [] a h = absurd (cc)
has_prefix_of_starts_with (b ∷ s) a h = ground arith

trim_reversed-Visible : (a : ℕ) (s : Text) → Visible a → trim_left_reversed (a ∷ s) ≡ a ∷ s
unfolding trim_left_reversed is_space is_space₂ is_space₃
trim_reversed-Visible a [] v = ground arith
trim_reversed-Visible a (b ∷ []) v = ground arith
trim_reversed-Visible a (b ∷ c ∷ s) v = ground arith

-- Trimming changes no text between two printing bytes.
pub trim_space-between :
    (a b : ℕ) (s t : Text)
    → Visible a
    → Visible b
    → a ∷ s ≡ t ++ b ∷ []
    → trim_space (a ∷ s) ≡ a ∷ s
unfolding trim_space
trim_space-between a b s t va vb e =
    let back = reverse-append t (b ∷ []) in
    rw (trim_left-Visible a s va) (
      ap (λ r. reverse (trim_left_reversed (reverse r))) e
      ∙ ap (λ r. reverse (trim_left_reversed r)) back
      ∙ ap reverse (trim_reversed-Visible b (reverse t) vb)
      ∙ ap reverse (sym back)
      ∙ reverse-reverse (t ++ b ∷ [])
      ∙ sym e)

pub has_prefix-append : (p s : Text) → has_prefix (p ++ s) p ≡ true
unfolding has_prefix
has_prefix-append [] [] = refl
has_prefix-append [] (a ∷ s) = refl
has_prefix-append (a ∷ p) s = ground (arith, has_prefix-append p s)

drop-append : (p s : Text) → drop (length p) (p ++ s) ≡ s
drop-append [] s = refl
drop-append (a ∷ p) s = drop-append p s

pub trim_prefix-append : (p s : Text) → trim_prefix (p ++ s) p ≡ s
unfolding trim_prefix
trim_prefix-append p s = rw (has_prefix-append p s) (drop-append p s)
