-- ===== src/Base/Decimal.antt =====
-- Decimal numbers as Go prints and reads them: %d of fmt.Sprintf, strconv.ParseInt(s, 10, 64) and
-- the %d of fmt.Sscanf.
use xrestream.Base.Tests.{ltb, leb, nat_beq, if◌then◌else◌}
use xrestream.Base.Strings.{Text, codes, Visible, trim_space, trim_space-between}
use xrestream.Base.Int.{ℤ, pos, negsuc, IsInt64}
use Prim.Native.Nat.{ℕ, zero, suc, ◌+◌, ◌-◌, ◌*◌, ◌/◌, ◌%◌, ◌^◌, ◌≤◌, ◌<◌}
use mathlib.Core.Path.{◌≡◌, refl, ap, sym, ◌∙◌}
use mathlib.Core.Logic.{◌≢◌}
use mathlib.Core.Bool.{Bool, true, ◌&&◌}
use mathlib.Core.Option.{Option, none, some}
use mathlib.Core.List.{[], ◌∷◌, ◌++◌, append_assoc}
use native.Mathlib.Omega.{arith}

-- The digits of n in front of `acc`; the fuel is at least n.
emit : ℕ → ℕ → Text → Text
emit zero n acc = acc
emit (suc f) n acc =
    let rest = emit f (n / 10) ((b'0' + n % 10) ∷ acc) in if nat_beq n 0 then acc else rest

pub print_nat : ℕ → Text
unfolding emit
print_nat n = if nat_beq n 0 then b'0' ∷ [] else emit n n []

unfoldable pub print_int : ℤ → Text
unfolding print_nat
print_int (pos n) = print_nat n
print_int (negsuc n) = b'-' ∷ print_nat (suc n)

unfoldable pub is_digit : ℕ → Bool
is_digit c = leb b'0' c && leb c b'9'

all_digits : Text → Bool
unfolding is_digit
all_digits [] = true
all_digits (c ∷ s) = is_digit c && all_digits s

-- The value of a row of digits that follow a number already read.
value_from : ℕ → Text → ℕ
value_from n [] = n
value_from n (c ∷ s) = value_from (n * 10 + (c - b'0')) s

unsigned : Text → Option ℕ
unfolding all_digits value_from
unsigned [] = none
unsigned (c ∷ s) = if all_digits (c ∷ s) then some (value_from 0 (c ∷ s)) else none

-- A value in the range of int64, and nothing for one out of range.
non_negative : Option ℕ → Option ℤ
non_negative none = none
non_negative (some n) = if ltb n (2 ^ 63) then some (pos n) else none

negative : Option ℕ → Option ℤ
negative none = none
negative (some zero) = some (pos 0)
negative (some (suc n)) = if ltb n (2 ^ 63) then some (negsuc n) else none

unfoldable pub parse_int64 : Text → Option ℤ
unfolding unsigned non_negative negative
parse_int64 [] = none
parse_int64 (c ∷ s) =
    if nat_beq c b'+'
    then non_negative (unsigned s)
    else if nat_beq c b'-'
    then negative (unsigned s)
    else non_negative (unsigned (c ∷ s))

digits_of : Text → Text
unfolding is_digit
digits_of [] = []
digits_of (c ∷ s) = if is_digit c then c ∷ digits_of s else []

-- %d of Sscanf once the spaces are skipped: the longest number in front of the rest.
unfoldable pub scan_int64 : Text → Option ℤ
unfolding digits_of unsigned non_negative negative
scan_int64 [] = none
scan_int64 (c ∷ s) =
    if nat_beq c b'+'
    then non_negative (unsigned (digits_of s))
    else if nat_beq c b'-'
    then negative (unsigned (digits_of s))
    else non_negative (unsigned (digits_of (c ∷ s)))

print_test : print_int (pos 1700000042) ≡ codes "1700000042"
unfolding print_int
print_test = refl

parse_test : parse_int64 (codes "-9223372036854775808") ≡ some (negsuc 9223372036854775807)
unfolding parse_int64
parse_test = refl

parse_above : parse_int64 (codes "9223372036854775808") ≡ none
unfolding parse_int64
parse_above = refl

scan_test : scan_int64 (codes "42,VOD") ≡ some (pos 42)
unfolding scan_int64
scan_test = refl

value_from-emit : (f n : ℕ) (acc : Text) → n ≤ f → value_from 0 (emit f n acc) ≡ value_from n acc
unfolding emit value_from
value_from-emit zero n acc h = ap (λ k. value_from k acc) (omega arith)
value_from-emit (suc f) n acc h = ground (
  arith,
  value_from-emit f (n / 10) ((b'0' + n % 10) ∷ acc),
  ap (λ k. value_from k acc) (digit_back n),
)
  where
    digit_back : (n : ℕ) → n / 10 * 10 + (b'0' + n % 10 - b'0') ≡ n
    digit_back n = omega arith

all_digits-emit : (f n : ℕ) (acc : Text) → all_digits acc ≡ true → all_digits (emit f n acc) ≡ true
unfolding emit all_digits is_digit
all_digits-emit zero n acc h = h
all_digits-emit (suc f) n acc h = ground (arith, all_digits-emit f (n / 10) ((b'0' + n % 10) ∷ acc))

emit-ne-nil : (f n : ℕ) (c : ℕ) (acc : Text) → emit f n (c ∷ acc) ≢ []
unfolding emit
emit-ne-nil zero n c acc = cc
emit-ne-nil (suc f) n c acc = ground (arith, emit-ne-nil f (n / 10) (b'0' + n % 10) (c ∷ acc))

unsigned-digits : (s : Text) → s ≢ [] → all_digits s ≡ true → unsigned s ≡ some (value_from 0 s)
unfolding unsigned
unsigned-digits [] ne h = absurd (ne refl)
unsigned-digits (c ∷ s) ne h = rw h

value_from-nil : (n : ℕ) → value_from n [] ≡ n
unfolding value_from
value_from-nil n = refl

print_nat_facts :
    (n : ℕ)
    → (print_nat n ≢ []) × (all_digits (print_nat n) ≡ true) × (value_from 0 (print_nat n) ≡ n)
unfolding print_nat
print_nat_facts zero = (cc, unfold all_digits is_digit in refl, unfold value_from in refl)
print_nat_facts (suc n) = (
  ground (arith, emit-ne-nil n (suc n / 10) (b'0' + suc n % 10) []),
  ground (arith, all_digits-emit (suc n) (suc n) [] (unfold all_digits in refl)),
  ground (arith, value_from-nil (suc n), value_from-emit (suc n) (suc n) []),
)

unsigned-print_nat : (n : ℕ) → unsigned (print_nat n) ≡ some n
unsigned-print_nat n =
    let (nonempty, digits, value) = print_nat_facts n in
    unsigned-digits (print_nat n) nonempty digits ∙ ap some value

-- A row of digits begins with no sign.
parse-digits : (s : Text) → s ≢ [] → all_digits s ≡ true → parse_int64 s ≡ non_negative (unsigned s)
unfolding parse_int64 all_digits is_digit
parse-digits [] ne h = absurd (ne refl)
parse-digits (c ∷ s) ne h = ground arith

pub parse-print_pos : (n : ℕ) → n < 2 ^ 63 → parse_int64 (print_int (pos n)) ≡ some (pos n)
unfolding print_int
parse-print_pos n h =
    let (nonempty, digits, value) = print_nat_facts n in
    parse-digits (print_nat n) nonempty digits
    ∙ ap non_negative (unsigned-print_nat n)
    ∙ unfold non_negative in ground arith

pub parse-print_negsuc : (n : ℕ) → n < 2 ^ 63 → parse_int64 (print_int (negsuc n)) ≡ some (negsuc n)
unfolding print_int parse_int64 negative
parse-print_negsuc n h = rw (unsigned-print_nat (suc n)) (ground arith)

digits_of-all : (s : Text) → all_digits s ≡ true → digits_of s ≡ s
unfolding digits_of all_digits is_digit
digits_of-all [] h = refl
digits_of-all (c ∷ s) h = ground (arith, digits_of-all s)

scan-digits :
    (s : Text) → s ≢ [] → all_digits s ≡ true → scan_int64 s ≡ non_negative (unsigned (digits_of s))
unfolding scan_int64 all_digits is_digit
scan-digits [] ne h = absurd (ne refl)
scan-digits (c ∷ s) ne h = ground arith

pub scan-print_pos : (n : ℕ) → n < 2 ^ 63 → scan_int64 (print_int (pos n)) ≡ some (pos n)
unfolding print_int
scan-print_pos n h =
    let (nonempty, digits, value) = print_nat_facts n in
    scan-digits (print_nat n) nonempty digits
    ∙ ap (λ s. non_negative (unsigned s)) (digits_of-all (print_nat n) digits)
    ∙ ap non_negative (unsigned-print_nat n)
    ∙ unfold non_negative in ground arith

-- The last byte of a row of digits.
last_digit :
    (s : Text)
    → s ≢ []
    → all_digits s ≡ true
    → (t : Text) × (d : ℕ) × (s ≡ t ++ d ∷ []) × (is_digit d ≡ true)
unfolding all_digits
last_digit [] ne h = absurd (ne refl)
last_digit (c ∷ []) ne h = ([], c, refl, ground arith)
last_digit (c ∷ b ∷ s) ne h =
    let (t, d, e, digit) = last_digit (b ∷ s) (λ e. cc) (ground arith) in
    (c ∷ t, d, ap (λ r. c ∷ r) e, digit)

trim-digits : (s : Text) → s ≢ [] → all_digits s ≡ true → trim_space s ≡ s
unfolding all_digits is_digit
trim-digits [] ne h = absurd (ne refl)
trim-digits (c ∷ s) ne h =
    let (t, d, e, digit) = last_digit (c ∷ s) ne h in
    trim_space-between c d s t (ground arith) (ground arith) e

-- Trimming leaves a printed number alone, also behind a text that begins with a printing byte.
pub trim-print_pos :
    (a : ℕ) (s : Text) (n : ℕ)
    → Visible a
    → (trim_space (print_int (pos n)) ≡ print_int (pos n))
      × (trim_space (a ∷ (s ++ print_int (pos n))) ≡ a ∷ (s ++ print_int (pos n)))
unfolding print_int is_digit
trim-print_pos a s n v =
    let (nonempty, digits, value) = print_nat_facts n in
    let (t, d, e, digit) = last_digit (print_nat n) nonempty digits in
    (
      trim-digits (print_nat n) nonempty digits,
      trim_space-between a d (s ++ print_nat n) (a ∷ (s ++ t)) v (ground arith)
          (ap (λ r. a ∷ (s ++ r)) e ∙ ap (λ r. a ∷ r) (sym (append_assoc s t (d ∷ [])))),
    )

-- What %d prints of an int64 is read back by ParseInt.
pub parse-print : (v : ℤ) → IsInt64 v → parse_int64 (print_int v) ≡ some v
parse-print (pos n) h = parse-print_pos n h
parse-print (negsuc n) h = parse-print_negsuc n h

-- A printed number has no byte above the digits.
abbrev pub Plain : Text → Type 0
Plain [] = Unit
Plain (c ∷ s) = (c ≤ b'9') × Plain s

Plain-digits : (s : Text) → all_digits s ≡ true → Plain s
unfolding all_digits is_digit
Plain-digits [] h = tt
Plain-digits (c ∷ s) h = ground (arith, Plain-digits s)

pub print_int-Plain : (v : ℤ) → Plain (print_int v)
unfolding print_int
print_int-Plain (pos n) = Plain-digits (print_nat n) (print_nat_facts n).1
print_int-Plain (negsuc n) =
    (omega arith, Plain-digits (print_nat (suc n)) (print_nat_facts (suc n)).1)
