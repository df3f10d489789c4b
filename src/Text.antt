-- ===== src/Text.antt =====
-- Go strings as lists of bytes, and what the program uses of the packages strings and strconv.
pub mod Laws
use Prim.Native.Char.{code}
use remote_juggler.Prelude.{
  ℕ, zero, suc, ◌+◌, ◌-◌, ◌*◌, ◌/◌, ◌%◌, ◌^◌, String, ◌≡◌, ◌↔◌, Bool, true, false, ◌&&◌, ◌||◌, not,
  Option, none, some, List, [], ◌∷◌, ◌++◌, arith, ltb, leb, keep, take, drop, Eq, ◌==◌, nat_eq,
  if◌then◌else◌,
}
use mathlib.Core.Option
use remote_juggler.Prelude.Int.{ℤ, pos, negsuc}

-- A Go string.
abbrev pub Text : Type 0
Text = List ℕ

-- A literal; those of the source are ASCII, so their code points are their bytes.
unfoldable pub lit : String → Text
lit String.[] = []
lit (String.◌∷◌ c s) = code c ∷ lit s

-- `==` on strings.
unfoldable pub same : Text → Text → Bool
same [] [] = true
same (a ∷ s) (b ∷ t) = a == b && same s t
same _ _ = false

pub same_iff : (s t : Text) → (same s t ≡ true) ↔ (s ≡ t)
unfolding same
same_iff [] [] = ground arith
same_iff [] (b ∷ t) = ground arith
same_iff (a ∷ s) [] = ground arith
same_iff (a ∷ s) (b ∷ t) = ground (arith, same_iff s t)

instance abbrev pub text_eq : Eq Text
text_eq = record { same_value = same; same_value_iff = same_iff }

-- `strings.HasPrefix`
unfoldable pub has_prefix : Text → Text → Bool
has_prefix s [] = true
has_prefix [] (b ∷ p) = false
has_prefix (a ∷ s) (b ∷ p) = a == b && has_prefix s p

-- `strings.Contains`
unfoldable pub contains : Text → Text → Bool
unfolding has_prefix
contains [] p = has_prefix [] p
contains (a ∷ s) p = has_prefix (a ∷ s) p || contains s p

abbrev cons_piece : ℕ → List Text → List Text
cons_piece a [] = (a ∷ []) ∷ []
cons_piece a (p ∷ pieces) = (a ∷ p) ∷ pieces

-- The pieces of a text between the bytes that pass a test.
unfoldable pub split_by : (ℕ → Bool) → Text → List Text
split_by sep [] = [] ∷ []
split_by sep (a ∷ s) = let rest = split_by sep s in if sep a then [] ∷ rest else cons_piece a rest

-- `strings.Split` by a separator of one byte
abbrev pub split : ℕ → Text → List Text
split c = split_by (λ a. a == c)

-- The white space of ASCII
unfoldable pub is_space : ℕ → Bool
is_space c = leb 9 c && leb c 13 || c == 32

abbrev pub is_empty : Text → Bool
is_empty [] = true
is_empty _ = false

-- `strings.Fields`, for white space of ASCII
unfoldable pub fields : Text → List Text
unfolding split_by is_space
fields s = keep (λ p. not (is_empty p)) (split_by is_space s)

unfoldable pub trim_left : Text → Text
trim_left [] = []
trim_left (a ∷ s) = let rest = trim_left s in if is_space a then rest else a ∷ s

abbrev trim_onto : ℕ → Text → Text
trim_onto a [] = if is_space a then [] else a ∷ []
trim_onto a (b ∷ s) = a ∷ b ∷ s

unfoldable pub trim_right : Text → Text
trim_right [] = []
trim_right (a ∷ s) = trim_onto a (trim_right s)

-- `strings.TrimSpace`, for white space of ASCII
unfoldable pub trim_space : Text → Text
unfolding trim_left trim_right is_space
trim_space s = trim_right (trim_left s)

unfoldable pub is_digit : ℕ → Bool
is_digit c = leb 48 c && leb c 57

-- The value of a row of digits, on top of the digits read so far.
unfoldable pub parse_digits : ℕ → Text → Option ℕ
unfolding is_digit
parse_digits acc [] = some acc
parse_digits acc (c ∷ s) = if is_digit c then parse_digits (acc * 10 + (c - 48)) s else none

abbrev unsigned : Text → Option ℕ
unsigned [] = none
unsigned (c ∷ s) = parse_digits 0 (c ∷ s)

-- The range of `int`, which has 64 bits.
abbrev positive : Option ℕ → Option ℤ
positive none = none
positive (some n) = if ltb n (2 ^ 63) then some (pos n) else none

abbrev negate : ℕ → ℤ
negate zero = pos 0
negate (suc n) = negsuc n

abbrev negative : Option ℕ → Option ℤ
negative none = none
negative (some n) = if leb n (2 ^ 63) then some (negate n) else none

-- `strconv.Atoi`; `none` is an error.
unfoldable pub atoi : Text → Option ℤ
unfolding parse_digits
atoi [] = none
atoi (c ∷ s) =
    if c == b'-'
    then negative (unsigned s)
    else if c == b'+'
    then positive (unsigned s)
    else positive (unsigned (c ∷ s))

unfoldable pub print_onto : ℕ → ℕ → Text → Text
print_onto zero n acc = acc
print_onto (suc fuel) n acc =
    let rest = print_onto fuel (n / 10) ((48 + n % 10) ∷ acc) in
    if ltb n 10 then (48 + n) ∷ acc else rest

-- `%d` of a number that is not negative. A number has fewer digits than its successor, the fuel.
unfoldable pub print : ℕ → Text
unfolding print_onto
print n = print_onto (suc n) n []

-- `strings.Join` by one byte
unfoldable pub join : ℕ → List Text → Text
join c [] = []
join c (p ∷ []) = p
join c (p ∷ q ∷ rest) = p ++ (c ∷ join c (q ∷ rest))

-- `%d` of an `int`
unfoldable pub print_int : ℤ → Text
unfolding print
print_int (pos n) = print n
print_int (negsuc n) = b'-' ∷ print (suc n)

-- `strings.Index`; `none` is -1.
unfoldable pub index : Text → Text → Option ℕ
unfolding has_prefix
index [] p = if has_prefix [] p then some 0 else none
index (a ∷ s) p = if has_prefix (a ∷ s) p then some 0 else Option.map suc (index s p)

-- `s[i:j]` for i and j in range
abbrev pub slice : ℕ → ℕ → Text → Text
slice i j s = take (j - i) (drop i s)
