-- ===== src/Base/Text.antt =====
-- Go strings as lists of bytes, and what the program uses of the packages strings and strconv.
use Prim.Native.Nat.{ℕ, suc, zero, ◌+◌, ◌-◌, ◌*◌, ◌^◌, ◌/◌, ◌%◌}
use Prim.Native.Char.{code}
use Prim.Native.String.{String}
use mathlib.Core.Path.{◌≡◌, refl}
use mathlib.Core.Logic.{◌↔◌}
use mathlib.Core.Bool.{Bool, true, false, ◌&&◌, ◌||◌}
use mathlib.Core.List.{List, [], ◌∷◌, ◌++◌}
use mathlib.Core.Option.{Option, none, some}
use native.Mathlib.Omega.{arith}
use zfsbackup.Base.Tests.{ltb, leb, ◌==◌, if◌then◌else◌}
use zfsbackup.Base.Int.{ℤ, pos, negsuc, sub_ℕ}

abbrev pub Bytes : Type 0
Bytes = List ℕ

-- The bytes of an ASCII literal.
abbrev pub codes : String → Bytes
codes String.[] = []
codes (String.◌∷◌ c s) = code c ∷ codes s

-- `a == b` on strings.
unfoldable pub text_eq : Bytes → Bytes → Bool
text_eq [] [] = true
text_eq [] (d ∷ t) = false
text_eq (c ∷ s) [] = false
text_eq (c ∷ s) (d ∷ t) = c == d && text_eq s t

pub text_eq_iff : (a b : Bytes) → (text_eq a b ≡ true) ↔ (a ≡ b)
unfolding text_eq
text_eq_iff [] [] = ground arith
text_eq_iff [] (d ∷ t) = ground arith
text_eq_iff (c ∷ s) [] = ground arith
text_eq_iff (c ∷ s) (d ∷ t) = ground (arith, text_eq_iff s t)

-- `strings.HasPrefix(s, p)`, with the prefix first.
unfoldable pub has_prefix : Bytes → Bytes → Bool
has_prefix [] s = true
has_prefix (c ∷ p) [] = false
has_prefix (c ∷ p) (d ∷ s) = c == d && has_prefix p s

-- `strings.HasSuffix(s, x)`, with the suffix first.
unfoldable pub has_suffix : Bytes → Bytes → Bool
unfolding text_eq
has_suffix x [] = text_eq x []
has_suffix x (c ∷ s) = text_eq x (c ∷ s) || has_suffix x s

-- `strings.ContainsRune(s, c)` for an ASCII character.
unfoldable pub contains_byte : ℕ → Bytes → Bool
contains_byte c [] = false
contains_byte c (d ∷ s) = c == d || contains_byte c s

-- `strings.Split(s, sep)` for a separator of one byte: the first part and the others.
unfoldable pub split_parts : ℕ → Bytes → Bytes × List Bytes
split_parts sep [] = ([], [])
split_parts sep (c ∷ s) =
    let (p, ps) = split_parts sep s in if c == sep then ([], p ∷ ps) else (c ∷ p, ps)

unfoldable pub split : Bytes → ℕ → List Bytes
unfolding split_parts
split s sep = let (p, ps) = split_parts sep s in p ∷ ps

-- `strings.Cut(s, sep)` for a separator of one byte: `none` where it does not occur.
unfoldable pub cut : ℕ → Bytes → Option (Bytes × Bytes)
cut sep [] = none
cut sep (c ∷ s) =
    let rest = cut sep s in
    if c == sep then some ([], s) else elim rest [ none ↦ none | some (a, b) ↦ some (c ∷ a, b) ]

-- `strings.Join(parts, sep)` for a separator of one byte.
unfoldable pub join : List Bytes → ℕ → Bytes
join [] sep = []
join (p ∷ []) sep = p
join (p ∷ q ∷ ps) sep = p ++ sep ∷ join (q ∷ ps) sep

-- The number that decimal digits spell behind `n`.
unfoldable pub digits_value : ℕ → Bytes → Option ℕ
digits_value n [] = some n
digits_value n (c ∷ s) =
    let rest = digits_value (n * 10 + (c - b'0')) s in
    if leb b'0' c && leb c b'9' then rest else none

unfoldable pub parse_digits : Bytes → Option ℕ
unfolding digits_value
parse_digits [] = none
parse_digits (c ∷ s) = digits_value 0 (c ∷ s)

-- `strconv.ParseUint(s, 10, 64)`
unfoldable pub parse_uint : Bytes → Option ℕ
unfolding parse_digits
parse_uint s = elim (parse_digits s) [
  | none ↦ none
  | some n ↦ if ltb n (2 ^ 64) then some n else none
]

unfoldable pub signed : Bool → Option ℕ → Option ℤ
signed minus none = none
signed false (some n) = if ltb n (2 ^ 63) then some (pos n) else none
signed true (some n) = if leb n (2 ^ 63) then some (sub_ℕ 0 n) else none

-- `strconv.ParseInt(s, 10, 64)`
unfoldable pub parse_int : Bytes → Option ℤ
unfolding parse_digits signed
parse_int [] = none
parse_int (c ∷ s) =
    if c == b'-'
    then signed true (parse_digits s)
    else if c == b'+'
    then signed false (parse_digits s)
    else signed false (parse_digits (c ∷ s))

parse_int_runs :
    (parse_int (codes "-12") ≡ some (negsuc 11)) × (parse_int (codes "9223372036854775808") ≡ none)
unfolding parse_int
parse_int_runs = (refl, refl)

-- The decimal digits of a number, before `rest`; 20 digits are enough for 64 bits.
unfoldable pub digits_from : ℕ → ℕ → Bytes → Bytes
digits_from zero n rest = rest
digits_from (suc places) n rest =
    let last = (b'0' + n % 10) ∷ rest in
    let more = digits_from places (n / 10) last in if ltb n 10 then last else more

-- `%d` of an int64.
unfoldable pub show_int : ℤ → Bytes
unfolding digits_from
show_int (pos n) = digits_from 20 n []
show_int (negsuc n) = b'-' ∷ digits_from 20 (suc n) []
