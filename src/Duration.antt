-- ===== src/Duration.antt =====
-- `ParseDuration` of internal/zfs/exec.go. A `time.Duration` is its bit pattern, in nanoseconds;
-- a negative number is refused before it is multiplied.
pub mod Exact
use zfsbackup.Base.{
  ℕ, ◌*◌, ◌/◌, ◌%◌, ◌^◌, Option, none, some, List, [], ◌∷◌, Bytes, ℤ, pos, negsuc, max_i64, ltb,
  leb, ◌==◌, if◌then◌else◌, length, parse_int, Result, ok, err, duration_too_short,
  duration_not_number, duration_bad_suffix, duration_out_of_range,
}

-- time.Second
abbrev pub second : ℕ
second = 1_000_000_000

-- `suffixMap`, by the last byte of the text.
unfoldable pub suffix_map : ℕ → Option ℕ
suffix_map c =
    if c == b's'
    then some second
    else if c == b'm'
    then some (60 * second)
    else if c == b'h'
    then some (3600 * second)
    else if c == b'd'
    then some (24 * 3600 * second)
    else if c == b'w'
    then some (7 * 24 * 3600 * second)
    else if c == b'y'
    then some (365 * 24 * 3600 * second)
    else none

-- `duration[:len-1]` and `duration[len-1]` of a text that is not empty.
unfoldable pub unsnoc : ℕ → Bytes → Bytes × ℕ
unsnoc c [] = ([], c)
unsnoc c (d ∷ s) = let (num, suf) = unsnoc d s in (c ∷ num, suf)

-- The range test and the product, which is computed in int64.
unfoldable pub scale : ℤ → ℕ → Result ℕ
scale (negsuc n) mult = err duration_out_of_range
scale (pos n) mult =
    if ltb (max_i64 / mult) n then err duration_out_of_range else ok ((n * mult) % 2 ^ 64)

-- The number and the unit in turn, each with its error.
unfoldable pub measure : Option ℤ → Option ℕ → Result ℕ
unfolding scale
measure none unit = err duration_not_number
measure (some n) none = err duration_bad_suffix
measure (some n) (some mult) = scale n mult

unfoldable pub convert : Bytes × ℕ → Result ℕ
unfolding measure
convert (num, suf) = measure (parse_int num) (suffix_map suf)

unfoldable pub parse_duration : Bytes → Result ℕ
unfolding convert unsnoc
parse_duration [] = err duration_too_short
parse_duration (c ∷ []) = err duration_too_short
parse_duration (c ∷ d ∷ s) = convert (unsnoc c (d ∷ s))
