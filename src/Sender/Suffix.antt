-- ===== src/Sender/Suffix.antt =====
-- `autoPlaceholderName`: the suffix of a destination that has none.
use Prim.Native.Nat.{bit_xor}
use zfsbackup.Base.{
  ℕ, zero, suc, ◌+◌, ◌-◌, ◌*◌, ◌/◌, ◌%◌, ◌^◌, ◌<◌, ◌≡◌, refl, true, false, List, [], ◌∷◌, ◌++◌,
  Bytes, codes, ltb, if◌then◌else◌, is_empty, length, join, arith, contains_byte,
}
use zfsbackup.Exec.{is_space}
use zfsbackup.Names.{is_placeholder_byte, all_placeholder, is_valid_placeholder}

-- The field that is being read, and the fields behind it.
unfoldable pub field_parts : Bytes → Bytes × List Bytes
unfolding is_space
field_parts [] = ([], [])
field_parts (c ∷ s) =
    let (f, fs) = field_parts s in
    if is_space c then ([], if is_empty f then fs else f ∷ fs) else (c ∷ f, fs)

-- `strings.Fields`, on ASCII text.
unfoldable pub fields : Bytes → List Bytes
unfolding field_parts
fields s = let (f, fs) = field_parts s in if is_empty f then fs else f ∷ fs

-- One byte of the 64-bit FNV-1a hash.
unfoldable pub fnv_round : ℕ → ℕ → ℕ
fnv_round h c = (bit_xor h c * 1099511628211) % 2 ^ 64

unfoldable pub fnv_from : ℕ → Bytes → ℕ
unfolding fnv_round
fnv_from h [] = h
fnv_from h (c ∷ s) = fnv_from (fnv_round h c) s

-- `fnv.New64a`, written to once.
unfoldable pub fnv64a : Bytes → ℕ
unfolding fnv_from
fnv64a s = fnv_from 14695981039346656037 s

unfoldable pub hex_digit : ℕ → ℕ
hex_digit n = if ltb n 10 then b'0' + n else b'a' + (n - 10)

-- The lowest digits in base 16 of a number, leading zeros included: `%016x` for 16 of them.
unfoldable pub hex : ℕ → ℕ → Bytes → Bytes
unfolding hex_digit
hex zero n rest = rest
hex (suc k) n rest = hex k (n / 16) (hex_digit (n % 16) ∷ rest)

unfoldable pub auto_placeholder_name : Bytes → Bytes
unfolding fields join fnv64a hex
auto_placeholder_name receiver = codes "dst" ++ hex 16 (fnv64a (join (fields receiver) b' ')) []

hex_digit_valid : (n : ℕ) → n < 16 → is_placeholder_byte (hex_digit n) ≡ true
unfolding is_placeholder_byte hex_digit
hex_digit_valid n h = ground arith

all_placeholder_nil : all_placeholder [] ≡ true
unfolding all_placeholder
all_placeholder_nil = refl

all_placeholder_cons :
    (d : ℕ) (r : Bytes)
    → d < 16
    → all_placeholder r ≡ true
    → all_placeholder (hex_digit d ∷ r) ≡ true
unfolding all_placeholder
all_placeholder_cons d r lt v = ground (arith, hex_digit_valid d lt)

all_placeholder-hex :
    (k n : ℕ) (rest : Bytes) → all_placeholder rest ≡ true → all_placeholder (hex k n rest) ≡ true
unfolding hex
all_placeholder-hex zero n rest h = h
all_placeholder-hex (suc k) n rest h =
    all_placeholder-hex k (n / 16) (hex_digit (n % 16) ∷ rest)
      (all_placeholder_cons (n % 16) rest (omega arith) h)

length-hex : (k n : ℕ) (rest : Bytes) → length (hex k n rest) ≡ k + length rest
unfolding hex
length-hex zero n rest = omega arith
length-hex (suc k) n rest = omega (arith, length-hex k (n / 16) (hex_digit (n % 16) ∷ rest))

behind_dst : (s : Bytes) → all_placeholder s ≡ true → is_valid_placeholder (codes "dst" ++ s) ≡ true
unfolding is_valid_placeholder is_placeholder_byte
behind_dst s h = ground (arith, h)

-- No allowed byte of a suffix is a hyphen.
pub all_placeholder-no_hyphen :
    (s : Bytes) → all_placeholder s ≡ true → contains_byte b'-' s ≡ false
unfolding all_placeholder contains_byte is_placeholder_byte
all_placeholder-no_hyphen [] h = refl
all_placeholder-no_hyphen (c ∷ s) h = ground (arith, all_placeholder-no_hyphen s)

pub valid-no_hyphen : (s : Bytes) → is_valid_placeholder s ≡ true → contains_byte b'-' s ≡ false
unfolding is_valid_placeholder
valid-no_hyphen s h = ground (arith, all_placeholder-no_hyphen s)

pub auto_placeholder_name-valid :
    (receiver : Bytes) → is_valid_placeholder (auto_placeholder_name receiver) ≡ true
unfolding auto_placeholder_name
auto_placeholder_name-valid receiver =
    behind_dst (hex 16 (fnv64a (join (fields receiver) b' ')) [])
      (all_placeholder-hex 16 _ [] all_placeholder_nil)

-- The suffix that is derived from a receiver is always valid: of allowed bytes, with no hyphen. It
-- is `dst` and 16 digits, 19 bytes.
pub auto_placeholder_name_lem :
    (receiver : Bytes)
    → (is_valid_placeholder (auto_placeholder_name receiver) ≡ true)
      × (contains_byte b'-' (auto_placeholder_name receiver) ≡ false)
      × (length (auto_placeholder_name receiver) ≡ 19)
unfolding auto_placeholder_name
auto_placeholder_name_lem receiver = (
  auto_placeholder_name-valid receiver,
  valid-no_hyphen (auto_placeholder_name receiver) (auto_placeholder_name-valid receiver),
  omega (arith, length-hex 16 (fnv64a (join (fields receiver) b' ')) []),
)
