-- ===== src/Names/Valid.antt =====
-- The validators against a description by the parts of the name.
use zfsbackup.Base.{
  ◌≡◌, ◌≢◌, ◌↔◌, ◌⊎◌, refl, Bool, true, false, List, [], ◌∷◌, Bytes, arith, All, any, split,
  split_parts, has_prefix, contains_byte, ok, text_eq_iff,
}
use zfsbackup.Names.{
  is_name_byte, ds_rest, is_dots, is_valid_zfs_dataset, is_valid_zfs_component, dot, dot_dot,
}

abbrev pub AllNameBytes : Bytes → Type 0
AllNameBytes = All (λ c. is_name_byte c ≡ true)

abbrev pub IsPlain : Bytes → Type 0
IsPlain s = (s ≢ []) × AllNameBytes s

-- A component of a path: it is not empty, holds allowed bytes only, and is neither `.` nor `..`.
abbrev pub IsComponent : Bytes → Type 0
IsComponent s = (s ≢ []) × AllNameBytes s × (s ≢ dot) × (s ≢ dot_dot)

slash_not_name : is_name_byte b'/' ≡ false
unfolding is_name_byte
slash_not_name = refl

ds_rest_iff :
    (seen : Bool) (s : Bytes)
    → (ds_rest seen s ≡ true) ↔ (
        ((seen ≡ true) ⊎ ((split_parts b'/' s).0 ≢ []))
        × AllNameBytes (split_parts b'/' s).0
        × All IsPlain (split_parts b'/' s).1)
unfolding ds_rest split_parts
ds_rest_iff seen [] = ground arith
ds_rest_iff seen (c ∷ s) = ground (arith, slash_not_name, ds_rest_iff true s, ds_rest_iff false s)

is_dots_iff : (s : Bytes) → (is_dots s ≡ false) ↔ ((s ≢ dot) × (s ≢ dot_dot))
unfolding is_dots
is_dots_iff s = ground (arith, text_eq_iff s dot, text_eq_iff s dot_dot)

IsComponent-iff : (s : Bytes) → IsComponent s ↔ (IsPlain s × (is_dots s ≡ false))
IsComponent-iff s = ground (arith, is_dots_iff s)

All-IsComponent-iff :
    (xs : List Bytes) → (All IsPlain xs × (any is_dots xs ≡ false)) ↔ All IsComponent xs
All-IsComponent-iff [] = ground arith
All-IsComponent-iff (x ∷ xs) = ground (arith, IsComponent-iff x, All-IsComponent-iff xs)

-- A dataset's name is accepted exactly when it does not begin with a hyphen and each part of its
-- path is a component: not empty, of allowed bytes only, and neither `.` nor `..`.
pub is_valid_zfs_dataset_iff :
    (name : Bytes)
    → (is_valid_zfs_dataset name ≡ ok tt)
      ↔ ((has_prefix (b'-' ∷ []) name ≡ false) × All IsComponent (split name b'/'))
unfolding is_valid_zfs_dataset
is_valid_zfs_dataset_iff name = ground (
  arith,
  ds_rest_iff false name,
  All-IsComponent-iff ((split_parts b'/' name).0 ∷ (split_parts b'/' name).1),
)

split_parts_of_lacking : (s : Bytes) → contains_byte b'/' s ≡ false → split_parts b'/' s ≡ (s, [])
unfolding split_parts contains_byte
split_parts_of_lacking [] h = refl
split_parts_of_lacking (c ∷ s) h = ground (arith, split_parts_of_lacking s)

AllNameBytes-lack-slash : (s : Bytes) → AllNameBytes s → contains_byte b'/' s ≡ false
unfolding contains_byte
AllNameBytes-lack-slash [] h = refl
AllNameBytes-lack-slash (c ∷ s) h = ground (arith, slash_not_name, AllNameBytes-lack-slash s)

-- The name of a snapshot or bookmark is accepted exactly when it is a component.
pub is_valid_zfs_component_iff :
    (name : Bytes) → (is_valid_zfs_component name ≡ ok tt) ↔ IsComponent name
unfolding is_valid_zfs_component
is_valid_zfs_component_iff name = ground (
  arith,
  ds_rest_iff false name,
  IsComponent-iff name,
  split_parts_of_lacking name,
  AllNameBytes-lack-slash name,
)
