-- ===== src/Names.antt =====
-- The names of datasets, snapshots and bookmarks: the validators and the parts of a name in
-- internal/zfs/zfs.go.
pub mod Valid
pub mod Parts
pub mod Source
use zfsbackup.Base.{
  ℕ, ◌≡◌, refl, suc, Bool, true, false, not, ◌&&◌, ◌||◌, Option, none, some, List, [], ◌∷◌, ◌++◌,
  Bytes, codes, leb, ◌==◌, if◌then◌else◌, any, length, is_empty, text_eq, has_prefix, has_suffix,
  contains_byte, split, cut, Result, ok, err, invalid_dataset, invalid_component,
  invalid_placeholder, invalid_source, ◌>>=◌, ◌>>◌,
}

-- `[A-Za-z0-9_.:]`
unfoldable pub is_placeholder_byte : ℕ → Bool
is_placeholder_byte c =
    (leb b'A' c && leb c b'Z')
    || (leb b'a' c && leb c b'z')
    || (leb b'0' c && leb c b'9')
    || c == b'_'
    || c == b'.'
    || c == b':'

-- `[A-Z0-9a-z_.:-]`
unfoldable pub is_name_byte : ℕ → Bool
unfolding is_placeholder_byte
is_name_byte c = is_placeholder_byte c || c == b'-'

unfoldable pub all_placeholder : Bytes → Bool
unfolding is_placeholder_byte
all_placeholder [] = true
all_placeholder (c ∷ s) = is_placeholder_byte c && all_placeholder s

-- `placeholderRegexp`
unfoldable pub placeholder_regexp : Bytes → Bool
unfolding all_placeholder
placeholder_regexp s = not (is_empty s) && all_placeholder s

abbrev pub dot : Bytes
dot = codes "."

abbrev pub dot_dot : Bytes
dot_dot = codes ".."

-- `IsValidPlaceholder`
unfoldable pub is_valid_placeholder : Bytes → Bool
unfolding placeholder_regexp text_eq
is_valid_placeholder name =
    placeholder_regexp name && not (text_eq name dot) && not (text_eq name dot_dot)

-- The rest of a match of `dsRegexp`. The flag says that the current component has a byte.
unfoldable pub ds_rest : Bool → Bytes → Bool
ds_rest seen [] = seen
ds_rest seen (c ∷ s) = (is_name_byte c || (c == b'/' && seen)) && ds_rest (is_name_byte c) s

-- `dsRegexp`
unfoldable pub ds_regexp : Bytes → Bool
unfolding ds_rest is_name_byte
ds_regexp s = ds_rest false s

unfoldable pub is_dots : Bytes → Bool
unfolding text_eq
is_dots s = text_eq s dot || text_eq s dot_dot

-- `IsValidZFSDataset`
unfoldable pub is_valid_zfs_dataset : Bytes → Result (Unit {0})
unfolding ds_regexp has_prefix split is_dots
is_valid_zfs_dataset name =
    if not (ds_regexp name) || has_prefix (b'-' ∷ []) name
    then err invalid_dataset
    else if any is_dots (split name b'/')
    then err invalid_dataset
    else ok tt

-- `IsValidZFSComponent`
unfoldable pub is_valid_zfs_component : Bytes → Result (Unit {0})
unfolding ds_regexp contains_byte is_dots
is_valid_zfs_component name =
    if not (ds_regexp name) || contains_byte b'/' name || is_dots name
    then err invalid_component
    else ok tt

-- The text before the first separator, or all of it.
unfoldable pub before : ℕ → Bytes → Bytes
unfolding cut
before sep s = elim (cut sep s) [ none ↦ s | some (a, b) ↦ a ]

-- The text behind the first separator, or none of it.
unfoldable pub behind : ℕ → Bytes → Bytes
unfolding cut
behind sep s = elim (cut sep s) [ none ↦ [] | some (a, b) ↦ b ]

-- `PoolName`
unfoldable pub pool_name : Bytes → Bytes
unfolding before
pool_name s = before b'/' s

-- `FSName`: the loop over the two separators.
unfoldable pub fs_name : Bytes → Bytes
unfolding cut before
fs_name s = elim (cut b'@' s) [ none ↦ before b'#' s | some (a, b) ↦ a ]

-- `SnapshotName`
unfoldable pub snapshot_name : Bytes → Bytes
unfolding behind
snapshot_name s = behind b'@' s

-- `BookmarkName`
unfoldable pub bookmark_name : Bytes → Bytes
unfolding behind
bookmark_name s = behind b'#' s

unfoldable pub is_mark : ℕ → Bool
is_mark c = c == b'@' || c == b'#'

-- `strings.FieldsFunc(src, f)` with the function literal of `placeholderSourceName`: the field that
-- is being read, and the fields behind it.
unfoldable pub mark_fields : Bytes → Bytes × List Bytes
unfolding is_mark
mark_fields [] = ([], [])
mark_fields (c ∷ s) =
    let (f, fs) = mark_fields s in
    if is_mark c then ([], if is_empty f then fs else f ∷ fs) else (c ∷ f, fs)

unfoldable pub fields_func : Bytes → List Bytes
unfolding mark_fields
fields_func s = let (f, fs) = mark_fields s in if is_empty f then fs else f ∷ fs

-- `strings.Count(src, "@") + strings.Count(src, "#")`
unfoldable pub count_marks : Bytes → ℕ
unfolding is_mark
count_marks [] = 0
count_marks (c ∷ s) = if is_mark c then suc (count_marks s) else count_marks s

-- The validation of the two parts.
unfoldable pub check_parts : List Bytes → Result Bytes
unfolding is_valid_zfs_dataset is_valid_zfs_component
check_parts (fs ∷ name ∷ []) = do is_valid_zfs_dataset fs; is_valid_zfs_component name; ok name
check_parts _ = err invalid_source

-- `placeholderSourceName`
unfoldable pub placeholder_source_name : Bytes → Bytes → Result Bytes
unfolding is_valid_placeholder fields_func count_marks check_parts
placeholder_source_name src placeholder =
    if not (is_valid_placeholder placeholder)
    then err invalid_placeholder
    else if count_marks src == 1
    then check_parts (fields_func src)
    else err invalid_source

source_names :
    (placeholder_source_name (codes "tank/a@snap-1") (codes "dst1") ≡ ok (codes "snap-1"))
    × (placeholder_source_name (codes "tank/a@b#c") (codes "dst1") ≡ err invalid_source)
    × (fs_name (codes "tank/a#x") ≡ codes "tank/a")
    × (is_valid_zfs_dataset (codes "tank//a") ≡ err invalid_dataset)
unfolding placeholder_source_name fs_name
source_names = (refl, refl, refl, refl)
