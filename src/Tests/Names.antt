-- ===== src/Tests/Names.antt =====
-- Names and durations.
use zfsbackup.Base.{
  parse_int, ℕ, ◌≡◌, ◌*◌, ◌↔◌, refl, [], ◌∷◌, ◌++◌, Bytes, codes, All, split, has_prefix, ok, true,
  false,
}
use zfsbackup.Duration.{parse_duration, suffix_map, second}
use zfsbackup.Duration.Exact.{IsValueOf, parse_duration_exact}
use zfsbackup.Names.{
  is_valid_zfs_dataset, is_valid_zfs_component, fs_name, snapshot_name, bookmark_name, is_mark,
  placeholder_source_name, is_valid_placeholder,
}
use zfsbackup.Names.Valid.{IsComponent, is_valid_zfs_dataset_iff}
use zfsbackup.Names.Parts.{full_name_parts}
use zfsbackup.Names.Source.{placeholder_source_name_exact}

abbrev thirty_days : Bytes
thirty_days = codes "30d"

parse_duration_runs : parse_duration thirty_days ≡ ok (30 * 24 * 3600 * second)
unfolding parse_duration parse_int suffix_map
parse_duration_runs = refl

parse_duration_exact_example :
    let d = 30 * 24 * 3600 * second in
    (parse_duration thirty_days ≡ ok d)
    ↔ ((num : Bytes) × (suf : ℕ) × (thirty_days ≡ num ++ suf ∷ []) × IsValueOf num suf d)
parse_duration_exact_example = parse_duration_exact thirty_days (30 * 24 * 3600 * second)

is_valid_zfs_dataset_iff_example : (is_valid_zfs_dataset (codes "tank/a.b") ≡ ok tt) ↔ (
    (has_prefix (b'-' ∷ []) (codes "tank/a.b") ≡ false)
    × All IsComponent (split (codes "tank/a.b") b'/'))
is_valid_zfs_dataset_iff_example = is_valid_zfs_dataset_iff (codes "tank/a.b")

dataset_valid : is_valid_zfs_dataset (codes "tank/a") ≡ ok tt
unfolding is_valid_zfs_dataset
dataset_valid = refl

component_valid : is_valid_zfs_component (codes "s-1") ≡ ok tt
unfolding is_valid_zfs_component
component_valid = refl

full_name_parts_example :
    (fs_name (codes "tank/a@s-1") ≡ codes "tank/a")
    × (fs_name (codes "tank/a#s-1") ≡ codes "tank/a")
    × (snapshot_name (codes "tank/a@s-1") ≡ codes "s-1")
    × (bookmark_name (codes "tank/a#s-1") ≡ codes "s-1")
    × (snapshot_name (codes "tank/a#s-1") ≡ [])
    × (bookmark_name (codes "tank/a@s-1") ≡ [])
full_name_parts_example =
    full_name_parts (codes "tank/a") (codes "s-1") dataset_valid component_valid

source_runs : placeholder_source_name (codes "tank/a@s-1") (codes "dst") ≡ ok (codes "s-1")
unfolding placeholder_source_name
source_runs = refl

placeholder_source_name_exact_example :
    (placeholder_source_name (codes "tank/a@s-1") (codes "dst") ≡ ok (codes "s-1")) ↔ (
      (fs : Bytes) × (c : ℕ) × (codes "tank/a@s-1" ≡ fs ++ c ∷ codes "s-1")
      × (is_mark c ≡ true)
      × (is_valid_zfs_dataset fs ≡ ok tt)
      × (is_valid_zfs_component (codes "s-1") ≡ ok tt))
unfolding is_valid_placeholder
placeholder_source_name_exact_example =
    placeholder_source_name_exact (codes "tank/a@s-1") (codes "dst") (codes "s-1") refl
