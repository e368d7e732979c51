-- ===== src/Zfs/Expand.antt =====
-- `ExpandFsToProcess`: the file systems that a module works on.
use zfsbackup.Base.{
  Bool, ◌||◌, Option, List, [], ◌∷◌, ◌++◌, Bytes, codes, if◌then◌else◌, any, text_eq, has_prefix,
  sorted_set, Error, Result, ok, err, bad_output,
}
use zfsbackup.Names.{is_valid_zfs_dataset}
use zfsbackup.Exec.{Host}
use zfsbackup.Zfs.Json.{Json}
use zfsbackup.Zfs.Table.{zfs_list}

-- The file systems of a listing, and the errors.
abbrev pub Found : Type 0
Found = List Bytes × List Error

unfoldable pub check_names : List Bytes → Result (Unit {0})
unfolding is_valid_zfs_dataset
check_names [] = ok tt
check_names (name ∷ names) = elim (is_valid_zfs_dataset name) [
  | err e ↦ err e
  | ok u ↦ check_names names
]

unfoldable pub is_excluded : List Bytes → Bytes → Bool
unfolding text_eq has_prefix
is_excluded exclude fs = any (λ x. text_eq fs x || has_prefix (x ++ b'/' ∷ []) fs) exclude

-- One round of the loop over the rows.
unfoldable pub keep_row : List Bytes → Bytes → Result (Unit {0}) → Found → Found
unfolding is_excluded
keep_row exclude fs (err e) (kept, es) = (kept, e ∷ es)
keep_row exclude fs (ok u) (kept, es) = (if is_excluded exclude fs then kept else fs ∷ kept, es)

-- The loop over the rows of a listing.
unfoldable pub keep_rows : List Bytes → List (List Bytes) → Found
unfolding keep_row is_valid_zfs_dataset
keep_rows exclude [] = ([], [])
keep_rows exclude ([] ∷ rows) = let (kept, es) = keep_rows exclude rows in (kept, bad_output ∷ es)
keep_rows exclude ((fs ∷ _) ∷ rows) =
    keep_row exclude fs (is_valid_zfs_dataset fs) (keep_rows exclude rows)

unfoldable pub keep_listed : List Bytes → Result (List (List Bytes)) → Found
unfolding keep_rows
keep_listed exclude (err e) = ([], e ∷ [])
keep_listed exclude (ok rows) = keep_rows exclude rows

abbrev pub both : Found → Found → Found
both (fs, es) (gs, ds) = (fs ++ gs, es ++ ds)

module _ (H : Host) (decode : Bytes → Option Json) where
  -- The listing of the file systems below a root.
  unfoldable pub list_below : Bytes → H.State → Result (List (List Bytes)) × H.State
  unfolding zfs_list
  list_below root =
      zfs_list H decode (codes "name" ∷ []) (codes "filesystem") root (codes "-r" ∷ [])

  -- The loop over `include`.
  unfoldable pub expand_roots : List Bytes → List Bytes → H.State → Found × H.State
  unfolding list_below keep_listed
  expand_roots exclude [] s = (([], []), s)
  expand_roots exclude (root ∷ roots) s =
      let (listed, s') = list_below root s in
      let (found, s'') = expand_roots exclude roots s' in
      (both (keep_listed exclude listed) found, s'')

  -- `ExpandFsToProcess`
  unfoldable pub expand_fs_to_process : List Bytes → List Bytes → H.State → Found × H.State
  unfolding check_names expand_roots
  expand_fs_to_process include exclude s = elim (check_names include) [
    | err e ↦ (([], e ∷ []), s)
    | ok u ↦ elim (check_names exclude) [
      | err e ↦ (([], e ∷ []), s)
      | ok u' ↦
          let ((found, es), s') = expand_roots exclude include s in ((sorted_set found, es), s')
    ]
  ]
