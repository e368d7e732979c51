-- ===== src/Zfs/Bookmarks.antt =====
-- `ZpoolList`, `Exists`, and the placeholder bookmarks: `zfsGcPlaceholder`,
-- `zfsBookmarkIdempotent`, `ZfsSetBeforeBookmark` and `ZfsSetPlaceholder`.
use Prim.Native.Nat.{Ordering}
use zfsbackup.Base.{
  ◌-◌, Bool, true, false, not, ◌||◌, Option, none, some, List, [], ◌∷◌, ◌++◌, Bytes, codes,
  if◌then◌else◌, text_eq, has_suffix, contains_byte, split, join, take, length, Error, Result, ok,
  err, ◌==◌, bad_output, command_failed, bookmark_guid_differs, not_a_placeholder, sort_by,
}
use zfsbackup.Names.{fs_name, bookmark_name, placeholder_source_name}
use zfsbackup.Exec.{Host, Act, ◌>>=◌, ◌>>◌, lift, attempt, zfs, zfs_get, zfs_destroy, trim_space}
use zfsbackup.Zfs.Json.{Json, Members, find, as_members}
use zfsbackup.Zfs.Table.{Entry, compare_text, make_entries, rows_of, zfs_list, datasets_of}

-- The comparison of pools by name.
unfoldable pub pool_before : Entry → Entry → Bool
unfolding compare_text
pool_before a b = elim (compare_text a.key b.key) [
  | Ordering.lt ↦ true
  | Ordering.eq ↦ true
  | Ordering.gt ↦ false
]

unfoldable pub decoded_pools : Option Json → Result Members
unfolding as_members datasets_of find
decoded_pools none = err bad_output
decoded_pools (some j) = elim (as_members j) [
  | none ↦ err bad_output
  | some m ↦ datasets_of (find (codes "pools") m)
]

unfoldable pub pool_table : List Bytes → Members → Result (List (List Bytes))
unfolding make_entries pool_before sort_by rows_of
pool_table props pools = elim (make_entries props pools) [
  | err e ↦ err e
  | ok entries ↦ ok (rows_of props (sort_by pool_before entries))
]

-- `strings.TrimSuffix`
unfoldable pub trim_suffix : Bytes → Bytes → Bytes
unfolding has_suffix
trim_suffix x s = if has_suffix x s then take (length s - length x) s else s

-- The new bookmark of `ZfsSetPlaceholder`.
unfoldable pub new_bookmark : Bytes → Bytes → Bytes → Bytes
unfolding trim_suffix contains_byte
new_bookmark src p name =
    let stem = if contains_byte b'#' src then trim_suffix (b'-' ∷ p) name else name in
    b'#' ∷ stem ++ b'-' ∷ p

-- The last part between hyphens, where there are two or more.
unfoldable pub last_part : Bytes → List Bytes → Bytes
last_part p [] = p
last_part p (q ∷ qs) = last_part q qs

unfoldable pub placeholder_of : List Bytes → Result Bytes
unfolding last_part
placeholder_of [] = err not_a_placeholder
placeholder_of (p ∷ []) = err not_a_placeholder
placeholder_of (p ∷ q ∷ ps) = ok (last_part q ps)

module _ (H : Host) where
  unfoldable pub zpool : List Bytes → Act H Bytes
  zpool args s =
      let (out, s') = H.output (codes "zpool") args s in
      elim out [ none ↦ (err command_failed, s') | some b ↦ (ok b, s') ]

  -- The loop of the collection over the rows of the listing.
  unfoldable pub gc_loop : Bytes → Bytes → List (List Bytes) → Act H (Unit {0})
  unfolding text_eq has_suffix bookmark_name zfs_destroy
  gc_loop keep suffix [] = lift (ok tt)
  gc_loop keep suffix ([] ∷ rows) = lift (err bad_output)
  gc_loop keep suffix ((b ∷ _) ∷ rows) =
      let rest = gc_loop keep suffix rows in
      if text_eq b keep || not (has_suffix suffix (bookmark_name b))
      then rest
      else zfs_destroy H b [] >> rest

  -- The loop over the existing bookmarks, with the error of the creation.
  unfoldable pub check_existing : Bytes → Bytes → Error → List (List Bytes) → Act H (Unit {0})
  unfolding text_eq zfs_get trim_space
  check_existing src full failure [] = lift (err failure)
  check_existing src full failure ([] ∷ rows) = lift (err bad_output)
  check_existing src full failure ((name ∷ []) ∷ rows) = lift (err bad_output)
  check_existing src full failure ((name ∷ guid ∷ _) ∷ rows) =
      let rest = check_existing src full failure rows in
      let same = zfs_get H src (codes "guid") >>= λ g.
      lift (if text_eq (trim_space g) guid then ok tt else err bookmark_guid_differs) in
      if text_eq name full then same else rest

module _ (H : Host) (decode : Bytes → Option Json) where
  -- `ZpoolList`
  unfoldable pub zpool_list : List Bytes → Act H (List (List Bytes))
  unfolding zpool join decoded_pools pool_table
  zpool_list props =
      zpool H (codes "list" ∷ codes "-j" ∷ codes "-p" ∷ codes "-o" ∷ join props b',' ∷ [])
      >>= λ out. lift (decoded_pools (decode out)) >>= λ pools. lift (pool_table props pools)

  -- `Exists`
  unfoldable pub exists : Bytes → Act H Bool
  unfolding zfs_list
  exists fullds =
      attempt (zfs_list H decode (codes "name" ∷ []) (codes "filesystem") fullds [])
        λ r. elim r [ err e ↦ lift (ok false) | ok rows ↦ lift (ok (length rows == 1)) ]

  -- `zfsGcPlaceholder`
  unfoldable pub zfs_gc_placeholder : Bytes → Act H (Unit {0})
  unfolding split placeholder_of fs_name zfs_list gc_loop
  zfs_gc_placeholder keep = lift (placeholder_of (split keep b'-')) >>= λ placeholder.
      zfs_list H decode (codes "name" ∷ []) (codes "bookmark") (fs_name keep) [] >>= λ rows.
      gc_loop H keep (b'-' ∷ placeholder) rows

  -- The listing behind a failed creation. Where it fails too, the creation's error counts.
  unfoldable pub when_listed : Bytes → Bytes → Error → Result (List (List Bytes)) → Act H (Unit {0})
  unfolding fs_name check_existing
  when_listed src dst failure (err e) = lift (err failure)
  when_listed src dst failure (ok rows) = check_existing H src (fs_name src ++ dst) failure rows

  unfoldable pub when_created : Bytes → Bytes → Result Bytes → Act H (Unit {0})
  unfolding zfs_list fs_name when_listed
  when_created src dst (ok out) = lift (ok tt)
  when_created src dst (err failure) =
      attempt
        (zfs_list H decode (codes "name" ∷ codes "guid" ∷ []) (codes "bookmark") (fs_name src) [])
        (when_listed src dst failure)

  -- `zfsBookmarkIdempotent`
  unfoldable pub zfs_bookmark_idempotent : Bytes → Bytes → Act H (Unit {0})
  unfolding zfs when_created
  zfs_bookmark_idempotent src dst =
      attempt (zfs H (codes "bookmark" ∷ src ∷ dst ∷ [])) (when_created src dst)

  -- `ZfsSetBeforeBookmark`
  unfoldable pub zfs_set_before_bookmark : Bytes → Bytes → Act H (Unit {0})
  unfolding placeholder_source_name zfs_bookmark_idempotent
  zfs_set_before_bookmark src p = lift (placeholder_source_name src p) >>= λ name.
      zfs_bookmark_idempotent src (b'#' ∷ name ++ codes "-before-" ++ p)

  -- `ZfsSetPlaceholder`
  unfoldable pub zfs_set_placeholder : Bytes → Bytes → Act H (Unit {0})
  unfolding placeholder_source_name new_bookmark zfs_bookmark_idempotent fs_name zfs_gc_placeholder
  zfs_set_placeholder src p = lift (placeholder_source_name src p) >>= λ name.
      let bookmark = new_bookmark src p name in
      zfs_bookmark_idempotent src bookmark >> zfs_gc_placeholder (fs_name src ++ bookmark)
