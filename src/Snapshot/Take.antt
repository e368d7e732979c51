-- ===== src/Snapshot/Take.antt =====
-- `Run` of the snapshot module: one command for each pool.
use zfsbackup.Base.{
  Bool, Option, none, some, List, [], ◌∷◌, ◌++◌, Bytes, codes, if◌then◌else◌, is_empty, contains,
  sort_texts, GroupMap, group_of, add_to_group, keys, ℤ, Error, Result, ok, err, no_section,
}
use zfsbackup.Config.{SnapshotConfig, Config, resolve_include, resolve_exclude}
use zfsbackup.Duration.{parse_duration}
use zfsbackup.Names.{is_valid_zfs_component, pool_name}
use zfsbackup.Exec.{Host, zfs, run_each, errors_of}
use zfsbackup.Zfs.Json.{Json}
use zfsbackup.Zfs.Expand.{Found, expand_fs_to_process}
use zfsbackup.Snapshot.Skip.{maybe_skip_snaps}

-- `perPoolArgs`
abbrev pub PerPool : Type 0
PerPool = GroupMap Bytes

-- The name of the snapshot of a file system.
abbrev pub snapshot_of : Bytes → Bytes → Bytes
snapshot_of snap_name fs = fs ++ b'@' ∷ snap_name

-- The loop over the file systems.
unfoldable pub per_pool_args : Bytes → List Bytes → List Bytes → PerPool → PerPool
unfolding contains pool_name add_to_group
per_pool_args snap_name skip [] m = m
per_pool_args snap_name skip (fs ∷ fss) m =
    per_pool_args snap_name skip fss
      (if contains skip fs then m else add_to_group (pool_name fs) (snapshot_of snap_name fs) m)

unfoldable pub check_younger : Bytes → Result (Unit {0})
unfolding parse_duration
check_younger text =
    if is_empty text then ok tt else elim (parse_duration text) [ err e ↦ err e | ok d ↦ ok tt ]

module _ (H : Host) where
  -- One round of the loop over the pools.
  unfoldable pub snapshot_pool : Bool → PerPool → Bytes → H.State → List Error × H.State
  unfolding group_of zfs errors_of
  snapshot_pool dry_run m pool s =
      let (r, s') = zfs H (codes "snapshot" ∷ group_of pool m) s in
      if dry_run then ([], s) else (errors_of r, s')

  unfoldable pub snapshot_pools : Bool → PerPool → H.State → List Error × H.State
  unfolding run_each snapshot_pool sort_texts keys
  snapshot_pools dry_run m = run_each (snapshot_pool dry_run m) (sort_texts (keys m))

-- `format` is the time of the call, in the layout that it is given, and `now` in seconds.
module _ (H : Host) (decode : Bytes → Option Json) (format : Bytes → Bytes) (now : ℤ) where
  -- Behind the discovery.
  unfoldable pub take_snapshots :
      SnapshotConfig → Bytes → Bool → Found → H.State → List Error × H.State
  unfolding maybe_skip_snaps per_pool_args snapshot_pools
  take_snapshots sc snap_name dry_run (fss, es) s =
      let (skip, s') = maybe_skip_snaps H now sc fss s in
      elim skip [
        | err e ↦ (es ++ e ∷ [], s')
        | ok names ↦
            let (es', s'') = snapshot_pools H dry_run (per_pool_args snap_name names fss []) s' in
            (es ++ es', s'')
      ]

  unfoldable pub run_with : Config → SnapshotConfig → Bool → H.State → List Error × H.State
  unfolding is_valid_zfs_component check_younger resolve_include resolve_exclude
      expand_fs_to_process take_snapshots
  run_with cfg sc dry_run s =
      let snap_name = format sc.name_pattern in
      elim (is_valid_zfs_component snap_name) [
        | err e ↦ (e ∷ [], s)
        | ok u ↦ elim (check_younger sc.skip_empty_younger_than) [
          | err e ↦ (e ∷ [], s)
          | ok u' ↦
              let include = resolve_include cfg sc.include in
              let exclude = resolve_exclude cfg sc.exclude in
              let (found, s') = expand_fs_to_process H decode include exclude s in
              take_snapshots sc snap_name dry_run found s'
        ]
      ]

  -- `Run`
  unfoldable pub run : Config → Bool → H.State → List Error × H.State
  unfolding run_with
  run cfg dry_run s = elim cfg.snapshot [
    | none ↦ (no_section ∷ [], s)
    | some sc ↦ run_with cfg sc dry_run s
  ]
