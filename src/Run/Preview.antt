-- ===== src/Run/Preview.antt =====
-- Dry runs of the snapshot module and of the deleter.
use zfsbackup.Base.{
  ◌∷◌, ℕ, zero, suc, refl, ◌∙◌, [], ltb_ℤ, pos, inl, inr, Bool, true, Option, List, Bytes, codes, ℤ,
  is_empty, take, drop, length, ◌/◌, Bool-cases, outcome, Result, ok, err, keys, sort_texts,
}
use zfsbackup.Config.{Config, SnapshotConfig, DeleterConfig, resolve_include, resolve_exclude}
use zfsbackup.Duration.{parse_duration}
use zfsbackup.Names.{is_valid_zfs_dataset, is_valid_zfs_component, fs_name}
use zfsbackup.Exec.{Host, lift, zfs, zfs_destroy}
use zfsbackup.Zfs.Json.{Json}
use zfsbackup.Zfs.Tabular.{parse_tabular_batched}
use zfsbackup.Zfs.Expand.{Found, expand_fs_to_process}
use zfsbackup.Snapshot.Skip.{
  maybe_skip_snaps, with_duration, with_written, with_times, written_args, creation_args, empty_fs,
}
use zfsbackup.Snapshot.Take.{
  PerPool, snapshot_pool, snapshot_pools, per_pool_args, take_snapshots, run_with, check_younger,
}
use zfsbackup.Deleter.Policy.{Policy}
use zfsbackup.Deleter.Mark.{mark_for_preservation}
use zfsbackup.Deleter.Batches.{target, destroy_flags, fits_command, delete_many_snaps}
use zfsbackup.Deleter.Snaps.{get_validated_snaps, process_fs}
use zfsbackup.Deleter.Job.{
  run_section, new_delete_fs_processor, matches_any, delete_in, delete_with,
}
use zfsbackup.Wire.{Tools}
use zfsbackup.Run.Quiet.{
  Keeps, IsReadOnly, >>=-Keeps, attempt-Keeps, run_each-Keeps, zfs-Keeps, zfs_list-Keeps,
  expand-Keeps, queries-Keeps,
}

-- The arguments of the two queries behind `get`.
abbrev written_rest : List Bytes
written_rest = codes "-H" ∷ codes "-o" ∷ codes "name,value" ∷ codes "written" ∷ []

abbrev creation_rest : List Bytes
creation_rest =
    codes "-H"
    ∷ codes "-p"
    ∷ codes "-r"
    ∷ codes "-d1"
    ∷ codes "-o"
    ∷ codes "name,value"
    ∷ codes "-t"
    ∷ codes "snapshot"
    ∷ codes "creation"
    ∷ []

module _ (H : Host) (R : IsReadOnly H) where
  module _ (now : ℤ) (d : ℕ) where
    with_times-Keeps : (r : Result (List (List Bytes))) → Keeps (with_times H now d r)
    unfolding with_times
    with_times-Keeps (err e) s = refl
    with_times-Keeps (ok rows) s = refl

    with_written-Keeps : (r : Result (List (List Bytes))) → Keeps (with_written H now d r)
    unfolding with_written
    with_written-Keeps (err e) = λ s. refl
    with_written-Keeps (ok rows) =
        >>=-Keeps (lift (empty_fs rows)) _ (λ s. refl)
          λ empty.
            attempt-Keeps (parse_tabular_batched H (codes "zfs") creation_args empty)
              (with_times H now d) (queries-Keeps H R creation_rest empty) with_times-Keeps

  module _ (now : ℤ) where
    with_duration-Keeps : (fss : List Bytes) (r : Result ℕ) → Keeps (with_duration H now fss r)
    unfolding with_duration
    with_duration-Keeps fss (err e) = λ s. refl
    with_duration-Keeps fss (ok d) =
        attempt-Keeps (parse_tabular_batched H (codes "zfs") written_args fss)
          (with_written H now d) (queries-Keeps H R written_rest fss) (with_written-Keeps now d)

    maybe_skip-Keeps :
        (sc : SnapshotConfig) (fss : List Bytes) → Keeps (maybe_skip_snaps H now sc fss)
    unfolding maybe_skip_snaps
    maybe_skip-Keeps sc fss = elim (Bool-cases (is_empty sc.skip_empty_younger_than)) [
      | inl e ↦ λ s. rw (maybe_skip_snaps, e) refl
      | inr e ↦ λ s.
          rw (maybe_skip_snaps, e)
            (with_duration-Keeps fss (parse_duration sc.skip_empty_younger_than) s)
    ]

  no_snapshots : (m : PerPool) → Keeps (snapshot_pools H true m)
  unfolding snapshot_pools snapshot_pool
  no_snapshots m = run_each-Keeps (snapshot_pool H true m) (sort_texts (keys m)) λ pool. λ s. refl

  module _ (decode : Bytes → Option Json) (format : Bytes → Bytes) (now : ℤ) where
    take-Keeps :
        (sc : SnapshotConfig) (snap_name : Bytes) (found : Found)
        → Keeps (take_snapshots H decode format now sc snap_name true found)
    unfolding take_snapshots
    take-Keeps sc snap_name (fss, es) s = elim (outcome (maybe_skip_snaps H now sc fss s).0) [
      | inl (e, p) ↦ rw (take_snapshots, p) (maybe_skip-Keeps now sc fss s)
      | inr (names, p) ↦
          rw (take_snapshots, p)
            (no_snapshots (per_pool_args snap_name names fss []) (maybe_skip_snaps H now sc fss s).1
              ∙ maybe_skip-Keeps now sc fss s)
    ]

    pub run_with-Keeps :
        (cfg : Config) (sc : SnapshotConfig) → Keeps (run_with H decode format now cfg sc true)
    unfolding run_with
    run_with-Keeps cfg sc s =
        let include = resolve_include cfg sc.include in
        let exclude = resolve_exclude cfg sc.exclude in
        let found = expand_fs_to_process H decode include exclude s in
        elim (outcome (is_valid_zfs_component (format sc.name_pattern))) [
          | inl (e, p) ↦ rw (run_with, p) refl
          | inr (u, p) ↦ elim (outcome (check_younger sc.skip_empty_younger_than)) [
            | inl (e, q) ↦ rw (run_with, p, q) refl
            | inr (u', q) ↦
                rw (run_with, p, q)
                  (take-Keeps sc (format sc.name_pattern) found.0 found.1
                    ∙ expand-Keeps H R decode include exclude s)
          ]
        ]

  delete_many-Keeps :
      (fuel : ℕ) (fs : Bytes) (names : List Bytes) → Keeps (delete_many_snaps H fuel fs true names)
  unfolding delete_many_snaps zfs_destroy destroy_flags
  delete_many-Keeps zero fs names = λ s. refl
  delete_many-Keeps (suc fuel) fs names =
      let mid = length names / 2 in
      elim (Bool-cases (is_empty names)) [
        | inl e ↦ λ s. rw (delete_many_snaps, e) refl
        | inr e ↦ elim (Bool-cases (fits_command fs names)) [
          | inl f ↦ λ s.
              rw (delete_many_snaps, e, f)
                (>>=-Keeps (lift (is_valid_zfs_dataset (fs_name (target fs names)))) _ (λ t. refl)
                  (λ _. >>=-Keeps (zfs H _) _ (zfs-Keeps H _ (R.dry_destroy _)) λ _. λ t. refl) s)
          | inr f ↦ λ s.
              rw (delete_many_snaps, e, f)
                (>>=-Keeps (delete_many_snaps H fuel fs true (take mid names)) _
                  (delete_many-Keeps fuel fs (take mid names))
                  (λ _. delete_many-Keeps fuel fs (drop mid names)) s)
        ]
      ]

  module _ (decode : Bytes → Option Json) where
    process_fs-Keeps :
        (matches : Bytes → Bool) (p : Policy) (fs : Bytes)
        → Keeps (process_fs H decode matches p fs true)
    unfolding process_fs get_validated_snaps
    process_fs-Keeps matches p fs =
        >>=-Keeps (get_validated_snaps H decode matches fs) _
          (>>=-Keeps _ _
            (zfs_list-Keeps H R decode (codes "name" ∷ codes "createtxg" ∷ codes "creation" ∷ [])
              (codes "snapshot") fs (codes "-s" ∷ codes "createtxg" ∷ []))
            λ rows. λ s. refl)
          λ snaps.
            >>=-Keeps (lift (mark_for_preservation p snaps)) _ (λ s. refl)
              λ names. delete_many-Keeps (length names) fs names

    module _ (T : Tools) where
      delete_with-Keeps :
          (cfg : Config) (dc : DeleterConfig) (p : Policy)
          → Keeps (delete_with H decode T cfg dc true p)
      unfolding delete_with delete_in
      delete_with-Keeps cfg dc p s =
          let include = resolve_include cfg dc.include in
          let exclude = resolve_exclude cfg dc.exclude in
          let found = expand_fs_to_process H decode include exclude s in
          run_each-Keeps (delete_in H decode T dc p true) found.0.0
            (process_fs-Keeps (matches_any T.matches dc.regex) p) found.1
          ∙ expand-Keeps H R decode include exclude s

      pub run_section-Keeps :
          (cfg : Config) (dc : DeleterConfig) (n : ℤ) → Keeps (run_section H decode T cfg dc n true)
      unfolding run_section
      run_section-Keeps cfg dc n s = elim (Bool-cases (ltb_ℤ n (pos 1))) [
        | inl e ↦ rw (run_section, e) refl
        | inr e ↦ elim (outcome (new_delete_fs_processor T.compiles dc)) [
          | inl (f, p) ↦ rw (run_section, e, p) refl
          | inr (p, q) ↦ rw (run_section, e, q) (delete_with-Keeps cfg dc p s)
        ]
      ]
