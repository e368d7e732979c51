-- ===== src/Sender/Job.antt =====
-- `NewFSProcessor`, `processFilesystem` and `Run` of the sender, with a parallelism of 1.
use zfsbackup.Base.{
  Bool, false, not, ◌&&◌, Option, none, some, List, [], ◌∷◌, ◌++◌, Bytes, codes, if◌then◌else◌,
  is_empty, text_eq, Error, ok, err, no_section,
}
use zfsbackup.Config.{Config, SenderConfig, DestinationConfig, resolve_include, resolve_exclude}
use zfsbackup.Exec.{Host, errors_of, run_each}
use zfsbackup.Wire.{Codec, Link, Tools}
use zfsbackup.Zfs.Json.{Json}
use zfsbackup.Zfs.Expand.{expand_fs_to_process}
use zfsbackup.Sender.Defaults.{init_sender_defaults}
use zfsbackup.Sender.Plan.{FsProcessor}
use zfsbackup.Sender.Round.{process_fs}

-- `NewFSProcessor`
unfoldable pub new_fs_processor :
    (Bytes → Bytes → Bool) → Bytes → SenderConfig → DestinationConfig → FsProcessor
new_fs_processor matches fs job dst =
    let txtre = if is_empty job.snapshot_regex then codes ".*" else job.snapshot_regex in
    record {
      fs = fs;
      job = job;
      dst = dst;
      snap_re = matches (codes "^(?:" ++ txtre ++ codes ")$");
      sources = [];
      encrypted = false;
    }

-- The test of `limitFs` in the loop over the file systems.
unfoldable pub limited : Bytes → List Bytes → List Bytes
unfolding text_eq
limited limit_fs [] = []
limited limit_fs (fs ∷ fss) =
    let rest = limited limit_fs fss in
    if not (is_empty limit_fs) && not (text_eq fs limit_fs) then rest else fs ∷ rest

module _ (H : Host) (decode : Bytes → Option Json) (C : Codec) (L : Link H) (T : Tools) where
  -- One round of the loop over the destinations.
  unfoldable pub process_destination :
      SenderConfig → Bytes → DestinationConfig → H.State → List Error × H.State
  unfolding new_fs_processor process_fs errors_of
  process_destination sc fs dst s =
      let (r, s') = process_fs H decode C L (new_fs_processor T.matches fs sc dst) s in
      (errors_of r, s')

  -- `processFilesystem`
  unfoldable pub process_filesystem : SenderConfig → Bytes → H.State → List Error × H.State
  unfolding run_each process_destination
  process_filesystem sc fs = run_each (process_destination sc fs) sc.destinations

  -- Behind the defaults.
  unfoldable pub run_job : Config → SenderConfig → Bytes → H.State → List Error × H.State
  unfolding resolve_include resolve_exclude expand_fs_to_process limited process_filesystem
  run_job cfg sc limit_fs s =
      let include = resolve_include cfg sc.include in
      let exclude = resolve_exclude cfg sc.exclude in
      let ((fss, es), s') = expand_fs_to_process H decode include exclude s in
      let (es', s'') = run_each (process_filesystem sc) (limited limit_fs fss) s' in
      (es ++ es', s'')

  -- `Run`
  unfoldable pub run : Config → Bytes → H.State → List Error × H.State
  unfolding init_sender_defaults run_job
  run cfg limit_fs s = elim cfg.sender [
    | none ↦ (no_section ∷ [], s)
    | some sc ↦ elim (init_sender_defaults T.mbuffer_present T.compiles sc) [
      | err e ↦ (e ∷ [], s)
      | ok sc' ↦ run_job cfg sc' limit_fs s
    ]
  ]
