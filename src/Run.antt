-- ===== src/Run.antt =====
-- cmd/zfsbackup/run.go: all configured modules in sequence, with a parallelism of 1 in the modules
-- that take one.
pub mod Quiet
pub mod Preview
pub mod Dry
pub mod Parallel
use zfsbackup.Base.{Bool, Option, none, some, List, [], ◌++◌, Bytes, ℤ, pos, if◌then◌else◌, Error}
use zfsbackup.Config.{Config}
use zfsbackup.Exec.{Host}
use zfsbackup.Wire.{Codec, Link, Tools}
use zfsbackup.Zfs.Json.{Json}
use zfsbackup.Monitor.Publish.{Files}
use zfsbackup.Snapshot.Take
use zfsbackup.Deleter.Job as DeleterJob
use zfsbackup.Sender.Job as SenderJob
use zfsbackup.Monitor.Job as MonitorJob

-- What the modules use of the machine.
pub record Machine : Type 1 where
  pub host : Host
  pub decode : Bytes → Option Json
  pub codec : Codec
  pub link : Link host
  pub tools : Tools
  pub files : Files host
  pub clock : host.State → ℤ
  pub format : host.State → Bytes → Bytes

-- The standard output, and the errors.
abbrev pub Printed : Type 0
Printed = Bytes × List Error

module _ (M : Machine) (cfg : Config) (dry_run : Bool) where
  -- A module that the configuration has a section for, or nothing.
  unfoldable pub run_snapshot : M.host.State → List Error × M.host.State
  unfolding Take.run
  run_snapshot s = elim cfg.snapshot [
    | none ↦ ([], s)
    | some _ ↦ Take.run M.host M.decode (M.format s) (M.clock s) cfg dry_run s
  ]

  unfoldable pub run_deleter : M.host.State → List Error × M.host.State
  unfolding DeleterJob.run
  run_deleter s = elim cfg.deleter [
    | none ↦ ([], s)
    | some _ ↦ DeleterJob.run M.host M.decode M.tools cfg (pos 1) dry_run s
  ]

  unfoldable pub run_sender : M.host.State → List Error × M.host.State
  unfolding SenderJob.run
  run_sender s = elim cfg.sender [
    | none ↦ ([], s)
    | some _ ↦
        let sent = SenderJob.run M.host M.decode M.codec M.link M.tools cfg [] s in
        if dry_run then ([], s) else sent
  ]

  unfoldable pub run_monitor : M.host.State → Printed × M.host.State
  unfolding MonitorJob.run
  run_monitor s = elim cfg.monitor [
    | none ↦ (([], []), s)
    | some _ ↦ MonitorJob.run M.host M.decode M.clock M.files cfg s
  ]

  -- `runMain`, behind the flags.
  unfoldable pub run_all : M.host.State → Printed × M.host.State
  unfolding run_snapshot run_deleter run_sender run_monitor
  run_all s =
      let (es, s1) = run_snapshot s in
      let (ds, s2) = run_deleter s1 in
      let (fs, s3) = run_sender s2 in
      let ((out, gs), s4) = run_monitor s3 in ((out, es ++ ds ++ fs ++ gs), s4)
