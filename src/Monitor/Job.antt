-- ===== src/Monitor/Job.antt =====
-- `run` and `Run` of the monitor.
use zfsbackup.Base.{
  Option, none, some, List, [], ◌∷◌, ◌++◌, Bytes, codes, ℤ, pos, if◌then◌else◌, is_empty, Error, ok,
  err, no_section,
}
use zfsbackup.Config.{Config, resolve_include, resolve_exclude}
use zfsbackup.Exec.{Host}
use zfsbackup.Zfs.Json.{Json}
use zfsbackup.Monitor.Metrics.{Metric, Measured, join_measured, zpool_metrics, last_snap_metrics}
use zfsbackup.Monitor.Text.{as_prometheus}
use zfsbackup.Monitor.Publish.{Files, write_prometheus_file}

-- The standard output, and the errors.
abbrev pub Output : Type 0
Output = Bytes × List Error

-- The two metrics behind the others.
abbrev pub closing_metrics : List Error → ℤ → List Metric
closing_metrics es now =
    record {
      name = codes "MonitorSuccess";
      dimensions = [];
      value = if is_empty es then pos 1 else pos 0;
    }
    ∷ record { name = codes "MonitorCollectionTimestamp"; dimensions = []; value = now }
    ∷ []

module _ (H : Host) (decode : Bytes → Option Json) (clock : H.State → ℤ) (F : Files H) where
  -- Both kinds of metrics, whatever fails.
  unfoldable pub measure_all : List Bytes → List Bytes → H.State → Measured × H.State
  unfolding zpool_metrics last_snap_metrics
  measure_all include exclude s =
      let (m, s') = zpool_metrics H decode clock s in
      let (n, s'') = last_snap_metrics H decode clock include exclude s' in (join_measured m n, s'')

  -- The output. A file that cannot be published is the only error, and nothing is printed.
  unfoldable pub publish : Bytes → Bytes → List Error → H.State → Output × H.State
  unfolding write_prometheus_file
  publish path text es s =
      let (r, s') = write_prometheus_file H F path text s in
      if is_empty path
      then ((text, es), s)
      else elim r [ err e ↦ (([], e ∷ []), s') | ok u ↦ ((text, es), s') ]

  -- `run`
  unfoldable pub run_metrics : List Bytes → List Bytes → Bytes → H.State → Output × H.State
  unfolding measure_all as_prometheus publish
  run_metrics include exclude path s =
      let ((metrics, es), s') = measure_all include exclude s in
      publish path (as_prometheus (metrics ++ closing_metrics es (clock s'))) es s'

  -- `Run`
  unfoldable pub run : Config → H.State → Output × H.State
  unfolding run_metrics resolve_include resolve_exclude
  run cfg s = elim cfg.monitor [
    | none ↦ (([], no_section ∷ []), s)
    | some mc ↦
        run_metrics (resolve_include cfg mc.include) (resolve_exclude cfg mc.exclude)
          mc.prometheus_output s
  ]
