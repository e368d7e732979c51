-- ===== src/Monitor/Metrics.antt =====
-- `zpoolMetrics`, `lastSnapMetricsOneFS` and `lastSnapMetrics`. Each returns the metrics that it
-- appends, also where it fails.
use zfsbackup.Base.{
  ℕ, suc, Option, none, some, List, [], ◌∷◌, ◌++◌, Bytes, codes, if◌then◌else◌, text_eq, parse_int,
  ℤ, pos, ◌-ℤ◌, wrap_i64, Error, Result, ok, err, bad_output, bad_capacity, bad_timestamp,
}
use zfsbackup.Exec.{Host}
use zfsbackup.Zfs.Json.{Json}
use zfsbackup.Zfs.Table.{zfs_list}
use zfsbackup.Zfs.Bookmarks.{zpool_list}
use zfsbackup.Zfs.Expand.{expand_fs_to_process}

-- `metric`; the dimensions have distinct keys.
pub record Metric : Type 0 where
  pub name : Bytes
  pub dimensions : List (Bytes × Bytes)
  pub value : ℤ

-- The metrics so far, and the errors.
abbrev pub Measured : Type 0
Measured = List Metric × List Error

abbrev pub used_space : Bytes → ℤ → Metric
used_space pool pct = record {
  name = codes "PoolUsedSpacePercent";
  dimensions = (codes "pool", pool) ∷ [];
  value = pct;
}

abbrev pub has_broken_pool : ℕ → Metric
has_broken_pool n = record { name = codes "HasBrokenPool"; dimensions = []; value = pos n }

unfoldable pub count_broken : Bytes → ℕ → ℕ
unfolding text_eq
count_broken health broken = if text_eq health (codes "ONLINE") then broken else suc broken

-- The metric of a pool in front of those of the pools behind it. A capacity that is not a number
-- ends the loop.
unfoldable pub pool_metric : Bytes → Bytes → Option ℤ → Measured → Measured
unfolding text_eq
pool_metric name capacity pct rest =
    let measured : Measured = elim pct [
      | none ↦ ([], bad_capacity ∷ [])
      | some n ↦ (used_space name n ∷ rest.0, rest.1)
    ] in
    if text_eq capacity (codes "-") then rest else measured

-- The loop over the pools, and the counter behind it.
unfoldable pub pool_metrics : List (List Bytes) → ℕ → Measured
unfolding count_broken pool_metric parse_int
pool_metrics [] broken = (has_broken_pool broken ∷ [], [])
pool_metrics ((name ∷ capacity ∷ health ∷ []) ∷ rows) broken =
    pool_metric name capacity (parse_int capacity) (pool_metrics rows (count_broken health broken))
pool_metrics (_ ∷ rows) broken = ([], bad_output ∷ [])

-- The time of the newest snapshot, 0 where there is none.
unfoldable pub last_time : List (List Bytes) → Result ℤ
unfolding parse_int
last_time [] = ok (pos 0)
last_time ([] ∷ rows) = err bad_output
last_time ((creation ∷ _) ∷ rows) = elim (parse_int creation) [
  | none ↦ err bad_timestamp
  | some t ↦ ok t
]

abbrev pub snap_metrics : ℤ → Bytes → ℤ → List Metric
snap_metrics now fs t =
    record {
      name = codes "LastSnapAge";
      dimensions = (codes "fs", fs) ∷ [];
      value = wrap_i64 (now -ℤ t);
    }
    ∷ record { name = codes "LastSnapTimestamp"; dimensions = (codes "fs", fs) ∷ []; value = t }
    ∷ []

unfoldable pub snap_measured : ℤ → Bytes → Result (List (List Bytes)) → Measured
unfolding last_time wrap_i64 ◌-ℤ◌
snap_measured now fs (err e) = ([], e ∷ [])
snap_measured now fs (ok rows) = elim (last_time rows) [
  | err e ↦ ([], e ∷ [])
  | ok t ↦ (snap_metrics now fs t, [])
]

abbrev pub join_measured : Measured → Measured → Measured
join_measured (ms, es) (ns, ds) = (ms ++ ns, es ++ ds)

-- `clock` is the time on the machine, in seconds.
module _ (H : Host) (decode : Bytes → Option Json) (clock : H.State → ℤ) where
  -- `zpoolMetrics`
  unfoldable pub zpool_metrics : H.State → Measured × H.State
  unfolding zpool_list pool_metrics
  zpool_metrics s =
      let (r, s') = zpool_list H decode (codes "name" ∷ codes "capacity" ∷ codes "health" ∷ []) s in
      elim r [ err e ↦ (([], e ∷ []), s') | ok rows ↦ (pool_metrics rows 0, s') ]

  -- `lastSnapMetricsOneFS`
  unfoldable pub last_snap_metrics_one_fs : Bytes → H.State → Measured × H.State
  unfolding zfs_list snap_measured
  last_snap_metrics_one_fs fs s =
      let (r, s') =
        zfs_list H decode (codes "creation" ∷ []) (codes "snapshot") fs
          (codes "-r" ∷ codes "-d1" ∷ codes "-S" ∷ codes "createtxg" ∷ []) s in
      (snap_measured (clock s') fs r, s')

  -- The loop over the file systems.
  unfoldable pub measure_each : List Bytes → H.State → Measured × H.State
  unfolding last_snap_metrics_one_fs
  measure_each [] s = (([], []), s)
  measure_each (fs ∷ fss) s =
      let (m, s') = last_snap_metrics_one_fs fs s in
      let (n, s'') = measure_each fss s' in (join_measured m n, s'')

  -- `lastSnapMetrics`
  unfoldable pub last_snap_metrics : List Bytes → List Bytes → H.State → Measured × H.State
  unfolding expand_fs_to_process measure_each
  last_snap_metrics include exclude s =
      let ((fss, es), s') = expand_fs_to_process H decode include exclude s in
      let (m, s'') = measure_each fss s' in (join_measured ([], es) m, s'')
