-- ===== src/Monitor/Publish.antt =====
-- `writePrometheusFile`. What it calls of the package os is a parameter.
use zfsbackup.Base.{Bool, true, false, Option, none, some, Bytes, ok, err, cannot_publish}
use zfsbackup.Exec.{Host, Act, ◌>>◌}

-- Files of the machine. `create_temp` makes a file with a new name beside a path; `discard` is the
-- deferred close and removal. The others tell whether they succeed.
pub record Files (H : Host) : Type 0 where
  pub create_temp : Bytes → H.State → Option Bytes × H.State
  pub make_readable : Bytes → H.State → Bool × H.State
  pub write : Bytes → Bytes → H.State → Bool × H.State
  pub close : Bytes → H.State → Bool × H.State
  pub rename : Bytes → Bytes → H.State → Bool × H.State
  pub discard : Bytes → H.State → H.State

module _ (H : Host) (F : Files H) where
  unfoldable pub try : (H.State → Bool × H.State) → Act H (Unit {0})
  try f s =
      let (done, s') = f s in elim done [ true ↦ (ok tt, s') | false ↦ (err cannot_publish, s') ]

  -- The steps on the temporary file, up to the first that fails.
  unfoldable pub fill_and_rename : Bytes → Bytes → Bytes → Act H (Unit {0})
  unfolding try
  fill_and_rename tmp path output =
      try (F.make_readable tmp)
      >> try (F.write tmp output)
      >> try (F.close tmp)
      >> try (F.rename tmp path)

  -- `writePrometheusFile`
  unfoldable pub write_prometheus_file : Bytes → Bytes → Act H (Unit {0})
  unfolding fill_and_rename
  write_prometheus_file path output s =
      let (made, s') = F.create_temp path s in
      elim made [
        | none ↦ (err cannot_publish, s')
        | some tmp ↦ let (r, s'') = fill_and_rename tmp path output s' in (r, F.discard tmp s'')
      ]
