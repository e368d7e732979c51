-- ===== src/Run/Dry.antt =====
-- What a dry run leaves as it is.
use zfsbackup.Base.{◌≡◌, refl, Error, [], pos, none, some, true, Option, List}
use zfsbackup.Config.{Config, SnapshotConfig, DeleterConfig}
use zfsbackup.Snapshot.Take
use zfsbackup.Deleter.Job as DeleterJob
use zfsbackup.Run.{Machine, run_snapshot, run_deleter, run_sender, run_monitor, run_all}
use zfsbackup.Run.Quiet.{Keeps, IsReadOnly}
use zfsbackup.Run.Preview.{run_with-Keeps, run_section-Keeps}

module _ (M : Machine) (R : IsReadOnly M.host) (cfg : Config) where
  snapshot-Keeps : Keeps (run_snapshot M cfg true)
  unfolding run_snapshot Take.run
  snapshot-Keeps s = go cfg.snapshot refl
    where
      go : (c : Option SnapshotConfig) → cfg.snapshot ≡ c → (run_snapshot M cfg true s).1 ≡ s
      go none h = rw (run_snapshot, h) refl
      go (some sc) h =
          rw (run_snapshot, h, Take.run, h)
            (run_with-Keeps M.host R M.decode (M.format s) (M.clock s) cfg sc s)

  deleter-Keeps : Keeps (run_deleter M cfg true)
  unfolding run_deleter DeleterJob.run
  deleter-Keeps s = go cfg.deleter refl
    where
      go : (c : Option DeleterConfig) → cfg.deleter ≡ c → (run_deleter M cfg true s).1 ≡ s
      go none h = rw (run_deleter, h) refl
      go (some dc) h =
          rw (run_deleter, h, DeleterJob.run, h)
            (run_section-Keeps M.host R M.decode M.tools cfg dc (pos 1) s)

  sender-Keeps : (s : M.host.State) → run_sender M cfg true s ≡ ([], s)
  unfolding run_sender
  sender-Keeps s =
      elim cfg.sender
        as (λ c.
          (elim c as (λ _. List Error × M.host.State) [ none ↦ ([], s) | some _ ↦ ([], s) ])
          ≡ ([], s)) [ none ↦ refl | some sc ↦ refl ]

  -- On a machine on which listings and destroy with -n change nothing, a dry run of all modules
  -- leaves the machine as the monitor alone does from the same state, and prints what the monitor
  -- prints: nothing is snapshotted, deleted or sent, whatever fails.
  pub dry_run_unchanged :
      (s : M.host.State)
      → ((run_snapshot M cfg true s).1 ≡ s)
        × ((run_deleter M cfg true s).1 ≡ s)
        × (run_sender M cfg true s ≡ ([], s))
        × ((run_all M cfg true s).1 ≡ (run_monitor M cfg true s).1)
        × ((run_all M cfg true s).0.0 ≡ (run_monitor M cfg true s).0.0)
  unfolding run_all
  dry_run_unchanged s =
      let first = snapshot-Keeps s in
      let second = deleter-Keeps s in
      let third = sender-Keeps s in
      (
        first,
        second,
        third,
        rw (run_all, first, second, third) refl,
        rw (run_all, first, second, third) refl,
      )
