-- ===== src/Tests/Snapshot.antt =====
-- Snapshots of two pools, and file systems to skip.
use zfsbackup.Base.{
  ◌≡◌, refl, true, false, some, List, [], ◌∷◌, Bytes, codes, ok, any, map, contains, IsIncreasing,
  pos, ◌*◌,
}
use zfsbackup.Duration.{second}
use zfsbackup.Names.{pool_name}
use zfsbackup.Exec.{Host, run_each}
use zfsbackup.Snapshot.Skip.{cutoff, skip_from}
use zfsbackup.Snapshot.Take.{per_pool_args, snapshot_pools}
use zfsbackup.Snapshot.Pools.{kept, snapshot_together, snapshot_pools_plan}
use zfsbackup.Snapshot.Young.{is_recent, skip_from_recent}

abbrev journal : Host
journal = record { State = List (List Bytes); output = λ name args log. (some [], args ∷ log) }

abbrev file_systems : List Bytes
file_systems = codes "u/a" ∷ codes "t" ∷ codes "u" ∷ codes "t/b" ∷ []

abbrev skipped : List Bytes
skipped = codes "u" ∷ []

snapshot_pools_run :
    snapshot_pools journal false (per_pool_args (codes "s") skipped file_systems []) [] ≡ (
      [],
      (codes "snapshot" ∷ codes "u/a@s" ∷ [])
          ∷ (codes "snapshot" ∷ codes "t@s" ∷ codes "t/b@s" ∷ [])
          ∷ [],
    )
unfolding snapshot_pools per_pool_args
snapshot_pools_run = refl

snapshot_pools_plan_example :
    let m = per_pool_args (codes "s") skipped file_systems [] in
    (pools : List Bytes) × IsIncreasing pools
    × ((p : Bytes) → contains pools p ≡ contains (map pool_name (kept skipped file_systems)) p)
    × ((s : List (List Bytes))
        → snapshot_pools journal false m s
          ≡ run_each (snapshot_together journal (codes "s") (kept skipped file_systems)) pools s)
    × ((s : List (List Bytes)) → snapshot_pools journal true m s ≡ ([], s))
snapshot_pools_plan_example = snapshot_pools_plan journal (codes "s") skipped file_systems

abbrev creations : List (List Bytes)
creations =
    (codes "t@a" ∷ codes "50" ∷ [])
    ∷ (codes "t@b" ∷ codes "95" ∷ [])
    ∷ (codes "u@a" ∷ codes "60" ∷ [])
    ∷ []

skip_runs : skip_from (pos 100) (10 * second) creations ≡ ok (codes "t" ∷ [])
unfolding skip_from
skip_runs = refl

skip_from_recent_example :
    contains (codes "t" ∷ []) (codes "t")
    ≡ any (is_recent (cutoff (pos 100) (10 * second)) (codes "t")) creations
skip_from_recent_example = skip_from_recent (pos 100) (10 * second) creations skip_runs (codes "t")
