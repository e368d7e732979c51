-- ===== src/Snapshot/Pools.antt =====
-- Which snapshots the commands of `Run` take.
use mathlib.Core.Path.{fun_ext}
use zfsbackup.Base.{
  sym, ◌≡◌, refl, ap, ◌∙◌, true, false, not, ◌||◌, List, [], ◌∷◌, ◌++◌, append-nil, append_assoc,
  Bytes, codes, map, arith, text_eq, contains, contains-sort_texts, keep_if, group_of, add_to_group,
  keys, group_of-add_to_group, contains-keys, add_to_group-IsDistinct, no_groups-IsDistinct,
  sort_texts, sort_texts-IsIncreasing, IsIncreasing, IsDistinct, Bool-cases, inl, inr, Error,
}
use zfsbackup.Names.{pool_name}
use zfsbackup.Exec.{errors_of, Host, zfs, run_each}
use zfsbackup.Snapshot.Take.{PerPool, snapshot_of, per_pool_args, snapshot_pool, snapshot_pools}

-- The file systems that are not skipped.
abbrev pub kept : List Bytes → List Bytes → List Bytes
kept skip = keep_if (λ fs. not (contains skip fs))

-- Those of them in a pool.
abbrev pub of_pool : Bytes → List Bytes → List Bytes
of_pool pool = keep_if (λ fs. text_eq (pool_name fs) pool)

module _ (snap_name : Bytes) (skip : List Bytes) where
  args_added :
      (p fs : Bytes) (fss : List Bytes) (m : PerPool)
      → group_of p (add_to_group (pool_name fs) (snapshot_of snap_name fs) m)
          ++ map (snapshot_of snap_name) (of_pool p (kept skip fss))
        ≡ group_of p m ++ map (snapshot_of snap_name) (of_pool p (fs ∷ kept skip fss))
  args_added p fs fss m = elim (Bool-cases (text_eq (pool_name fs) p)) [
    | inl e ↦
        rw (e, group_of-add_to_group p (pool_name fs) (snapshot_of snap_name fs) m)
          (rw e (append_assoc (group_of p m) (snapshot_of snap_name fs ∷ []) _))
    | inr e ↦
        rw (e, group_of-add_to_group p (pool_name fs) (snapshot_of snap_name fs) m) (rw e refl)
  ]

  group_of-per_pool_args :
      (p : Bytes) (fss : List Bytes) (m : PerPool)
      → group_of p (per_pool_args snap_name skip fss m)
        ≡ group_of p m ++ map (snapshot_of snap_name) (of_pool p (kept skip fss))
  unfolding per_pool_args
  group_of-per_pool_args p [] m = sym (append-nil _)
  group_of-per_pool_args p (fs ∷ fss) m = elim (Bool-cases (contains skip fs)) [
    | inl e ↦ rw e (group_of-per_pool_args p fss m)
    | inr e ↦ rw e (
        group_of-per_pool_args p fss (add_to_group (pool_name fs) (snapshot_of snap_name fs) m)
        ∙ args_added p fs fss m)
  ]

  contains-per_pool :
      (p : Bytes) (fss : List Bytes) (m : PerPool)
      → contains (keys (per_pool_args snap_name skip fss m)) p
        ≡ (contains (keys m) p || contains (map pool_name (kept skip fss)) p)
  unfolding per_pool_args contains
  contains-per_pool p [] m = ground arith
  contains-per_pool p (fs ∷ fss) m = ground (
    arith,
    contains-per_pool p fss m,
    contains-per_pool p fss (add_to_group (pool_name fs) (snapshot_of snap_name fs) m),
    contains-keys p (pool_name fs) (snapshot_of snap_name fs) m,
  )

  per_pool-IsDistinct :
      (fss : List Bytes) (m : PerPool)
      → IsDistinct (keys m)
      → IsDistinct (keys (per_pool_args snap_name skip fss m))
  unfolding per_pool_args
  per_pool-IsDistinct [] m h = h
  per_pool-IsDistinct (fs ∷ fss) m h = elim (Bool-cases (contains skip fs)) [
    | inl e ↦ rw e (per_pool-IsDistinct fss m h)
    | inr e ↦ rw e (
        per_pool-IsDistinct fss _
          (add_to_group-IsDistinct (pool_name fs) (snapshot_of snap_name fs) m h))
  ]

run_each-cong :
    {S A : Type 0} (f g : A → S → List Error × S) (xs : List A) (s : S)
    → ((x : A) (t : S) → f x t ≡ g x t)
    → run_each f xs s ≡ run_each g xs s
run_each-cong f g xs s h = ap (λ k. run_each k xs s) (fun_ext λ x. fun_ext λ t. h x t)

-- All snapshots of a pool in one command.
pub snapshot_together : (H : Host) → Bytes → List Bytes → Bytes → H.State → List Error × H.State
unfolding errors_of
snapshot_together H snap_name fss pool s =
    let (r, s') = zfs H (codes "snapshot" ∷ map (snapshot_of snap_name) (of_pool pool fss)) s in
    (errors_of r, s')

no_rounds :
    {S A : Type 0} (f : A → S → List Error × S) (xs : List A) (s : S)
    → ((x : A) (t : S) → f x t ≡ ([], t))
    → run_each f xs s ≡ ([], s)
unfolding run_each
no_rounds f [] s h = refl
no_rounds f (x ∷ xs) s h = rw (h x s) (no_rounds f xs s h)

same_command :
    (H : Host) (snap_name : Bytes) (skip fss : List Bytes) (p : Bytes) (s : H.State)
    → snapshot_pool H false (per_pool_args snap_name skip fss []) p s
      ≡ snapshot_together H snap_name (kept skip fss) p s
unfolding snapshot_pool snapshot_together group_of
same_command H snap_name skip fss p s =
    ap
      (λ args.
        (errors_of (zfs H (codes "snapshot" ∷ args) s).0, (zfs H (codes "snapshot" ∷ args) s).1))
      (group_of-per_pool_args snap_name skip p fss [])

dry_command :
    (H : Host) (m : PerPool) (p : Bytes) (s : H.State) → snapshot_pool H true m p s ≡ ([], s)
unfolding snapshot_pool
dry_command H m p s = refl

-- For a run that is not dry, `Run` goes through the pools of the file systems that are not skipped,
-- each once and in ascending order, whatever fails, and takes the snapshots of all of these file
-- systems in the pool, and of no other, in one command. A dry run takes none.
pub snapshot_pools_plan :
    (H : Host) (snap_name : Bytes) (skip fss : List Bytes)
    → let m = per_pool_args snap_name skip fss [] in
      (pools : List Bytes) × IsIncreasing pools
      × ((p : Bytes) → contains pools p ≡ contains (map pool_name (kept skip fss)) p)
      × ((s : H.State)
          → snapshot_pools H false m s
            ≡ run_each (snapshot_together H snap_name (kept skip fss)) pools s)
      × ((s : H.State) → snapshot_pools H true m s ≡ ([], s))
unfolding snapshot_pools keys contains
snapshot_pools_plan H snap_name skip fss =
    let m = per_pool_args snap_name skip fss [] in
    let pools = sort_texts (keys m) in
    (
      pools,
      sort_texts-IsIncreasing (keys m)
          (per_pool-IsDistinct snap_name skip fss [] (no_groups-IsDistinct Bytes)),
      λ p. contains-sort_texts (keys m) p ∙ contains-per_pool snap_name skip p fss [],
      λ s.
          run_each-cong (snapshot_pool H false m) (snapshot_together H snap_name (kept skip fss))
            pools s (same_command H snap_name skip fss),
      λ s. no_rounds (snapshot_pool H true m) pools s (dry_command H m),
    )
