-- ===== src/Deleter/Parallel.antt =====
-- `Run` of the deleter with any parallelism: a goroutine for each file system, with its own copy of
-- the processor.
use mathlib.Core.Path.{ap₂}
use zfsbackup.Base.{
  ◌≡◌, refl, Bool, false, Option, none, some, List, [], ◌∷◌, Bytes, Error, ok, err, no_section,
  bad_parallelism, Result, ℤ, pos, negsuc, ltb_ℤ, if◌then◌else◌, arith, Bool-cases, inl, inr,
}
use zfsbackup.Config.{Config, DeleterConfig, resolve_include, resolve_exclude}
use zfsbackup.Exec.{Host}
use zfsbackup.Wire.{Tools}
use zfsbackup.Zfs.Json.{Json}
use zfsbackup.Zfs.Expand.{expand_fs_to_process}
use zfsbackup.Workers.{Divided, Launched, refused, launched, Returns, capacity, started}
use zfsbackup.Workers.Ending.{Terminates, started-Ends}
use zfsbackup.Workers.Sequential.{Returns-sequential}
use zfsbackup.Deleter.Policy.{Policy}
use zfsbackup.Deleter.Job.{new_delete_fs_processor, delete_in, delete_with, run_section, run}

module _ (H : Host) (decode : Bytes → Option Json) (T : Tools)
    (divided : (dc : DeleterConfig) (p : Policy) (dry_run : Bool)
      → Divided (delete_in H decode T dc p dry_run)) where
  -- `Run` behind the processor, up to the loop
  unfoldable pub launch_with :
      Config → DeleterConfig → ℤ → Bool → Policy → H.State → Launched H.State
  unfolding resolve_include resolve_exclude expand_fs_to_process capacity started
  launch_with cfg dc parallelism dry_run p s =
      let include = resolve_include cfg dc.include in
      let exclude = resolve_exclude cfg dc.exclude in
      let ((fss, es), s') = expand_fs_to_process H decode include exclude s in
      launched (capacity parallelism) (divided dc p dry_run).job (started fss es s')

  unfoldable pub launch_section : Config → DeleterConfig → ℤ → Bool → H.State → Launched H.State
  unfolding new_delete_fs_processor launch_with
  launch_section cfg dc parallelism dry_run s =
      let ready : Launched H.State = elim (new_delete_fs_processor T.compiles dc) [
        | err e ↦ refused (e ∷ []) s
        | ok p ↦ launch_with cfg dc parallelism dry_run p s
      ] in
      if ltb_ℤ parallelism (pos 1) then refused (bad_parallelism ∷ []) s else ready

  unfoldable pub launch : Config → ℤ → Bool → H.State → Launched H.State
  unfolding launch_section
  launch cfg parallelism dry_run s = elim cfg.deleter [
    | none ↦ refused (no_section ∷ []) s
    | some dc ↦ launch_section cfg dc parallelism dry_run s
  ]

  launch_with-sequential :
      (cfg : Config) (dc : DeleterConfig) (dry_run : Bool) (p : Policy) (s : H.State)
      {es' : List Error} {s' : H.State}
      → Returns (launch_with cfg dc (pos 1) dry_run p s) es' s'
      → delete_with H decode T cfg dc dry_run p s ≡ (es', s')
  unfolding launch_with delete_with
  launch_with-sequential cfg dc dry_run p s r =
      let include = resolve_include cfg dc.include in
      let exclude = resolve_exclude cfg dc.exclude in
      let found = expand_fs_to_process H decode include exclude s in
      Returns-sequential (divided dc p dry_run) 1 found.0.0 found.0.1 found.1 refl r

  section-sequential :
      (cfg : Config) (dc : DeleterConfig) (dry_run : Bool) (s : H.State) (processor : Result Policy)
      {es' : List Error} {s' : H.State}
      → new_delete_fs_processor T.compiles dc ≡ processor
      → cfg.deleter ≡ some dc
      → Returns (launch cfg (pos 1) dry_run s) es' s'
      → run H decode T cfg (pos 1) dry_run s ≡ (es', s')
  unfolding launch launch_section run run_section
  section-sequential cfg dc dry_run s (err x) k h r =
      let q = rw (launch, h, k) at r in rw (run, h, k) (ap₂ (λ a b. (a, b)) q.0 q.1)
  section-sequential cfg dc dry_run s (ok p) k h r =
      rw (run, h, k) (launch_with-sequential cfg dc dry_run p s (rw (launch, h, k) at r))

  -- With a parallelism of 1, the errors that `Run` of the deleter returns and the machine that it
  -- leaves, whatever the order of the steps, are those of a loop that processes one file system
  -- after the other.
  pub deleter-sequential :
      (cfg : Config) (dry_run : Bool) (s : H.State) {es' : List Error} {s' : H.State}
      → Returns (launch cfg (pos 1) dry_run s) es' s'
      → run H decode T cfg (pos 1) dry_run s ≡ (es', s')
  unfolding launch run
  deleter-sequential cfg dry_run s {es'} {s'} r = go cfg.deleter refl
    where
      go :
          (c : Option DeleterConfig)
          → cfg.deleter ≡ c
          → run H decode T cfg (pos 1) dry_run s ≡ (es', s')
      go none h = let q = rw (launch, h) at r in rw (run, h) (ap₂ (λ a b. (a, b)) q.0 q.1)
      go (some dc) h = section-sequential cfg dc dry_run s _ refl h r

  launch_with-Terminates :
      (cfg : Config) (dc : DeleterConfig) (parallelism : ℤ) (dry_run : Bool) (p : Policy)
      (s : H.State)
      → ltb_ℤ parallelism (pos 1) ≡ false
      → Terminates (launch_with cfg dc parallelism dry_run p s)
  unfolding launch_with capacity
  launch_with-Terminates cfg dc (pos n) dry_run p s e =
      let include = resolve_include cfg dc.include in
      let exclude = resolve_exclude cfg dc.exclude in
      let found = expand_fs_to_process H decode include exclude s in
      started-Ends (divided dc p dry_run).job n (ground (arith, e)) found.0.0 found.0.1 found.1
  launch_with-Terminates cfg dc (negsuc n) dry_run p s e = absurd (ground (arith, e))

  section-Terminates :
      (cfg : Config) (dc : DeleterConfig) (parallelism : ℤ) (dry_run : Bool) (s : H.State)
      → Terminates (launch_section cfg dc parallelism dry_run s)
  unfolding launch_section
  section-Terminates cfg dc parallelism dry_run s = elim (Bool-cases (ltb_ℤ parallelism (pos 1))) [
    | inl e ↦ rw (launch_section, e) tt
    | inr e ↦ go (new_delete_fs_processor T.compiles dc) refl e
  ]
    where
      go :
          (r : Result Policy)
          → new_delete_fs_processor T.compiles dc ≡ r
          → ltb_ℤ parallelism (pos 1) ≡ false
          → Terminates (launch_section cfg dc parallelism dry_run s)
      go (err x) k e = rw (launch_section, e, k) tt
      go (ok p) k e =
          rw (launch_section, e, k) (launch_with-Terminates cfg dc parallelism dry_run p s e)

  -- `Run` of the deleter returns, whatever the configuration, the parallelism, what the goroutines do
  -- and the order of their steps: there are finitely many, and until `wg.Wait` returns something can
  -- go on.
  pub deleter-Terminates :
      (cfg : Config) (parallelism : ℤ) (dry_run : Bool) (s : H.State)
      → Terminates (launch cfg parallelism dry_run s)
  unfolding launch
  deleter-Terminates cfg parallelism dry_run s =
      elim cfg.deleter
        as (λ c. Terminates (elim c as (λ _. Launched H.State) [
          | none ↦ refused (no_section ∷ []) s
          | some dc ↦ launch_section cfg dc parallelism dry_run s
        ])) [ none ↦ tt | some dc ↦ section-Terminates cfg dc parallelism dry_run s ]
