-- ===== src/Sender/Parallel.antt =====
-- `Run` of the sender with any parallelism: a goroutine for each file system.
use mathlib.Core.Path.{ap₂}
use zfsbackup.Base.{
  Result, ◌≤◌, ◌≡◌, refl, false, Option, none, some, List, [], ◌∷◌, Bytes, Error, ok, err,
  no_section, ℤ, pos, negsuc, ltb_ℤ, if◌then◌else◌, arith,
}
use zfsbackup.Config.{Config, SenderConfig, resolve_include, resolve_exclude}
use zfsbackup.Exec.{Host}
use zfsbackup.Wire.{Codec, Link, Tools}
use zfsbackup.Zfs.Json.{Json}
use zfsbackup.Zfs.Expand.{expand_fs_to_process}
use zfsbackup.Workers.{Divided, Launched, refused, launched, Returns, capacity, started}
use zfsbackup.Workers.Ending.{Terminates, started-Ends}
use zfsbackup.Workers.Sequential.{Returns-sequential}
use zfsbackup.Sender.Defaults.{init_sender_defaults}
use zfsbackup.Sender.Job.{limited, process_filesystem, run, run_job}

-- The first lines of `Run` on its parallelism.
unfoldable pub at_least_one : ℤ → ℤ
at_least_one parallelism = if ltb_ℤ parallelism (pos 1) then pos 1 else parallelism

-- A parallelism below 1 counts as 1.
at_least_one-room : (parallelism : ℤ) → 1 ≤ capacity (at_least_one parallelism)
unfolding capacity at_least_one
at_least_one-room (pos n) = ground arith
at_least_one-room (negsuc n) = ground arith

at_least_one-single :
    (parallelism : ℤ) → ltb_ℤ (pos 1) parallelism ≡ false → capacity (at_least_one parallelism) ≡ 1
unfolding capacity at_least_one
at_least_one-single (pos n) e = ground (arith, e)
at_least_one-single (negsuc n) e = ground (arith, e)

module _ (H : Host) (decode : Bytes → Option Json) (C : Codec) (L : Link H) (T : Tools)
    (divided : (sc : SenderConfig) → Divided (process_filesystem H decode C L T sc)) where
  unfoldable pub launch_job : Config → SenderConfig → ℤ → Bytes → H.State → Launched H.State
  unfolding resolve_include resolve_exclude expand_fs_to_process limited capacity at_least_one
      started
  launch_job cfg sc parallelism limit_fs s =
      let include = resolve_include cfg sc.include in
      let exclude = resolve_exclude cfg sc.exclude in
      let ((fss, es), s') = expand_fs_to_process H decode include exclude s in
      launched (capacity (at_least_one parallelism)) (divided sc).job
        (started (limited limit_fs fss) es s')

  -- `Run`, up to the loop
  unfoldable pub launch : Config → ℤ → Bytes → H.State → Launched H.State
  unfolding init_sender_defaults launch_job
  launch cfg parallelism limit_fs s = elim cfg.sender [
    | none ↦ refused (no_section ∷ []) s
    | some sc ↦ elim (init_sender_defaults T.mbuffer_present T.compiles sc) [
      | err e ↦ refused (e ∷ []) s
      | ok sc' ↦ launch_job cfg sc' parallelism limit_fs s
    ]
  ]

  launch_job-sequential :
      (cfg : Config) (sc : SenderConfig) (limit_fs : Bytes) (s : H.State) (parallelism : ℤ)
      {es' : List Error} {s' : H.State}
      → ltb_ℤ (pos 1) parallelism ≡ false
      → Returns (launch_job cfg sc parallelism limit_fs s) es' s'
      → run_job H decode C L T cfg sc limit_fs s ≡ (es', s')
  unfolding launch_job run_job
  launch_job-sequential cfg sc limit_fs s parallelism e r =
      let include = resolve_include cfg sc.include in
      let exclude = resolve_exclude cfg sc.exclude in
      let found = expand_fs_to_process H decode include exclude s in
      Returns-sequential (divided sc) (capacity (at_least_one parallelism))
        (limited limit_fs found.0.0) found.0.1 found.1 (at_least_one-single parallelism e) r

  section-sequential :
      (cfg : Config) (sc : SenderConfig) (parallelism : ℤ) (limit_fs : Bytes) (s : H.State)
      (started : Result SenderConfig) {es' : List Error} {s' : H.State}
      → ltb_ℤ (pos 1) parallelism ≡ false
      → init_sender_defaults T.mbuffer_present T.compiles sc ≡ started
      → cfg.sender ≡ some sc
      → Returns (launch cfg parallelism limit_fs s) es' s'
      → run H decode C L T cfg limit_fs s ≡ (es', s')
  unfolding launch run
  section-sequential cfg sc parallelism limit_fs s (err x) e k h r =
      let q = rw (launch, h, k) at r in rw (run, h, k) (ap₂ (λ a b. (a, b)) q.0 q.1)
  section-sequential cfg sc parallelism limit_fs s (ok sc') e k h r =
      rw (run, h, k)
        (launch_job-sequential cfg sc' limit_fs s parallelism e (rw (launch, h, k) at r))

  -- With a parallelism of at most 1, the errors that `Run` returns and the machine that it leaves,
  -- whatever the order of the steps, are those of a loop that processes one file system after the
  -- other.
  pub launch-sequential :
      (cfg : Config) (parallelism : ℤ) (limit_fs : Bytes) (s : H.State) {es' : List Error}
      {s' : H.State}
      → ltb_ℤ (pos 1) parallelism ≡ false
      → Returns (launch cfg parallelism limit_fs s) es' s'
      → run H decode C L T cfg limit_fs s ≡ (es', s')
  unfolding launch run
  launch-sequential cfg parallelism limit_fs s {es'} {s'} e r = go cfg.sender refl
    where
      go :
          (c : Option SenderConfig) → cfg.sender ≡ c → run H decode C L T cfg limit_fs s ≡ (es', s')
      go none h = let q = rw (launch, h) at r in rw (run, h) (ap₂ (λ a b. (a, b)) q.0 q.1)
      go (some sc) h = section-sequential cfg sc parallelism limit_fs s _ e refl h r

  launch_job-Terminates :
      (cfg : Config) (sc : SenderConfig) (parallelism : ℤ) (limit_fs : Bytes) (s : H.State)
      → Terminates (launch_job cfg sc parallelism limit_fs s)
  unfolding launch_job
  launch_job-Terminates cfg sc parallelism limit_fs s =
      let include = resolve_include cfg sc.include in
      let exclude = resolve_exclude cfg sc.exclude in
      let found = expand_fs_to_process H decode include exclude s in
      started-Ends (divided sc).job (capacity (at_least_one parallelism))
        (at_least_one-room parallelism) (limited limit_fs found.0.0) found.0.1 found.1

  -- `Run` of the sender returns, whatever the configuration, the parallelism, what the goroutines do
  -- and the order of their steps: there are finitely many, and until `wg.Wait` returns something can
  -- go on.
  pub launch-Terminates :
      (cfg : Config) (parallelism : ℤ) (limit_fs : Bytes) (s : H.State)
      → Terminates (launch cfg parallelism limit_fs s)
  unfolding launch
  launch-Terminates cfg parallelism limit_fs s =
      elim cfg.sender
        as (λ c. Terminates (elim c as (λ _. Launched H.State) [
          | none ↦ refused (no_section ∷ []) s
          | some sc ↦
              elim (init_sender_defaults T.mbuffer_present T.compiles sc)
                as (λ _. Launched H.State) [
                  | err e ↦ refused (e ∷ []) s
                  | ok sc' ↦ launch_job cfg sc' parallelism limit_fs s
                ]
        ])) [
          | none ↦ tt
          | some sc ↦
              elim (init_sender_defaults T.mbuffer_present T.compiles sc)
                as (λ r. Terminates (elim r as (λ _. Launched H.State) [
                  | err e ↦ refused (e ∷ []) s
                  | ok sc' ↦ launch_job cfg sc' parallelism limit_fs s
                ])) [ err e ↦ tt | ok sc' ↦ launch_job-Terminates cfg sc' parallelism limit_fs s ]
        ]
