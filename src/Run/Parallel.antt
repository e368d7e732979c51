-- ===== src/Run/Parallel.antt =====
-- `runMain` with any parallelism: the modules in sequence, and in the deleter and the sender a
-- goroutine for each file system.
use mathlib.Core.Path.{ap₂}
use zfsbackup.Base.{
  ◌≡◌, refl, Bool, true, false, Option, none, some, List, [], ◌++◌, Bytes, ℤ, pos, Error,
}
use zfsbackup.Config.{Config, SenderConfig, DeleterConfig}
use zfsbackup.Workers.{Divided, Returns}
use zfsbackup.Deleter.Policy.{Policy}
use zfsbackup.Deleter.Job.{delete_in}
use zfsbackup.Deleter.Parallel as DeleterParallel
use zfsbackup.Sender.Job.{process_filesystem}
use zfsbackup.Sender.Parallel as SenderParallel
use zfsbackup.Run.{Machine, run_snapshot, run_deleter, run_sender, run_monitor, run_all}

-- How the work of the goroutines is divided into steps.
pub record Shares (M : Machine) : Type 1 where
  pub deleting :
      (dc : DeleterConfig) (p : Policy) (dry_run : Bool)
      → Divided (delete_in M.host M.decode M.tools dc p dry_run)
  pub sending :
      (sc : SenderConfig) → Divided (process_filesystem M.host M.decode M.codec M.link M.tools sc)

module _ (M : Machine) (D : Shares M) (cfg : Config) (parallelism : ℤ) (dry_run : Bool) where
  -- A module that does nothing.
  abbrev IsSkipped : M.host.State → List Error → M.host.State → Type 0
  IsSkipped s es s' = ([] ≡ es) × (s ≡ s')

  -- The deleter and the sender with some order of their steps, where they have a section.
  unfoldable pub Deletes : Option DeleterConfig → M.host.State → List Error → M.host.State → Type 0
  unfolding DeleterParallel.launch
  Deletes none s es s' = IsSkipped s es s'
  Deletes (some dc) s es s' =
      Returns (DeleterParallel.launch M.host M.decode M.tools D.deleting cfg parallelism dry_run s)
        es s'

  unfoldable pub Sends :
      Option SenderConfig → Bool → M.host.State → List Error → M.host.State → Type 0
  unfolding SenderParallel.launch
  Sends none dry s es s' = IsSkipped s es s'
  Sends (some sc) true s es s' = IsSkipped s es s'
  Sends (some sc) false s es s' =
      Returns
        (SenderParallel.launch M.host M.decode M.codec M.link M.tools D.sending cfg parallelism []
          s)
        es s'

  -- All modules, from a state to one, with what is printed and the errors.
  pub record RunsAll (s : M.host.State) (out : Bytes) (es : List Error) (s' : M.host.State)
      : Type 0 where
    pub between : M.host.State
    pub behind : M.host.State
    pub ds : List Error
    pub fs : List Error
    pub deletes : Deletes cfg.deleter (run_snapshot M cfg dry_run s).1 ds between
    pub sends : Sends cfg.sender dry_run between fs behind
    pub printed : (run_monitor M cfg dry_run behind).0.0 ≡ out
    pub joined :
        (run_snapshot M cfg dry_run s).0 ++ ds ++ fs ++ (run_monitor M cfg dry_run behind).0.1 ≡ es
    pub ended : (run_monitor M cfg dry_run behind).1 ≡ s'

module _ (M : Machine) (D : Shares M) (cfg : Config) (dry_run : Bool) where
  Deletes-run_deleter :
      (s : M.host.State) {es : List Error} {s' : M.host.State}
      → Deletes M D cfg (pos 1) dry_run cfg.deleter s es s'
      → run_deleter M cfg dry_run s ≡ (es, s')
  unfolding Deletes run_deleter
  Deletes-run_deleter s {es} {s'} d = go cfg.deleter refl d
    where
      go :
          (c : Option DeleterConfig)
          → cfg.deleter ≡ c
          → Deletes M D cfg (pos 1) dry_run c s es s'
          → run_deleter M cfg dry_run s ≡ (es, s')
      go none h q = rw (run_deleter, h) (ap₂ (λ a b. (a, b)) q.0 q.1)
      go (some dc) h q =
          rw (run_deleter, h)
            (DeleterParallel.deleter-sequential M.host M.decode M.tools D.deleting cfg dry_run s q)

  Sends-run_sender :
      (s : M.host.State) {es : List Error} {s' : M.host.State}
      → Sends M D cfg (pos 1) dry_run cfg.sender dry_run s es s'
      → run_sender M cfg dry_run s ≡ (es, s')
  unfolding Sends run_sender
  Sends-run_sender s {es} {s'} d = go cfg.sender dry_run refl refl d
    where
      go :
          (c : Option SenderConfig) (dry : Bool)
          → cfg.sender ≡ c
          → dry_run ≡ dry
          → Sends M D cfg (pos 1) dry_run c dry s es s'
          → run_sender M cfg dry_run s ≡ (es, s')
      go none dry h k q = rw (run_sender, h) (ap₂ (λ a b. (a, b)) q.0 q.1)
      go (some sc) true h k q = rw (run_sender, h, k) (ap₂ (λ a b. (a, b)) q.0 q.1)
      go (some sc) false h k q =
          rw (run_sender, h, k)
            (SenderParallel.launch-sequential M.host M.decode M.codec M.link M.tools D.sending cfg
              (pos 1) [] s refl q)

  -- With a parallelism of 1, whatever the order of the steps, all modules do what they do one file
  -- system at a time: they print the same, return the same errors in the same order and leave the
  -- same machine.
  pub RunsAll-sequential :
      (s : M.host.State) {out : Bytes} {es : List Error} {s' : M.host.State}
      → RunsAll M D cfg (pos 1) dry_run s out es s'
      → run_all M cfg dry_run s ≡ ((out, es), s')
  unfolding run_all
  RunsAll-sequential s r =
      let deleted = Deletes-run_deleter (run_snapshot M cfg dry_run s).1 r.deletes in
      let sent = Sends-run_sender r.between r.sends in
      rw (run_all, deleted, sent)
        (ap₂ (λ a b. (a, b)) (ap₂ (λ a b. (a, b)) r.printed r.joined) r.ended)
