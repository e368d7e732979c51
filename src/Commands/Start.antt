-- ===== src/Commands/Start.antt =====
-- `main`, and `Main` of each module: the flags, `LoadConfig` of internal/zfs/exec.go, and the exit
-- status.
use zfsbackup.Base.{
  ℕ, ◌≡◌, Bool, true, false, Option, none, some, List, [], ◌∷◌, Bytes, codes, if◌then◌else◌, ℤ, pos,
  ltb_ℤ, is_empty, text_eq, Error, Result, ok, err, no_section, bad_parallelism,
  unexpected_arguments, no_config_flag, cannot_open, cannot_lock, cannot_parse,
}
use zfsbackup.Config.{Config, SenderConfig, DeleterConfig}
use zfsbackup.Names.{is_valid_zfs_dataset}
use zfsbackup.Exec.{Run, ◌>>=◌, ◌>>◌, lift}
use zfsbackup.Run.{Machine, Printed}
use zfsbackup.Run.Parallel.{Shares, RunsAll}
use zfsbackup.Workers.{Launched, Returns, Divided}
use zfsbackup.Snapshot.Take
use zfsbackup.Deleter.Policy.{Policy}
use zfsbackup.Deleter.Job.{delete_in}
use zfsbackup.Deleter.Parallel as DeleterParallel
use zfsbackup.Sender.Job.{process_filesystem}
use zfsbackup.Sender.Parallel as SenderParallel
use zfsbackup.Monitor.Job as MonitorJob

-- What the first argument asks for.
pub data Command : Type 0 where
  help_command version_command run_command receiver_command sender_command : Command
  deleter_command snapshot_command monitor_command unknown_command : Command

unfoldable pub any_text : Bytes → List Bytes → Bool
unfolding text_eq
any_text name [] = false
any_text name (n ∷ ns) = let rest = any_text name ns in if text_eq name n then true else rest

-- `main`, for the arguments behind the name of the program: help where there are none.
unfoldable pub command_of : List Bytes → Command
unfolding any_text text_eq
command_of [] = help_command
command_of (name ∷ args) =
    if any_text name (codes "--help" ∷ codes "-h" ∷ codes "help" ∷ [])
    then help_command
    else if any_text name (codes "--version" ∷ codes "-V" ∷ codes "version" ∷ [])
    then version_command
    else if text_eq name (codes "run")
    then run_command
    else if text_eq name (codes "receiver")
    then receiver_command
    else if text_eq name (codes "sender")
    then sender_command
    else if text_eq name (codes "deleter")
    then deleter_command
    else if text_eq name (codes "snapshot")
    then snapshot_command
    else if text_eq name (codes "monitor")
    then monitor_command
    else unknown_command

-- The flags that are given, and the other arguments: what `Parse` leaves.
pub record Given : Type 0 where
  pub args : List Bytes
  pub config : Option Bytes
  pub dry_run : Option Bool
  pub parallelism : Option ℤ
  pub limit_fs : Option Bytes

-- A flag, or its default.
unfoldable pub flag : {A : Type 0} → Option A → A → A
flag none default = default
flag (some a) default = a

-- The calls of `LoadConfig`, on the path of the file: `os.Open`, `syscall.Flock` and `DecodeConfig`.
pub record Setup (S : Type 0) : Type 0 where
  pub open_file : Bytes → S → Bool × S
  pub lock_file : Bytes → S → Bool × S
  pub decode_config : Bytes → S → Option Config × S

unfoldable pub require : Error → Bool → Result (Unit {0})
require e true = ok tt
require e false = err e

unfoldable pub require_some : {A : Type 0} → Error → Option A → Result A
require_some e none = err e
require_some e (some a) = ok a

module _ {S : Type 0} (U : Setup S) where
  -- `LoadConfig`
  unfoldable pub load_config : Bytes → Run S Config
  unfolding require require_some
  load_config path s =
      let (opened, s1) = U.open_file path s in
      let (locked, s2) = U.lock_file path s1 in
      let (cfg, s3) = U.decode_config path s2 in
      if opened
      then if locked then (require_some cannot_parse cfg, s3) else (err cannot_lock, s2)
      else (err cannot_open, s1)

  -- What every `Main` does first, but the receiver's.
  unfoldable pub begin : Given → Run S Config
  unfolding require flag load_config
  begin g = lift (require unexpected_arguments (is_empty g.args)) >> load_config (flag g.config [])

-- The test of `limitFs`
unfoldable pub check_limit : Bytes → Result (Unit {0})
unfolding is_valid_zfs_dataset
check_limit limit_fs = if is_empty limit_fs then ok tt else is_valid_zfs_dataset limit_fs

-- `zfs.Fatal` exits with 1, also where `Run` returns errors.
unfoldable pub exit_status : List Error → ℕ
exit_status [] = 0
exit_status (e ∷ es) = 1

-- A process ends with this status and leaves this machine.
abbrev pub Exits : {S : Type 0} → Result (Launched S) × S → ℕ → S → Type 0
Exits (err e, s) n s' = (n ≡ 1) × (s ≡ s')
Exits (ok l, s) n s' = (es : List Error) × Returns l es s' × (n ≡ exit_status es)

module _ (M : Machine) (U : Setup M.host.State) where
  -- `Main` of the sender
  unfoldable pub sender_main :
      ((sc : SenderConfig) → Divided (process_filesystem M.host M.decode M.codec M.link M.tools sc))
      → Given
      → Run M.host.State (Launched M.host.State)
  unfolding begin require_some check_limit flag SenderParallel.launch
  sender_main divided g = begin U g >>= λ cfg. lift (require_some no_section cfg.sender) >>= λ _.
      lift (check_limit (flag g.limit_fs [])) >> λ s. (
        ok (
            SenderParallel.launch M.host M.decode M.codec M.link M.tools divided cfg
              (flag g.parallelism (pos 1)) (flag g.limit_fs []) s),
        s,
      )

  -- `Main` of the deleter, which is dry by default
  unfoldable pub deleter_main :
      ((dc : DeleterConfig) (p : Policy) (dry_run : Bool)
        → Divided (delete_in M.host M.decode M.tools dc p dry_run))
      → Given
      → Run M.host.State (Launched M.host.State)
  unfolding begin require_some flag DeleterParallel.launch
  deleter_main divided g = begin U g >>= λ cfg.
      lift (require_some no_section cfg.deleter) >>= λ _ s. (
        ok (
            DeleterParallel.launch M.host M.decode M.tools divided cfg (flag g.parallelism (pos 1))
              (flag g.dry_run true) s),
        s,
      )

  -- `Main` of the snapshot module: the errors.
  unfoldable pub snapshot_main : Given → Run M.host.State (List Error)
  unfolding begin require_some flag Take.run
  snapshot_main g = begin U g >>= λ cfg. lift (require_some no_section cfg.snapshot) >>= λ _ s.
      let (es, s') =
        Take.run M.host M.decode (M.format s) (M.clock s) cfg (flag g.dry_run false) s in
      (ok es, s')

  -- `Main` of the monitor: the standard output and the errors.
  unfoldable pub monitor_main : Given → Run M.host.State Printed
  unfolding begin require_some MonitorJob.run
  monitor_main g = begin U g >>= λ cfg. lift (require_some no_section cfg.monitor) >>= λ _ s.
      let (p, s') = MonitorJob.run M.host M.decode M.clock M.files cfg s in (ok p, s')

  -- `runMain`, up to the modules
  unfoldable pub run_main : Given → Run M.host.State Config
  unfolding require flag load_config
  run_main g =
      lift (require unexpected_arguments (is_empty g.args))
      >> lift (if is_empty (flag g.config []) then err no_config_flag else ok tt)
      >> lift (if ltb_ℤ (flag g.parallelism (pos 1)) (pos 1) then err bad_parallelism else ok tt)
      >> load_config U (flag g.config [])

  -- The process of `run` ends with this status, has printed this and leaves this machine.
  unfoldable pub RunExits :
      Shares M → Given → Result Config × M.host.State → ℕ → Bytes → M.host.State → Type 0
  unfolding flag exit_status
  RunExits D g (err e, s) n out s' = (n ≡ 1) × (out ≡ []) × (s ≡ s')
  RunExits D g (ok cfg, s) n out s' =
      (es : List Error) × RunsAll M D cfg (flag g.parallelism (pos 1)) (flag g.dry_run false) s out
        es s'
      × (n ≡ exit_status es)
