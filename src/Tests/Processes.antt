-- ===== src/Tests/Processes.antt =====
-- The process of the sender, and all modules with goroutines.
use zfsbackup.Names.{fs_name}
use zfsbackup.Base.{
  contains, is_empty, if◌then◌else◌, compact, sort_texts, text_eq, ℕ, suc, ◌≡◌, refl, List, [],
  Bytes, codes, arith, Error, pos, none, some, true, false, Option,
}
use zfsbackup.Config.{SenderConfig}
use zfsbackup.Exec.{Host}
use zfsbackup.Zfs.Json.{Json, object, no_more, member}
use zfsbackup.Workers.{
  turn_command, turn_succeed, turn_release, turn_done, here, acquire, spawn, turn, stop, next,
  started, Divided, at_once,
}
use zfsbackup.Run.{Machine, run_snapshot, run_monitor, run_all}
use zfsbackup.Run.Parallel.{Shares, Deletes, Sends, RunsAll, RunsAll-sequential}
use zfsbackup.Commands.Start.{Given, Setup, Exits, exit_status, sender_main}
use zfsbackup.Commands.Exits.{IsDone, sender_main_zero}
use zfsbackup.Sender.Job as SenderJob
use zfsbackup.Sender.Parallel as SenderParallel
use zfsbackup.Deleter.Job as DeleterJob
use zfsbackup.Deleter.Parallel as DeleterParallel
use zfsbackup.Tests.Parallel.{tree, codec, tools, job}

-- A machine that lists `t` without snapshots or bookmarks.
abbrev empty : Host
empty = record {
  State = ℕ;
  output =
      λ name args n. (some (if contains args (codes "filesystem") then [] else codes "x"), suc n);
}

abbrev lone : Bytes → Option Json
lone out =
    if is_empty out
    then tree out
    else some (object (member (codes "datasets") (object no_more) no_more))

abbrev quiet : Machine
quiet = record {
  host = empty;
  decode = lone;
  codec = codec;
  link = record { feed = λ name args text n. (some [], suc n); pipe = λ ps n. (true, suc n) };
  tools = tools;
  files = record {
    create_temp = λ path n. (some path, n);
    make_readable = λ path n. (true, n);
    write = λ path text n. (true, n);
    close = λ path n. (true, n);
    rename = λ from to n. (true, n);
    discard = λ path n. n;
  };
  clock = λ n. pos n;
  format = λ n layout. layout;
}

abbrev setup : Setup ℕ
setup = record {
  open_file = λ path n. (true, suc n);
  lock_file = λ path n. (true, suc n);
  decode_config = λ path n. (some job, suc n);
}

abbrev given : Given
given = record {
  args = [];
  config = some (codes "/etc/job.json");
  dry_run = none;
  parallelism = some (pos 2);
  limit_fs = some (codes "t");
}

quiet_divided :
    (sc : SenderConfig)
    → Divided
        (SenderJob.process_filesystem quiet.host quiet.decode quiet.codec quiet.link quiet.tools sc)
quiet_divided sc = at_once _

sender_exits : (n : ℕ) × Exits (sender_main quiet setup quiet_divided given 0) 0 n
unfolding sender_main SenderParallel.launch SenderJob.process_filesystem quiet_divided at_once
    started SenderJob.limited compact sort_texts text_eq fs_name exit_status
sender_exits = (
  _,
  (
    [],
    (
      _,
      _,
      next (acquire (codes "t") [] refl (omega arith)) (
          next (spawn (codes "t") [] refl) (
            next (turn (here turn_command)) (
              next (turn (here turn_succeed)) (
                next (turn (here (turn_release (omega arith))))
                  (next (turn (here (turn_done (omega arith)))) stop))))),
      (refl, refl),
      refl,
      refl,
    ),
    refl,
  ),
)

sender_main_zero_example : IsDone quiet setup quiet_divided given 0 sender_exits.0
sender_main_zero_example =
    sender_main_zero quiet setup quiet_divided given 0 sender_exits.0 sender_exits.1

shares : Shares quiet
shares = record {
  deleting = λ dc p dry_run. at_once (DeleterJob.delete_in empty lone tools dc p dry_run);
  sending = quiet_divided;
}

all_run :
    (out : Bytes) × (es : List Error) × (n : ℕ) × RunsAll quiet shares job (pos 1) false 0 out es n
unfolding shares Deletes Sends DeleterParallel.launch DeleterJob.delete_in SenderParallel.launch
    SenderJob.process_filesystem quiet_divided at_once started SenderJob.limited compact sort_texts
    text_eq fs_name run_snapshot run_monitor
all_run = (
  [],
  [],
  _,
  record {
    between = _;
    behind = _;
    ds = [];
    fs = [];
    deletes = (
      _,
      _,
      next (acquire (codes "t") [] refl (omega arith)) (
          next (spawn (codes "t") [] refl) (
            next (turn (here turn_command)) (
              next (turn (here turn_succeed)) (
                next (turn (here (turn_release (omega arith))))
                  (next (turn (here (turn_done (omega arith)))) stop))))),
      (refl, refl),
      refl,
      refl,
    );
    sends = (
      _,
      _,
      next (acquire (codes "t") [] refl (omega arith)) (
          next (spawn (codes "t") [] refl) (
            next (turn (here turn_command)) (
              next (turn (here turn_succeed)) (
                next (turn (here (turn_release (omega arith))))
                  (next (turn (here (turn_done (omega arith)))) stop))))),
      (refl, refl),
      refl,
      refl,
    );
    printed = refl;
    joined = refl;
    ended = refl;
  },
)

RunsAll-sequential_example : run_all quiet job false 0 ≡ ((all_run.0, all_run.1), all_run.2)
RunsAll-sequential_example = RunsAll-sequential quiet shares job false 0 all_run.3
