-- ===== src/Tests/Parallel.antt =====
-- The sender and the deleter with goroutines.
use zfsbackup.Names.{fs_name}
use zfsbackup.Base.{
  compact, sort_texts, text_eq, ℕ, suc, refl, List, [], ◌∷◌, Bytes, codes, arith, Error, pos,
  negsuc, none, some, true, false, Option, Bool,
}
use zfsbackup.Config.{Config, SenderConfig, DestinationConfig, DeleterConfig}
use zfsbackup.Exec.{Host}
use zfsbackup.Wire.{Codec, Link, Tools}
use zfsbackup.Zfs.Json.{Json, object, no_more, member}
use zfsbackup.Workers.{
  turn_command, turn_fail, turn_lock, turn_read, turn_write, turn_unlock, turn_release, turn_done,
  here, acquire, spawn, turn, stop, next, started, Divided, at_once, Launched, Returns,
}
use zfsbackup.Workers.Ending.{Terminates}
use zfsbackup.Deleter.Policy.{Policy}
use zfsbackup.Sender.Job as SenderJob
use zfsbackup.Sender.Parallel as SenderParallel
use zfsbackup.Deleter.Job as DeleterJob
use zfsbackup.Deleter.Parallel as DeleterParallel

-- Every command prints the same, and is counted.
abbrev machine : Host
machine = record { State = ℕ; output = λ name args n. (some [], suc n) }

-- Every listing shows one dataset, without properties.
abbrev pub tree : Bytes → Option Json
tree out = some (
    object
      (member (codes "datasets") (object (member (codes "t") (object no_more) no_more)) no_more))

abbrev pub codec : Codec
codec = record {
  suggestions_text = λ m. [];
  read_suggestions = λ b. none;
  placeholders_text = λ m. [];
  read_placeholders = λ b. none;
}

abbrev link : Link machine
link = record { feed = λ name args text n. (none, suc n); pipe = λ ps n. (true, suc n) }

abbrev pub tools : Tools
tools = record { matches = λ r s. true; compiles = λ r. true; mbuffer_present = false }

abbrev to_host : DestinationConfig
to_host = record {
  receiver = codes "host";
  compression = [];
  compression_level = none;
  raw_send = false;
  placeholders = codes "p" ∷ [];
  sync_placeholders = [];
  mbuffer_args = [];
}

abbrev pub job : Config
job = record {
  include = codes "t" ∷ [];
  exclude = [];
  snapshot = none;
  sender = some (record {
    include = [];
    exclude = [];
    name = [];
    snapshot_regex = codes ".*";
    send_intermediate = false;
    include_properties = none;
    resumable = none;
    destinations = to_host ∷ [];
  });
  deleter = some (record {
    include = [];
    exclude = [];
    regex = codes ".*" ∷ [];
    preserve_top_n = pos 1;
    preserve_newer_than = [];
    rules = [];
  });
  monitor = none;
}

sender_divided :
    (sc : SenderConfig) → Divided (SenderJob.process_filesystem machine tree codec link tools sc)
sender_divided sc = at_once (SenderJob.process_filesystem machine tree codec link tools sc)

deleter_divided :
    (dc : DeleterConfig) (p : Policy) (dry_run : Bool)
    → Divided (DeleterJob.delete_in machine tree tools dc p dry_run)
deleter_divided dc p dry_run = at_once (DeleterJob.delete_in machine tree tools dc p dry_run)

abbrev launch_sender : Launched ℕ
launch_sender =
    SenderParallel.launch machine tree codec link tools sender_divided job (negsuc 3) [] 0

-- The one file system ends with an error.
sender-Returns : (es : List Error) × (n : ℕ) × Returns launch_sender es n
unfolding SenderParallel.launch SenderJob.process_filesystem sender_divided at_once started
    SenderJob.limited compact sort_texts text_eq fs_name
sender-Returns = (
  _,
  _,
  (
    _,
    _,
    next (acquire (codes "t") [] refl (omega arith)) (
        next (spawn (codes "t") [] refl) (
          next (turn (here turn_command)) (
            next (turn (here turn_fail)) (
              next (turn (here (turn_lock refl))) (
                next (turn (here turn_read)) (
                  next (turn (here turn_write)) (
                    next (turn (here (turn_unlock refl))) (
                      next (turn (here (turn_release (omega arith))))
                        (next (turn (here (turn_done (omega arith)))) stop))))))))),
    (refl, refl),
    refl,
    refl,
  ),
)

launch-Terminates_example : Terminates launch_sender
launch-Terminates_example =
    SenderParallel.launch-Terminates machine tree codec link tools sender_divided job (negsuc 3) []
      0

deleter-Terminates_example :
    Terminates (DeleterParallel.launch machine tree tools deleter_divided job (pos 2) false 0)
deleter-Terminates_example =
    DeleterParallel.deleter-Terminates machine tree tools deleter_divided job (pos 2) false 0
