-- ===== src/Tests/Exchange.antt =====
-- A sender and a receiver that listens to it.
use zfsbackup.Base.{
  ℕ, suc, ◌≡◌, ◌==◌, refl, ap, Bool, true, false, Option, none, some, List, [], ◌∷◌, ◌++◌, Bytes,
  codes, is_empty, contains, text_eq, length, take, drop, if◌then◌else◌, ok,
}
use zfsbackup.Config.{ReceiverConfig, IncrementalSuggestions, DestinationConfig}
use zfsbackup.Exec.{Host}
use zfsbackup.Wire.{Codec, Link}
use zfsbackup.Zfs.Json.{Json, text, object, no_more, member}
use zfsbackup.Names.{is_valid_zfs_dataset, fs_name}
use zfsbackup.Receiver.Serve.{serve}
use zfsbackup.Sender.Plan.{FsProcessor, Plan, fetch_plan, build_receiver_cmd, receiver_args}
use zfsbackup.Sender.Round.{get_next_and_send}
use zfsbackup.Exchange.{Remote, asking}
use zfsbackup.Exchange.Sent.{IsAllowed, get_next_and_send-IsAllowed}

-- A message as its lengths and its texts.
abbrev flag : Bool → ℕ
flag true = 1
flag false = 0

abbrev write : IncrementalSuggestions → Bytes
write m =
    flag m.send_full
      ∷ flag m.force_overwrite
      ∷ length m.resume_token
      ∷ length m.last_snapshot
      ∷ m.resume_token
    ++ (m.last_snapshot ++ m.guid)

abbrev read : Bytes → Option IncrementalSuggestions
read (full ∷ force ∷ n ∷ k ∷ texts) = some (record {
  send_full = full == 1;
  resume_token = take n texts;
  last_snapshot = take k (drop n texts);
  guid = drop k (drop n texts);
  force_overwrite = force == 1;
})
read _ = none

take_front : (xs ys : Bytes) → take (length xs) (xs ++ ys) ≡ xs
take_front [] ys = refl
take_front (x ∷ xs) ys = ap (λ l. x ∷ l) (take_front xs ys)

drop_front : (xs ys : Bytes) → drop (length xs) (xs ++ ys) ≡ ys
drop_front [] ys = refl
drop_front (x ∷ xs) ys = drop_front xs ys

flag_back : (b : Bool) → (flag b == 1) ≡ b
flag_back true = refl
flag_back false = refl

read_back : (m : IncrementalSuggestions) → read (write m) ≡ some m
read_back m =
    rw
      (
        flag_back m.send_full,
        flag_back m.force_overwrite,
        take_front m.resume_token (m.last_snapshot ++ m.guid),
        drop_front m.resume_token (m.last_snapshot ++ m.guid),
        take_front m.last_snapshot m.guid,
        drop_front m.last_snapshot m.guid,
      )
      refl

abbrev codec : Codec
codec = record {
  suggestions_text = write;
  read_suggestions = read;
  placeholders_text = λ m. [];
  read_placeholders = λ b. none;
}

-- The output of a listing stands for the name of what it lists: the last argument, and the snapshot
-- `a` of it where snapshots are asked for.
last_of : List Bytes → Bytes
last_of [] = []
last_of (a ∷ []) = a
last_of (a ∷ b ∷ args) = last_of (b ∷ args)

listed_by : List Bytes → Bytes
listed_by args =
    if contains args (codes "snapshot") then last_of args ++ codes "@a" else last_of args

-- The backup host, where the destination has the snapshot `a` and nothing to resume.
abbrev backup : Host
backup = record { State = ℕ; output = λ name args n. (some (listed_by args), suc n) }

abbrev shown : Bytes → Option Json
shown out = some (
    object (
      member (codes "datasets")
        (object (
          member out
            (object (
              member (codes "receive_resume_token") (text (codes "-")) (
                member (codes "guid") (text (codes "1"))
                  (member (codes "createtxg") (text (codes "7")) no_more))))
            no_more))
        no_more))

abbrev backup_link : Link backup
backup_link = record { feed = λ name args text n. (none, n); pipe = λ ps n. (true, n) }

abbrev receiver : ReceiverConfig
receiver = record {
  base_dataset = codes "b";
  enforce_local_properties = [];
  mbuffer_args = [];
  disable_mount = none;
  resumable = none;
  force_overwrite_datasets = [];
}

-- The machine of the sender: a command of three arguments runs the receiver.
run_there : List Bytes → ℕ → Option Bytes × ℕ
run_there (there ∷ op ∷ dataset ∷ []) n =
    let ((out, es), r) =
      serve backup shown codec backup_link receiver (asking (drop 10 dataset)) n in
    (if is_empty es then some out else none, r)
run_there _ n = (some [], suc n)

abbrev machine : Host
machine = record { State = ℕ; output = λ name args n. run_there args n }

abbrev link : Link machine
link = record { feed = λ name args text n. (some [], suc n); pipe = λ ps n. (true, suc n) }

abbrev to_host : DestinationConfig
to_host = record {
  receiver = codes "ssh host";
  compression = [];
  compression_level = none;
  raw_send = false;
  placeholders = [];
  sync_placeholders = [];
  mbuffer_args = [];
}

abbrev processor : FsProcessor
processor = record {
  fs = codes "t";
  job = record {
    include = [];
    exclude = [];
    name = [];
    snapshot_regex = [];
    send_intermediate = true;
    include_properties = none;
    resumable = none;
    destinations = to_host ∷ [];
  };
  dst = to_host;
  snap_re = λ name. true;
  sources =
      record { name = codes "t@a"; guid = codes "1" }
      ∷ record { name = codes "t@b"; guid = codes "2" }
      ∷ [];
  encrypted = false;
}

remote : Remote machine codec (codes "ssh host")
unfolding run_there build_receiver_cmd receiver_args listed_by last_of
remote = record {
  host = backup;
  decode = shown;
  link = backup_link;
  cfg = receiver;
  seen = λ n. n;
  left = λ r n. r;
  answers = λ fs s. refl;
  read_back = read_back;
}

-- The plan is fetched, and the snapshot `b` sent on `a`.
round_runs : get_next_and_send machine shown codec link processor 0 ≡ (ok false, 4)
unfolding get_next_and_send run_there listed_by last_of contains text_eq build_receiver_cmd serve
    is_valid_zfs_dataset fs_name
round_runs = refl

get_next_and_send-IsAllowed_example :
    (p : Plan) × (u : ℕ) × (fetch_plan machine shown codec processor 0 ≡ (ok p, u))
    × IsAllowed processor remote shown link u 4 false
get_next_and_send-IsAllowed_example =
    get_next_and_send-IsAllowed processor remote shown link 0 round_runs
