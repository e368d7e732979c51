-- ===== src/Tests/Transfer.antt =====
-- A round of a sender whose pipe and receiver always succeed.
use zfsbackup.Base.{
  ℕ, suc, ◌≡◌, refl, Bool, true, false, Option, none, some, List, [], ◌∷◌, ◌++◌, Bytes, codes, ok,
  any, is_empty, split, bad_output,
}
use zfsbackup.Config.{DestinationConfig, SenderConfig, IncrementalSuggestions}
use zfsbackup.Names.{is_valid_zfs_dataset, fs_name}
use zfsbackup.Exec.{Host, zfs, is_encrypted}
use zfsbackup.Wire.{Codec, Link, Tools}
use zfsbackup.Sender.Job.{process_filesystem}
use zfsbackup.Sender.Isolated.{Turns, process_filesystem-Turns}
use zfsbackup.Zfs.Json.{Json}
use zfsbackup.Sender.Source.{Source, no_source, is_snapshot}
use zfsbackup.Sender.Plan.{FsProcessor}
use zfsbackup.Sender.Marks.{Guids}
use zfsbackup.Sender.Resume.{eligible, resume_snapshot, tail}
use zfsbackup.Sender.Resumed.{targets, is_same, resume_snapshot-eligible}
use zfsbackup.Sender.Round.{get_next_and_send, snaps_behind, process_filled}
use zfsbackup.Sender.Retry.{Retries, Ends, process_filled_rounds}

-- Every command prints the same, and is counted.
abbrev speaker : Bytes → Host
speaker text = record { State = ℕ; output = λ name args n. (some text, suc n) }

abbrev link : (text : Bytes) → Link (speaker text)
link text = record { feed = λ name args message n. (some [], suc n); pipe = λ ps n. (true, suc n) }

abbrev asks_for : Bool → IncrementalSuggestions
asks_for full = record {
  send_full = full;
  resume_token = [];
  last_snapshot = [];
  guid = [];
  force_overwrite = false;
}

abbrev codec : Bool → Codec
codec full = record {
  suggestions_text = λ m. [];
  read_suggestions = λ b. some (asks_for full);
  placeholders_text = λ m. [];
  read_placeholders = λ b. none;
}

abbrev to_host : DestinationConfig
to_host = record {
  receiver = codes "ssh host";
  compression = [];
  compression_level = none;
  raw_send = false;
  placeholders = [];
  sync_placeholders = [];
  mbuffer_args = [];
}

abbrev sender : SenderConfig
sender = record {
  include = [];
  exclude = [];
  name = [];
  snapshot_regex = [];
  send_intermediate = true;
  include_properties = none;
  resumable = none;
  destinations = to_host ∷ [];
}

abbrev snapshot : Bytes → Bytes → Source
snapshot name guid = record { name = name; guid = guid }

abbrev processor : FsProcessor
processor = record {
  fs = codes "t";
  job = sender;
  dst = to_host;
  snap_re = λ name. true;
  sources = snapshot (codes "t@a") (codes "1") ∷ snapshot (codes "t@b") (codes "2") ∷ [];
  encrypted = false;
}

abbrev nothing_read : Bytes → Option Json
nothing_read out = none

abbrev off : Bytes
off = codes "off"

-- The plan is asked for, and two snapshots are sent.
round_runs :
    get_next_and_send (speaker off) nothing_read (codec true) (link off) processor 0 ≡ (ok false, 3)
unfolding get_next_and_send
round_runs = refl

filled_runs :
    (is_empty (snaps_behind processor no_source) ≡ false)
    × (is_encrypted (speaker off) (codes "t") 0 ≡ (ok false, 1))
unfolding snaps_behind is_encrypted is_valid_zfs_dataset fs_name
filled_runs = (refl, refl)

process_filled_rounds_example :
    let step = get_next_and_send (speaker off) nothing_read (codec true) (link off) processor in
    (k : ℕ) × (u : ℕ) × Retries step k 1 u
    × Ends step 20 k u
        (process_filled (speaker off) nothing_read (codec true) (link off) processor 0)
process_filled_rounds_example =
    process_filled_rounds (speaker off) nothing_read (codec true) (link off) processor 0 1 false
      filled_runs.0 filled_runs.1

abbrev report : Bytes
report = codes "full" ++ 9 ∷ codes "t@a" ++ 9 ∷ codes "624" ++ 10 ∷ codes "size" ++ 9 ∷ codes "624"

abbrev token_args : List Bytes
token_args = codes "send" ∷ codes "-t" ∷ codes "1-a" ∷ []

resume_runs :
    resume_snapshot (speaker report) processor token_args no_source 0
    ≡ (ok (snapshot (codes "t@a") (codes "1")), 1)
unfolding resume_snapshot
resume_runs = refl

resume_snapshot-eligible_example :
    let snap = snapshot (codes "t@a") (codes "1") in
    (out : Bytes) × (zfs (speaker report) (codes "send" ∷ codes "-nP" ∷ tail token_args) 0
      ≡ (ok out, 1))
    × (targets (split out 10) ≡ codes "t@a" ∷ [])
    × (fs_name (codes "t@a") ≡ codes "t")
    × (is_snapshot snap ≡ true)
    × (any (is_same snap) (eligible processor no_source) ≡ true)
resume_snapshot-eligible_example =
    resume_snapshot-eligible (speaker report) processor token_args no_source 0 resume_runs

-- Two bookmarks of one suffix, oldest first, and one of a name that only ends like it.
abbrev marked_rows : List (List Bytes)
marked_rows =
    (codes "t#a-p" ∷ codes "1" ∷ [])
    ∷ (codes "t#b-p" ∷ codes "2" ∷ [])
    ∷ (codes "t#c-xp" ∷ codes "3" ∷ [])
    ∷ []

abbrev noted_guids : Guids
noted_guids = (codes "xp", codes "3") ∷ (codes "p", codes "2") ∷ (codes "p", codes "1") ∷ []

abbrev suffixes : List Bytes
suffixes = codes "q" ∷ codes "p" ∷ []

abbrev tools : Tools
tools = record { matches = λ r name. true; compiles = λ r. true; mbuffer_present = false }

abbrev two_hosts : SenderConfig
two_hosts = record sender { destinations = to_host ∷ to_host ∷ [] }

process_filesystem-Turns_example :
    Turns
      (speaker off)
      nothing_read
      (codec true)
      (link off)
      tools
      two_hosts
      (codes "t")
      (to_host ∷ to_host ∷ [])
      0
      (bad_output ∷ bad_output ∷ [])
      2
unfolding process_filesystem
process_filesystem-Turns_example =
    process_filesystem-Turns (speaker off) nothing_read (codec true) (link off) tools two_hosts
      (codes "t") 0
