-- ===== src/Exchange.antt =====
-- The sender and the receiver that its command starts on the backup host.
pub mod Answer
pub mod Planned
pub mod Sent
use zfsbackup.Base.{
  ◌≡◌, refl, sym, ap, ◌∙◌, Bool, true, false, not, ◌&&◌, ◌||◌, Option, none, some, List, [], ◌∷◌,
  Bytes, codes, arith, text_eq, contains, is_empty, if◌then◌else◌, Error, ok, ok-injective, outcome,
  Bool-cases, Option-cases, inl, inr,
}
use zfsbackup.Config.{ReceiverConfig, IncrementalSuggestions}
use zfsbackup.Names.{is_valid_zfs_dataset}
use zfsbackup.Exec.{Host, command, lift, run_ok}
use zfsbackup.Wire.{Codec, Link}
use zfsbackup.Zfs.Json.{Json}
use zfsbackup.Zfs.Bookmarks.{exists}
use zfsbackup.Receiver.Suggestion.{destination, incremental_suggestion}
use zfsbackup.Receiver.Full.{IsAbsent, incremental_suggestion_full}
use zfsbackup.Receiver.Newest.{
  IsNewest, incremental_suggestion-IsNewest, incremental_suggestion_leave,
}
use zfsbackup.Receiver.Refused.{bool_cases}
use zfsbackup.Receiver.Serve.{Request, serve, dispatch, suggest}
use zfsbackup.Sender.Source.{Source, base_for}
use zfsbackup.Sender.Plan.{
  FsProcessor, Plan, build_receiver_cmd, receiver_args, or_no_source, plan_of, plan_from,
  fetch_plan,
}
use zfsbackup.Sender.Round.{get_next_and_send}
use zfsbackup.Sender.Retry.{get_next_and_send_retry}

-- The request that the arguments `--op=incremental_suggestions --dataset=…` make.
abbrev pub asking : Bytes → Request
asking fs = record {
  op = codes "incremental_suggestions";
  dataset = fs;
  compression = codes "none";
  input = [];
}

-- A backup host behind the command `receiver`: running it with such arguments runs the receiver
-- there, whose standard output is the command's, and which fails where the receiver has an error.
pub record Remote (H : Host) (C : Codec) (receiver : Bytes) : Type 1 where
  pub host : Host
  pub decode : Bytes → Option Json
  pub link : Link host
  pub cfg : ReceiverConfig
  pub seen : H.State → host.State
  pub left : host.State → H.State → H.State
  pub answers :
      (fs : Bytes) (s : H.State)
      → let cmd =
          build_receiver_cmd receiver (receiver_args (codes "incremental_suggestions") fs) in
        let ((out, es), r) = serve host decode C link cfg (asking fs) (seen s) in
        H.output cmd.0 cmd.1 s ≡ ((if is_empty es then some out else none), left r s)
  pub read_back : (m : IncrementalSuggestions) → C.read_suggestions (C.suggestions_text m) ≡ some m
