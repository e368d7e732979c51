-- ===== src/Commands/Receive.antt =====
-- `Main` of the receiver: its configuration, which is optional and not locked, and the request.
use zfsbackup.Base.{
  Bool, Option, none, List, [], Bytes, if◌then◌else◌, is_empty, Result, ok, err,
  unexpected_arguments, cannot_open, cannot_parse,
}
use zfsbackup.Config.{ReceiverConfig}
use zfsbackup.Names.{is_valid_zfs_dataset}
use zfsbackup.Exec.{Host, Run}
use zfsbackup.Wire.{Codec, Link}
use zfsbackup.Zfs.Json.{Json}
use zfsbackup.Receiver.Serve.{Request, Reply, refuse, with_receiver_defaults, serve}
use zfsbackup.Commands.Start.{require_some}

-- The calls on the configuration file: `os.Open` and `DecodeConfig`.
pub record Reading (S : Type 0) : Type 0 where
  pub open_file : Bytes → S → Bool × S
  pub decode_config : Bytes → S → Option ReceiverConfig × S

-- The flags of the command and the request, with the arguments that are left over in
-- SSH_ORIGINAL_COMMAND, where it is set, and behind the command's own flags.
pub record Called : Type 0 where
  pub config : Bytes
  pub base_dataset : Bytes
  pub left_over_ssh : List Bytes
  pub left_over : List Bytes
  pub request : Request

-- A receiver without a configuration file.
abbrev pub no_config : ReceiverConfig
no_config = record {
  base_dataset = [];
  enforce_local_properties = [];
  mbuffer_args = [];
  disable_mount = none;
  resumable = none;
  force_overwrite_datasets = [];
}

unfoldable pub read_config : {S : Type 0} → Reading S → Bytes → Run S ReceiverConfig
unfolding require_some
read_config U path s =
    let (opened, s1) = U.open_file path s in
    let (cfg, s2) = U.decode_config path s1 in
    let read : Result ReceiverConfig × _ =
      if opened then (require_some cannot_parse cfg, s2) else (err cannot_open, s1) in
    if is_empty path then (ok no_config, s) else read

module _ (H : Host) (decode : Bytes → Option Json) (C : Codec) (L : Link H) (U : Reading H.State)
    (mbuffer_present : Bool) where
  -- Behind the configuration.
  unfoldable pub receive_with : Called → ReceiverConfig → H.State → Reply × H.State
  unfolding with_receiver_defaults is_valid_zfs_dataset serve
  receive_with q cfg s =
      let full = with_receiver_defaults q.base_dataset mbuffer_present cfg in
      let served = serve H decode C L full q.request s in
      elim (is_valid_zfs_dataset full.base_dataset) [
        | err e ↦ refuse e s
        | ok u ↦
            if is_empty q.left_over_ssh
            then if is_empty q.left_over then served else refuse unexpected_arguments s
            else refuse unexpected_arguments s
      ]

  -- `Main`
  unfoldable pub receiver_main : Called → H.State → Reply × H.State
  unfolding read_config receive_with
  receiver_main q s =
      let (r, s1) = read_config U q.config s in
      elim r [ err e ↦ refuse e s1 | ok cfg ↦ receive_with q cfg s1 ]
