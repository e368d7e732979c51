-- ===== src/Receiver/Serve.antt =====
-- `receive`, and what `Main` of the receiver does with a request.
use zfsbackup.Base.{
  suc, Bool, true, false, ◌&&◌, Option, some, List, [], ◌∷◌, ◌++◌, Bytes, codes, length,
  if◌then◌else◌, is_empty, text_eq, Error, ok, err, no_base_dataset, unknown_operation,
}
use zfsbackup.Config.{ReceiverConfig}
use zfsbackup.Names.{is_valid_zfs_dataset}
use zfsbackup.Exec.{Host, Act, ◌>>=◌, ◌>>◌, lift, errors_of}
use zfsbackup.Wire.{Codec, Link}
use zfsbackup.Zfs.Json.{Json}
use zfsbackup.Zfs.Bookmarks.{exists}
use zfsbackup.Sender.Defaults.{to_lower}
use zfsbackup.Sender.Transfer.{maybe_mbuffer, maybe_decompress, run_pipe}
use zfsbackup.Receiver.Suggestion.{destination, incremental_suggestion}
use zfsbackup.Receiver.Arguments.{unless_false, receive_args}
use zfsbackup.Receiver.Marks.{set_placeholders}
use zfsbackup.Receiver.Parents.{check_parent}

-- What `Main` fills in, once the `-base_dataset` flag is read.
unfoldable pub with_receiver_defaults : Bytes → Bool → ReceiverConfig → ReceiverConfig
unfolding unless_false
with_receiver_defaults base_dataset mbuffer_present cfg = record cfg {
  base_dataset = if is_empty base_dataset then cfg.base_dataset else base_dataset;
  resumable = some (unless_false cfg.resumable);
  disable_mount = some (unless_false cfg.disable_mount);
  mbuffer_args =
      if is_empty cfg.mbuffer_args && mbuffer_present
      then codes "-P 90" ∷ codes "-m 3%" ∷ []
      else cfg.mbuffer_args;
}

-- The client's flags, and its standard input.
pub record Request : Type 0 where
  pub op : Bytes
  pub dataset : Bytes
  pub compression : Bytes
  pub input : Bytes

-- The standard output, and the errors.
abbrev pub Reply : Type 0
Reply = Bytes × List Error

abbrev pub refuse : {S : Type 0} → Error → S → Reply × S
refuse e s = (([], e ∷ []), s)

module _ (H : Host) (decode : Bytes → Option Json) (C : Codec) (L : Link H) where
  -- `receive`. The fuel of checkParent is enough, one for each byte of the name and one more.
  unfoldable pub receive : Bytes → Bytes → Bytes → ReceiverConfig → Act H (Unit {0})
  unfolding destination receive_args unless_false check_parent maybe_mbuffer maybe_decompress
      run_pipe
  receive baseds ds compression cfg =
      let dest = destination baseds ds in
      lift (receive_args cfg dest) >>= λ args.
      check_parent H decode (suc (length dest)) dest (unless_false cfg.disable_mount)
      >> lift (maybe_decompress compression)
      >>= λ decompressor.
          run_pipe H L (
            maybe_mbuffer cfg.mbuffer_args ++ decompressor ++ (codes "zfs", args ++ dest ∷ []) ∷ [])

  unfoldable pub suggest : Bytes → Bytes → ReceiverConfig → H.State → Reply × H.State
  unfolding incremental_suggestion
  suggest baseds ds cfg s =
      let (r, s') = incremental_suggestion H decode baseds ds cfg s in
      elim r [ err e ↦ refuse e s' | ok sugg ↦ ((C.suggestions_text sugg, []), s') ]

  unfoldable pub set_marks : Bytes → Bytes → Bytes → H.State → Reply × H.State
  unfolding set_placeholders
  set_marks baseds ds input s =
      let (es, s') = set_placeholders H decode baseds ds (C.read_placeholders input) s in
      (([], es), s')

  unfoldable pub store : Bytes → Bytes → Bytes → ReceiverConfig → H.State → Reply × H.State
  unfolding receive errors_of
  store baseds ds compression cfg s =
      let (r, s') = receive baseds ds compression cfg s in (([], errors_of r), s')

  -- The switch over the operations.
  unfoldable pub dispatch : ReceiverConfig → Request → H.State → Reply × H.State
  unfolding text_eq to_lower suggest set_marks store
  dispatch cfg q s =
      let op = to_lower q.op in
      if text_eq op (codes "incremental_suggestions")
      then suggest cfg.base_dataset q.dataset cfg s
      else if text_eq op (codes "set_placeholders")
      then set_marks cfg.base_dataset q.dataset q.input s
      else if text_eq op (codes "receive")
      then store cfg.base_dataset q.dataset q.compression cfg s
      else refuse unknown_operation s

  -- `Main`, behind the flags, for a configuration with its defaults.
  unfoldable pub serve : ReceiverConfig → Request → H.State → Reply × H.State
  unfolding is_valid_zfs_dataset exists dispatch
  serve cfg q s = elim (is_valid_zfs_dataset cfg.base_dataset) [
    | err e ↦ refuse e s
    | ok u ↦
        let (there, s') = exists H decode cfg.base_dataset s in
        elim there [
          | err e ↦ refuse e s'
          | ok false ↦ refuse no_base_dataset s'
          | ok true ↦ elim (is_valid_zfs_dataset q.dataset) [
            | err e ↦ refuse e s'
            | ok u' ↦ dispatch cfg q s'
          ]
        ]
  ]
