-- ===== src/Sender/Transfer.antt =====
-- `send` with its pipe of processes, and the flags of `zfs send`.
use zfsbackup.Base.{
  Bool, true, false, not, ◌&&◌, Option, none, some, List, [], ◌∷◌, ◌++◌, Bytes, codes,
  if◌then◌else◌, is_empty, text_eq, ℤ, show_int, Result, ok, err, unsupported_compression,
  command_failed,
}
use zfsbackup.Exec.{Host, Act, ◌>>=◌, ◌>>◌, lift}
use zfsbackup.Wire.{Stage, Link}
use zfsbackup.Zfs.Json.{Json}
use zfsbackup.Zfs.Bookmarks.{zfs_set_before_bookmark, zfs_set_placeholder}
use zfsbackup.Sender.Source.{Source}
use zfsbackup.Sender.Suffix.{fields}
use zfsbackup.Sender.Defaults.{to_lower, compression_type}
use zfsbackup.Sender.Plan.{FsProcessor, build_receiver_cmd, receiver_args}

-- `CompressionProg`: no name for no compression.
unfoldable pub compression_prog : Bytes → Result Bytes
unfolding text_eq to_lower
compression_prog t =
    if text_eq (to_lower t) (codes "none")
    then ok []
    else if text_eq (to_lower t) (codes "zstd")
    then ok (codes "zstd")
    else err unsupported_compression

-- The stages that `MaybeMbuffer` adds to a pipe.
unfoldable pub flat_args : List Bytes → List Bytes
unfolding fields
flat_args [] = []
flat_args (a ∷ args) = fields a ++ flat_args args

unfoldable pub maybe_mbuffer : List Bytes → List Stage
unfolding flat_args
maybe_mbuffer args = if is_empty args then [] else (codes "mbuffer", flat_args args) ∷ []

-- The stage of `internalCompress`.
unfoldable pub internal_compress : Bytes → List Bytes → List Stage
internal_compress prog args = if is_empty prog then [] else (prog, args) ∷ []

unfoldable pub level_args : Option ℤ → List Bytes
unfolding show_int
level_args none = []
level_args (some level) = (b'-' ∷ show_int level) ∷ []

-- `MaybeCompress`
unfoldable pub maybe_compress : Bytes → Option ℤ → Result (List Stage)
unfolding compression_prog internal_compress level_args
maybe_compress ct level = elim (compression_prog ct) [
  | err e ↦ err e
  | ok prog ↦ ok (internal_compress prog (level_args level))
]

-- `MaybeDecompress`
unfoldable pub maybe_decompress : Bytes → Result (List Stage)
unfolding compression_prog internal_compress
maybe_decompress format = elim (compression_prog format) [
  | err e ↦ err e
  | ok prog ↦ ok (internal_compress prog (codes "-d" ∷ []))
]

-- `streamCompression`
unfoldable pub stream_compression : FsProcessor → Bytes
unfolding compression_type
stream_compression fsp = if fsp.encrypted then codes "none" else compression_type fsp.dst

-- `includeProperties`
unfoldable pub wants_properties : Option Bool → Bool
wants_properties none = true
wants_properties (some b) = b

unfoldable pub sends_properties : FsProcessor → Bool
unfolding wants_properties
sends_properties fsp =
    wants_properties fsp.job.include_properties && not (fsp.encrypted && not fsp.dst.raw_send)

-- `incrementalArgs`
unfoldable pub incremental_args : Source → List Bytes
incremental_args base = if is_empty base.name then [] else codes "-i" ∷ base.name ∷ []

-- The switch over raw and encrypted sends.
unfoldable pub block_flags : FsProcessor → List Bytes
block_flags fsp =
    if fsp.dst.raw_send
    then codes "-e" ∷ codes "-c" ∷ codes "-w" ∷ []
    else if fsp.encrypted
    then codes "-c" ∷ []
    else []

-- `sendArgs` of a snapshot.
unfoldable pub send_args : FsProcessor → Source → Source → List Bytes
unfolding sends_properties block_flags incremental_args
send_args fsp base snap =
    codes "send" ∷ codes "-v" ∷ codes "-L" ∷ (if sends_properties fsp then codes "-p" ∷ [] else [])
    ++ block_flags fsp
    ++ incremental_args base
    ++ snap.name ∷ []

-- `sendArgs` of a resume token.
unfoldable pub resume_args : FsProcessor → Bytes → List Bytes
resume_args fsp token =
    codes "send" ∷ (if fsp.dst.raw_send then codes "-w" ∷ [] else []) ++ codes "-t" ∷ token ∷ []

-- The processes of a stream: the sender, a buffer, a compressor and the receiver.
unfoldable pub stages : FsProcessor → List Bytes → List Stage → List Stage
unfolding maybe_mbuffer stream_compression build_receiver_cmd receiver_args
stages fsp args compressor =
    let receive =
      receiver_args (codes "receive") fsp.fs
      ++ (codes "--compression=" ++ stream_compression fsp) ∷ [] in
    (codes "zfs", args) ∷ maybe_mbuffer fsp.dst.mbuffer_args
    ++ compressor
    ++ build_receiver_cmd fsp.dst.receiver receive ∷ []

module _ (H : Host) (decode : Bytes → Option Json) where
  -- `setPlaceholdersBefore`
  unfoldable pub set_placeholders_before : List Bytes → Source → Act H (Unit {0})
  unfolding zfs_set_before_bookmark
  set_placeholders_before [] snap = lift (ok tt)
  set_placeholders_before (p ∷ ps) snap =
      zfs_set_before_bookmark H decode snap.name p >> set_placeholders_before ps snap

  -- `setPlaceholdersAfter`
  unfoldable pub set_placeholders_after : List Bytes → Source → Act H (Unit {0})
  unfolding zfs_set_placeholder
  set_placeholders_after [] snap = lift (ok tt)
  set_placeholders_after (p ∷ ps) snap =
      zfs_set_placeholder H decode snap.name p >> set_placeholders_after ps snap

module _ (H : Host) (L : Link H) where
  unfoldable pub run_pipe : List Stage → Act H (Unit {0})
  run_pipe ps s =
      let (done, s') = L.pipe ps s in
      elim done [ true ↦ (ok tt, s') | false ↦ (err command_failed, s') ]

  -- `send`. A buffer that has started where the compression is unknown is killed.
  unfoldable pub send : FsProcessor → List Bytes → Act H (Unit {0})
  unfolding maybe_compress stream_compression stages run_pipe
  send fsp args =
      lift (maybe_compress (stream_compression fsp) fsp.dst.compression_level) >>= λ compressor.
      run_pipe (stages fsp args compressor)
