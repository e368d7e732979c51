-- ===== src/Sender/Plan.antt =====
-- `plan`, `fetchPlan`, `FillSources` and the commands of the receiver.
use zfsbackup.Base.{
  Bool, true, false, not, ◌&&◌, ◌||◌, Option, none, some, List, [], ◌∷◌, ◌++◌, Bytes, codes,
  if◌then◌else◌, is_empty, contains_byte, Result, ok, err, bad_output,
}
use zfsbackup.Config.{DestinationConfig, SenderConfig, IncrementalSuggestions}
use zfsbackup.Exec.{Host, Act, ◌>>=◌, lift, command}
use zfsbackup.Wire.{Codec, Stage}
use zfsbackup.Zfs.Json.{Json}
use zfsbackup.Zfs.Table.{zfs_list}
use zfsbackup.Sender.Source.{Source, no_source, base_for}
use zfsbackup.Sender.Suffix.{fields}

-- `fsProcessor`; `snap_re` is the test that the compiled regexp makes.
pub record FsProcessor : Type 0 where
  pub fs : Bytes
  pub job : SenderConfig
  pub dst : DestinationConfig
  pub snap_re : Bytes → Bool
  pub sources : List Source
  pub encrypted : Bool

-- `plan`
pub record Plan : Type 0 where
  pub base : Source
  pub resume_token : Bytes
  pub send_full : Bool
  pub force_overwrite : Bool

-- `buildReceiverCmd`: the program and its arguments.
unfoldable pub receiver_cmd : List Bytes → List Bytes → Stage
receiver_cmd [] args = ([], args)
receiver_cmd (p ∷ ps) args = (p, ps ++ args)

unfoldable pub build_receiver_cmd : Bytes → List Bytes → Stage
unfolding fields receiver_cmd
build_receiver_cmd receiver args = receiver_cmd (fields receiver) args

unfoldable pub receiver_args : Bytes → Bytes → List Bytes
receiver_args op fs = (codes "--op=" ++ op) ∷ (codes "--dataset=" ++ fs) ∷ []

unfoldable pub or_no_source : Option Source → Source
or_no_source none = no_source
or_no_source (some s) = s

-- The plan that the receiver's answer leads to.
unfoldable pub plan_of : List Source → IncrementalSuggestions → Plan
unfolding base_for or_no_source
plan_of sources is =
    let known = not (is_empty is.last_snapshot) && not (is_empty is.guid) in
    if is.send_full
    then record {
      base = no_source;
      resume_token = [];
      send_full = true;
      force_overwrite = is.force_overwrite;
    }
    else record {
      base = if known then or_no_source (base_for sources is.guid) else no_source;
      resume_token = is.resume_token;
      send_full = false;
      force_overwrite = is.force_overwrite;
    }

unfoldable pub plan_from : List Source → Option IncrementalSuggestions → Result Plan
unfolding plan_of
plan_from sources none = err bad_output
plan_from sources (some is) = ok (plan_of sources is)

-- The loop of `FillSources`.
unfoldable pub sources_of : List (List Bytes) → Result (List Source)
unfolding contains_byte
sources_of [] = ok []
sources_of ((name ∷ guid ∷ _) ∷ rows) =
    let marked = contains_byte b'@' name || contains_byte b'#' name in
    let rest : Result (List Source) = elim (sources_of rows) [
      | err e ↦ err e
      | ok ss ↦ ok (record { name = name; guid = guid } ∷ ss)
    ] in
    if marked then rest else err bad_output
sources_of (_ ∷ rows) = err bad_output

module _ (H : Host) (decode : Bytes → Option Json) (C : Codec) where
  -- `fetchPlan`
  unfoldable pub fetch_plan : FsProcessor → Act H Plan
  unfolding build_receiver_cmd receiver_args command plan_from
  fetch_plan fsp =
      let cmd =
        build_receiver_cmd fsp.dst.receiver
          (receiver_args (codes "incremental_suggestions") fsp.fs) in
      command H cmd.0 cmd.1 >>= λ out. lift (plan_from fsp.sources (C.read_suggestions out))

  -- `FillSources`, for a processor that has none yet.
  unfoldable pub fill_sources : FsProcessor → Act H FsProcessor
  unfolding zfs_list sources_of
  fill_sources fsp =
      zfs_list H decode (codes "name" ∷ codes "guid" ∷ []) (codes "snapshot,bookmark") fsp.fs
        (codes "-r" ∷ codes "-d1" ∷ codes "-s" ∷ codes "createtxg" ∷ [])
      >>= λ rows. lift (sources_of rows) >>= λ sources. lift (ok (record fsp { sources = sources }))
