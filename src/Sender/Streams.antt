-- ===== src/Sender/Streams.antt =====
-- What it means that `send` and the loop over the snapshots succeed.
use mathlib.Core.Path.{subst}
use zfsbackup.Base.{
  ◌≡◌, ap, ◌∙◌, true, false, Option, List, [], ◌∷◌, ◌++◌, append_assoc, append-nil, Bytes, codes,
  is_empty, if◌then◌else◌, ok, Bool-cases, inl, inr,
}
use zfsbackup.Exec.{Host, ◌>>◌, lift, run_ok}
use zfsbackup.Wire.{Codec, Stage, Link}
use zfsbackup.Zfs.Json.{Json}
use zfsbackup.Sender.Source.{Source}
use zfsbackup.Sender.Plan.{FsProcessor}
use zfsbackup.Sender.Transfer.{
  maybe_compress, stream_compression, sends_properties, block_flags, incremental_args, send_args,
  stages, set_placeholders_before, set_placeholders_after, run_pipe, send,
}
use zfsbackup.Sender.Round.{send_marked, send_all}

-- What every `zfs send` of a snapshot begins with.
pub opening : FsProcessor → List Bytes
opening fsp =
    codes "send" ∷ codes "-v" ∷ codes "-L" ∷ (if sends_properties fsp then codes "-p" ∷ [] else [])
    ++ block_flags fsp

-- Without a base a snapshot is sent whole.
send_args_whole :
    (fsp : FsProcessor) (base snap : Source)
    → is_empty base.name ≡ true
    → send_args fsp base snap ≡ opening fsp ++ snap.name ∷ []
unfolding send_args incremental_args opening
send_args_whole fsp base snap e =
    rw (send_args, incremental_args, e, opening) (simp (append_assoc, append-nil))

-- With a base it is sent as an increment on it.
send_args_increment :
    (fsp : FsProcessor) (base snap : Source)
    → is_empty base.name ≡ false
    → send_args fsp base snap ≡ opening fsp ++ codes "-i" ∷ base.name ∷ snap.name ∷ []
unfolding send_args incremental_args opening
send_args_increment fsp base snap e =
    rw (send_args, incremental_args, e, opening) (simp (append_assoc, append-nil))

module _ (H : Host) (decode : Bytes → Option Json) (C : Codec) (L : Link H)
    (fsp : FsProcessor) where
  -- The pipe that starts with `zfs` of these arguments ran, and none of its processes failed.
  pub data Piped (args : List Bytes) (s t : H.State) : Type 0 where
    piped :
        (compressor : List Stage)
        → maybe_compress (stream_compression fsp) fsp.dst.compression_level ≡ ok compressor
        → L.pipe (stages fsp args compressor) s ≡ (true, t)
        → Piped args s t

  -- It ran between the bookmarks of a snapshot.
  pub data Marked (snap : Source) (args : List Bytes) (s t : H.State) : Type 0 where
    marked :
        (u v : H.State)
        → set_placeholders_before H decode fsp.dst.placeholders snap s ≡ (ok tt, u)
        → Piped args u v
        → set_placeholders_after H decode fsp.dst.placeholders snap v ≡ (ok tt, t)
        → Marked snap args s t

  -- All the snapshots were sent, each on the one before it and the first one on the base, if there
  -- is one.
  pub data Streams : Source → List Source → H.State → H.State → Type 0 where
    no_stream : {base : Source} {s : H.State} → Streams base [] s s
    whole :
        {base snap : Source} {snaps : List Source} {s u t : H.State}
        → is_empty base.name ≡ true
        → Marked snap (opening fsp ++ snap.name ∷ []) s u
        → Streams snap snaps u t
        → Streams base (snap ∷ snaps) s t
    increment :
        {base snap : Source} {snaps : List Source} {s u t : H.State}
        → is_empty base.name ≡ false
        → Marked snap (opening fsp ++ codes "-i" ∷ base.name ∷ snap.name ∷ []) s u
        → Streams snap snaps u t
        → Streams base (snap ∷ snaps) s t

  run_pipe_ok :
      (ps : List Stage) (s : H.State) {t : H.State}
      → run_pipe H L ps s ≡ (ok tt, t)
      → L.pipe ps s ≡ (true, t)
  unfolding run_pipe
  run_pipe_ok ps s h = elim (Bool-cases (L.pipe ps s).0) [
    | inl e ↦
        ap (λ b. (b, (L.pipe ps s).1)) e
        ∙ ap (λ t. (true, t)) (ap (λ r. r.1) (rw (run_pipe, e) at h))
    | inr e ↦ absurd (let q = rw (run_pipe, e) at h in cc)
  ]

  send-Piped :
      (args : List Bytes) (s : H.State) {t : H.State}
      → send H L fsp args s ≡ (ok tt, t)
      → Piped args s t
  unfolding send
  send-Piped args s h =
      let compress = maybe_compress (stream_compression fsp) fsp.dst.compression_level in
      let (compressor, u, known, ran) =
        run_ok (lift compress) (λ compressor. run_pipe H L (stages fsp args compressor)) s h in
      let same = ap (λ r. r.1) known in
      piped compressor (ap (λ r. r.0) known) (
        ap (L.pipe (stages fsp args compressor)) same
        ∙ run_pipe_ok (stages fsp args compressor) u ran)

  pub send_marked-Marked :
      (args : List Bytes) (snap : Source) (s : H.State) {t : H.State}
      → send_marked H decode C L fsp args snap s ≡ (ok tt, t)
      → Marked snap args s t
  unfolding send_marked
  send_marked-Marked args snap s h =
      let before = set_placeholders_before H decode fsp.dst.placeholders snap in
      let after = set_placeholders_after H decode fsp.dst.placeholders snap in
      let (_, v, sent, noted) = run_ok (before >> send H L fsp args) (λ _. after) s h in
      let (_, u, ready, ran) = run_ok before (λ _. send H L fsp args) s sent in
      marked u v ready (send-Piped args u ran) noted

  pub send_all-Streams :
      (base : Source) (snaps : List Source) (s : H.State) {t : H.State}
      → send_all H decode C L fsp base snaps s ≡ (ok tt, t)
      → Streams base snaps s t
  unfolding send_all
  send_all-Streams base [] s h = subst (Streams base [] s) (ap (λ r. r.1) h) no_stream
  send_all-Streams base (snap ∷ snaps) s h =
      let args = send_args fsp base snap in
      let (_, u, sent, rest) =
        run_ok (send_marked H decode C L fsp args snap) (λ _. send_all H decode C L fsp snap snaps)
          s h in
      let first = send_marked-Marked args snap s sent in
      let others = send_all-Streams snap snaps u rest in
      elim (Bool-cases (is_empty base.name)) [
        | inl e ↦
            whole e (subst (λ args. Marked snap args s u) (send_args_whole fsp base snap e) first)
              others
        | inr e ↦
            increment e
              (subst (λ args. Marked snap args s u) (send_args_increment fsp base snap e) first)
              others
      ]
