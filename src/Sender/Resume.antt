-- ===== src/Sender/Resume.antt =====
-- `resumeSnapshot`: the snapshot that a resume token is for.
use zfsbackup.Base.{
  true, false, not, ◌&&◌, ◌||◌, Option, none, some, List, [], ◌∷◌, ◌++◌, Bytes, codes,
  if◌then◌else◌, is_empty, text_eq, split, Result, ok, err, ambiguous_resume, ineligible_resume,
}
use zfsbackup.Names.{fs_name}
use zfsbackup.Exec.{Host, Act, ◌>>=◌, lift, zfs}
use zfsbackup.Sender.Source.{Source, potential_snaps_to_send, actual_snaps_to_send}
use zfsbackup.Sender.Plan.{FsProcessor}

-- The part of a line that names the target: the field behind `full`, or the second one behind
-- `incremental`. `none` for a line of another kind.
unfoldable pub target_field : List Bytes → Option Bytes
unfolding text_eq
target_field [] = none
target_field (kind ∷ rest) =
    let second : Bytes = elim rest [ [] ↦ [] | b ∷ more ↦ elim more [ [] ↦ [] | t ∷ _ ↦ t ] ] in
    let first : Bytes = elim rest [ [] ↦ [] | t ∷ _ ↦ t ] in
    if text_eq kind (codes "full")
    then some first
    else if text_eq kind (codes "incremental")
    then some second
    else none

-- The loop over the lines. A missing or empty field is an error, and so is a second target.
unfoldable pub scan_targets : List Bytes → Bytes → Result Bytes
unfolding target_field split
scan_targets [] target = ok target
scan_targets (line ∷ lines) target = elim (target_field (split line 9)) [
  | none ↦ scan_targets lines target
  | some t ↦ elim (is_empty t || not (is_empty target)) [
    | true ↦ err ambiguous_resume
    | false ↦ scan_targets lines t
  ]
]

-- The loop over the snapshots that may be resumed.
unfoldable pub find_target : Bytes → Bytes → List Source → Result Source
unfolding text_eq fs_name
find_target fs target [] = err ineligible_resume
find_target fs target (s ∷ ss) =
    let rest = find_target fs target ss in
    if text_eq s.name target && text_eq (fs_name s.name) fs then ok s else rest

unfoldable pub eligible : FsProcessor → Source → List Source
unfolding potential_snaps_to_send actual_snaps_to_send
eligible fsp base =
    potential_snaps_to_send fsp.snap_re fsp.sources
    ++ actual_snaps_to_send fsp.snap_re fsp.dst.sync_placeholders fsp.job.send_intermediate
        fsp.sources base

-- `sendArgs[1:]`
unfoldable pub tail : List Bytes → List Bytes
tail [] = []
tail (x ∷ xs) = xs

-- `resumeSnapshot`
unfoldable pub resume_snapshot : (H : Host) → FsProcessor → List Bytes → Source → Act H Source
unfolding zfs split scan_targets find_target eligible tail
resume_snapshot H fsp send_args base =
    zfs H (codes "send" ∷ codes "-nP" ∷ tail send_args) >>= λ out.
    lift (scan_targets (split out 10) []) >>= λ target.
    lift (find_target fsp.fs target (eligible fsp base))
