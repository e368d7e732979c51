-- ===== src/Sender/Resumed.antt =====
-- Which snapshot `resumeSnapshot` returns.
use zfsbackup.Base.{
  ◌≡◌, refl, sym, ap, ◌∙◌, ◌⊎◌, inl, inr, Bool, true, false, ◌&&◌, Option, none, some, List, [],
  ◌∷◌, Bytes, codes, arith, is_empty, any, text_eq, text_eq_iff, split, Bool-cases, ok, All,
  All-append, contains_byte,
}
use zfsbackup.Names.{fs_name}
use zfsbackup.Exec.{Host, Act, ◌>>=◌, lift, zfs, run_ok}
use zfsbackup.Sender.Source.{
  Source, is_snapshot, matches_re, potential_snaps_to_send, actual_snaps_to_send,
}
use zfsbackup.Sender.Select.{is_wanted, wanted}
use zfsbackup.Sender.Chosen.{actual_snaps_to_send-wanted}
use zfsbackup.Sender.Plan.{FsProcessor}
use zfsbackup.Sender.Resume.{
  target_field, scan_targets, find_target, eligible, tail, resume_snapshot,
}

-- The targets that some lines name.
pub targets : List Bytes → List Bytes
targets [] = []
targets (line ∷ lines) = elim (target_field (split line 9)) [
  | none ↦ targets lines
  | some t ↦ t ∷ targets lines
]

field_cases : (r : Option Bytes) → (r ≡ none) ⊎ ((u : Bytes) × (r ≡ some u))
field_cases none = inl refl
field_cases (some u) = inr (u, refl)

-- Behind a target, a scan that succeeds has seen no other.
scan_behind :
    (lines : List Bytes) (target : Bytes) {t : Bytes}
    → is_empty target ≡ false
    → scan_targets lines target ≡ ok t
    → (targets lines ≡ []) × (t ≡ target)
unfolding scan_targets targets
scan_behind [] target h k = (refl, cc)
scan_behind (line ∷ lines) target {t = t} h k = elim (field_cases (target_field (split line 9))) [
  | inl e ↦ rw (targets, e) (scan_behind lines target h (ground (arith, e)))
  | inr (u, e) ↦ absurd (ground (arith, e))
]

scan_one :
    (lines : List Bytes) {t : Bytes}
    → scan_targets lines [] ≡ ok t
    → is_empty t ≡ false
    → targets lines ≡ t ∷ []
unfolding scan_targets targets
scan_one [] h k = absurd (ground arith)
scan_one (line ∷ lines) {t = t} h k = elim (field_cases (target_field (split line 9))) [
  | inl e ↦ rw (targets, e) (scan_one lines (ground (arith, e)) k)
  | inr (u, e) ↦ elim (Bool-cases (is_empty u)) [
    | inl e' ↦ absurd (ground (arith, e, e'))
    | inr e' ↦
        let (none_left, same) = scan_behind lines u {t = t} e' (ground (arith, e, e')) in
        rw (targets, e, none_left, same) refl
  ]
]

-- The same source.
pub is_same : Source → Source → Bool
unfolding text_eq
is_same s t = text_eq s.name t.name && text_eq s.guid t.guid

is_same_self : (s : Source) → is_same s s ≡ true
unfolding is_same
is_same_self s = ground (arith, text_eq_iff s.name s.name, text_eq_iff s.guid s.guid)

pub IsSnapshot : Source → Type 0
IsSnapshot s = is_snapshot s ≡ true

find_target-eligible :
    (fs target : Bytes) (ss : List Source) {s : Source}
    → All IsSnapshot ss
    → find_target fs target ss ≡ ok s
    → (s.name ≡ target) × (fs_name s.name ≡ fs) × (any (is_same s) ss ≡ true) × IsSnapshot s
unfolding find_target
find_target-eligible fs target [] h k = absurd (cc)
find_target-eligible fs target (x ∷ ss) {s = s} h k =
    elim (Bool-cases (text_eq x.name target && text_eq (fs_name x.name) fs)) [
      | inl e ↦
          let same : x ≡ s = ground (arith, e) in
          rw (sym same) (
            ground (arith, e, text_eq_iff x.name target),
            ground (arith, e, text_eq_iff (fs_name x.name) fs),
            ground (arith, is_same_self x),
            h.0,
          )
      | inr e ↦
          let (n, f, m, i) = find_target-eligible fs target ss {s = s} h.1 (ground (arith, e)) in
          (n, f, ground (arith, m), i)
    ]

potential-IsSnapshot :
    (re : Bytes → Bool) (ss : List Source) → All IsSnapshot (potential_snaps_to_send re ss)
unfolding potential_snaps_to_send IsSnapshot
potential-IsSnapshot re [] = tt
potential-IsSnapshot re (s ∷ ss) = elim (Bool-cases (is_snapshot s && matches_re re s)) [
  | inl e ↦ rw e (ground (arith, e), potential-IsSnapshot re ss)
  | inr e ↦ rw e (potential-IsSnapshot re ss)
]

wanted-IsSnapshot :
    (re : Bytes → Bool) (all : Bool) (marked : Bytes → Bool) (ss : List Source)
    → All IsSnapshot (wanted re all marked ss)
unfolding wanted IsSnapshot is_wanted
wanted-IsSnapshot re all marked [] = tt
wanted-IsSnapshot re all marked (s ∷ ss) = elim (Bool-cases (is_wanted re all marked s ss)) [
  | inl e ↦ rw e (ground (arith, e), wanted-IsSnapshot re all marked ss)
  | inr e ↦ rw e (wanted-IsSnapshot re all marked ss)
]

eligible-IsSnapshot : (fsp : FsProcessor) (base : Source) → All IsSnapshot (eligible fsp base)
unfolding eligible
eligible-IsSnapshot fsp base =
    let all = fsp.job.send_intermediate in
    let marks = fsp.dst.sync_placeholders in
    let next = actual_snaps_to_send fsp.snap_re marks all fsp.sources base in
    All-append IsSnapshot (potential_snaps_to_send fsp.snap_re fsp.sources) next
      (potential-IsSnapshot fsp.snap_re fsp.sources)
      (rw (actual_snaps_to_send-wanted fsp.snap_re marks all fsp.sources base)
        (wanted-IsSnapshot fsp.snap_re all _ _))

named : (s : Source) → IsSnapshot s → is_empty s.name ≡ false
unfolding IsSnapshot is_snapshot contains_byte
named s h = elim (Bool-cases (is_empty s.name)) [ inl e ↦ ground (arith, e) | inr e ↦ e ]

-- Where a resume token is accepted, zfs send -nP names exactly one target, and it is the name of
-- the snapshot that is returned. That one is a snapshot of the processor's file system, and one of
-- those that may be sent: it matches the regexp, or ActualSnapsToSend chooses it behind the base.
pub resume_snapshot-eligible :
    (H : Host) (fsp : FsProcessor) (send_args : List Bytes) (base : Source) (s : H.State)
    {snap : Source} {t : H.State}
    → resume_snapshot H fsp send_args base s ≡ (ok snap, t)
    → (out : Bytes) × (zfs H (codes "send" ∷ codes "-nP" ∷ tail send_args) s ≡ (ok out, t))
      × (targets (split out 10) ≡ snap.name ∷ [])
      × (fs_name snap.name ≡ fsp.fs)
      × (is_snapshot snap ≡ true)
      × (any (is_same snap) (eligible fsp base) ≡ true)
unfolding resume_snapshot IsSnapshot
resume_snapshot-eligible H fsp send_args base s {snap = snap} {t = t} h =
    let scan : Bytes → Act H Bytes = λ out. lift (scan_targets (split out 10) []) in
    let choose : Bytes → Act H Source =
      λ target. lift (find_target fsp.fs target (eligible fsp base)) in
    let ask = zfs H (codes "send" ∷ codes "-nP" ∷ tail send_args) in
    let (out, u, a, p) = run_ok ask (λ out. scan out >>= choose) s h in
    let (target, v, b, q) = run_ok (scan out) choose u p in
    let found : find_target fsp.fs target (eligible fsp base) ≡ ok snap = ap (λ r. r.0) q in
    let (name, fs, mem, snapshot) =
      find_target-eligible fsp.fs target (eligible fsp base) (eligible-IsSnapshot fsp base) found in
    let scanned : scan_targets (split out 10) [] ≡ ok snap.name =
      ap (λ r. r.0) b ∙ ap (λ n. ok n) (sym name) in
    (
      out,
      a ∙ ap (λ w. (ok out, w)) (ap (λ r. r.1) b ∙ ap (λ r. r.1) q),
      scan_one (split out 10) scanned (named snap snapshot),
      fs,
      snapshot,
      mem,
    )
