-- ===== src/Snapshot/Skip.antt =====
-- `MaybeSkipSnaps`: file systems in which nothing was written since a recent snapshot.
use zfsbackup.Base.{
  ℕ, ◌/◌, Option, none, some, List, [], ◌∷◌, Bytes, codes, if◌then◌else◌, is_empty, text_eq,
  parse_int, ℤ, pos, ◌-ℤ◌, ltb_ℤ, Result, ok, err, bad_output,
}
use zfsbackup.Config.{SnapshotConfig}
use zfsbackup.Duration.{second, parse_duration}
use zfsbackup.Names.{fs_name}
use zfsbackup.Exec.{Host, Act, ◌>>=◌, lift, attempt}
use zfsbackup.Zfs.Tabular.{parse_tabular_batched}

-- The loop over the first query: the file systems whose `written` is 0.
unfoldable pub empty_fs : List (List Bytes) → Result (List Bytes)
unfolding text_eq
empty_fs [] = ok []
empty_fs ((fs ∷ written ∷ _) ∷ rows) = elim (empty_fs rows) [
  | err e ↦ err e
  | ok rest ↦ ok (if text_eq written (codes "0") then fs ∷ rest else rest)
]
empty_fs (_ ∷ rows) = err bad_output

-- `latestSnapTimes`, newest entry first; an absent key is 0.
abbrev pub Times : Type 0
Times = List (Bytes × ℤ)

unfoldable pub time_of : Bytes → Times → ℤ
unfolding text_eq
time_of fs [] = pos 0
time_of fs ((k, t) ∷ times) = let rest = time_of fs times in if text_eq k fs then t else rest

-- `m[k] = v`
unfoldable pub set_time : Bytes → ℤ → Times → Times
unfolding text_eq
set_time fs t [] = (fs, t) ∷ []
set_time fs t ((k, u) ∷ times) =
    let rest = (k, u) ∷ set_time fs t times in if text_eq k fs then (fs, t) ∷ times else rest

-- One round of the loop over the second query. A time that does not parse is passed over.
unfoldable pub note_time : Bytes → Option ℤ → Times → Times
unfolding time_of set_time fs_name
note_time name none times = times
note_time name (some t) times =
    if ltb_ℤ (time_of (fs_name name) times) t then set_time (fs_name name) t times else times

unfoldable pub note_times : List (List Bytes) → Times → Result Times
unfolding note_time parse_int
note_times [] times = ok times
note_times ((name ∷ creation ∷ _) ∷ rows) times =
    note_times rows (note_time name (parse_int creation) times)
note_times (_ ∷ rows) times = err bad_output

-- The last loop: the keys with a later time than the cutoff.
unfoldable pub newer_keys : ℤ → Times → List Bytes
newer_keys cutoff [] = []
newer_keys cutoff ((fs, t) ∷ times) =
    let rest = newer_keys cutoff times in if ltb_ℤ cutoff t then fs ∷ rest else rest

-- A duration is a number of seconds, so the cutoff needs no rounding.
unfoldable pub cutoff : ℤ → ℕ → ℤ
unfolding ◌-ℤ◌
cutoff now d = now -ℤ pos (d / second)

unfoldable pub skip_from : ℤ → ℕ → List (List Bytes) → Result (List Bytes)
unfolding note_times newer_keys cutoff
skip_from now d rows = elim (note_times rows []) [
  | err e ↦ err e
  | ok times ↦ ok (newer_keys (cutoff now d) times)
]

abbrev pub written_args : List Bytes
written_args = codes "get" ∷ codes "-H" ∷ codes "-o" ∷ codes "name,value" ∷ codes "written" ∷ []

abbrev pub creation_args : List Bytes
creation_args =
    codes "get"
    ∷ codes "-H"
    ∷ codes "-p"
    ∷ codes "-r"
    ∷ codes "-d1"
    ∷ codes "-o"
    ∷ codes "name,value"
    ∷ codes "-t"
    ∷ codes "snapshot"
    ∷ codes "creation"
    ∷ []

-- `now` is the time of the call in seconds.
module _ (H : Host) (now : ℤ) where
  -- Behind each query. Where it fails, nothing is skipped.
  unfoldable pub with_times : ℕ → Result (List (List Bytes)) → Act H (List Bytes)
  unfolding skip_from
  with_times d (err e) = lift (ok [])
  with_times d (ok rows) = lift (skip_from now d rows)

  unfoldable pub with_written : ℕ → Result (List (List Bytes)) → Act H (List Bytes)
  unfolding empty_fs parse_tabular_batched with_times
  with_written d (err e) = lift (ok [])
  with_written d (ok rows) = lift (empty_fs rows) >>= λ empty.
      attempt (parse_tabular_batched H (codes "zfs") creation_args empty) (with_times d)

  unfoldable pub with_duration : List Bytes → Result ℕ → Act H (List Bytes)
  unfolding parse_tabular_batched with_written
  with_duration fss (err e) = lift (ok [])
  with_duration fss (ok d) =
      attempt (parse_tabular_batched H (codes "zfs") written_args fss) (with_written d)

  -- `MaybeSkipSnaps`
  unfoldable pub maybe_skip_snaps : SnapshotConfig → List Bytes → Act H (List Bytes)
  unfolding parse_duration with_duration
  maybe_skip_snaps cfg fss =
      if is_empty cfg.skip_empty_younger_than
      then lift (ok [])
      else with_duration fss (parse_duration cfg.skip_empty_younger_than)
