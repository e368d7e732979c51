-- ===== src/Deleter/Snaps.antt =====
-- `getValidatedSnaps`, `ProcessFs`. The compiled regexps are a parameter, the test whether one of
-- them matches a name.
use zfsbackup.Base.{
  ℕ, Bool, false, ◌&&◌, ◌||◌, Option, none, some, List, [], ◌∷◌, ◌++◌, Bytes, codes, if◌then◌else◌,
  ltb, leb, length, parse_int, parse_uint, has_prefix, drop, ℤ, pos, ◌+ℤ◌, ltb_ℤ, eqb_ℤ, wrap_i64,
  Result, ok, err, bad_output, bad_txg, bad_timestamp, txg_order, sort_by,
}
use zfsbackup.Exec.{Host, Act, ◌>>=◌, lift}
use zfsbackup.Zfs.Json.{Json}
use zfsbackup.Zfs.Table.{zfs_list}
use zfsbackup.Deleter.Policy.{Policy}
use zfsbackup.Deleter.Mark.{Snapshot, mark_for_preservation}
use zfsbackup.Deleter.Batches.{delete_many_snaps}

-- `strings.TrimPrefix`
unfoldable pub trim_prefix : Bytes → Bytes → Bytes
unfolding has_prefix
trim_prefix p s = if has_prefix p s then drop (length p) s else s

-- The numbers of a row.
unfoldable pub parse_numbers : Bytes → Option ℕ → Option ℤ → Result Snapshot
parse_numbers name none time = err bad_txg
parse_numbers name (some txg) none = err bad_timestamp
parse_numbers name (some txg) (some time) =
    ok (record { name = name; timestamp = time; create_txg = txg; preserve = false })

-- A row of the listing, which has one value for each property that was asked for.
unfoldable pub parse_row : Bytes → List Bytes → Result Snapshot
unfolding trim_prefix parse_numbers parse_uint parse_int
parse_row fs (name ∷ txg ∷ creation ∷ _) =
    parse_numbers (trim_prefix (fs ++ b'@' ∷ []) name) (parse_uint txg) (parse_int creation)
parse_row fs _ = err bad_output

module _ (matches : Bytes → Bool) where
  -- The loop over the rows: all are parsed, and those that match are taken.
  unfoldable pub parse_rows : Bytes → List (List Bytes) → Result (List Snapshot)
  unfolding parse_row
  parse_rows fs [] = ok []
  parse_rows fs (row ∷ rows) = elim (parse_row fs row) [
    | err e ↦ err e
    | ok s ↦ elim (parse_rows fs rows) [
      | err e ↦ err e
      | ok rest ↦ ok (if matches s.name then s ∷ rest else rest)
    ]
  ]

-- Seconds since the year 1, as `time.Time` holds them, from a Unix time.
unfoldable pub time_key : ℤ → ℤ
unfolding wrap_i64 ◌+ℤ◌
time_key t = wrap_i64 (t +ℤ pos 62135596800)

-- The comparison of the sort, on the keys: by time, then by transaction.
unfoldable pub not_after : ℤ → ℕ → ℤ → ℕ → Bool
not_after t x u y = ltb_ℤ t u || (eqb_ℤ t u && leb x y)

unfoldable pub not_later : Snapshot → Snapshot → Bool
unfolding time_key not_after
not_later a b = not_after (time_key a.timestamp) a.create_txg (time_key b.timestamp) b.create_txg

-- The loop over neighbours behind the sort.
unfoldable pub check_order : Snapshot → List Snapshot → Result (Unit {0})
check_order s [] = ok tt
check_order s (t ∷ ss) =
    let rest = check_order t ss in if ltb t.create_txg s.create_txg then err txg_order else rest

unfoldable pub ordered : List Snapshot → Result (List Snapshot)
unfolding check_order
ordered [] = ok []
ordered (s ∷ ss) = elim (check_order s ss) [ err e ↦ err e | ok u ↦ ok (s ∷ ss) ]

-- What `getValidatedSnaps` does with the listing.
unfoldable pub validate : (Bytes → Bool) → Bytes → List (List Bytes) → Result (List Snapshot)
unfolding parse_rows sort_by not_later ordered
validate matches fs rows = elim (parse_rows matches fs rows) [
  | err e ↦ err e
  | ok snaps ↦ ordered (sort_by not_later snaps)
]

module _ (H : Host) (decode : Bytes → Option Json) where
  unfoldable pub get_validated_snaps : (Bytes → Bool) → Bytes → Act H (List Snapshot)
  unfolding zfs_list validate
  get_validated_snaps matches fs =
      zfs_list H decode (codes "name" ∷ codes "createtxg" ∷ codes "creation" ∷ [])
        (codes "snapshot") fs (codes "-s" ∷ codes "createtxg" ∷ [])
      >>= λ rows. lift (validate matches fs rows)

  -- `ProcessFs`
  unfoldable pub process_fs : (Bytes → Bool) → Policy → Bytes → Bool → Act H (Unit {0})
  unfolding get_validated_snaps mark_for_preservation delete_many_snaps
  process_fs matches p fs dry_run = get_validated_snaps matches fs >>= λ snaps.
      lift (mark_for_preservation p snaps) >>= λ names.
      delete_many_snaps H (length names) fs dry_run names
