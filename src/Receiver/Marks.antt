-- ===== src/Receiver/Marks.antt =====
-- `setPlaceholders` of the receiver.
use zfsbackup.Base.{
  Bool, ◌&&◌, Option, none, some, List, [], ◌∷◌, ◌++◌, Bytes, codes, if◌then◌else◌, is_empty, any,
  contains, text_eq, has_suffix, GroupMap, group_of, add_to_group, Error, Result, ok, err,
  bad_output, invalid_placeholder, fs_disagreement, nothing_for_guid,
}
use zfsbackup.Config.{PlaceholderEntry, SetPlaceholders}
use zfsbackup.Names.{is_valid_placeholder, is_valid_zfs_dataset}
use zfsbackup.Exec.{Host, Act, errors_of, run_each}
use zfsbackup.Zfs.Json.{Json}
use zfsbackup.Zfs.Table.{zfs_list}
use zfsbackup.Zfs.Bookmarks.{zfs_set_placeholder}
use zfsbackup.Receiver.Suggestion.{destination}

-- `interestingGuids`, once all names are valid.
unfoldable pub interesting_guids : List PlaceholderEntry → Result (List Bytes)
unfolding is_valid_placeholder
interesting_guids [] = ok []
interesting_guids (p ∷ ps) =
    let rest : Result (List Bytes) = elim (interesting_guids ps) [
      | err e ↦ err e
      | ok guids ↦ ok (p.guid ∷ guids)
    ] in
    if is_valid_placeholder p.name then rest else err invalid_placeholder

-- The tests of the payload, in front of the listings.
unfoldable pub check_payload :
    Bytes → Option SetPlaceholders → Result (SetPlaceholders × List Bytes)
unfolding interesting_guids is_valid_zfs_dataset text_eq
check_payload ds none = err bad_output
check_payload ds (some sp) = elim (interesting_guids sp.placeholders) [
  | err e ↦ err e
  | ok guids ↦ elim (is_valid_zfs_dataset sp.fs) [
    | err e ↦ err e
    | ok u ↦ if text_eq sp.fs ds then ok (sp, guids) else err fs_disagreement
  ]
]

-- The loop over the rows of a listing: the names by GUID, for the GUIDs that matter.
unfoldable pub by_guid : List Bytes → List (List Bytes) → GroupMap Bytes → Result (GroupMap Bytes)
unfolding contains add_to_group
by_guid guids [] m = ok m
by_guid guids ((name ∷ guid ∷ _) ∷ rows) m =
    by_guid guids rows (if contains guids guid then add_to_group guid name m else m)
by_guid guids (_ ∷ rows) m = err bad_output

unfoldable pub is_marked : Bytes → List Bytes → Bool
unfolding has_suffix
is_marked name = any (λ b. has_suffix (b'-' ∷ name) b)

module _ (H : Host) (decode : Bytes → Option Json) where
  unfoldable pub set_first : Bytes → List Bytes → H.State → List Error × H.State
  unfolding zfs_set_placeholder errors_of
  set_first name [] s = (nothing_for_guid ∷ [], s)
  set_first name (item ∷ items) s =
      let (r, s') = zfs_set_placeholder H decode item name s in (errors_of r, s')

  -- A round of the loop over the placeholders, for the snapshots and bookmarks of its GUID.
  unfoldable pub set_one : Bytes → List Bytes → List Bytes → H.State → List Error × H.State
  unfolding is_marked set_first
  set_one name snaps bms s =
      let set = set_first name (snaps ++ bms) s in
      if is_empty bms && is_empty snaps
      then (nothing_for_guid ∷ [], s)
      else if is_marked name bms
      then ([], s)
      else set

  -- Behind the listings.
  unfoldable pub set_listed :
      List PlaceholderEntry
      → List Bytes
      → List (List Bytes)
      → List (List Bytes)
      → H.State
      → List Error × H.State
  unfolding by_guid set_one group_of run_each
  set_listed ps guids snaps bms s = elim (by_guid guids snaps []) [
    | err e ↦ (e ∷ [], s)
    | ok m ↦ elim (by_guid guids bms []) [
      | err e ↦ (e ∷ [], s)
      | ok n ↦ run_each (λ p. set_one p.name (group_of p.guid m) (group_of p.guid n)) ps s
    ]
  ]

  unfoldable pub list_guids : Bytes → Bytes → Act H (List (List Bytes))
  unfolding zfs_list
  list_guids kind dest = zfs_list H decode (codes "name" ∷ codes "guid" ∷ []) kind dest []

  unfoldable pub set_checked : Bytes → SetPlaceholders → List Bytes → H.State → List Error × H.State
  unfolding destination list_guids set_listed
  set_checked baseds sp guids s =
      let dest = destination baseds sp.fs in
      let (snaps, s') = list_guids (codes "snapshot") dest s in
      let (bms, s'') = list_guids (codes "bookmark") dest s' in
      elim snaps [
        | err e ↦ (e ∷ [], s')
        | ok rows ↦ elim bms [
          | err e ↦ (e ∷ [], s'')
          | ok marks ↦ set_listed sp.placeholders guids rows marks s''
        ]
      ]

  -- `setPlaceholders`, for the payload as decoded.
  unfoldable pub set_placeholders :
      Bytes → Bytes → Option SetPlaceholders → H.State → List Error × H.State
  unfolding check_payload set_checked
  set_placeholders baseds ds payload s = elim (check_payload ds payload) [
    | err e ↦ (e ∷ [], s)
    | ok (sp, guids) ↦ set_checked baseds sp guids s
  ]
