-- ===== src/Sender/Marks.antt =====
-- `sendPlaceholders`: the receiver learns the GUIDs that the synchronised placeholders stand for.
use zfsbackup.Base.{
  Option, none, some, List, [], ◌∷◌, Bytes, codes, if◌then◌else◌, is_empty, text_eq, split, Result,
  ok, err, bad_output, command_failed,
}
use zfsbackup.Config.{PlaceholderEntry}
use zfsbackup.Names.{bookmark_name}
use zfsbackup.Exec.{Host, Act, ◌>>=◌, lift}
use zfsbackup.Wire.{Codec, Stage, Link}
use zfsbackup.Zfs.Json.{Json}
use zfsbackup.Zfs.Table.{zfs_list}
use zfsbackup.Zfs.Bookmarks.{last_part}
use zfsbackup.Sender.Plan.{FsProcessor, build_receiver_cmd, receiver_args}

-- `arr[len(arr)-1]`, for two parts or more.
unfoldable pub suffix_of : List Bytes → Option Bytes
unfolding last_part
suffix_of [] = none
suffix_of (p ∷ []) = none
suffix_of (p ∷ q ∷ qs) = some (last_part q qs)

-- `potentialPlaceholders`, newest entry first, and what a bookmark adds to it.
abbrev pub Guids : Type 0
Guids = List (Bytes × Bytes)

unfoldable pub note_guid : Option Bytes → Bytes → Guids → Guids
note_guid none guid m = m
note_guid (some suffix) guid m = (suffix, guid) ∷ m

-- The loop over the bookmarks, oldest first.
unfoldable pub note_guids : List (List Bytes) → Guids → Result Guids
unfolding suffix_of split bookmark_name note_guid
note_guids [] m = ok m
note_guids ((name ∷ guid ∷ _) ∷ rows) m =
    note_guids rows (note_guid (suffix_of (split (bookmark_name name) b'-')) guid m)
note_guids (_ ∷ rows) m = err bad_output

unfoldable pub guid_of : Bytes → Guids → Option Bytes
unfolding text_eq
guid_of p [] = none
guid_of p ((k, guid) ∷ m) = let rest = guid_of p m in if text_eq k p then some guid else rest

unfoldable pub add_entry : Bytes → Option Bytes → List PlaceholderEntry → List PlaceholderEntry
add_entry p none es = es
add_entry p (some guid) es = record { name = p; guid = guid } ∷ es

-- The loop over the placeholders.
unfoldable pub entries : Guids → List Bytes → List PlaceholderEntry
unfolding add_entry guid_of
entries m [] = []
entries m (p ∷ ps) = add_entry p (guid_of p m) (entries m ps)

module _ (H : Host) (decode : Bytes → Option Json) (C : Codec) (L : Link H) where
  unfoldable pub feed_text : Stage → Bytes → Act H (Unit {0})
  feed_text cmd text s =
      let (out, s') = L.feed cmd.0 cmd.1 text s in
      elim out [ none ↦ (err command_failed, s') | some b ↦ (ok tt, s') ]

  -- The message, where there is something to say.
  unfoldable pub tell : FsProcessor → List PlaceholderEntry → Act H (Unit {0})
  unfolding feed_text build_receiver_cmd receiver_args
  tell fsp es =
      if is_empty es
      then lift (ok tt)
      else feed_text
          (build_receiver_cmd fsp.dst.receiver (receiver_args (codes "set_placeholders") fsp.fs))
          (C.placeholders_text (record { fs = fsp.fs; placeholders = es }))

  -- `sendPlaceholders`
  unfoldable pub send_placeholders : FsProcessor → Act H (Unit {0})
  unfolding zfs_list note_guids entries tell
  send_placeholders fsp =
      let ask =
        zfs_list H decode (codes "name" ∷ codes "guid" ∷ []) (codes "bookmark") fsp.fs
          (codes "-s" ∷ codes "createtxg" ∷ [])
        >>= λ rows.
            lift (note_guids rows []) >>= λ m. tell fsp (entries m fsp.dst.sync_placeholders) in
      if is_empty fsp.dst.sync_placeholders then lift (ok tt) else ask
