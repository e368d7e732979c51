-- ===== src/Sender/Known.antt =====
-- Which GUIDs `sendPlaceholders` tells the receiver.
use zfsbackup.Base.{
  Bool, false, not, ◌&&◌, Option, none, some, List, [], ◌∷◌, Bytes, is_empty, text_eq, has_suffix,
  split_parts, if◌then◌else◌,
}
use zfsbackup.Config.{PlaceholderEntry}
use zfsbackup.Names.{bookmark_name}
use zfsbackup.Zfs.Bookmarks.{last_part}

-- The suffix, if there is one, is this.
is_suffix : Bytes → Option Bytes → Bool
is_suffix p none = false
is_suffix p (some q) = text_eq q p

-- The last part behind a hyphen, compared as `sendPlaceholders` does.
ends_in : Bytes → Bytes → Bool
ends_in p s =
    not (is_empty (split_parts b'-' s).1)
    && text_eq (last_part (split_parts b'-' s).0 (split_parts b'-' s).1) p

-- The GUID of the last bookmark whose name ends in a hyphen and the suffix, or the one before.
pub last_guid : Bytes → List (List Bytes) → Option Bytes → Option Bytes
unfolding has_suffix bookmark_name
last_guid p [] before = before
last_guid p ((name ∷ guid ∷ _) ∷ rows) before =
    last_guid p rows (if has_suffix (b'-' ∷ p) (bookmark_name name) then some guid else before)
last_guid p (_ ∷ rows) before = last_guid p rows before

-- An entry for each placeholder that some bookmark stands for.
pub known : List (List Bytes) → List Bytes → List PlaceholderEntry
known rows [] = []
known rows (p ∷ ps) = elim (last_guid p rows none) [
  | none ↦ known rows ps
  | some guid ↦ record { name = p; guid = guid } ∷ known rows ps
]
