-- ===== src/Sender/Select.antt =====
-- Which snapshots a run should send, by each snapshot's own name and what stands around it.
use zfsbackup.Base.{Bool, not, ◌&&◌, ◌||◌, List, [], ◌∷◌, Bytes, if◌then◌else◌, any}
use zfsbackup.Sender.Source.{Source, is_snapshot, has_placeholder_suffix, matches_re}

-- The sources behind the base: those after the first with its GUID, without others that share it.
unfoldable pub behind_base : (Source → Bool) → Bool → List Source → List Source
behind_base base after [] = []
behind_base base after (s ∷ ss) =
    let rest = behind_base base (base s || after) ss in
    if not (base s) && after then s ∷ rest else rest

-- The GUIDs that the bookmarks of the synchronised placeholders stand for.
unfoldable pub marked_guids : List Bytes → List Source → List Bytes
unfolding is_snapshot has_placeholder_suffix
marked_guids ps [] = []
marked_guids ps (s ∷ ss) =
    let rest = marked_guids ps ss in
    if not (is_snapshot s) && has_placeholder_suffix ps s then s.guid ∷ rest else rest

module _ (re : Bytes → Bool) where
  unfoldable pub is_match : Source → Bool
  unfolding is_snapshot matches_re
  is_match s = is_snapshot s && matches_re re s

  -- A snapshot is sent if a placeholder marks it, or if it matches and is the last that does, or
  -- if it matches and all of these are wanted.
  unfoldable pub is_wanted : Bool → (Bytes → Bool) → Source → List Source → Bool
  unfolding is_match
  is_wanted intermediate marked s later =
      is_snapshot s
      && (marked s.guid || (matches_re re s && (intermediate || not (any is_match later))))

  unfoldable pub wanted : Bool → (Bytes → Bool) → List Source → List Source
  unfolding is_wanted
  wanted intermediate marked [] = []
  wanted intermediate marked (s ∷ later) =
      let rest = wanted intermediate marked later in
      if is_wanted intermediate marked s later then s ∷ rest else rest
