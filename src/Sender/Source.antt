-- ===== src/Sender/Source.antt =====
-- `source`, `PotentialSnapsToSend`, `ActualSnapsToSend` and `baseFor`. The compiled snapshot regexp
-- is a parameter, the test that it makes on a name.
use zfsbackup.Base.{
  ℕ, suc, Bool, false, not, ◌&&◌, ◌||◌, Option, none, some, List, [], ◌∷◌, ◌++◌, Bytes, ◌==◌,
  if◌then◌else◌, length, keep_if, is_empty, text_eq, contains_byte, has_suffix,
}
use zfsbackup.Names.{snapshot_name}

-- `source`
pub record Source : Type 0 where
  pub name : Bytes
  pub guid : Bytes

abbrev pub no_source : Source
no_source = record { name = []; guid = [] }

-- `isSnapshot`
unfoldable pub is_snapshot : Source → Bool
unfolding contains_byte
is_snapshot s = contains_byte b'@' s.name

-- A member of a set of strings, kept as a list.
unfoldable pub is_member : List Bytes → Bytes → Bool
unfolding text_eq
is_member [] x = false
is_member (y ∷ ys) x = text_eq y x || is_member ys x

-- A bookmark that marks a snapshot for one of the suffixes.
unfoldable pub has_placeholder_suffix : List Bytes → Source → Bool
unfolding has_suffix
has_placeholder_suffix [] s = false
has_placeholder_suffix (p ∷ ps) s = has_suffix (b'-' ∷ p) s.name || has_placeholder_suffix ps s

-- `candidate`
pub record Candidate : Type 0 where
  pub snap : Source
  pub matches : Bool

-- The variables of the first loop; `newest` is -1 as `none`.
pub record Collected : Type 0 where
  pub candidates : List Candidate
  pub guids : List Bytes
  pub newest : Option ℕ

abbrev pub nothing : Collected
nothing = record { candidates = []; guids = []; newest = none }

unfoldable pub is_newest : ℕ → Option ℕ → Bool
is_newest i none = false
is_newest i (some j) = i == j

-- The base itself, by its GUID. A zero base has none.
unfoldable pub is_base : Source → Source → Bool
unfolding text_eq
is_base base s = not (is_empty base.guid) && text_eq s.guid base.guid

module _ (re : Bytes → Bool) where
  unfoldable pub matches_re : Source → Bool
  unfolding snapshot_name
  matches_re s = re (snapshot_name s.name)

  -- `PotentialSnapsToSend`
  unfoldable pub potential_snaps_to_send : List Source → List Source
  unfolding is_snapshot matches_re
  potential_snaps_to_send = keep_if (λ s. is_snapshot s && matches_re s)

  module _ (sync_placeholders : List Bytes) where
    -- What the first loop does with a source behind the base.
    unfoldable pub collect_one : Source → Collected → Collected
    unfolding is_snapshot has_placeholder_suffix matches_re
    collect_one s c =
        if not (is_snapshot s)
        then (if has_placeholder_suffix sync_placeholders s
            then record c { guids = s.guid ∷ c.guids }
            else c)
        else record {
          candidates = c.candidates ++ record { snap = s; matches = matches_re s } ∷ [];
          guids = c.guids;
          newest = if matches_re s then some (length c.candidates) else c.newest;
        }

    -- The first loop.
    unfoldable pub collect : Source → Bool → List Source → Collected → Collected
    unfolding collect_one is_base
    collect base after_base [] c = c
    collect base after_base (s ∷ ss) c =
        let here = is_base base s in
        collect base (here || after_base) ss (if not here && after_base then collect_one s c else c)

    -- The second loop, from the index of its first candidate.
    unfoldable pub pick : Bool → List Bytes → Option ℕ → ℕ → List Candidate → List Source
    unfolding is_member is_newest
    pick intermediate guids newest i [] = []
    pick intermediate guids newest i (c ∷ cs) =
        let rest = pick intermediate guids newest (suc i) cs in
        if is_member guids c.snap.guid || (c.matches && (intermediate || is_newest i newest))
        then c.snap ∷ rest
        else rest

    -- `ActualSnapsToSend`
    unfoldable pub actual_snaps_to_send : Bool → List Source → Source → List Source
    unfolding collect pick
    actual_snaps_to_send intermediate sources base =
        let c = collect base (is_empty base.guid) sources nothing in
        pick intermediate c.guids c.newest 0 c.candidates

-- The loop of `baseFor`, with the first bookmark found so far.
unfoldable pub base_loop : Bytes → List Source → Option Source → Option Source
unfolding is_snapshot text_eq
base_loop guid [] bookmark = bookmark
base_loop guid (s ∷ ss) bookmark =
    let next : Option Source = elim bookmark [ none ↦ some s | some b ↦ some b ] in
    let rest = base_loop guid ss (if text_eq s.guid guid then next else bookmark) in
    if text_eq s.guid guid && is_snapshot s then some s else rest

-- `baseFor`
unfoldable pub base_for : List Source → Bytes → Option Source
unfolding base_loop
base_for sources guid = base_loop guid sources none
