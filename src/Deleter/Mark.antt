-- ===== src/Deleter/Mark.antt =====
-- `preserveTopN`, `preserveNewerThan` and `markForPreservation`. The snapshots stand oldest first,
-- as in the source, so a loop from the last index down to 0 is a right fold.
use zfsbackup.Base.{
  ℕ, zero, suc, ◌-◌, ◌*◌, ◌/◌, min, Bool, true, false, not, ◌&&◌, ◌||◌, List, [], ◌∷◌, Bytes, ℤ,
  pos, negsuc, pos_part, ◌+ℤ◌, ◌-ℤ◌, ltb_ℤ, leb_ℤ, eqb_ℤ, max_i64, wrap_i64, div_trunc, ◌==◌,
  if◌then◌else◌, length, Result, ok, err, ◌>>=◌, retention_hole,
}
use zfsbackup.Duration.{second}
use zfsbackup.Deleter.Policy.{Policy, Rule}

-- `snapshot`; the timestamp is its Unix time, an int64.
pub record Snapshot : Type 0 where
  pub name : Bytes
  pub timestamp : ℤ
  pub create_txg : ℕ
  pub preserve : Bool

abbrev pub mark : Snapshot → Snapshot
mark s = record s { preserve = true }

-- Marks the snapshots from an index on.
unfoldable pub mark_from : ℕ → List Snapshot → List Snapshot
mark_from i [] = []
mark_from zero (s ∷ ss) = mark s ∷ mark_from zero ss
mark_from (suc i) (s ∷ ss) = s ∷ mark_from i ss

-- `preserveTopN`. With a negative number, which `newPolicy` refuses, the loop makes no round.
unfoldable pub preserve_top_n : Policy → List Snapshot → List Snapshot
unfolding mark_from
preserve_top_n p snaps =
    let top_n = min (pos_part p.top_n) (length snaps) in mark_from (length snaps - top_n) snaps

-- `int64 * time.Second`, exactly.
unfoldable pub in_ns : ℤ → ℤ
in_ns (pos n) = pos (n * second)
in_ns (negsuc n) = negsuc (suc n * second - 1)

-- `Time.Sub` saturates at the ends of the range of a `Duration`.
unfoldable pub saturate : ℤ → ℤ
saturate d =
    if ltb_ℤ (pos max_i64) d
    then pos max_i64
    else if ltb_ℤ d (negsuc max_i64)
    then negsuc max_i64
    else d

unfoldable pub time_sub : ℤ → ℤ → ℤ
unfolding in_ns saturate ◌-ℤ◌
time_sub t u = saturate (in_ns (t -ℤ u))

-- `preserveNewerThan`
unfoldable pub preserve_newer_than : Policy → ℤ → List Snapshot → List Snapshot
unfolding time_sub
preserve_newer_than p now [] = []
preserve_newer_than p now (s ∷ ss) =
    let young = ltb_ℤ (time_sub now s.timestamp) (pos p.newer_than) in
    (if not (p.newer_than == 0) && young then mark s else s) ∷ preserve_newer_than p now ss

-- `(nowUnix - timestamp) / int64(interval/time.Second)`
unfoldable pub interval_idx : Rule → ℤ → Snapshot → ℤ
unfolding wrap_i64 ◌-ℤ◌ div_trunc
interval_idx r now s = div_trunc (wrap_i64 (now -ℤ s.timestamp)) (r.interval / second)

-- The variables of the walk: `lastInterval`, whether `holeMsg` is set, and the snapshots so far.
pub record Walk : Type 0 where
  pub last : ℤ
  pub hole : Bool
  pub snaps : List Snapshot

-- One round of the walk, at a snapshot with a given bucket.
unfoldable pub visit : Rule → Snapshot → ℤ → Walk → Result Walk
unfolding ◌+ℤ◌
visit r s idx w =
    if ltb_ℤ idx (pos 0) || leb_ℤ r.rule.count idx || eqb_ℤ idx w.last
    then ok (record w { snaps = s ∷ w.snaps })
    else let gap = ltb_ℤ (w.last +ℤ pos 1) idx && not w.hole in
      if gap && not r.rule.allow_holes
      then err retention_hole
      else ok (record { last = idx; hole = w.hole || gap; snaps = mark s ∷ w.snaps })

-- The walk under one rule, newest first.
unfoldable pub walk : Rule → ℤ → List Snapshot → Result Walk
unfolding visit interval_idx
walk r now [] = ok (record { last = negsuc 0; hole = false; snaps = [] })
walk r now (s ∷ newer) = walk r now newer >>= λ w. visit r s (interval_idx r now s) w

-- The loop over the rules.
unfoldable pub apply_rules : List Rule → ℤ → List Snapshot → Result (List Snapshot)
unfolding walk
apply_rules [] now snaps = ok snaps
apply_rules (r ∷ rs) now snaps = walk r now snaps >>= λ w. apply_rules rs now w.snaps

-- The timestamp of the last snapshot.
unfoldable pub newest : Snapshot → List Snapshot → ℤ
newest s [] = s.timestamp
newest s (t ∷ ss) = newest t ss

-- The names of the snapshots that are not preserved.
unfoldable pub to_delete : List Snapshot → List Bytes
to_delete [] = []
to_delete (s ∷ ss) = let rest = to_delete ss in if s.preserve then rest else s.name ∷ rest

-- `markForPreservation`
unfoldable pub mark_for_preservation : Policy → List Snapshot → Result (List Bytes)
unfolding preserve_top_n preserve_newer_than apply_rules newest to_delete
mark_for_preservation p [] = ok []
mark_for_preservation p (s ∷ ss) =
    let now = newest s ss in
    apply_rules p.rules now (preserve_newer_than p now (preserve_top_n p (s ∷ ss))) >>= λ marked.
    ok (to_delete marked)
