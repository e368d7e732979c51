-- ===== src/Deleter/Keep.antt =====
-- The retention that the configuration asks for, in exact arithmetic: which snapshot is kept, by
-- its own age and the snapshots that are newer.
use zfsbackup.Base.{
  ℕ, ◌-◌, ◌*◌, ◌/◌, Bool, false, not, ◌&&◌, ◌||◌, List, [], ◌∷◌, Bytes, pos_part, ltb, ◌==◌,
  if◌then◌else◌, length, ℤ,
}
use zfsbackup.Duration.{second}
use zfsbackup.Deleter.Policy.{Policy, Rule}
use zfsbackup.Deleter.Mark.{Snapshot}

-- The age in seconds, from the newest snapshot.
abbrev pub age : ℤ → Snapshot → ℕ
age now s = pos_part now - pos_part s.timestamp

-- The bucket of a rule that an age falls into.
unfoldable pub bucket : Rule → ℤ → Snapshot → ℕ
bucket r now s = age now s / (r.interval / second)

-- Some of the snapshots lies in a bucket.
unfoldable pub occupied : Rule → ℤ → ℕ → List Snapshot → Bool
occupied r now b [] = false
occupied r now b (s ∷ ss) = bucket r now s == b || occupied r now b ss

-- A rule keeps the newest snapshot of each of its buckets.
unfoldable pub keeps : Rule → ℤ → Snapshot → List Snapshot → Bool
unfolding bucket occupied
keeps r now s newer =
    ltb (bucket r now s) (pos_part r.rule.count) && not (occupied r now (bucket r now s) newer)

-- A snapshot that a rule keeps lies behind an empty bucket.
unfoldable pub has_gap : Rule → ℤ → List Snapshot → Bool
unfolding keeps
has_gap r now [] = false
has_gap r now (s ∷ newer) =
    has_gap r now newer
    || keeps r now s newer
      && not (bucket r now s == 0)
      && not (occupied r now (bucket r now s - 1) newer)

-- The rule stops the run: it has a gap and does not allow one.
unfoldable pub blocks : ℤ → List Snapshot → Rule → Bool
unfolding has_gap
blocks now snaps r = not r.rule.allow_holes && has_gap r now snaps

unfoldable pub kept_by_rules : List Rule → ℤ → Snapshot → List Snapshot → Bool
unfolding keeps
kept_by_rules [] now s newer = false
kept_by_rules (r ∷ rs) now s newer = keeps r now s newer || kept_by_rules rs now s newer

-- Kept as one of the newest, as young, or by a rule.
unfoldable pub is_kept : Policy → ℤ → Snapshot → List Snapshot → Bool
unfolding kept_by_rules
is_kept p now s newer =
    ltb (length newer) (pos_part p.top_n)
    || ltb (age now s * second) p.newer_than
    || kept_by_rules p.rules now s newer

-- The names of the other snapshots, oldest first.
unfoldable pub obsolete : Policy → ℤ → List Snapshot → List Bytes
unfolding is_kept
obsolete p now [] = []
obsolete p now (s ∷ newer) =
    let rest = obsolete p now newer in if is_kept p now s newer then rest else s.name ∷ rest
