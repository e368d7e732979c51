-- ===== src/Deleter/Times.antt =====
-- On snapshots sorted by time the code's int64 arithmetic is exact.
use native.Mathlib.Nat.{le-div_iff_mul-le, div-mul-le_self}
use zfsbackup.Base.{
  ℕ, ◌-◌, ◌*◌, ◌/◌, ◌≤◌, ◌≡◌, ap, not, ◌&&◌, List, [], ◌∷◌, arith, ℤ, pos, negsuc, pos_part, ◌≤ℤ◌,
  ◌-ℤ◌, ltb_ℤ, ltb, ◌==◌, All, max_i64, sub_i64-pos, wrap_i64, div_trunc,
}
use zfsbackup.Duration.{second}
use zfsbackup.Deleter.Policy.{Rule, IsUsable}
use zfsbackup.Deleter.Mark.{Snapshot, saturate, time_sub, interval_idx, newest}
use zfsbackup.Deleter.Keep.{age, bucket}
use zfsbackup.Deleter.Walk.{AllExact, AllUpTo, IsOrdered}
use zfsbackup.Deleter.Sequence.{Fits}

-- Not before 1970.
abbrev pub InRange : Snapshot → Type 0
InRange s = (pos 0 ≤ℤ s.timestamp) × (s.timestamp ≤ℤ pos max_i64)

abbrev pub AllBy : ℤ → List Snapshot → Type 0
AllBy now = All (λ s. s.timestamp ≤ℤ now)

abbrev pub AllFrom : ℤ → List Snapshot → Type 0
AllFrom t = All (λ s. t ≤ℤ s.timestamp)

-- Oldest first.
abbrev pub IsSorted : List Snapshot → Type 0
IsSorted [] = Unit
IsSorted (s ∷ newer) = AllFrom s.timestamp newer × IsSorted newer

sub_exact :
    (t u : ℤ)
    → pos 0 ≤ℤ u
    → u ≤ℤ t
    → t ≤ℤ pos max_i64
    → wrap_i64 (t -ℤ u) ≡ pos (pos_part t - pos_part u)
sub_exact (pos a) (pos b) h k l = sub_i64-pos a b (omega arith) (omega arith)
sub_exact (pos a) (negsuc b) h k l = absurd (omega arith)
sub_exact (negsuc a) (pos b) h k l = absurd (omega arith)
sub_exact (negsuc a) (negsuc b) h k l = absurd (omega arith)

interval_idx-bucket :
    (r : Rule) (now : ℤ) (s : Snapshot)
    → InRange s
    → s.timestamp ≤ℤ now
    → now ≤ℤ pos max_i64
    → interval_idx r now s ≡ pos (bucket r now s)
unfolding interval_idx bucket
interval_idx-bucket r now s h k l =
    ap (λ (z : ℤ). div_trunc z (r.interval / second)) (sub_exact now s.timestamp h.0 k l)

time_sub_exact :
    (t u : ℤ)
    → pos 0 ≤ℤ u
    → u ≤ℤ t
    → t ≤ℤ pos max_i64
    → time_sub t u ≡ saturate (pos ((pos_part t - pos_part u) * second))
unfolding time_sub
time_sub_exact (pos a) (pos b) h k l = ground arith
time_sub_exact (pos a) (negsuc b) h k l = absurd (omega arith)
time_sub_exact (negsuc a) (pos b) h k l = absurd (omega arith)
time_sub_exact (negsuc a) (negsuc b) h k l = absurd (omega arith)

-- The saturation does not change the test, and the test for an unset duration is implied.
pub young_exact :
    (window : ℕ) (now : ℤ) (s : Snapshot)
    → window ≤ max_i64
    → InRange s
    → s.timestamp ≤ℤ now
    → now ≤ℤ pos max_i64
    → (not (window == 0) && ltb_ℤ (time_sub now s.timestamp) (pos window))
      ≡ ltb (age now s * second) window
unfolding saturate
young_exact window now s w h k l = rw (time_sub_exact now s.timestamp h.0 k l) (ground arith)

div_mono : (a b d : ℕ) → 1 ≤ d → a ≤ b → a / d ≤ b / d
div_mono a b d h k = (le-div_iff_mul-le h).1 (omega (arith, div-mul-le_self a d))

bucket-le :
    (r : Rule) (now : ℤ) (s t : Snapshot)
    → IsUsable r
    → InRange s
    → InRange t
    → s.timestamp ≤ℤ t.timestamp
    → bucket r now t ≤ bucket r now s
unfolding bucket
bucket-le r now s t u h k l =
    div_mono (age now t) (age now s) (r.interval / second) u.wide (ground (arith, h, k, l))

module _ (r : Rule) (u : IsUsable r) (now : ℤ) (top : now ≤ℤ pos max_i64) where
  all_exact : (ss : List Snapshot) → All InRange ss → AllBy now ss → AllExact r now ss
  all_exact [] h k = tt
  all_exact (s ∷ ss) h k = (interval_idx-bucket r now s h.0 k.0 top, all_exact ss h.1 k.1)

  all_up_to :
      (s : Snapshot) (ss : List Snapshot)
      → InRange s
      → All InRange ss
      → AllFrom s.timestamp ss
      → AllUpTo r now (bucket r now s) ss
  all_up_to s [] h k l = tt
  all_up_to s (t ∷ ss) h k l = (bucket-le r now s t u h k.0 l.0, all_up_to s ss h k.1 l.1)

  All-IsOrdered : (ss : List Snapshot) → All InRange ss → IsSorted ss → IsOrdered r now ss
  All-IsOrdered [] h k = tt
  All-IsOrdered (s ∷ ss) h k = (all_up_to s ss h.0 h.1 k.0, All-IsOrdered ss h.1 k.1)

  -- Sorted snapshots are what a walk needs.
  pub sorted-Fits :
      (ss : List Snapshot) → All InRange ss → AllBy now ss → IsSorted ss → Fits now ss r
  sorted-Fits ss h k l = record {
    usable = u;
    exact = all_exact ss h k;
    ordered = All-IsOrdered ss h l;
  }

AllBy-weaken : (a b : ℤ) (ss : List Snapshot) → a ≤ℤ b → AllBy a ss → AllBy b ss
AllBy-weaken a b [] h k = tt
AllBy-weaken a b (s ∷ ss) h k = (omega (arith, k.0), AllBy-weaken a b ss h k.1)

-- The last snapshot is the newest, and lies in the range too.
pub newest_bounds :
    (s : Snapshot) (ss : List Snapshot)
    → All InRange (s ∷ ss)
    → IsSorted (s ∷ ss)
    → (newest s ss ≤ℤ pos max_i64) × AllBy (newest s ss) (s ∷ ss)
unfolding newest
newest_bounds s [] h k = ground arith
newest_bounds s (t ∷ ss) h k =
    let (top, by) = newest_bounds t ss h.1 k.1 in (top, (omega (arith, k.0.0, by.0), by))
