-- ===== src/Deleter/Timeline.antt =====
-- What `getValidatedSnaps` leaves is what the retention needs.
use mathlib.Core.Path.{subst}
use mathlib.Core.List.{Perm}
use zfsbackup.Base.{
  outcome, ℕ, ◌≤◌, ◌+◌, ◌^◌, ◌≡◌, inl, inr, Bool, true, false, List, [], ◌∷◌, Bytes, arith, All, ℤ,
  pos, negsuc, pos_part, ◌≤ℤ◌, sym, ok, sort_by, sort_by-perm, sort_by-IsSortedBy, IsSortedBy,
  AllBehind, All-sort_by,
}
use zfsbackup.Deleter.Mark.{Snapshot}
use zfsbackup.Deleter.Snaps.{
  parse_rows, time_key, not_after, not_later, check_order, ordered, validate,
}
use zfsbackup.Deleter.Times.{InRange, IsSorted, AllFrom}
use zfsbackup.Deleter.Retention.{IsTimeline}
use zfsbackup.Deleter.Listing.{
  IsTaken, Described, matching, parse_rows-IsTaken, parse_rows-Described,
}

not_after-total : (t u : ℤ) (x y : ℕ) → not_after t x u y ≡ false → not_after u y t x ≡ true
unfolding not_after
not_after-total t u x y h = ground arith

not_after_trans :
    (t u v : ℤ) (x y z : ℕ)
    → not_after t x u y ≡ true
    → not_after u y v z ≡ true
    → not_after t x v z ≡ true
unfolding not_after
not_after_trans t u v x y z h k = ground arith

not_after-le : (t u : ℤ) (x y : ℕ) → not_after t x u y ≡ true → t ≤ℤ u
unfolding not_after
not_after-le t u x y h = ground arith

not_later-total : (a b : Snapshot) → not_later a b ≡ false → not_later b a ≡ true
unfolding not_later
not_later-total a b h =
    not_after-total (time_key a.timestamp) (time_key b.timestamp) a.create_txg b.create_txg h

not_later_trans :
    (a b c : Snapshot) → not_later a b ≡ true → not_later b c ≡ true → not_later a c ≡ true
unfolding not_later
not_later_trans a b c h k =
    not_after_trans (time_key a.timestamp) (time_key b.timestamp) (time_key c.timestamp)
      a.create_txg b.create_txg c.create_txg h k

-- Between 1970 and the year 146 billion.
abbrev pub IsPlausible : Snapshot → Type 0
IsPlausible s = (pos 0 ≤ℤ s.timestamp) × (s.timestamp ≤ℤ pos (2 ^ 62))

time_key_exact :
    (t : ℤ) → pos 0 ≤ℤ t → t ≤ℤ pos (2 ^ 62) → time_key t ≡ pos (pos_part t + 62135596800)
unfolding time_key
time_key_exact (pos n) h k = ground arith
time_key_exact (negsuc n) h k = absurd (omega arith)

key-le :
    (t u : ℤ)
    → pos 0 ≤ℤ t
    → t ≤ℤ pos (2 ^ 62)
    → pos 0 ≤ℤ u
    → u ≤ℤ pos (2 ^ 62)
    → time_key t ≤ℤ time_key u
    → t ≤ℤ u
key-le t u h k l m e = ground (arith, time_key_exact t h k, time_key_exact u l m)

not_later-le :
    (a b : Snapshot)
    → IsPlausible a
    → IsPlausible b
    → not_later a b ≡ true
    → a.timestamp ≤ℤ b.timestamp
unfolding not_later
not_later-le a b h k l =
    key-le a.timestamp b.timestamp h.0 h.1 k.0 k.1
      (not_after-le (time_key a.timestamp) (time_key b.timestamp) a.create_txg b.create_txg l)

AllBehind-AllFrom :
    (s : Snapshot) (ss : List Snapshot)
    → IsPlausible s
    → All IsPlausible ss
    → AllBehind not_later s ss
    → AllFrom s.timestamp ss
AllBehind-AllFrom s [] h k l = tt
AllBehind-AllFrom s (t ∷ ss) h k l = (not_later-le s t h k.0 l.0, AllBehind-AllFrom s ss h k.1 l.1)

IsSortedBy-IsSorted :
    (ss : List Snapshot) → All IsPlausible ss → IsSortedBy not_later ss → IsSorted ss
IsSortedBy-IsSorted [] h k = tt
IsSortedBy-IsSorted (s ∷ ss) h k =
    (AllBehind-AllFrom s ss h.0 h.1 k.0, IsSortedBy-IsSorted ss h.1 k.1)

All-InRange : (ss : List Snapshot) → All IsPlausible ss → All InRange ss
All-InRange [] h = tt
All-InRange (s ∷ ss) h = ((h.0.0, omega (arith, h.0.1)), All-InRange ss h.1)

-- No snapshot has a lower transaction number than the one before it.
abbrev pub IsTxgOrdered : List Snapshot → Type 0
IsTxgOrdered [] = Unit
IsTxgOrdered (s ∷ []) = Unit
IsTxgOrdered (s ∷ t ∷ ss) = (s.create_txg ≤ t.create_txg) × IsTxgOrdered (t ∷ ss)

check_order-IsTxgOrdered :
    (s : Snapshot) (ss : List Snapshot) → check_order s ss ≡ ok tt → IsTxgOrdered (s ∷ ss)
unfolding check_order
check_order-IsTxgOrdered s [] h = tt
check_order-IsTxgOrdered s (t ∷ ss) h = ground (arith, check_order-IsTxgOrdered t ss)

ordered_sound :
    (ss : List Snapshot) {out : List Snapshot} → ordered ss ≡ ok out → (out ≡ ss) × IsTxgOrdered ss
unfolding ordered
ordered_sound [] h = ground arith
ordered_sound (s ∷ ss) h = ground (arith, check_order-IsTxgOrdered s ss)

validate_cases :
    (matches : Bytes → Bool) (fs : Bytes) (rows : List (List Bytes)) {snaps : List Snapshot}
    → validate matches fs rows ≡ ok snaps
    → (taken : List Snapshot) × (parse_rows matches fs rows ≡ ok taken)
      × (ordered (sort_by not_later taken) ≡ ok snaps)
unfolding validate
validate_cases matches fs rows h = elim (outcome (parse_rows matches fs rows)) [
  | inl (e, p) ↦ absurd (ground arith)
  | inr (taken, p) ↦ (taken, p, ground arith)
]

All-fresh :
    (matches : Bytes → Bool) (ss : List Snapshot)
    → All (IsTaken matches) ss
    → All (λ s. s.preserve ≡ false) ss
All-fresh matches [] h = tt
All-fresh matches (s ∷ ss) h = (h.0.0, All-fresh matches ss h.1)

-- What `getValidatedSnaps` accepts is the taken snapshots, sorted by time as `time.Time` has it and
-- then by transaction number.
validated-IsSortedBy :
    (taken : List Snapshot) {snaps : List Snapshot}
    → ordered (sort_by not_later taken) ≡ ok snaps
    → IsSortedBy not_later snaps
validated-IsSortedBy taken q =
    subst (IsSortedBy not_later) (sym (ordered_sound (sort_by not_later taken) q).0)
      (sort_by-IsSortedBy not_later not_later-total not_later_trans taken)

validated-IsTaken :
    (matches : Bytes → Bool) (fs : Bytes) (rows : List (List Bytes)) {taken snaps : List Snapshot}
    → parse_rows matches fs rows ≡ ok taken
    → ordered (sort_by not_later taken) ≡ ok snaps
    → All (IsTaken matches) snaps
validated-IsTaken matches fs rows {taken} p q =
    subst (All (IsTaken matches)) (sym (ordered_sound (sort_by not_later taken) q).0)
      (All-sort_by not_later (IsTaken matches) taken (parse_rows-IsTaken matches fs rows p))

-- Where getValidatedSnaps accepts a listing, every row is one of a snapshot, and what it leaves is a
-- rearrangement of those snapshots, one for each row, that some regexp matches, none lost and none
-- twice; no snapshot has a lower transaction number than the one before it.
pub validate_exact :
    (matches : Bytes → Bool) (fs : Bytes) (rows : List (List Bytes)) {snaps : List Snapshot}
    → validate matches fs rows ≡ ok snaps
    → ((all : List Snapshot) × Described fs rows all × Perm snaps (matching matches all))
      × IsTxgOrdered snaps
validate_exact matches fs rows {snaps} h =
    let (taken, p, q) = validate_cases matches fs rows h in
    let (e, o) = ordered_sound (sort_by not_later taken) q in
    let (all, described, same) = parse_rows-Described matches fs rows p in
    let perm = subst (λ ss. Perm ss taken) (sym e) (sort_by-perm not_later taken) in
    ((all, described, subst (Perm snaps) (sym same) perm), subst IsTxgOrdered (sym e) o)

-- Where getValidatedSnaps accepts a listing and the times of what it leaves lie between 1970 and
-- 2^62 seconds later, this is what the retention needs: sorted by time, of times in the range of
-- the retention's arithmetic, and not marked; and some regexp matches each of the snapshots.
pub validate-IsTimeline :
    (matches : Bytes → Bool) (fs : Bytes) (rows : List (List Bytes)) {snaps : List Snapshot}
    → validate matches fs rows ≡ ok snaps
    → All IsPlausible snaps
    → IsTimeline snaps × All (IsTaken matches) snaps
validate-IsTimeline matches fs rows h k =
    let (taken, p, q) = validate_cases matches fs rows h in
    let own = validated-IsTaken matches fs rows p q in
    (
      record {
        in_range = All-InRange _ k;
        sorted = IsSortedBy-IsSorted _ k (validated-IsSortedBy taken q);
        fresh = All-fresh matches _ own;
      },
      own,
    )
