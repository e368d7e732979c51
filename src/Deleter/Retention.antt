-- ===== src/Deleter/Retention.antt =====
-- `markForPreservation` against the retention that the configuration asks for.
use zfsbackup.Base.{
  ℕ, suc, ◌-◌, ◌*◌, ◌≤◌, min, ◌≡◌, inl, inr, refl, ap, false, ◌||◌, List, [], ◌∷◌, arith, ◌∙◌, ℤ,
  pos, pos_part, ◌≤ℤ◌, ltb, if◌then◌else◌, All, any, max_i64, length, Bool-cases, ok, err,
  retention_hole,
}
use zfsbackup.Duration.{second}
use zfsbackup.Deleter.Policy.{Policy, Rule, IsUsable, IsValid}
use zfsbackup.Deleter.Mark.{
  Snapshot, mark_from, preserve_top_n, preserve_newer_than, newest, apply_rules, to_delete,
  mark_for_preservation,
}
use zfsbackup.Deleter.Keep.{age, blocks, kept_by_rules, is_kept, obsolete}
use zfsbackup.Deleter.Walk.{keep_where}
use zfsbackup.Deleter.Sequence.{Test, Fits, apply_rules-kept, keep_where-cong}
use zfsbackup.Deleter.Times.{InRange, AllBy, IsSorted, young_exact, sorted-Fits, newest_bounds}

-- Snapshots as `getValidatedSnaps` leaves them: sorted by time and not marked, none before 1970.
pub record IsTimeline (ss : List Snapshot) : Type 0 where
  pub in_range : All InRange ss
  pub sorted : IsSorted ss
  pub fresh : All (λ s. s.preserve ≡ false) ss

abbrev among_top : ℕ → Test
among_top k s newer = ltb (length newer) k

mark_from-keep_where :
    (k : ℕ) (ss : List Snapshot)
    → mark_from (length ss - min k (length ss)) ss ≡ keep_where (among_top k) ss
unfolding mark_from keep_where
mark_from-keep_where k [] = refl
mark_from-keep_where k (s ∷ ss) = elim (Bool-cases (ltb (length ss) k)) [
  | inl below ↦
      let e : suc (length ss) - min k (suc (length ss)) ≡ 0 = ground arith in
      let e' : length ss - min k (length ss) ≡ 0 = ground arith in
      rw (e, below) (ground (arith, rw e' at (mark_from-keep_where k ss)))
  | inr above ↦
      let e : suc (length ss) - min k (suc (length ss)) ≡ suc (length ss - min k (length ss)) =
        ground arith in
      rw (e, above) (ground (arith, mark_from-keep_where k ss))
]

abbrev is_young : Policy → ℤ → Test
is_young p now s newer = ltb (age now s * second) p.newer_than

module _ (p : Policy) (now : ℤ) (w : p.newer_than ≤ max_i64) (top : now ≤ℤ pos max_i64) where
  preserve_newer_than-keep_where :
      (f : Test) (ss : List Snapshot)
      → All InRange ss
      → AllBy now ss
      → preserve_newer_than p now (keep_where f ss)
        ≡ keep_where (λ s newer. f s newer || is_young p now s newer) ss
  unfolding keep_where preserve_newer_than
  preserve_newer_than-keep_where f [] h k = refl
  preserve_newer_than-keep_where f (s ∷ ss) h k =
      let young = young_exact p.newer_than now s w h.0 k.0 top in
      rw (young, preserve_newer_than-keep_where f ss h.1 k.1) (ground arith)

to_delete-obsolete :
    (p : Policy) (now : ℤ) (ss : List Snapshot)
    → All (λ s. s.preserve ≡ false) ss
    → to_delete (keep_where (is_kept p now) ss) ≡ obsolete p now ss
unfolding to_delete keep_where obsolete
to_delete-obsolete p now [] h = refl
to_delete-obsolete p now (s ∷ ss) h = ground (arith, to_delete-obsolete p now ss h.1)

marked_before_rules :
    (p : Policy) (now : ℤ) (ss : List Snapshot)
    → p.newer_than ≤ max_i64
    → now ≤ℤ pos max_i64
    → All InRange ss
    → AllBy now ss
    → preserve_newer_than p now (preserve_top_n p ss)
      ≡ keep_where (λ s newer. among_top (pos_part p.top_n) s newer || is_young p now s newer) ss
unfolding preserve_top_n
marked_before_rules p now ss w top h k =
    ap (preserve_newer_than p now) (mark_from-keep_where (pos_part p.top_n) ss)
    ∙ preserve_newer_than-keep_where p now w top (among_top (pos_part p.top_n)) ss h k

All-Fits :
    (now : ℤ) (ss : List Snapshot) (rs : List Rule)
    → now ≤ℤ pos max_i64
    → All InRange ss
    → AllBy now ss
    → IsSorted ss
    → All IsUsable rs
    → All (Fits now ss) rs
All-Fits now ss [] top h k l u = tt
All-Fits now ss (r ∷ rs) top h k l u =
    (sorted-Fits r u.0 now top ss h k l, All-Fits now ss rs top h k l u.1)

is_kept_parts :
    (p : Policy) (now : ℤ) (s : Snapshot) (newer : List Snapshot)
    → ((among_top (pos_part p.top_n) s newer || is_young p now s newer)
        || kept_by_rules p.rules now s newer)
      ≡ is_kept p now s newer
unfolding is_kept
is_kept_parts p now s newer = ground arith

module _ (p : Policy) (v : IsValid p) (s : Snapshot) (ss : List Snapshot)
    (t : IsTimeline (s ∷ ss)) where
  abbrev snaps : List Snapshot
  snaps = s ∷ ss

  abbrev now : ℤ
  now = newest s ss

  marked : apply_rules p.rules now (preserve_newer_than p now (preserve_top_n p snaps)) ≡ (
      if any (blocks now snaps) p.rules
      then err retention_hole
      else ok (keep_where (is_kept p now) snaps))
  marked =
      let (top, by) = newest_bounds s ss t.in_range t.sorted in
      ap (apply_rules p.rules now) (marked_before_rules p now snaps v.window top t.in_range by)
      ∙ apply_rules-kept now snaps p.rules _
          (All-Fits now snaps p.rules top t.in_range by t.sorted v.usable)
      ∙ ap
          (λ (xs : List Snapshot).
            if any (blocks now snaps) p.rules then err retention_hole else ok xs)
          (keep_where-cong snaps (is_kept_parts p now))

  -- The deleter stops exactly when some rule has a gap that it does not allow. Otherwise it deletes
  -- exactly the snapshots that are not among the newest `preserve_top_n`, not younger than
  -- `preserve_newer_than`, and not the newest of a bucket of some rule; oldest first.
  pub mark_for_preservation-obsolete : mark_for_preservation p (s ∷ ss) ≡ (
      if any (blocks (newest s ss) (s ∷ ss)) p.rules
      then err retention_hole
      else ok (obsolete p (newest s ss) (s ∷ ss)))
  unfolding mark_for_preservation
  mark_for_preservation-obsolete =
      rw marked (ground (arith, to_delete-obsolete p now snaps t.fresh))
