-- ===== src/Deleter/Walk.antt =====
-- One walk of `markForPreservation` keeps the newest snapshot of each bucket, or stops at a gap.
use zfsbackup.Base.{
  ℕ, ◌-◌, ◌≤◌, ◌<◌, ◌≡◌, ◌≢◌, ◌⊎◌, inl, inr, refl, Bool, true, false, not, ◌&&◌, ◌||◌, List, [],
  ◌∷◌, arith, ℤ, pos, negsuc, pos_part, ◌+ℤ◌, ◌≤ℤ◌, ltb_ℤ, leb_ℤ, eqb_ℤ, ◌==◌, if◌then◌else◌, All,
  Bool-cases, Result, ok, err, retention_hole,
}
use zfsbackup.Deleter.Policy.{Rule, IsUsable}
use zfsbackup.Deleter.Mark.{Snapshot, Walk, mark, interval_idx, visit}
use zfsbackup.Deleter.Keep.{bucket, occupied, keeps, blocks}

-- The snapshots, each also kept where `f` says so.
unfoldable pub keep_where : (Snapshot → List Snapshot → Bool) → List Snapshot → List Snapshot
keep_where f [] = []
keep_where f (s ∷ newer) = record s { preserve = s.preserve || f s newer } ∷ keep_where f newer

module _ (r : Rule) (now : ℤ) where
  -- The bucket that the code computes is the exact one.
  abbrev pub AllExact : List Snapshot → Type 0
  AllExact = All (λ s. interval_idx r now s ≡ pos (bucket r now s))

  abbrev pub AllUpTo : ℕ → List Snapshot → Type 0
  AllUpTo b = All (λ s. bucket r now s ≤ b)

  -- No snapshot lies in an older bucket than one before it.
  abbrev pub IsOrdered : List Snapshot → Type 0
  IsOrdered [] = Unit
  IsOrdered (s ∷ newer) = AllUpTo (bucket r now s) newer × IsOrdered newer

  AllUpTo-narrow :
      (b : ℕ) (ss : List Snapshot)
      → AllUpTo b ss
      → occupied r now b ss ≡ false
      → b ≢ 0
      → AllUpTo (b - 1) ss
  unfolding occupied
  AllUpTo-narrow b [] h k nz = tt
  AllUpTo-narrow b (s ∷ ss) h k nz = ground (arith, AllUpTo-narrow b ss h.1)

  unoccupied_above :
      (b c : ℕ) (ss : List Snapshot) → AllUpTo c ss → c < b → occupied r now b ss ≡ false
  unfolding occupied
  unoccupied_above b c [] h lt = refl
  unoccupied_above b c (s ∷ ss) h lt = ground (arith, unoccupied_above b c ss h.1 lt)

  -- What the variables of the walk say of the snapshots that it has passed.
  pub record IsWalk (ss : List Snapshot) (w : Walk) : Type 0 where
    pub marked : w.snaps ≡ keep_where (keeps r now) ss
    pub low : negsuc 0 ≤ℤ w.last
    pub upper : (b : ℕ) → AllUpTo b ss → w.last ≤ℤ pos b
    pub found :
        (b : ℕ)
        → AllUpTo b ss
        → b < pos_part r.rule.count
        → occupied r now b ss ≡ eqb_ℤ (pos b) w.last
    pub closed : r.rule.allow_holes ≡ false → w.hole ≡ false

  -- The walk stops at a gap that it does not allow, or ends with such variables.
  abbrev pub Outcome : List Snapshot → Result Walk → Type 0
  Outcome ss res =
      ((blocks now ss r ≡ true) × (res ≡ err retention_hole))
      ⊎ ((w : Walk) × (res ≡ ok w) × (blocks now ss r ≡ false) × IsWalk ss w)

  module _ (u : IsUsable r) (s : Snapshot) (newer : List Snapshot) (w : Walk) (i : IsWalk newer w)
      (up : AllUpTo (bucket r now s) newer) where
    skip_marked : keeps r now s newer ≡ false → s ∷ w.snaps ≡ keep_where (keeps r now) (s ∷ newer)
    unfolding keep_where
    skip_marked k = ground (arith, i.marked)

    keep_marked :
        keeps r now s newer ≡ true → mark s ∷ w.snaps ≡ keep_where (keeps r now) (s ∷ newer)
    unfolding keep_where
    keep_marked k = ground (arith, i.marked)

    skip-IsWalk :
        keeps r now s newer ≡ false → IsWalk (s ∷ newer) (record w { snaps = s ∷ w.snaps })
    unfolding keeps occupied
    skip-IsWalk k = record {
      marked = skip_marked k;
      low = i.low;
      upper = λ b h. i.upper b h.1;
      found = λ b h lt. ground (arith, i.found b h.1 lt);
      closed = i.closed;
    }

    keep-IsWalk :
        (hole : Bool)
        → keeps r now s newer ≡ true
        → (r.rule.allow_holes ≡ false → hole ≡ false)
        → IsWalk
            (s ∷ newer)
            (record { last = pos (bucket r now s); hole = hole; snaps = mark s ∷ w.snaps })
    unfolding occupied
    keep-IsWalk hole k c = record {
      marked = keep_marked k;
      low = omega arith;
      upper = λ b h. omega arith;
      found = λ b h lt. ground (arith, unoccupied_above b (bucket r now s) newer up);
      closed = c;
    }

    -- The tests of a round, in terms of the buckets of the newer snapshots.
    skips_iff :
        (ltb_ℤ (pos (bucket r now s)) (pos 0)
          || leb_ℤ r.rule.count (pos (bucket r now s))
          || eqb_ℤ (pos (bucket r now s)) w.last)
        ≡ not (keeps r now s newer)
    unfolding keeps
    skips_iff = ground (arith, u.counts, i.found (bucket r now s) up)

    jumps_iff :
        keeps r now s newer ≡ true
        → ltb_ℤ (w.last +ℤ pos 1) (pos (bucket r now s))
          ≡ (not (bucket r now s == 0) && not (occupied r now (bucket r now s - 1) newer))
    unfolding keeps ◌+ℤ◌
    jumps_iff k = elim (Bool-cases (bucket r now s == 0)) [
      | inl z ↦ ground (arith, i.low)
      | inr nz ↦
          let narrow = AllUpTo-narrow (bucket r now s) newer up (ground arith) (ground arith) in
          ground (arith, i.found (bucket r now s - 1) narrow, i.upper (bucket r now s - 1) narrow)
    ]

    -- The gap that a round sees before it keeps a snapshot.
    abbrev pub gap_seen : Bool
    gap_seen = ltb_ℤ (w.last +ℤ pos 1) (pos (bucket r now s)) && not w.hole

    visit_skips :
        keeps r now s newer ≡ false
        → visit r s (pos (bucket r now s)) w ≡ ok (record w { snaps = s ∷ w.snaps })
    unfolding visit
    visit_skips skipped = rw skips_iff (rw skipped refl)

    visit_keeps :
        keeps r now s newer ≡ true
        → visit r s (pos (bucket r now s)) w ≡ (
            if gap_seen && not r.rule.allow_holes
            then err retention_hole
            else ok (record {
              last = pos (bucket r now s);
              hole = w.hole || gap_seen;
              snaps = mark s ∷ w.snaps;
            }))
    unfolding visit
    visit_keeps kept = rw skips_iff (rw kept refl)

    blocks_cons :
        blocks now newer r ≡ false
        → blocks now (s ∷ newer) r ≡ (keeps r now s newer && (gap_seen && not r.rule.allow_holes))
    unfolding blocks
    blocks_cons open_so_far = elim (Bool-cases (keeps r now s newer)) [
      | inr skipped ↦ ground arith
      | inl kept ↦ ground (arith, jumps_iff kept, i.closed)
    ]

    -- One round goes from an outcome of the newer snapshots to one of all.
    pub visit-Outcome :
        blocks now newer r ≡ false → Outcome (s ∷ newer) (visit r s (pos (bucket r now s)) w)
    visit-Outcome open_so_far = elim (Bool-cases (keeps r now s newer)) [
      | inr skipped ↦ inr (
        record w { snaps = s ∷ w.snaps },
        visit_skips skipped,
        ground (arith, blocks_cons open_so_far),
        skip-IsWalk skipped,
      )
      | inl kept ↦ elim (Bool-cases (gap_seen && not r.rule.allow_holes)) [
        | inl stopped ↦
            inl (ground (arith, blocks_cons open_so_far), ground (arith, visit_keeps kept))
        | inr passed ↦ inr (
          record {
            last = pos (bucket r now s);
            hole = w.hole || gap_seen;
            snaps = mark s ∷ w.snaps;
          },
          ground (arith, visit_keeps kept),
          ground (arith, blocks_cons open_so_far),
          keep-IsWalk _ kept (λ c. ground (arith, i.closed)),
        )
      ]
    ]
