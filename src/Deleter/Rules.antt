-- ===== src/Deleter/Rules.antt =====
-- The rules one after the other: each sees the same buckets, and what they keep adds up.
use zfsbackup.Base.{
  ℕ, ◌≡◌, inl, inr, refl, Bool, true, false, ◌||◌, List, [], ◌∷◌, arith, ◌∙◌, ℤ, negsuc, ok, ◌>>=◌,
}
use zfsbackup.Deleter.Policy.{Rule, IsUsable}
use zfsbackup.Deleter.Mark.{Snapshot, interval_idx, walk, visit}
use zfsbackup.Deleter.Keep.{bucket, occupied, keeps, has_gap, blocks}
use zfsbackup.Deleter.Walk.{
  keep_where, AllExact, AllUpTo, IsOrdered, IsWalk, Outcome, visit-Outcome,
}

module _ (r : Rule) (now : ℤ) where
  IsWalk-start : IsWalk r now [] (record { last = negsuc 0; hole = false; snaps = [] })
  unfolding keep_where occupied
  IsWalk-start = record {
    marked = refl;
    low = omega arith;
    upper = λ b h. omega arith;
    found = λ b h lt. ground arith;
    closed = λ _. refl;
  }

  walk_nil : walk r now [] ≡ ok (record { last = negsuc 0; hole = false; snaps = [] })
  unfolding walk
  walk_nil = refl

  walk_cons :
      (s : Snapshot) (newer : List Snapshot)
      → walk r now (s ∷ newer) ≡ (walk r now newer >>= λ w. visit r s (interval_idx r now s) w)
  unfolding walk
  walk_cons s newer = refl

  blocks_nil : blocks now [] r ≡ false
  unfolding blocks
  blocks_nil = ground arith

  blocks_older :
      (s : Snapshot) (newer : List Snapshot)
      → blocks now newer r ≡ true
      → blocks now (s ∷ newer) r ≡ true
  unfolding blocks has_gap
  blocks_older s newer h = ground arith

  -- The whole walk, for buckets in order.
  pub walk-Outcome :
      IsUsable r
      → (ss : List Snapshot) → AllExact r now ss
      → IsOrdered r now ss
      → Outcome r now ss (walk r now ss)
  walk-Outcome u [] e o =
      inr (record { last = negsuc 0; hole = false; snaps = [] }, walk_nil, blocks_nil, IsWalk-start)
  walk-Outcome u (s ∷ newer) e o = elim (walk-Outcome u newer e.1 o.1) [
    | inl (b, stopped) ↦ inl (blocks_older s newer b, walk_cons s newer ∙ rw stopped)
    | inr (w, passed, open_so_far, i) ↦
        rw (walk_cons s newer, passed, e.0) (visit-Outcome r now u s newer w i o.0 open_so_far)
  ]

  module _ (f : Snapshot → List Snapshot → Bool) where
    occupied-keep_where :
        (b : ℕ) (ss : List Snapshot) → occupied r now b (keep_where f ss) ≡ occupied r now b ss
    unfolding occupied keep_where bucket
    occupied-keep_where b [] = refl
    occupied-keep_where b (s ∷ ss) = rw (occupied-keep_where b ss)

    keeps-keep_where :
        (s : Snapshot) (v : Bool) (ss : List Snapshot)
        → keeps r now (record s { preserve = v }) (keep_where f ss) ≡ keeps r now s ss
    unfolding keeps
    keeps-keep_where s v ss = rw (occupied-keep_where (bucket r now s) ss)

    bucket-mark :
        (s : Snapshot) (v : Bool) → bucket r now (record s { preserve = v }) ≡ bucket r now s
    unfolding bucket
    bucket-mark s v = refl

    has_gap-keep_where : (ss : List Snapshot) → has_gap r now (keep_where f ss) ≡ has_gap r now ss
    unfolding has_gap keep_where
    has_gap-keep_where [] = refl
    has_gap-keep_where (s ∷ ss) = simp (has_gap-keep_where ss, occupied-keep_where, bucket-mark)

    pub blocks-keep_where : (ss : List Snapshot) → blocks now (keep_where f ss) r ≡ blocks now ss r
    unfolding blocks
    blocks-keep_where ss = rw (has_gap-keep_where ss)

    pub AllExact-keep_where :
        (ss : List Snapshot) → AllExact r now ss → AllExact r now (keep_where f ss)
    unfolding keep_where interval_idx bucket
    AllExact-keep_where [] h = tt
    AllExact-keep_where (s ∷ ss) h = (h.0, AllExact-keep_where ss h.1)

    AllUpTo-keep_where :
        (b : ℕ) (ss : List Snapshot) → AllUpTo r now b ss → AllUpTo r now b (keep_where f ss)
    unfolding keep_where bucket
    AllUpTo-keep_where b [] h = tt
    AllUpTo-keep_where b (s ∷ ss) h = (h.0, AllUpTo-keep_where b ss h.1)

    pub IsOrdered-keep_where :
        (ss : List Snapshot) → IsOrdered r now ss → IsOrdered r now (keep_where f ss)
    unfolding keep_where bucket
    IsOrdered-keep_where [] h = tt
    IsOrdered-keep_where (s ∷ ss) h = (AllUpTo-keep_where _ ss h.0, IsOrdered-keep_where ss h.1)

    pub keep_where-keep_where :
        (ss : List Snapshot)
        → keep_where (keeps r now) (keep_where f ss)
          ≡ keep_where (λ s newer. f s newer || keeps r now s newer) ss
    unfolding keep_where
    keep_where-keep_where [] = refl
    keep_where-keep_where (s ∷ ss) =
        ground (arith, keeps-keep_where s (s.preserve || f s ss) ss, keep_where-keep_where ss)
