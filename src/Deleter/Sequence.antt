-- ===== src/Deleter/Sequence.antt =====
-- All rules of a policy, as one test on each snapshot.
use mathlib.Core.Path.{fun_ext}
use zfsbackup.Base.{
  ◌≡◌, ◌⊎◌, inl, inr, ap, Bool, true, false, ◌||◌, List, [], ◌∷◌, arith, ◌∙◌, ℤ, if◌then◌else◌, All,
  any, Result, ok, err, retention_hole,
}
use zfsbackup.Deleter.Policy.{Rule, IsUsable}
use zfsbackup.Deleter.Mark.{Snapshot, Walk, walk, apply_rules}
use zfsbackup.Deleter.Keep.{keeps, blocks, kept_by_rules}
use zfsbackup.Deleter.Walk.{keep_where, AllExact, IsOrdered}
use zfsbackup.Deleter.Rules.{
  walk-Outcome, AllExact-keep_where, IsOrdered-keep_where, blocks-keep_where, keep_where-keep_where,
}

abbrev pub Test : Type 0
Test = Snapshot → List Snapshot → Bool

pub keep_where-cong :
    {f g : Test} (ss : List Snapshot)
    → ((s : Snapshot) (newer : List Snapshot) → f s newer ≡ g s newer)
    → keep_where f ss ≡ keep_where g ss
keep_where-cong ss h = ap (λ (t : Test). keep_where t ss) (fun_ext λ s. fun_ext λ newer. h s newer)

or_false : (b : Bool) → b ≡ (b || false)
or_false b = ground arith

or_assoc : (a b c : Bool) → ((a || b) || c) ≡ (a || (b || c))
or_assoc a b c = ground arith

-- What the walk of one rule needs of the snapshots.
pub record Fits (now : ℤ) (ss : List Snapshot) (r : Rule) : Type 0 where
  pub usable : IsUsable r
  pub exact : AllExact r now ss
  pub ordered : IsOrdered r now ss

module _ (now : ℤ) (ss : List Snapshot) where
  -- The result of the rules, behind what the test `f` has kept already.
  abbrev pub kept : List Rule → Test → Result (List Snapshot)
  kept rs f =
      if any (blocks now ss) rs
      then err retention_hole
      else ok (keep_where (λ s newer. f s newer || kept_by_rules rs now s newer) ss)

  walk-keep_where :
      (r : Rule) (f : Test)
      → Fits now ss r
      → (blocks now ss r ≡ true) × (walk r now (keep_where f ss) ≡ err retention_hole)
        ⊎ ((w : Walk) × (walk r now (keep_where f ss) ≡ ok w)
            × (blocks now ss r ≡ false)
            × (w.snaps ≡ keep_where (λ s newer. f s newer || keeps r now s newer) ss))
  walk-keep_where r f k =
      elim (walk-Outcome r now k.usable (keep_where f ss) (AllExact-keep_where r now f ss k.exact)
        (IsOrdered-keep_where r now f ss k.ordered)) [
          | inl (b, stopped) ↦ inl (rw blocks-keep_where at b, stopped)
          | inr (w, passed, open_so_far, i) ↦ inr (
            w,
            passed,
            rw blocks-keep_where at open_so_far,
            i.marked ∙ keep_where-keep_where r now f ss,
          )
        ]

  pub apply_rules-kept :
      (rs : List Rule) (f : Test)
      → All (Fits now ss) rs
      → apply_rules rs now (keep_where f ss) ≡ kept rs f
  unfolding apply_rules kept_by_rules
  apply_rules-kept [] f h = ap ok (keep_where-cong ss (λ s newer. or_false (f s newer)))
  apply_rules-kept (r ∷ rs) f h = elim (walk-keep_where r f h.0) [
    | inl (b, stopped) ↦ rw (stopped, b)
    | inr (w, passed, open_so_far, e) ↦
        rw (passed, e, open_so_far)
          (apply_rules-kept rs (λ s newer. f s newer || keeps r now s newer) h.1
            ∙ ap
                (λ (xs : List Snapshot).
                  if any (blocks now ss) rs then err retention_hole else ok xs)
                (keep_where-cong ss (λ s newer. or_assoc (f s newer) _ _)))
  ]
