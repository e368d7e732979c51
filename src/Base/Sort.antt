-- ===== src/Base/Sort.antt =====
-- Sorting by a Boolean order. `slices.SortFunc` and `slices.SortStableFunc` are insertion sorts on
-- short slices, and on any slice the stable result for a total order is this one.
use mathlib.Core.Path.{◌≡◌}
use mathlib.Core.Bool.{Bool, true, false}
use mathlib.Core.List.{List, [], ◌∷◌}
use mathlib.Core.List.{Perm}
use mathlib.Core.List.Perm
use mathlib.Core.Logic.{inl, inr}
use zfsbackup.Base.Tests.{if◌then◌else◌, Bool-cases}
use zfsbackup.Base.Lists.{All}

module _ {A : Type 0} (before : A → A → Bool) where
  unfoldable pub place : A → List A → List A
  place x [] = x ∷ []
  place x (y ∷ ys) = let rest = y ∷ place x ys in if before x y then x ∷ y ∷ ys else rest

  unfoldable pub sort_by : List A → List A
  unfolding place
  sort_by [] = []
  sort_by (x ∷ xs) = place x (sort_by xs)

  abbrev pub AllBehind : A → List A → Type 0
  AllBehind x = All (λ y. before x y ≡ true)

  -- Each element stands before all later ones.
  abbrev pub IsSortedBy : List A → Type 0
  IsSortedBy [] = Unit
  IsSortedBy (x ∷ xs) = AllBehind x xs × IsSortedBy xs

  pub All-place : (P : A → Type 0) (x : A) (ys : List A) → P x → All P ys → All P (place x ys)
  unfolding place
  All-place P x [] px h = (px, tt)
  All-place P x (y ∷ ys) px h = elim (Bool-cases (before x y)) [
    | inl e ↦ rw e (px, h)
    | inr e ↦ rw e (h.0, All-place P x ys px h.1)
  ]

  pub All-sort_by : (P : A → Type 0) (xs : List A) → All P xs → All P (sort_by xs)
  unfolding sort_by
  All-sort_by P [] h = tt
  All-sort_by P (x ∷ xs) h = All-place P x (sort_by xs) h.0 (All-sort_by P xs h.1)

  pub place-perm : (x : A) (ys : List A) → Perm (place x ys) (x ∷ ys)
  unfolding place
  place-perm x [] = Perm.refl _
  place-perm x (y ∷ ys) = elim (Bool-cases (before x y)) [
    | inl e ↦ rw e (Perm.refl _)
    | inr e ↦ rw e (Perm.trans (Perm.cons y (place-perm x ys)) (Perm.swap x y ys))
  ]

  pub sort_by-perm : (xs : List A) → Perm (sort_by xs) xs
  unfolding sort_by
  sort_by-perm [] = Perm.refl _
  sort_by-perm (x ∷ xs) = Perm.trans (place-perm x (sort_by xs)) (Perm.cons x (sort_by-perm xs))

module _ {A : Type 0} (before : A → A → Bool)
    (total : (x y : A) → before x y ≡ false → before y x ≡ true)
    (trans : (x y z : A) → before x y ≡ true → before y z ≡ true → before x z ≡ true) where
  AllBehind-trans :
      (x y : A) (zs : List A) → before x y ≡ true → AllBehind before y zs → AllBehind before x zs
  AllBehind-trans x y [] h k = tt
  AllBehind-trans x y (z ∷ zs) h k = (trans x y z h k.0, AllBehind-trans x y zs h k.1)

  place-IsSortedBy :
      (x : A) (ys : List A) → IsSortedBy before ys → IsSortedBy before (place before x ys)
  unfolding place
  place-IsSortedBy x [] h = (tt, tt)
  place-IsSortedBy x (y ∷ ys) h = elim (Bool-cases (before x y)) [
    | inl e ↦ rw e ((e, AllBehind-trans x y ys e h.0), h)
    | inr e ↦ rw e (
      All-place before (λ z. before y z ≡ true) x ys (total x y e) h.0,
      place-IsSortedBy x ys h.1,
    )
  ]

  pub sort_by-IsSortedBy : (xs : List A) → IsSortedBy before (sort_by before xs)
  unfolding sort_by
  sort_by-IsSortedBy [] = tt
  sort_by-IsSortedBy (x ∷ xs) = place-IsSortedBy x (sort_by before xs) (sort_by-IsSortedBy xs)
