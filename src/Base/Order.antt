-- ===== src/Base/Order.antt =====
-- The order of Go strings, by their bytes, and sets of strings as sorted lists.
use Prim.Native.Nat.{ℕ}
use mathlib.Core.Path.{◌≡◌, refl, ◌∙◌}
use mathlib.Core.Bool.{Bool, true, false, ◌&&◌, ◌||◌}
use mathlib.Core.List.{List, [], ◌∷◌, ◌++◌}
use mathlib.Core.Logic.{inl, inr}
use native.Mathlib.Omega.{arith}
use zfsbackup.Base.Tests.{ltb, ◌==◌, if◌then◌else◌, Bool-cases}
use zfsbackup.Base.Lists.{All}
use zfsbackup.Base.Text.{Bytes, text_eq, text_eq_iff, has_prefix}
use zfsbackup.Base.Sort.{place, sort_by, IsSortedBy, AllBehind, sort_by-IsSortedBy}

-- `a <= b` on strings.
unfoldable pub leb_text : Bytes → Bytes → Bool
leb_text [] t = true
leb_text (c ∷ s) [] = false
leb_text (c ∷ s) (d ∷ t) = ltb c d || (c == d && leb_text s t)

pub leb_text_total : (a b : Bytes) → leb_text a b ≡ false → leb_text b a ≡ true
unfolding leb_text
leb_text_total [] b h = cc
leb_text_total (c ∷ s) [] h = refl
leb_text_total (c ∷ s) (d ∷ t) h = ground (arith, leb_text_total s t)

pub leb_text_trans :
    (a b c : Bytes) → leb_text a b ≡ true → leb_text b c ≡ true → leb_text a c ≡ true
unfolding leb_text
leb_text_trans [] b c h k = refl
leb_text_trans (x ∷ a) [] c h k = cc
leb_text_trans (x ∷ a) (y ∷ b) [] h k = cc
leb_text_trans (x ∷ a) (y ∷ b) (z ∷ c) h k = ground (arith, leb_text_trans a b c)

pub leb_text_antisym : (a b : Bytes) → leb_text a b ≡ true → leb_text b a ≡ true → a ≡ b
unfolding leb_text
leb_text_antisym [] [] h k = refl
leb_text_antisym [] (y ∷ b) h k = cc
leb_text_antisym (x ∷ a) [] h k = cc
leb_text_antisym (x ∷ a) (y ∷ b) h k = ground (arith, leb_text_antisym a b)

-- A text with a proper prefix stands behind it.
pub prefix_first : (p s : Bytes) (c : ℕ) → has_prefix (p ++ c ∷ []) s ≡ true → leb_text s p ≡ false
unfolding leb_text has_prefix
prefix_first [] [] c h = cc
prefix_first [] (d ∷ s) c h = refl
prefix_first (x ∷ p) [] c h = cc
prefix_first (x ∷ p) (d ∷ s) c h = ground (arith, prefix_first p s c)

-- `slices.Sort` on strings.
unfoldable pub sort_texts : List Bytes → List Bytes
unfolding sort_by leb_text
sort_texts = sort_by leb_text

-- `slices.Compact`
unfoldable pub compact : List Bytes → List Bytes
unfolding text_eq
compact [] = []
compact (x ∷ []) = x ∷ []
compact (x ∷ y ∷ ys) = let rest = compact (y ∷ ys) in if text_eq x y then rest else x ∷ rest

-- A member of a list of strings: `slices.Contains`.
unfoldable pub contains : List Bytes → Bytes → Bool
unfolding text_eq
contains [] x = false
contains (y ∷ ys) x = text_eq y x || contains ys x

pub contains-append :
    (xs ys : List Bytes) (x : Bytes) → contains (xs ++ ys) x ≡ (contains xs x || contains ys x)
unfolding contains
contains-append [] ys x = refl
contains-append (z ∷ xs) ys x = ground (arith, contains-append xs ys x)

contains-place :
    (y : Bytes) (ys : List Bytes) (x : Bytes)
    → contains (place leb_text y ys) x ≡ (text_eq y x || contains ys x)
unfolding contains place
contains-place y [] x = refl
contains-place y (z ∷ ys) x = ground (arith, contains-place y ys x)

pub contains-sort_texts : (ys : List Bytes) (x : Bytes) → contains (sort_texts ys) x ≡ contains ys x
unfolding contains sort_texts
contains-sort_texts [] x = refl
contains-sort_texts (y ∷ ys) x =
    ground (arith, contains-place y (sort_texts ys) x, contains-sort_texts ys x)

contains-compact : (ys : List Bytes) (x : Bytes) → contains (compact ys) x ≡ contains ys x
unfolding contains compact
contains-compact [] x = refl
contains-compact (y ∷ []) x = refl
contains-compact (y ∷ z ∷ ys) x = ground (arith, contains-compact (z ∷ ys) x, text_eq_iff y z)

-- Each before all that stand behind it, and none of them twice.
abbrev pub IsIncreasing : List Bytes → Type 0
IsIncreasing [] = Unit
IsIncreasing (x ∷ xs) = All (λ y. leb_text y x ≡ false) xs × IsIncreasing xs

pub All-compact : (P : Bytes → Type 0) (ys : List Bytes) → All P ys → All P (compact ys)
unfolding compact
All-compact P [] h = tt
All-compact P (y ∷ []) h = h
All-compact P (y ∷ z ∷ ys) h = elim (Bool-cases (text_eq y z)) [
  | inl e ↦ rw e (All-compact P (z ∷ ys) h.1)
  | inr e ↦ rw e (h.0, All-compact P (z ∷ ys) h.1)
]

text_before :
    (x y z : Bytes)
    → leb_text x y ≡ true
    → text_eq x y ≡ false
    → leb_text y z ≡ true
    → leb_text z x ≡ false
text_before x y z h e k = elim (Bool-cases (leb_text z x)) [
  | inl l ↦
      let same = leb_text_antisym x y h (leb_text_trans y z x k l) in
      absurd (ground (arith, text_eq_iff x y))
  | inr l ↦ l
]

All-before :
    (x y : Bytes) (zs : List Bytes)
    → leb_text x y ≡ true
    → text_eq x y ≡ false
    → AllBehind leb_text y zs
    → All (λ z. leb_text z x ≡ false) zs
All-before x y [] h e k = tt
All-before x y (z ∷ zs) h e k = (text_before x y z h e k.0, All-before x y zs h e k.1)

leb_text_refl : (x : Bytes) → leb_text x x ≡ true
unfolding leb_text
leb_text_refl [] = refl
leb_text_refl (c ∷ x) = ground (arith, leb_text_refl x)

compact-IsIncreasing : (ys : List Bytes) → IsSortedBy leb_text ys → IsIncreasing (compact ys)
unfolding compact
compact-IsIncreasing [] h = tt
compact-IsIncreasing (y ∷ []) h = (tt, tt)
compact-IsIncreasing (y ∷ z ∷ ys) h = elim (Bool-cases (text_eq y z)) [
  | inl e ↦ rw e (compact-IsIncreasing (z ∷ ys) h.1)
  | inr e ↦ rw e (
    All-compact (λ w. leb_text w y ≡ false) (z ∷ ys)
        (All-before y z (z ∷ ys) h.0.0 e (leb_text_refl z, h.1.0)),
    compact-IsIncreasing (z ∷ ys) h.1,
  )
]

-- Sorting and removing repetitions, as `slices.Compact` does on a sorted slice.
abbrev pub sorted_set : List Bytes → List Bytes
sorted_set ys = compact (sort_texts ys)

pub sorted_set-IsIncreasing : (ys : List Bytes) → IsIncreasing (sorted_set ys)
unfolding sort_texts
sorted_set-IsIncreasing ys =
    compact-IsIncreasing (sort_texts ys)
      (sort_by-IsSortedBy leb_text leb_text_total leb_text_trans ys)

pub contains-sorted_set : (ys : List Bytes) (x : Bytes) → contains (sorted_set ys) x ≡ contains ys x
contains-sorted_set ys x = contains-compact (sort_texts ys) x ∙ contains-sort_texts ys x

pub not_below : (x y : Bytes) (c : ℕ) → leb_text y x ≡ false → has_prefix (y ++ c ∷ []) x ≡ false
not_below x y c h = elim (Bool-cases (has_prefix (y ++ c ∷ []) x)) [
  | inl e ↦
      let total = leb_text_total y x h in let first = prefix_first y x c e in absurd (ground arith)
  | inr e ↦ e
]

-- No element twice.
abbrev pub IsDistinct : List Bytes → Type 0
IsDistinct [] = Unit
IsDistinct (x ∷ xs) = (contains xs x ≡ false) × IsDistinct xs

place-IsDistinct :
    (x : Bytes) (ys : List Bytes)
    → contains ys x ≡ false
    → IsDistinct ys
    → IsDistinct (place leb_text x ys)
unfolding place contains
place-IsDistinct x [] h k = (refl, tt)
place-IsDistinct x (y ∷ ys) h k = elim (Bool-cases (leb_text x y)) [
  | inl e ↦ rw e (h, k)
  | inr e ↦ rw e (
    ground (arith, contains-place x ys y, text_eq_iff x y, text_eq_iff y x),
    place-IsDistinct x ys (ground arith) k.1,
  )
]

sort_texts-IsDistinct : (xs : List Bytes) → IsDistinct xs → IsDistinct (sort_texts xs)
unfolding sort_texts
sort_texts-IsDistinct [] h = tt
sort_texts-IsDistinct (x ∷ xs) h =
    place-IsDistinct x (sort_texts xs) (contains-sort_texts xs x ∙ h.0)
      (sort_texts-IsDistinct xs h.1)

All-other :
    (x : Bytes) (ys : List Bytes)
    → AllBehind leb_text x ys
    → contains ys x ≡ false
    → All (λ y. leb_text y x ≡ false) ys
unfolding contains
All-other x [] h k = tt
All-other x (y ∷ ys) h k = (
  text_before x y y h.0 (ground (arith, text_eq_iff x y, text_eq_iff y x)) (leb_text_refl y),
  All-other x ys h.1 (ground arith),
)

sorted_distinct : (xs : List Bytes) → IsSortedBy leb_text xs → IsDistinct xs → IsIncreasing xs
sorted_distinct [] h k = tt
sorted_distinct (x ∷ xs) h k = (All-other x xs h.0 k.0, sorted_distinct xs h.1 k.1)

pub sort_texts-IsIncreasing : (xs : List Bytes) → IsDistinct xs → IsIncreasing (sort_texts xs)
unfolding sort_texts
sort_texts-IsIncreasing xs h =
    sorted_distinct (sort_texts xs) (sort_by-IsSortedBy leb_text leb_text_total leb_text_trans xs)
      (sort_texts-IsDistinct xs h)
