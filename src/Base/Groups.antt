-- ===== src/Base/Groups.antt =====
-- A Go map from texts to lists, `m[k] = append(m[k], x)`, with its keys in the order of their first
-- values.
use mathlib.Core.Path.{◌≡◌, refl}
use mathlib.Core.Logic.{inl, inr}
use mathlib.Core.Bool.{◌||◌}
use mathlib.Core.List.{List, [], ◌∷◌, ◌++◌}
use native.Mathlib.Omega.{arith}
use zfsbackup.Base.Tests.{if◌then◌else◌, Bool-cases}
use zfsbackup.Base.Text.{Bytes, text_eq, text_eq_iff}
use zfsbackup.Base.Order.{contains, IsDistinct}

abbrev pub GroupMap : Type 0 → Type 0
GroupMap A = List (Bytes × List A)

-- A key that is absent has no members.
unfoldable pub group_of : {A : Type 0} → Bytes → GroupMap A → List A
unfolding text_eq
group_of k [] = []
group_of k ((l, xs) ∷ m) = let rest = group_of k m in if text_eq l k then xs else rest

unfoldable pub add_to_group : {A : Type 0} → Bytes → A → GroupMap A → GroupMap A
unfolding text_eq
add_to_group k x [] = (k, x ∷ []) ∷ []
add_to_group k x ((l, xs) ∷ m) =
    let rest = (l, xs) ∷ add_to_group k x m in if text_eq l k then (l, xs ++ x ∷ []) ∷ m else rest

unfoldable pub keys : {A : Type 0} → GroupMap A → List Bytes
keys [] = []
keys ((k, xs) ∷ m) = k ∷ keys m

module _ {A : Type 0} where
  pub group_of-add_to_group :
      (p q : Bytes) (x : A) (m : GroupMap A)
      → group_of p (add_to_group q x m)
        ≡ (if text_eq q p then group_of p m ++ x ∷ [] else group_of p m)
  unfolding group_of add_to_group
  group_of-add_to_group p q x [] = ground arith
  group_of-add_to_group p q x ((k, xs) ∷ m) =
      ground
        (arith, group_of-add_to_group p q x m, text_eq_iff q p, text_eq_iff k p, text_eq_iff k q)

  pub contains-keys :
      (p q : Bytes) (x : A) (m : GroupMap A)
      → contains (keys (add_to_group q x m)) p ≡ (contains (keys m) p || text_eq q p)
  unfolding keys add_to_group contains
  contains-keys p q x [] = ground arith
  contains-keys p q x ((k, xs) ∷ m) =
      ground (arith, contains-keys p q x m, text_eq_iff q p, text_eq_iff k p, text_eq_iff k q)

  pub add_to_group-IsDistinct :
      (q : Bytes) (x : A) (m : GroupMap A)
      → IsDistinct (keys m)
      → IsDistinct (keys (add_to_group q x m))
  unfolding keys add_to_group contains
  add_to_group-IsDistinct q x [] h = (refl, tt)
  add_to_group-IsDistinct q x ((k, xs) ∷ m) h = elim (Bool-cases (text_eq k q)) [
    | inl e ↦ rw e h
    | inr e ↦ rw e (
      ground (arith, contains-keys k q x m, text_eq_iff k q, text_eq_iff q k),
      add_to_group-IsDistinct q x m h.1,
    )
  ]

pub no_groups-IsDistinct : (A : Type 0) → IsDistinct (keys {A = A} [])
unfolding keys
no_groups-IsDistinct A = tt
