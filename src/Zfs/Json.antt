-- ===== src/Zfs/Json.antt =====
-- `extractProps`, over decoded JSON. Reading a text as JSON is the library's.
use mathlib.Core.Option.{or_else}
use zfsbackup.Base.{
  ap, sym, ◌∙◌, Option-cases, inl, inr, >>=-ok, ok-injective, ◌≡◌, refl, arith, text_eq_iff, Bool,
  not, ◌&&◌, Option, none, some, List, [], ◌∷◌, Bytes, codes, if◌then◌else◌, text_eq, Result, ok,
  err, ◌>>=◌, bad_output,
}

-- The members of an object have distinct names: the decoder refuses others.
mutual
  pub data Json : Type 0 where
    null : Json
    bool : Bool → Json
    number : Bytes → Json
    text : Bytes → Json
    array : Items → Json
    object : Members → Json

  pub data Items : Type 0 where
    end : Items
    item : Json → Items → Items

  pub data Members : Type 0 where
    no_more : Members
    member : Bytes → Json → Members → Members

-- A `map[string]string`, with one entry for a key.
abbrev pub Props : Type 0
Props = List (Bytes × Bytes)

unfoldable pub find : Bytes → Members → Option Json
unfolding text_eq
find k no_more = none
find k (member j v m) = let rest = find k m in if text_eq j k then some v else rest

-- `m[k]` with the test for presence.
unfoldable pub lookup : Bytes → Props → Option Bytes
unfolding text_eq
lookup k [] = none
lookup k ((j, v) ∷ m) = let rest = lookup k m in if text_eq j k then some v else rest

-- `m[k]`, which is empty for an absent key.
unfoldable pub value_of : Bytes → Props → Bytes
unfolding lookup
value_of k m = elim (lookup k m) [ none ↦ [] | some v ↦ v ]

-- `m[k] = v`
unfoldable pub insert : Bytes → Bytes → Props → Props
unfolding text_eq
insert k v [] = (k, v) ∷ []
insert k v ((j, w) ∷ m) =
    let rest = (j, w) ∷ insert k v m in if text_eq j k then (k, v) ∷ m else rest

-- Unmarshalling into a string.
unfoldable pub as_text : Json → Option Bytes
as_text null = some []
as_text (text s) = some s
as_text (bool b) = none
as_text (number n) = none
as_text (array xs) = none
as_text (object m) = none

-- Unmarshalling into a map of raw values; `null` gives the nil map.
unfoldable pub as_members : Json → Option Members
as_members (object m) = some m
as_members null = some no_more
as_members (bool b) = none
as_members (number n) = none
as_members (text s) = none
as_members (array xs) = none

unfoldable pub value_field : Option Json → Result Bytes
unfolding as_text
value_field none = ok []
value_field (some v) = elim (as_text v) [ none ↦ err bad_output | some s ↦ ok s ]

-- Unmarshalling into a `zfsPropValue`.
unfoldable pub prop_value : Json → Result Bytes
unfolding as_members value_field find
prop_value v = elim (as_members v) [
  | none ↦ err bad_output
  | some m ↦ value_field (find (codes "value") m)
]

-- The loop over `props`.
unfoldable pub add_props : Members → Props → Result Props
unfolding prop_value insert
add_props no_more out = ok out
add_props (member k v m) out = do s ← prop_value v; add_props m (insert k s out)

unfoldable pub properties : Option Json → Result Props
unfolding add_props as_members
properties none = ok []
properties (some v) = elim (as_members v) [ none ↦ err bad_output | some m ↦ add_props m [] ]

-- What one top-level member adds.
unfoldable pub add_scalar : Bytes → Json → Props → Props
unfolding lookup insert as_text
add_scalar k v out = if text_eq k (codes "properties") then out else elim (lookup k out) [
  | some w ↦ out
  | none ↦ elim (as_text v) [ none ↦ out | some s ↦ insert k s out ]
]

-- The loop over `top`.
unfoldable pub add_scalars : Members → Props → Props
unfolding add_scalar
add_scalars no_more out = out
add_scalars (member k v m) out = add_scalars m (add_scalar k v out)

-- `extractProps`
unfoldable pub extract_props : Json → Result Props
unfolding properties add_scalars find as_members
extract_props raw = elim (as_members raw) [
  | none ↦ err bad_output
  | some top ↦ properties (find (codes "properties") top) >>= λ out. ok (add_scalars top out)
]

-- The first member of that name that is a scalar text.
pub first_scalar : Bytes → Members → Option Bytes
unfolding text_eq as_text
first_scalar k no_more = none
first_scalar k (member j v m) =
    let rest = first_scalar k m in if text_eq j k then or_else (as_text v) rest else rest

pub lookup-insert :
    (k j v : Bytes) (m : Props)
    → lookup j (insert k v m) ≡ (if text_eq k j then some v else lookup j m)
unfolding lookup insert
lookup-insert k j v [] = refl
lookup-insert k j v ((i, w) ∷ m) =
    ground (arith, text_eq_iff k j, text_eq_iff i k, text_eq_iff i j, lookup-insert k j v m)

lookup-add_scalar :
    (k j : Bytes) (v : Json) (out : Props)
    → lookup j (add_scalar k v out)
      ≡ or_else
          (lookup j out)
          (if text_eq k j && not (text_eq j (codes "properties")) then as_text v else none)
unfolding add_scalar or_else
lookup-add_scalar k j v out = elim (Option-cases (as_text v)) [
  | inl e ↦ ground (arith, text_eq_iff k j, text_eq_iff k (codes "properties"))
  | inr (t, e) ↦ ground (
    arith,
    lookup-insert k j t out,
    text_eq_iff k j,
    text_eq_iff k (codes "properties"),
    text_eq_iff j (codes "properties"),
  )
]

scalar_of : Bytes → Members → Option Bytes
scalar_of j top = if text_eq j (codes "properties") then none else first_scalar j top

lookup-add_scalars :
    (j : Bytes) (top : Members) (out : Props)
    → lookup j (add_scalars top out) ≡ or_else (lookup j out) (scalar_of j top)
unfolding add_scalars first_scalar scalar_of or_else
lookup-add_scalars j no_more out = ground arith
lookup-add_scalars j (member k v top) out =
    ground (arith, lookup-add_scalars j top (add_scalar k v out), lookup-add_scalar k j v out)

extract_cases :
    (top : Members) {out : Props}
    → extract_props (object top) ≡ ok out
    → (props : Props) × (properties (find (codes "properties") top) ≡ ok props)
      × (add_scalars top props ≡ out)
unfolding extract_props
extract_cases top h =
    let (props, e, f) = >>=-ok (properties (find (codes "properties") top)) _ h in
    (props, e, ok-injective f)

-- Of an entry that decodes, a name has the value that the `properties` object gives it, and where
-- that gives none the first scalar text of that name at the top level; `properties` itself is none.
pub extract_props-lookup :
    (top : Members) {out : Props}
    → extract_props (object top) ≡ ok out
    → (props : Props) × (properties (find (codes "properties") top) ≡ ok props)
      × ((j : Bytes)
          → lookup j out
            ≡ or_else
                (lookup j props)
                (if text_eq j (codes "properties") then none else first_scalar j top))
unfolding scalar_of
extract_props-lookup top h =
    let (props, e, f) = extract_cases top h in
    (props, e, λ j. ap (lookup j) (sym f) ∙ lookup-add_scalars j top props)
