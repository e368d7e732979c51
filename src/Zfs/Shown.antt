-- ===== src/Zfs/Shown.antt =====
-- The values of the properties in an entry of `ZfsList`.
use zfsbackup.Base.{
  ◌≡◌, refl, ap, sym, ◌∙◌, ◌⊎◌, inl, inr, true, false, Option, some, List, [], ◌∷◌, ◌++◌, Bytes,
  codes, map, arith, is_empty, contains, any, text_eq, text_eq_iff, Bool-cases, Option-cases,
  if◌then◌else◌,
}
use zfsbackup.Zfs.Json.{Props, lookup, value_of, lookup-insert}
use zfsbackup.Zfs.Table.{requested, is_missing, name_default}

-- The value of a property for the dataset of this key: that of its properties, but for the name,
-- which is the key where the properties have none.
pub shown : Bytes → Props → Bytes → Option Bytes
shown k v p =
    if text_eq (codes "name") p
    then some (if is_empty (value_of (codes "name") v) then k else value_of (codes "name") v)
    else lookup p v

value_there :
    (p : Bytes) (v : Props) → is_empty (value_of p v) ≡ false → lookup p v ≡ some (value_of p v)
unfolding value_of
value_there p v h = elim (Option-cases (lookup p v)) [
  | inl e ↦ absurd (let q = rw (value_of, e) at h in cc)
  | inr (x, e) ↦ rw (value_of, e) refl
]

lookup-name_default : (p k : Bytes) (v : Props) → lookup p (name_default k v) ≡ shown k v p
unfolding name_default shown
lookup-name_default p k v = elim (Bool-cases (is_empty (value_of (codes "name") v))) [
  | inl e ↦ rw (name_default, shown, e) (lookup-insert (codes "name") p k v)
  | inr e ↦ elim (Bool-cases (text_eq (codes "name") p)) [
    | inl n ↦
        let same : codes "name" ≡ p = ground (arith, n, text_eq_iff (codes "name") p) in
        rw (name_default, shown, e, n)
          (ap (λ q. lookup q v) (sym same) ∙ value_there (codes "name") v e)
    | inr n ↦ rw (name_default, shown, e, n) refl
  ]
]

-- The values of the properties, in order, none missing.
pub data Values (k : Bytes) (v : Props) : List Bytes → List Bytes → Type 0 where
  no_value : Values k v [] []
  a_value :
      {p x : Bytes} {ps xs : List Bytes}
      → shown k v p ≡ some x
      → Values k v ps xs
      → Values k v (p ∷ ps) (x ∷ xs)

pub has_value :
    (k p : Bytes) (v : Props)
    → is_missing (name_default k v) p ≡ false
    → shown k v p ≡ some (value_of p (name_default k v))
unfolding is_missing value_of
has_value k p v h = elim (Option-cases (lookup p (name_default k v))) [
  | inl e ↦ absurd (let q = rw (is_missing, e) at h in cc)
  | inr (x, e) ↦ rw (value_of, e) (sym (lookup-name_default p k v) ∙ e)
]

pub each_value :
    (k : Bytes) (v : Props) (ps : List Bytes)
    → any (is_missing (name_default k v)) ps ≡ false
    → Values k v ps (map (λ p. value_of p (name_default k v)) ps)
each_value k v [] h = no_value
each_value k v (p ∷ ps) h =
    a_value (has_value k p v (ground (arith, h))) (each_value k v ps (ground (arith, h)))

not_missing :
    (v : Props) (p : Bytes) (ps : List Bytes)
    → any (is_missing v) ps ≡ false
    → contains ps p ≡ true
    → is_missing v p ≡ false
unfolding contains
not_missing v p [] h k = absurd (cc)
not_missing v p (q ∷ ps) h k = ground (arith, text_eq_iff q p, text_eq_iff p q, not_missing v p ps)

any-append :
    (v : Props) (ps : List Bytes) (p : Bytes)
    → any (is_missing v) (ps ++ p ∷ []) ≡ false
    → (any (is_missing v) ps ≡ false) × (is_missing v p ≡ false)
any-append v [] p h = (refl, ground (arith, h))
any-append v (q ∷ ps) p h =
    let (all, own) = any-append v ps p (ground (arith, h)) in (ground (arith, h, all), own)

-- What was asked for is not missing: the properties of the caller, and the sort key.
pub asked_for :
    (key : Bytes) (props : List Bytes) (v : Props)
    → any (is_missing v) (requested props key) ≡ false
    → (any (is_missing v) props ≡ false) × ((is_empty key ≡ true) ⊎ (is_missing v key ≡ false))
unfolding requested
asked_for key props v h = elim (Bool-cases (is_empty key)) [
  | inl e ↦ (rw (requested, e) at h, inl e)
  | inr e ↦ elim (Bool-cases (contains props key)) [
    | inl c ↦ let all = rw (requested, e, c) at h in (all, inr (not_missing v key props all c))
    | inr c ↦ let (all, own) = any-append v props key (rw (requested, e, c) at h) in (all, inr own)
  ]
]
