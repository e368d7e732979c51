-- ===== src/Monitor/Families.antt =====
-- The families of `asPrometheus`.
use mathlib.Core.Path.{fun_ext}
use zfsbackup.Base.{
  ◌≡◌, refl, sym, ap, inl, inr, ◌||◌, List, [], ◌∷◌, ◌++◌, append-nil, append_assoc, Bytes, map,
  flat, keep_if, text_eq, contains, arith, Bool-cases, GroupMap, group_of, add_to_group, keys,
  group_of-add_to_group, contains-keys, add_to_group-IsDistinct, no_groups-IsDistinct, IsDistinct,
}
use zfsbackup.Monitor.Metrics.{Metric}
use zfsbackup.Monitor.Text.{families, family_text, as_prometheus}

-- The metrics of a name, in order.
abbrev pub of_family : Bytes → List Metric → List Metric
of_family name = keep_if λ met. text_eq met.name name

group_of-families :
    (name : Bytes) (mets : List Metric) (m : GroupMap Metric)
    → group_of name (families mets m) ≡ group_of name m ++ of_family name mets
unfolding families
group_of-families name [] m = sym (append-nil _)
group_of-families name (met ∷ mets) m = elim (Bool-cases (text_eq met.name name)) [
  | inl e ↦
      rw
        (
          e,
          group_of-families name mets (add_to_group met.name met m),
          group_of-add_to_group name met.name met m,
        )
        (rw e (append_assoc (group_of name m) (met ∷ []) (of_family name mets)))
  | inr e ↦
      rw
        (
          e,
          group_of-families name mets (add_to_group met.name met m),
          group_of-add_to_group name met.name met m,
        )
        (rw e refl)
]

contains-families :
    (name : Bytes) (mets : List Metric) (m : GroupMap Metric)
    → contains (keys (families mets m)) name
      ≡ (contains (keys m) name || contains (map (λ met. met.name) mets) name)
unfolding families contains
contains-families name [] m = ground arith
contains-families name (met ∷ mets) m = ground (
  arith,
  contains-families name mets (add_to_group met.name met m),
  contains-keys name met.name met m,
)

families-IsDistinct :
    (mets : List Metric) (m : GroupMap Metric)
    → IsDistinct (keys m)
    → IsDistinct (keys (families mets m))
unfolding families
families-IsDistinct [] m h = h
families-IsDistinct (met ∷ mets) m h =
    families-IsDistinct mets (add_to_group met.name met m)
      (add_to_group-IsDistinct met.name met m h)

-- `asPrometheus` writes one family for each name that some metric has, and no family twice. Behind
-- its header a family has all metrics of the name, in the order in which they were collected, so
-- that the lines of a family are never split.
pub as_prometheus_families :
    (mets : List Metric)
    → (names : List Bytes) × IsDistinct names
      × ((name : Bytes) → contains names name ≡ contains (map (λ met. met.name) mets) name)
      × (as_prometheus mets ≡ flat (map (λ name. family_text name (of_family name mets)) names))
unfolding as_prometheus contains keys
as_prometheus_families mets =
    let names = keys (families mets []) in
    (
      names,
      families-IsDistinct mets [] (no_groups-IsDistinct Metric),
      λ name. contains-families name mets [],
      ap (λ f. flat (map f names))
          (fun_ext λ name. ap (family_text name) (group_of-families name mets [])),
    )
