-- ===== src/Names/Source.antt =====
-- What `placeholderSourceName` accepts.
use zfsbackup.Base.{
  ◌↔◌, ◌∙◌, ℕ, ◌≡◌, ◌≢◌, ◌⊎◌, inl, inr, Bool-cases, refl, ap, true, false, List, [], ◌∷◌, ◌++◌,
  Bytes, arith, if◌then◌else◌, ok, is_empty,
}
use zfsbackup.Names.{
  is_mark, mark_fields, fields_func, count_marks, check_parts, is_valid_placeholder,
  placeholder_source_name, is_valid_zfs_dataset, is_valid_zfs_component,
}
use zfsbackup.Names.Parts.{IsUnmarked, dataset-IsUnmarked, component-IsUnmarked}

IsUnmarked-count : (s : Bytes) → IsUnmarked s → count_marks s ≡ 0
unfolding count_marks
IsUnmarked-count [] h = refl
IsUnmarked-count (c ∷ s) h = ground (arith, IsUnmarked-count s h.1)

mark_fields_of_count_zero : (s : Bytes) → count_marks s ≡ 0 → mark_fields s ≡ (s, [])
unfolding mark_fields count_marks
mark_fields_of_count_zero [] h = refl
mark_fields_of_count_zero (c ∷ s) h = ground (arith, mark_fields_of_count_zero s)

-- A text with one mark is two texts with the mark between them.
record Marked (s : Bytes) : Type 0 where
  left : Bytes
  mark : ℕ
  right : Bytes
  spelt : s ≡ left ++ mark ∷ right
  marked : is_mark mark ≡ true
  fields : mark_fields s ≡ (left, if is_empty right then [] else right ∷ [])

Marked-cons : (c : ℕ) (s : Bytes) → is_mark c ≡ false → Marked s → Marked (c ∷ s)
unfolding mark_fields
Marked-cons c s h m = record {
  left = c ∷ m.left;
  mark = m.mark;
  right = m.right;
  spelt = ap (λ t. c ∷ t) m.spelt;
  marked = m.marked;
  fields = rw m.fields (rw h refl);
}

Marked-here : (c : ℕ) (s : Bytes) → is_mark c ≡ true → count_marks s ≡ 0 → Marked (c ∷ s)
unfolding mark_fields
Marked-here c s h k = record {
  left = [];
  mark = c;
  right = s;
  spelt = refl;
  marked = h;
  fields = rw (mark_fields_of_count_zero s k) (rw h refl);
}

Marked-of_count : (s : Bytes) → count_marks s ≡ 1 → Marked s
unfolding count_marks
Marked-of_count [] h = absurd (omega arith)
Marked-of_count (c ∷ s) h = elim (Bool-cases (is_mark c)) [
  | inl m ↦ Marked-here c s m (ground arith)
  | inr m ↦ Marked-cons c s m (Marked-of_count s (ground arith))
]

check_parts_sound :
    (xs : List Bytes) {name : Bytes}
    → check_parts xs ≡ ok name
    → (fs : Bytes) × (xs ≡ fs ∷ name ∷ [])
      × (is_valid_zfs_dataset fs ≡ ok tt)
      × (is_valid_zfs_component name ≡ ok tt)
unfolding check_parts
check_parts_sound [] h = cc
check_parts_sound (fs ∷ []) h = cc
check_parts_sound (fs ∷ n ∷ m ∷ r) h = cc
check_parts_sound (fs ∷ n ∷ []) {name} h = (fs, ground arith, ground arith, ground arith)

fields_func_of_Marked :
    {src fs name : Bytes} (m : Marked src)
    → fields_func src ≡ fs ∷ name ∷ []
    → (m.left ≡ fs) × (m.right ≡ name)
unfolding fields_func
fields_func_of_Marked m h = ground (arith, m.fields)

pub accepted_parts :
    (src p : Bytes) {name : Bytes}
    → placeholder_source_name src p ≡ ok name
    → (count_marks src ≡ 1) × (check_parts (fields_func src) ≡ ok name)
unfolding placeholder_source_name
accepted_parts src p h = ground arith

-- A source is accepted only if it is a valid dataset and a valid component with one `@` or `#`
-- between them, and the result is that component.
pub placeholder_source_name_sound :
    (src p : Bytes) {name : Bytes}
    → placeholder_source_name src p ≡ ok name
    → (fs : Bytes) × (c : ℕ) × (src ≡ fs ++ c ∷ name)
      × (is_mark c ≡ true)
      × (is_valid_zfs_dataset fs ≡ ok tt)
      × (is_valid_zfs_component name ≡ ok tt)
placeholder_source_name_sound src p {name} h =
    let (one, checked) = accepted_parts src p h in
    let (fs, parts, valid, plain) = check_parts_sound (fields_func src) checked in
    let m = Marked-of_count src one in
    let (l, r) = fields_func_of_Marked m parts in
    (fs, m.mark, ground (arith, l, r, m.spelt), m.marked, valid, plain)

unmarked_mark : (c : ℕ) → (c ≢ b'@') × (c ≢ b'#') → is_mark c ≡ false
unfolding is_mark
unmarked_mark c h = ground arith

mark_fields-append :
    (fs name : Bytes) (c : ℕ)
    → IsUnmarked fs
    → is_mark c ≡ true
    → IsUnmarked name
    → (mark_fields (fs ++ c ∷ name) ≡ (fs, if is_empty name then [] else name ∷ []))
      × (count_marks (fs ++ c ∷ name) ≡ 1)
unfolding mark_fields count_marks
mark_fields-append [] name c u m v =
    let none_behind = IsUnmarked-count name v in
    ground (arith, mark_fields_of_count_zero name none_behind)
mark_fields-append (d ∷ fs) name c u m v =
    ground (arith, unmarked_mark d u.0, mark_fields-append fs name c u.1 m v)

valid_ne_nil :
    (s : Bytes)
    → (is_valid_zfs_dataset s ≡ ok tt) ⊎ (is_valid_zfs_component s ≡ ok tt)
    → is_empty s ≡ false
unfolding is_valid_zfs_dataset is_valid_zfs_component
valid_ne_nil [] h = ground arith
valid_ne_nil (c ∷ s) h = refl

check_parts_complete :
    (fs name : Bytes)
    → is_valid_zfs_dataset fs ≡ ok tt
    → is_valid_zfs_component name ≡ ok tt
    → check_parts (fs ∷ name ∷ []) ≡ ok name
unfolding check_parts
check_parts_complete fs name h k = rw (h, k)

-- Every valid dataset and component with a mark between them is accepted, under a valid suffix.
pub placeholder_source_name_complete :
    (fs name p : Bytes) (c : ℕ)
    → is_mark c ≡ true
    → is_valid_placeholder p ≡ true
    → is_valid_zfs_dataset fs ≡ ok tt
    → is_valid_zfs_component name ≡ ok tt
    → placeholder_source_name (fs ++ c ∷ name) p ≡ ok name
unfolding placeholder_source_name fields_func
placeholder_source_name_complete fs name p c m hp hf hn =
    let (fields, one) =
      mark_fields-append fs name c (dataset-IsUnmarked fs hf) m (component-IsUnmarked name hn) in
    ground (
      arith,
      fields,
      one,
      valid_ne_nil fs (inl hf),
      valid_ne_nil name (inr hn),
      check_parts_complete fs name hf hn,
    )

-- Under a valid suffix, placeholderSourceName accepts exactly the sources that are a valid dataset
-- and a valid component with one @ or # between them, and returns the component.
pub placeholder_source_name_exact :
    (src p name : Bytes)
    → is_valid_placeholder p ≡ true
    → (placeholder_source_name src p ≡ ok name) ↔ (
        (fs : Bytes) × (c : ℕ) × (src ≡ fs ++ c ∷ name)
        × (is_mark c ≡ true)
        × (is_valid_zfs_dataset fs ≡ ok tt)
        × (is_valid_zfs_component name ≡ ok tt))
placeholder_source_name_exact src p name hp = (
  placeholder_source_name_sound src p,
  λ (fs, c, e, m, hf, hn).
      ap (λ x. placeholder_source_name x p) e
      ∙ placeholder_source_name_complete fs name p c m hp hf hn,
)
