-- ===== src/Zfs/Listed.antt =====
-- What the rows are that `ZfsList` returns.
use mathlib.Core.Path.{subst}
use mathlib.Core.List.{Perm}
use mathlib.Core.List.Perm
use zfsbackup.Base.{
  outcome, ◌≡◌, refl, ap, sym, ◌∙◌, ◌⊎◌, inl, inr, true, false, Option, some, List, [], ◌∷◌, Bytes,
  map, ok, ok-injective, sort_by, sort_by-perm, is_empty, any, Bool-cases,
}
use zfsbackup.Names.{is_valid_zfs_dataset, fs_name}
use zfsbackup.Exec.{Host, lift, zfs, run_ok}
use zfsbackup.Zfs.Json.{Json, Members, no_more, member, Props, value_of, extract_props}
use zfsbackup.Zfs.Table.{
  Flags, Entry, scan_flags, no_flags, requested, is_missing, name_default, check_entry, make_entry,
  make_entries, effective_key, not_behind, rows_of, table, decoded, list_args, zfs_list,
}
use zfsbackup.Zfs.Shown.{shown, Values, has_value, each_value, asked_for}

-- The dataset can be sorted by the key.
abbrev pub HasKey : Bytes → Bytes → Props → Type 0
HasKey key k v = (is_empty key ≡ true) ⊎ ((x : Bytes) × (shown k v key ≡ some x))

-- A row for each dataset of the decoded output, in its order.
pub data Listed (props : List Bytes) (key : Bytes) : Members → List (List Bytes) → Type 0 where
  no_dataset : Listed props key no_more []
  a_dataset :
      {k : Bytes} {raw : Json} {m : Members} {v : Props} {row : List Bytes}
      {rows : List (List Bytes)}
      → extract_props raw ≡ ok v
      → Values k v props row
      → HasKey key k v
      → Listed props key m rows
      → Listed props key (member k raw m) (row ∷ rows)

module _ (props : List Bytes) (key : Bytes) where
  row_of : Entry → List Bytes
  row_of e = map (λ p. value_of p e.vals) props

  check_entry-Listed :
      (k : Bytes) (v : Props) (raw : Json) {e : Entry} {m : Members} {rows : List (List Bytes)}
      → extract_props raw ≡ ok v
      → check_entry (requested props key) k (name_default k v) ≡ ok e
      → Listed props key m rows
      → Listed props key (member k raw m) (row_of e ∷ rows)
  unfolding check_entry row_of
  check_entry-Listed k v raw {m = m} {rows = rows} p h rest =
      elim (Bool-cases (any (is_missing (name_default k v)) (requested props key))) [
        | inl e ↦ absurd (let q = rw (check_entry, e) at h in cc)
        | inr e ↦
            let same = ok-injective (rw (check_entry, e) at h) in
            let (all, own) = asked_for key props (name_default k v) e in
            let row = map (λ p. value_of p (name_default k v)) props in
            subst (λ (e : Entry). Listed props key (member k raw m) (row_of e ∷ rows)) same
              (a_dataset p (each_value k v props all) (has_key own) rest)
      ]
    where
      has_key : (is_empty key ≡ true) ⊎ (is_missing (name_default k v) key ≡ false) → HasKey key k v
      has_key (inl e) = inl e
      has_key (inr e) = inr (_, has_value k key v e)

  make_entry_ok :
      (k : Bytes) (raw : Json) {e : Entry}
      → make_entry (requested props key) k raw ≡ ok e
      → (v : Props) × (extract_props raw ≡ ok v)
        × (check_entry (requested props key) k (name_default k v) ≡ ok e)
  unfolding make_entry
  make_entry_ok k raw h = elim (outcome (extract_props raw)) [
    | inl (x, p) ↦ absurd (let q = rw (make_entry, p) at h in cc)
    | inr (v, p) ↦ (v, p, rw (make_entry, p) at h)
  ]

  make_entries-Listed :
      (m : Members) {es : List Entry}
      → make_entries (requested props key) m ≡ ok es
      → Listed props key m (map row_of es)
  unfolding make_entries
  make_entries-Listed no_more h =
      subst (λ es. Listed props key no_more (map row_of es)) (ok-injective h) no_dataset
  make_entries-Listed (member k raw m) h = elim (outcome (make_entry (requested props key) k raw)) [
    | inl (x, p) ↦ absurd (let q = rw (make_entries, p) at h in cc)
    | inr (e, p) ↦ elim (outcome (make_entries (requested props key) m)) [
      | inl (x, q) ↦ absurd (let r = rw (make_entries, p, q) at h in cc)
      | inr (es, q) ↦
          let (v, extracted, checked) = make_entry_ok k raw p in
          subst (λ es. Listed props key (member k raw m) (map row_of es))
            (ok-injective (rw (make_entries, p, q) at h))
            (check_entry-Listed k v raw extracted checked (make_entries-Listed m q))
    ]
  ]

  rows_of-map : (es : List Entry) → rows_of props es ≡ map row_of es
  unfolding rows_of row_of
  rows_of-map [] = refl
  rows_of-map (e ∷ es) = ap (λ rows. row_of e ∷ rows) (rows_of-map es)

-- The rows of a decoded output, in some order.
table-Listed :
    (props : List Bytes) (f : Flags) (m : Members) {rows : List (List Bytes)}
    → table props f m ≡ ok rows
    → (listed : List (List Bytes)) × Listed props f.key m listed × Perm rows listed
unfolding table
table-Listed props f m {rows} h = elim (outcome (make_entries (requested props f.key) m)) [
  | inl (x, p) ↦ absurd (let q = rw (table, p) at h in cc)
  | inr (es, p) ↦
      let before = not_behind (effective_key f.key) f.descending in
      let same =
        sym (rows_of-map props f.key (sort_by before es)) ∙ ok-injective (rw (table, p) at h) in
      (
        map (row_of props f.key) es,
        make_entries-Listed props f.key m p,
        subst (λ rows. Perm rows (map (row_of props f.key) es)) same
            (Perm.map (row_of props f.key) (sort_by-perm before es)),
      )
]

-- Where ZfsList succeeds, zfs list was run for what was asked for and read, and the rows are, in
-- some order, one for each dataset of its output. A row has the value of each property that was
-- asked for, in order and none missing: that of the properties extracted from the dataset, but for
-- a name that they do not have, which is the key of the dataset. No dataset lacks the property to
-- sort by, also where the caller did not ask for it.
pub zfs_list-Listed :
    (H : Host) (decode : Bytes → Option Json) (props : List Bytes) (t fullds : Bytes)
    (flags : List Bytes) (s : H.State) {s' : H.State} {rows : List (List Bytes)}
    → zfs_list H decode props t fullds flags s ≡ (ok rows, s')
    → let f = scan_flags flags no_flags in
      (out : Bytes) × (m : Members) × (listed : List (List Bytes)) × (zfs H
          (list_args (requested props f.key) t fullds f.others)
          s
        ≡ (ok out, s'))
      × (decoded (decode out) ≡ ok m)
      × Listed props f.key m listed
      × Perm rows listed
unfolding zfs_list
zfs_list-Listed H decode props t fullds flags s h =
    let f = scan_flags flags no_flags in
    let (u, s₁, valid, h₁) = run_ok (lift (is_valid_zfs_dataset (fs_name fullds))) _ s h in
    let (out, s₂, ran, h₂) =
      run_ok (zfs H (list_args (requested props f.key) t fullds f.others)) _ s₁ h₁ in
    let (m, s₃, read, h₃) = run_ok (lift (decoded (decode out))) _ s₂ h₂ in
    let (listed, each, perm) = table-Listed props f m (ap (λ r. r.0) h₃) in
    let start = ap (λ r. r.1) valid in
    let stop = ap (λ r. r.1) read ∙ ap (λ r. r.1) h₃ in
    (
      out,
      m,
      listed,
      ap (zfs H (list_args (requested props f.key) t fullds f.others)) start
          ∙ ran
          ∙ ap (λ w. (ok out, w)) stop,
      ap (λ r. r.0) read,
      each,
      perm,
    )
