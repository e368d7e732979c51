-- ===== src/Zfs/Rows.antt =====
-- The shape of what `ZfsList` returns, by which its callers index the rows.
use mathlib.Core.Path.{subst}
use zfsbackup.Base.{
  outcome, suc, ◌≡◌, refl, ap, inl, inr, Option, List, [], ◌∷◌, Bytes, map, length, All, arith, ok,
  ok-injective, sort_by,
}
use zfsbackup.Names.{is_valid_zfs_dataset, fs_name}
use zfsbackup.Exec.{Host, lift, zfs, run_ok}
use zfsbackup.Zfs.Json.{Json, Members, value_of}
use zfsbackup.Zfs.Table.{
  Flags, Entry, scan_flags, no_flags, requested, effective_key, not_behind, make_entries, rows_of,
  table, decoded, list_args, zfs_list,
}

-- A row with a value for each property.
abbrev pub IsRowOf : List Bytes → List Bytes → Type 0
IsRowOf props row = length row ≡ length props

length-map : {A : Type 0} (f : A → Bytes) (xs : List A) → length (map f xs) ≡ length xs
length-map f [] = refl
length-map f (x ∷ xs) = ap suc (length-map f xs)

rows_of-IsRowOf : (props : List Bytes) (es : List Entry) → All (IsRowOf props) (rows_of props es)
unfolding rows_of
rows_of-IsRowOf props [] = tt
rows_of-IsRowOf props (e ∷ es) =
    (length-map (λ p. value_of p e.vals) props, rows_of-IsRowOf props es)

table-IsRowOf :
    (props : List Bytes) (flags : Flags) (m : Members) {rows : List (List Bytes)}
    → table props flags m ≡ ok rows
    → All (IsRowOf props) rows
unfolding table
table-IsRowOf props flags m h = elim (outcome (make_entries (requested props flags.key) m)) [
  | inl (e, p) ↦ absurd (ground (arith, p))
  | inr (es, p) ↦
      let sorted = sort_by (not_behind (effective_key flags.key) flags.descending) es in
      subst (All (IsRowOf props)) (ok-injective (rw (table, p) at h)) (rows_of-IsRowOf props sorted)
]

-- Every row that `ZfsList` returns has one value for each property that was asked for, also where
-- the sort key was added to the request.
pub zfs_list-IsRowOf :
    (H : Host) (decode : Bytes → Option Json) (props : List Bytes) (t fullds : Bytes)
    (flags : List Bytes) (s : H.State) {s' : H.State} {rows : List (List Bytes)}
    → zfs_list H decode props t fullds flags s ≡ (ok rows, s')
    → All (IsRowOf props) rows
unfolding zfs_list
zfs_list-IsRowOf H decode props t fullds flags s h =
    let f = scan_flags flags no_flags in
    let (u, s₁, valid, h₁) = run_ok (lift (is_valid_zfs_dataset (fs_name fullds))) _ s h in
    let (out, s₂, ran, h₂) =
      run_ok (zfs H (list_args (requested props f.key) t fullds f.others)) _ s₁ h₁ in
    let (m, s₃, read, h₃) = run_ok (lift (decoded (decode out))) _ s₂ h₂ in
    table-IsRowOf props f m (ap (λ r. r.0) h₃)
