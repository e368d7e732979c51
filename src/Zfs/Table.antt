-- ===== src/Zfs/Table.antt =====
-- `ZfsList`: the listing of datasets with the properties that a caller asks for, in order.
use Prim.Native.Nat.{compare, Ordering}
use zfsbackup.Base.{
  Bool, true, false, not, ◌&&◌, ◌||◌, Option, none, some, List, [], ◌∷◌, ◌++◌, map, Bytes, codes,
  if◌then◌else◌, is_empty, any, contains, text_eq, join, parse_int, ℤ, pos_part, neg_part, ◌+◌,
  Result, ok, err, bad_output, sort_by,
}
use zfsbackup.Names.{is_valid_zfs_dataset, fs_name}
use zfsbackup.Exec.{Host, Act, ◌>>=◌, lift, zfs}
use zfsbackup.Zfs.Json.{
  Json, null, bool, number, text, array, object, Members, no_more, member, Props, find, lookup,
  value_of, insert, as_members, extract_props,
}

-- `sortKey`, `descending` and `filteredFlags`.
pub record Flags : Type 0 where
  pub key : Bytes
  pub descending : Bool
  pub others : List Bytes

unfoldable pub is_sort_flag : Bytes → Bool
unfolding text_eq
is_sort_flag f = text_eq f (codes "-s") || text_eq f (codes "-S")

-- The loop over the flags.
unfoldable pub scan_flags : List Bytes → Flags → Flags
unfolding is_sort_flag
scan_flags [] st = st
scan_flags (f ∷ []) st = record st { others = st.others ++ f ∷ [] }
scan_flags (f ∷ a ∷ fs) st =
    let skip = scan_flags fs (record st { key = a; descending = text_eq f (codes "-S") }) in
    let next = scan_flags (a ∷ fs) (record st { others = st.others ++ f ∷ [] }) in
    if is_sort_flag f then skip else next

abbrev pub no_flags : Flags
no_flags = record { key = []; descending = false; others = [] }

-- `entry`
pub record Entry : Type 0 where
  pub key : Bytes
  pub vals : Props

-- `reqProps`
unfoldable pub requested : List Bytes → Bytes → List Bytes
unfolding contains
requested props key =
    if not (is_empty key) && not (contains props key) then props ++ key ∷ [] else props

unfoldable pub is_missing : Props → Bytes → Bool
unfolding lookup
is_missing vals p = elim (lookup p vals) [ none ↦ true | some v ↦ false ]

unfoldable pub name_default : Bytes → Props → Props
unfolding value_of insert
name_default k v = if is_empty (value_of (codes "name") v) then insert (codes "name") k v else v

unfoldable pub check_entry : List Bytes → Bytes → Props → Result Entry
unfolding is_missing
check_entry req k v =
    if any (is_missing v) req then err bad_output else ok (record { key = k; vals = v })

-- One round of the loop over the datasets.
unfoldable pub make_entry : List Bytes → Bytes → Json → Result Entry
unfolding extract_props name_default check_entry
make_entry req k raw = elim (extract_props raw) [
  | err e ↦ err e
  | ok v ↦ check_entry req k (name_default k v)
]

unfoldable pub make_entries : List Bytes → Members → Result (List Entry)
unfolding make_entry
make_entries req no_more = ok []
make_entries req (member k raw m) = elim (make_entry req k raw) [
  | err e ↦ err e
  | ok entry ↦ elim (make_entries req m) [ err e ↦ err e | ok rest ↦ ok (entry ∷ rest) ]
]

-- `cmp.Compare` on strings, which are compared by bytes.
unfoldable pub compare_text : Bytes → Bytes → Ordering
compare_text [] [] = Ordering.eq
compare_text [] (d ∷ t) = Ordering.lt
compare_text (c ∷ s) [] = Ordering.gt
compare_text (c ∷ s) (d ∷ t) =
    let rest = compare_text s t in
    elim (compare c d) [
      | Ordering.lt ↦ Ordering.lt
      | Ordering.eq ↦ rest
      | Ordering.gt ↦ Ordering.gt
    ]

unfoldable pub compare_int : ℤ → ℤ → Ordering
compare_int a b = compare (pos_part a + neg_part b) (pos_part b + neg_part a)

-- Numbers are compared as such, and anything else as text.
unfoldable pub compare_value : Bytes → Bytes → Ordering
unfolding compare_text compare_int parse_int
compare_value va vb = elim (parse_int va) [
  | none ↦ compare_text va vb
  | some na ↦ elim (parse_int vb) [ none ↦ compare_text va vb | some nb ↦ compare_int na nb ]
]

unfoldable pub sort_value : Bytes → Entry → Bytes
unfolding value_of
sort_value key e = let v = value_of key e.vals in if is_empty v then e.key else v

-- The comparison of two entries, ties broken by name.
unfoldable pub compare_entry : Bytes → Entry → Entry → Ordering
unfolding compare_value sort_value compare_text
compare_entry key a b = elim (compare_value (sort_value key a) (sort_value key b)) [
  | Ordering.lt ↦ Ordering.lt
  | Ordering.eq ↦ compare_text a.key b.key
  | Ordering.gt ↦ Ordering.gt
]

-- The function literal of the sort does not put `a` behind `b`.
unfoldable pub not_behind : Bytes → Bool → Entry → Entry → Bool
unfolding compare_entry
not_behind key descending a b = elim (compare_entry key a b) [
  | Ordering.lt ↦ not descending
  | Ordering.eq ↦ true
  | Ordering.gt ↦ descending
]

unfoldable pub effective_key : Bytes → Bytes
effective_key key = if is_empty key then codes "name" else key

unfoldable pub rows_of : List Bytes → List Entry → List (List Bytes)
unfolding value_of
rows_of props [] = []
rows_of props (e ∷ es) = map (λ p. value_of p e.vals) props ∷ rows_of props es

-- The field `Datasets` of the decoded output. A missing one is nil, and so is `null`.
unfoldable pub datasets_of : Option Json → Result Members
datasets_of none = err bad_output
datasets_of (some (object m)) = ok m
datasets_of (some null) = err bad_output
datasets_of (some (bool b)) = err bad_output
datasets_of (some (number n)) = err bad_output
datasets_of (some (text s)) = err bad_output
datasets_of (some (array xs)) = err bad_output

unfoldable pub decoded : Option Json → Result Members
unfolding as_members datasets_of find
decoded none = err bad_output
decoded (some j) = elim (as_members j) [
  | none ↦ err bad_output
  | some m ↦ datasets_of (find (codes "datasets") m)
]

unfoldable pub list_args : List Bytes → Bytes → Bytes → List Bytes → List Bytes
unfolding join
list_args req t fullds others =
    let depth =
      if text_eq t (codes "snapshot") || text_eq t (codes "bookmark")
      then codes "-r" ∷ codes "-d1" ∷ []
      else [] in
    codes "list"
    ∷ codes "-j"
    ∷ codes "-p"
    ∷ codes "-o"
    ∷ join req b','
    ∷ codes "-t"
    ∷ t
    ∷ (depth ++ others ++ fullds ∷ [])

-- The rows of a decoded output.
unfoldable pub table : List Bytes → Flags → Members → Result (List (List Bytes))
unfolding make_entries sort_by not_behind effective_key rows_of requested
table props flags datasets = elim (make_entries (requested props flags.key) datasets) [
  | err e ↦ err e
  | ok entries ↦
      ok (rows_of props (sort_by (not_behind (effective_key flags.key) flags.descending) entries))
]

-- `decode` reads a text as JSON, or fails.
unfoldable pub zfs_list :
    (H : Host)
    → (Bytes → Option Json)
    → List Bytes
    → Bytes
    → Bytes
    → List Bytes
    → Act H (List (List Bytes))
unfolding zfs list_args decoded table scan_flags
zfs_list H decode props t fullds flags = lift (is_valid_zfs_dataset (fs_name fullds)) >>= λ _.
    let f = scan_flags flags no_flags in
    zfs H (list_args (requested props f.key) t fullds f.others) >>= λ out.
    lift (decoded (decode out)) >>= λ datasets. lift (table props f datasets)
