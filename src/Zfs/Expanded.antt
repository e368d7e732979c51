-- ===== src/Zfs/Expanded.antt =====
-- Which file systems `ExpandFsToProcess` finds.
use zfsbackup.Base.{
  contains-append, not_below, ◌≡◌, refl, ◌∙◌, Bool, true, false, not, ◌&&◌, ◌||◌, ◌==◌, Option,
  List, [], ◌∷◌, ◌++◌, Bytes, arith, is_empty, any, contains, text_eq, text_eq_iff, has_prefix,
  leb_text, sorted_set, IsIncreasing, sorted_set-IsIncreasing, contains-sorted_set, All, Result, ok,
  err,
}
use zfsbackup.Names.{is_valid_zfs_dataset}
use zfsbackup.Exec.{Host}
use zfsbackup.Zfs.Json.{Json}
use zfsbackup.Zfs.Expand.{
  Found, check_names, is_excluded, keep_row, keep_rows, keep_listed, list_below, expand_roots,
  expand_fs_to_process,
}

pub is_valid : Bytes → Bool
is_valid fs = elim (is_valid_zfs_dataset fs) [ ok u ↦ true | err e ↦ false ]

-- A row of the file system.
abbrev pub is_row_of : Bytes → List Bytes → Bool
is_row_of fs [] = false
is_row_of fs (name ∷ _) = text_eq name fs

-- A listing that succeeded and has a row of the file system.
abbrev pub is_listed : Bytes → Result (List (List Bytes)) → Bool
is_listed fs (err e) = false
is_listed fs (ok rows) = any (is_row_of fs) rows

-- A row whose name is no dataset's.
abbrev pub is_bad_row : List Bytes → Bool
is_bad_row [] = true
is_bad_row (name ∷ _) = not (is_valid name)

-- A listing that failed, or has such a row.
abbrev pub is_bad : Result (List (List Bytes)) → Bool
is_bad (err e) = true
is_bad (ok rows) = any is_bad_row rows

-- The second name is the first, or goes on with a slash behind it.
pub is_inside : Bytes → Bytes → Bool
is_inside [] [] = true
is_inside [] (d ∷ s) = b'/' == d
is_inside (c ∷ x) [] = false
is_inside (c ∷ x) (d ∷ s) = c == d && is_inside x s

excluded-is_inside : (x s : Bytes) → (text_eq s x || has_prefix (x ++ b'/' ∷ []) s) ≡ is_inside x s
unfolding text_eq has_prefix is_inside
excluded-is_inside [] [] = refl
excluded-is_inside [] (d ∷ s) = ground arith
excluded-is_inside (c ∷ x) [] = refl
excluded-is_inside (c ∷ x) (d ∷ s) = ground (arith, excluded-is_inside x s)

is_excluded-is_inside :
    (exclude : List Bytes) (fs : Bytes) → is_excluded exclude fs ≡ any (λ x. is_inside x fs) exclude
unfolding is_excluded
is_excluded-is_inside [] fs = refl
is_excluded-is_inside (x ∷ xs) fs =
    ground (arith, excluded-is_inside x fs, is_excluded-is_inside xs fs)

module _ (exclude : List Bytes) where
  -- To be processed, if it is there: inside no excluded file system.
  pub is_wanted : Bytes → Bool
  is_wanted fs = is_valid fs && not (any (λ x. is_inside x fs) exclude)

  contains-keep_rows :
      (fs : Bytes) (rows : List (List Bytes))
      → contains (keep_rows exclude rows).0 fs ≡ (any (is_row_of fs) rows && is_wanted fs)
  unfolding keep_rows keep_row is_wanted is_valid contains
  contains-keep_rows fs [] = refl
  contains-keep_rows fs ([] ∷ rows) = contains-keep_rows fs rows
  contains-keep_rows fs ((name ∷ r) ∷ rows) =
      ground
        (arith, contains-keep_rows fs rows, text_eq_iff name fs, is_excluded-is_inside exclude name)

  keep_rows_errors :
      (rows : List (List Bytes)) → is_empty (keep_rows exclude rows).1 ≡ not (any is_bad_row rows)
  unfolding keep_rows keep_row is_valid
  keep_rows_errors [] = refl
  keep_rows_errors ([] ∷ rows) = refl
  keep_rows_errors ((name ∷ r) ∷ rows) = ground (arith, keep_rows_errors rows)

  contains-keep_listed :
      (fs : Bytes) (l : Result (List (List Bytes)))
      → contains (keep_listed exclude l).0 fs ≡ (is_listed fs l && is_wanted fs)
  unfolding keep_listed contains
  contains-keep_listed fs (err e) = refl
  contains-keep_listed fs (ok rows) = contains-keep_rows fs rows

  keep_listed_errors :
      (l : Result (List (List Bytes))) → is_empty (keep_listed exclude l).1 ≡ not (is_bad l)
  unfolding keep_listed
  keep_listed_errors (err e) = refl
  keep_listed_errors (ok rows) = keep_rows_errors rows

is_empty-append : {A : Type 0} (xs ys : List A) → is_empty (xs ++ ys) ≡ (is_empty xs && is_empty ys)
is_empty-append [] ys = refl
is_empty-append (x ∷ xs) ys = refl

-- No file system stands before one that it lies below.
abbrev pub IsParentsFirst : List Bytes → Type 0
IsParentsFirst [] = Unit
IsParentsFirst (x ∷ xs) = All (λ y. has_prefix (y ++ b'/' ∷ []) x ≡ false) xs × IsParentsFirst xs

All-not_below :
    (x : Bytes) (ys : List Bytes)
    → All (λ y. leb_text y x ≡ false) ys
    → All (λ y. has_prefix (y ++ b'/' ∷ []) x ≡ false) ys
All-not_below x [] h = tt
All-not_below x (y ∷ ys) h = (not_below x y b'/' h.0, All-not_below x ys h.1)

IsIncreasing-IsParentsFirst : (xs : List Bytes) → IsIncreasing xs → IsParentsFirst xs
IsIncreasing-IsParentsFirst [] h = tt
IsIncreasing-IsParentsFirst (x ∷ xs) h =
    (All-not_below x xs h.0, IsIncreasing-IsParentsFirst xs h.1)

module _ (H : Host) (decode : Bytes → Option Json) where
  -- The listings below the roots, one after the other.
  pub listings : List Bytes → H.State → List (Result (List (List Bytes))) × H.State
  listings [] s = ([], s)
  listings (root ∷ roots) s =
      let (l, s') = list_below H decode root s in let (ls, s'') = listings roots s' in (l ∷ ls, s'')

  -- Exactly those that some listing shows and that are wanted, an error for each bad listing, and
  -- no other command than the listings.
  record Expands (exclude : List Bytes) (found : Found × H.State)
      (ls : List (Result (List (List Bytes))) × H.State) : Type 0 where
    members :
        (fs : Bytes) → contains found.0.0 fs ≡ (any (is_listed fs) ls.0 && is_wanted exclude fs)
    errors : is_empty found.0.1 ≡ not (any is_bad ls.0)
    commands : found.1 ≡ ls.1

  expand_roots-Expands :
      (exclude roots : List Bytes) (s : H.State)
      → Expands exclude (expand_roots H decode exclude roots s) (listings roots s)
  unfolding expand_roots listings contains
  expand_roots-Expands exclude [] s = record {
    members = λ fs. refl;
    errors = refl;
    commands = refl;
  }
  expand_roots-Expands exclude (root ∷ roots) s =
      let (l, s') = list_below H decode root s in
      let rest = expand_roots-Expands exclude roots s' in
      let (found, es) = (expand_roots H decode exclude roots s').0 in
      record {
        members = λ fs. ground (
          arith,
          contains-append (keep_listed exclude l).0 found fs,
          contains-keep_listed exclude fs l,
          rest.members fs,
        );
        errors = ground (
          arith,
          is_empty-append (keep_listed exclude l).1 es,
          keep_listed_errors exclude l,
          rest.errors,
        );
        commands = rest.commands;
      }

  accepted :
      (include exclude : List Bytes) (s : H.State)
      → check_names include ≡ ok tt
      → check_names exclude ≡ ok tt
      → expand_fs_to_process H decode include exclude s ≡ (
          let ((found, es), s') = expand_roots H decode exclude include s in
          ((sorted_set found, es), s'))
  unfolding expand_fs_to_process
  accepted include exclude s h k = rw (expand_fs_to_process, h, k) refl

  -- For valid names to include and to exclude, `ExpandFsToProcess` lists below each root, whatever
  -- the others' listings give, and returns each file system that a successful listing shows, whose
  -- name is valid and which is not inside an excluded one, and no other. They come in ascending
  -- order, so each once, and none before one that it lies below. There is an error exactly where a
  -- listing fails or shows a name that is not valid.
  pub expand_fs_to_process_exact :
      (include exclude : List Bytes) (s : H.State)
      → check_names include ≡ ok tt
      → check_names exclude ≡ ok tt
      → let found = expand_fs_to_process H decode include exclude s in
        let ls = listings include s in
        ((fs : Bytes) → contains found.0.0 fs ≡ (any (is_listed fs) ls.0 && is_wanted exclude fs))
        × IsIncreasing found.0.0
        × IsParentsFirst found.0.0
        × (is_empty found.0.1 ≡ not (any is_bad ls.0))
        × (found.1 ≡ ls.1)
  expand_fs_to_process_exact include exclude s h k =
      let e = expand_roots-Expands exclude include s in
      let found = (expand_roots H decode exclude include s).0.0 in
      let up = sorted_set-IsIncreasing found in
      rw (accepted include exclude s h k) (
        λ fs. contains-sorted_set found fs ∙ e.members fs,
        up,
        IsIncreasing-IsParentsFirst (sorted_set found) up,
        e.errors,
        e.commands,
      )
