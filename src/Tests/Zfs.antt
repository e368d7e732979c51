-- ===== src/Tests/Zfs.antt =====
-- Entries of a listing.
use mathlib.Core.List.{Perm}
use mathlib.Core.Option.{or_else}
use zfsbackup.Names.{
  fs_name, is_mark, is_valid_placeholder, is_valid_zfs_dataset, is_valid_zfs_component,
  bookmark_name,
}
use zfsbackup.Zfs.Idempotent.{IsThere, zfs_bookmark_idempotent_sound}
use zfsbackup.Zfs.Listed.{Listed, zfs_list-Listed}
use zfsbackup.Exec.{zfs, Host, ◌>>=◌, ◌>>◌}
use zfsbackup.Zfs.Table.{scan_flags, no_flags, list_args, requested, decoded, zfs_list}
use zfsbackup.Zfs.Bookmarks.{zfs_bookmark_idempotent, gc_loop, zfs_set_placeholder}
use zfsbackup.Zfs.Obsolete.{is_obsolete, destroy_each}
use zfsbackup.Zfs.Placeholders.{zfs_set_placeholder_checkpoint}
use zfsbackup.Base.{
  arith, ◌⊎◌, ◌≢◌, ◌&&◌, some, true, false, Option, List, ◌++◌, map, keep_if, has_suffix, ◌≡◌, refl,
  none, if◌then◌else◌, [], ◌∷◌, Bytes, codes, ok, text_eq,
}
use zfsbackup.Zfs.Json.{
  Json, text, number, object, Members, no_more, member, Props, find, lookup, properties,
  extract_props, first_scalar, extract_props-lookup,
}

abbrev entry : Members
entry = member (codes "name") (text (codes "t@a")) (
    member (codes "used") (number (codes "7")) (
      member (codes "properties")
        (object (
          member (codes "creation") (object (member (codes "value") (text (codes "12")) no_more))
            no_more))
        no_more))

abbrev flat_entry : Props
flat_entry = (codes "creation", codes "12") ∷ (codes "name", codes "t@a") ∷ []

entry_runs : extract_props (object entry) ≡ ok flat_entry
unfolding extract_props
entry_runs = refl

extract_props-lookup_example :
    (props : Props) × (properties (find (codes "properties") entry) ≡ ok props)
    × ((j : Bytes)
        → lookup j flat_entry
          ≡ or_else
              (lookup j props)
              (if text_eq j (codes "properties") then none else first_scalar j entry))
extract_props-lookup_example = extract_props-lookup entry entry_runs

-- A machine on which every command succeeds, and which lists the arguments, last first.
abbrev journal : Host
journal = record { State = List (List Bytes); output = λ name args log. (some [], args ∷ log) }

-- Every output is a listing of four bookmarks.
abbrev marks : Members
marks = member (codes "t#s0-p") (object no_more) (
    member (codes "t#s1-p") (object no_more) (
      member (codes "t#s0-q") (object no_more)
        (member (codes "t#s1-before-p") (object no_more) no_more)))

abbrev listing : Bytes → Option Json
listing out = some (object (member (codes "datasets") (object marks) no_more))

-- `s0-p` and `s1-before-p` go; `s1-p` is new, and `s0-q` is another destination's.
set_placeholder_runs : zfs_set_placeholder journal listing (codes "t@s1") (codes "p") [] ≡ (
  ok tt,
  (codes "destroy" ∷ codes "t#s1-before-p" ∷ [])
      ∷ (codes "destroy" ∷ codes "t#s0-p" ∷ [])
      ∷ (codes "list"
          ∷ codes "-j"
          ∷ codes "-p"
          ∷ codes "-o"
          ∷ codes "name"
          ∷ codes "-t"
          ∷ codes "bookmark"
          ∷ codes "-r"
          ∷ codes "-d1"
          ∷ codes "t"
          ∷ [])
      ∷ (codes "bookmark" ∷ codes "t@s1" ∷ codes "#s1-p" ∷ [])
      ∷ [],
)
unfolding zfs_set_placeholder is_valid_zfs_dataset fs_name
set_placeholder_runs = refl

at_mark : is_mark b'@' ≡ true
unfolding is_mark
at_mark = refl

valid_suffix : is_valid_placeholder (codes "p") ≡ true
unfolding is_valid_placeholder
valid_suffix = refl

other_suffix : is_valid_placeholder (codes "q") ≡ true
unfolding is_valid_placeholder
other_suffix = refl

suffixes_differ : codes "p" ≢ codes "q"
suffixes_differ e = ground arith

valid_dataset : is_valid_zfs_dataset (codes "t") ≡ ok tt
unfolding is_valid_zfs_dataset
valid_dataset = refl

valid_name : is_valid_zfs_component (codes "s1") ≡ ok tt
unfolding is_valid_zfs_component
valid_name = refl

zfs_set_placeholder_checkpoint_example :
    (stem : Bytes) × let made = b'#' ∷ (stem ++ b'-' ∷ codes "p") in
      (zfs_set_placeholder journal listing (codes "t" ++ b'@' ∷ codes "s1") (codes "p") ≡ (
        zfs_bookmark_idempotent journal listing (codes "t" ++ b'@' ∷ codes "s1") made
        >> (zfs_list journal listing (codes "name" ∷ []) (codes "bookmark") (codes "t") []
            >>= λ rows. gc_loop journal (codes "t" ++ made) (b'-' ∷ codes "p") rows)))
      × ((bs : List Bytes)
          → gc_loop journal (codes "t" ++ made) (b'-' ∷ codes "p") (map (λ b. b ∷ []) bs)
            ≡ destroy_each journal (keep_if (is_obsolete (codes "t" ++ made) (codes "p")) bs))
      × ((b : Bytes)
          → (is_obsolete (codes "t" ++ made) (codes "p") b
              && has_suffix (b'-' ∷ codes "q") (bookmark_name b))
            ≡ false)
zfs_set_placeholder_checkpoint_example =
    zfs_set_placeholder_checkpoint journal listing (codes "t") (codes "s1") (codes "p") (codes "q")
      b'@' at_mark valid_suffix other_suffix suffixes_differ valid_dataset valid_name

-- A machine that has the bookmark `t#s1-p` of GUID 7, and refuses to make another.
abbrev taken : Host
taken = record {
  State = Unit;
  output = λ name args s. (
    elim args [
      | [] ↦ none
      | command ∷ _ ↦
          if text_eq command (codes "bookmark")
          then none
          else if text_eq command (codes "get")
          then some (codes "7" ++ 10 ∷ [])
          else some []
    ],
    s,
  );
}

abbrev one_mark : Bytes → Option Json
one_mark out = some (
    object (
      member (codes "datasets")
        (object (
          member (codes "t#s1-p") (object (member (codes "guid") (text (codes "7")) no_more))
            no_more))
        no_more))

idempotent_runs :
    zfs_bookmark_idempotent taken one_mark (codes "t@s1") (codes "#s1-p") tt ≡ (ok tt, tt)
unfolding zfs_bookmark_idempotent is_valid_zfs_dataset fs_name text_eq
idempotent_runs = refl

zfs_bookmark_idempotent_sound_example :
    ((out : Bytes) × (zfs taken (codes "bookmark" ∷ codes "t@s1" ∷ codes "#s1-p" ∷ []) tt
        ≡ (ok out, tt)))
    ⊎ IsThere taken one_mark (codes "t@s1") (codes "#s1-p") tt
zfs_bookmark_idempotent_sound_example =
    zfs_bookmark_idempotent_sound taken one_mark (codes "t@s1") (codes "#s1-p") tt idempotent_runs

abbrev name_guid : List Bytes
name_guid = codes "name" ∷ codes "guid" ∷ []

-- A bookmark with a GUID and a transaction number.
abbrev mark : Bytes → Bytes → Json
mark guid txg =
    object (member (codes "guid") (text guid) (member (codes "createtxg") (text txg) no_more))

-- Two bookmarks, the newer one first.
abbrev two_marks : Bytes → Option Json
two_marks out = some (
    object (
      member (codes "datasets")
        (object (
          member (codes "t#b") (mark (codes "7") (codes "10"))
            (member (codes "t#a") (mark (codes "8") (codes "9")) no_more)))
        no_more))

abbrev by_txg : List Bytes
by_txg = codes "-s" ∷ codes "createtxg" ∷ []

abbrev mark_rows : List (List Bytes)
mark_rows = (codes "t#a" ∷ codes "8" ∷ []) ∷ (codes "t#b" ∷ codes "7" ∷ []) ∷ []

list_runs :
    zfs_list taken two_marks name_guid (codes "bookmark") (codes "t") by_txg tt ≡ (ok mark_rows, tt)
unfolding zfs_list is_valid_zfs_dataset fs_name text_eq
list_runs = refl

zfs_list-Listed_example :
    let f = scan_flags by_txg no_flags in
    (out : Bytes) × (m : Members) × (listed : List (List Bytes)) × (zfs taken
        (list_args (requested name_guid f.key) (codes "bookmark") (codes "t") f.others)
        tt
      ≡ (ok out, tt))
    × (decoded (two_marks out) ≡ ok m)
    × Listed name_guid f.key m listed
    × Perm mark_rows listed
zfs_list-Listed_example =
    zfs_list-Listed taken two_marks name_guid (codes "bookmark") (codes "t") by_txg tt list_runs
