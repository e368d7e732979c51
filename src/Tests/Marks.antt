-- ===== src/Tests/Marks.antt =====
-- Placeholders on the backup host, and the parents of a destination.
use zfsbackup.Base.{
  ◌⊎◌, is_empty, false, err, invalid_dataset, none, ℕ, ◌≡◌, refl, true, Option, some, List, [], ◌∷◌,
  Bytes, codes, arith, ok,
}
use zfsbackup.Config.{ReceiverConfig, SetPlaceholders}
use zfsbackup.Names.{is_valid_zfs_dataset, fs_name}
use zfsbackup.Exec.{Host, run_each}
use zfsbackup.Zfs.Json.{Json, text, object, no_more, member}
use zfsbackup.Receiver.Suggestion.{destination}
use zfsbackup.Receiver.Marks.{check_payload, list_guids, set_placeholders}
use zfsbackup.Receiver.Marked.{set_directly, set_placeholders_directly}
use zfsbackup.Wire.{Codec, Link}
use zfsbackup.Zfs.Bookmarks.{exists}
use zfsbackup.Receiver.Serve.{Request, serve}
use zfsbackup.Receiver.Refused.{serve_refused}
use zfsbackup.Receiver.Parents.{check_parent}
use zfsbackup.Receiver.Ancestors.{Ready, slashes, check_parent_enough, check_parent-Ready}

abbrev journal : Host
journal = record { State = List (List Bytes); output = λ name args log. (some [], args ∷ log) }

-- Every listing shows one dataset, with its GUID.
abbrev one_snapshot : Bytes → Option Json
one_snapshot out = some (
    object (
      member (codes "datasets")
        (object (
          member (codes "b/t@s")
            (object (
              member (codes "properties")
                (object (
                  member (codes "guid") (object (member (codes "value") (text (codes "1")) no_more))
                    no_more))
                no_more))
            no_more))
        no_more))

abbrev payload : SetPlaceholders
payload = record {
  fs = codes "t";
  placeholders =
      record { name = codes "p"; guid = codes "1" }
      ∷ record { name = codes "q"; guid = codes "2" }
      ∷ [];
}

abbrev guids : List Bytes
guids = codes "1" ∷ codes "2" ∷ []

abbrev rows : List (List Bytes)
rows = (codes "b/t@s" ∷ codes "1" ∷ []) ∷ []

payload_runs : check_payload (codes "t") (some payload) ≡ ok (payload, guids)
unfolding check_payload
payload_runs = refl

abbrev asked : Bytes → List Bytes
asked kind =
    codes "list"
    ∷ codes "-j"
    ∷ codes "-p"
    ∷ codes "-o"
    ∷ codes "name,guid"
    ∷ codes "-t"
    ∷ kind
    ∷ codes "-r"
    ∷ codes "-d1"
    ∷ codes "b/t"
    ∷ []

abbrev listed_once : List (List Bytes)
listed_once = asked (codes "snapshot") ∷ []

abbrev listed_twice : List (List Bytes)
listed_twice = asked (codes "bookmark") ∷ listed_once

listings_run :
    (list_guids journal one_snapshot (codes "snapshot") (destination (codes "b") (codes "t")) []
      ≡ (ok rows, listed_once))
    × (list_guids journal one_snapshot
          (codes "bookmark")
          (destination (codes "b") (codes "t"))
          listed_once
        ≡ (ok rows, listed_twice))
unfolding list_guids destination is_valid_zfs_dataset fs_name
listings_run = (refl, refl)

set_placeholders_directly_example :
    set_placeholders journal one_snapshot (codes "b") (codes "t") (some payload) []
    ≡ run_each (set_directly journal one_snapshot rows rows) payload.placeholders listed_twice
set_placeholders_directly_example =
    set_placeholders_directly journal one_snapshot (codes "b") (codes "t") (some payload) []
      listed_once listed_twice payload_runs listings_run.0 listings_run.1

-- Every command succeeds, and every listing shows `b` alone.
abbrev lone : Host
lone = record { State = ℕ; output = λ name args n. (some [], n) }

abbrev shown : Bytes → Option Json
shown out = some (
    object
      (member (codes "datasets") (object (member (codes "b") (object no_more) no_more)) no_more))

slashes_run : slashes (codes "b/x/y") ≡ 2
unfolding slashes
slashes_run = refl

check_parent_enough_example :
    check_parent lone shown 3 (codes "b/x/y") true 0
    ≡ check_parent lone shown 5 (codes "b/x/y") true 0
check_parent_enough_example =
    check_parent_enough lone shown true 3 5 (codes "b/x/y") 0 (omega (arith, slashes_run))
      (omega (arith, slashes_run))

check_parent_runs : check_parent lone shown 2 (codes "b/x") true 0 ≡ (ok tt, 0)
unfolding check_parent is_valid_zfs_dataset fs_name
check_parent_runs = refl

check_parent-Ready_example : Ready lone shown true (codes "b/x") 0
check_parent-Ready_example = check_parent-Ready lone shown true 2 (codes "b/x") 0 check_parent_runs

abbrev no_settings : ReceiverConfig
no_settings = record {
  base_dataset = codes "b";
  enforce_local_properties = [];
  mbuffer_args = [];
  disable_mount = none;
  resumable = none;
  force_overwrite_datasets = [];
}

abbrev outside : Request
outside = record {
  op = codes "receive";
  dataset = codes "../x";
  compression = codes "none";
  input = [];
}

abbrev silent : Codec
silent = record {
  suggestions_text = λ m. [];
  read_suggestions = λ b. none;
  placeholders_text = λ m. [];
  read_placeholders = λ b. none;
}

abbrev closed : Link lone
closed = record { feed = λ name args message n. (none, n); pipe = λ ps n. (false, n) }

outside_runs : is_valid_zfs_dataset (codes "../x") ≡ err invalid_dataset
unfolding is_valid_zfs_dataset
outside_runs = refl

serve_refused_example :
    let (reply, t) = serve lone shown silent closed no_settings outside 0 in
    (reply.0 ≡ [])
    × (is_empty reply.1 ≡ false)
    × ((t ≡ 0) ⊎ (t ≡ (exists lone shown (codes "b") 0).1))
serve_refused_example = serve_refused lone shown silent closed no_settings outside 0 outside_runs
