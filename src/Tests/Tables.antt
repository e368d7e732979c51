-- ===== src/Tests/Tables.antt =====
-- Queries in batches, and file systems to process.
use zfsbackup.Base.{
  ◌≡◌, refl, not, ◌&&◌, Option, some, List, [], ◌∷◌, ◌++◌, Bytes, codes, ok, any, All, contains,
  flat, is_empty, compact, sort_texts, IsIncreasing,
}
use zfsbackup.Names.{fs_name}
use zfsbackup.Exec.{Host}
use zfsbackup.Zfs.Json.{Json, object, no_more, member}
use zfsbackup.Zfs.Tabular.{overhead, parse_tabular_batched}
use zfsbackup.Zfs.Batches.{Fits}
use zfsbackup.Zfs.Batched.{query_all, parse_tabular_batched_plan}
use zfsbackup.Zfs.Expand.{check_names, expand_fs_to_process}
use zfsbackup.Zfs.Expanded.{
  listings, is_listed, is_bad, is_wanted, IsParentsFirst, expand_fs_to_process_exact,
}

-- A machine that writes down what it runs, and prints a line of two fields.
abbrev log : Host
log = record {
  State = List (List Bytes);
  output = λ name args s. (some (codes "a" ++ 9 ∷ codes "0" ++ 10 ∷ []), args ∷ s);
}

abbrev tree : Bytes → Option Json
tree out = some (
    object (
      member (codes "datasets")
        (object (
          member (codes "t/b") (object no_more) (
            member (codes "t") (object no_more) (member (codes "t/a/c") (object no_more) no_more))))
        no_more))

abbrev included : List Bytes
included = codes "t" ∷ []

abbrev excluded : List Bytes
excluded = codes "t/a" ∷ []

names_run : (check_names included ≡ ok tt) × (check_names excluded ≡ ok tt)
unfolding check_names
names_run = (refl, refl)

expand_runs :
    (expand_fs_to_process log tree included excluded []).0 ≡ (codes "t" ∷ codes "t/b" ∷ [], [])
unfolding expand_fs_to_process compact fs_name sort_texts
expand_runs = refl

expand_fs_to_process_exact_example :
    let found = expand_fs_to_process log tree included excluded [] in
    let ls = listings log tree included [] in
    ((fs : Bytes) → contains found.0.0 fs ≡ (any (is_listed fs) ls.0 && is_wanted excluded fs))
    × IsIncreasing found.0.0
    × IsParentsFirst found.0.0
    × (is_empty found.0.1 ≡ not (any is_bad ls.0))
    × (found.1 ≡ ls.1)
expand_fs_to_process_exact_example =
    expand_fs_to_process_exact log tree included excluded [] names_run.0 names_run.1

abbrev queried : List Bytes
queried = codes "a" ∷ codes "b" ∷ []

parse_tabular_batched_runs :
    (parse_tabular_batched log (codes "zfs") (codes "get" ∷ []) queried []).0
    ≡ ok ((codes "a" ∷ codes "0" ∷ []) ∷ [])
unfolding parse_tabular_batched
parse_tabular_batched_runs = refl

parse_tabular_batched_plan_example :
    (bs : List (List Bytes)) × ((s : List (List Bytes))
      → parse_tabular_batched log (codes "zfs") (codes "get" ∷ []) queried s
        ≡ query_all log (codes "zfs") (codes "get" ∷ []) bs s)
    × (flat bs ≡ queried)
    × All (Fits (overhead (codes "zfs") (codes "get" ∷ []))) bs
parse_tabular_batched_plan_example =
    parse_tabular_batched_plan log (codes "zfs") (codes "get" ∷ []) queried
