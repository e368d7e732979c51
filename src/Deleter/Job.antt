-- ===== src/Deleter/Job.antt =====
-- `newDeleteFsProcessor` and `Run` of the deleter, with a parallelism of 1.
use zfsbackup.Base.{
  Bool, Option, none, some, List, [], ◌∷◌, ◌++◌, Bytes, any, ℤ, pos, ltb_ℤ, if◌then◌else◌, Error,
  Result, ok, err, bad_regexp, no_section, bad_parallelism,
}
use zfsbackup.Config.{Config, DeleterConfig, resolve_include, resolve_exclude}
use zfsbackup.Exec.{Host, errors_of, run_each}
use zfsbackup.Wire.{Tools}
use zfsbackup.Zfs.Json.{Json}
use zfsbackup.Zfs.Expand.{expand_fs_to_process}
use zfsbackup.Deleter.Policy.{Policy, new_policy}
use zfsbackup.Deleter.Snaps.{process_fs}

-- The loop over the regexps.
unfoldable pub compile_all : (Bytes → Bool) → List Bytes → Result (Unit {0})
compile_all compiles [] = ok tt
compile_all compiles (r ∷ rs) =
    let rest = compile_all compiles rs in if compiles r then rest else err bad_regexp

-- `newDeleteFsProcessor`: the policy; the regexps are those of the configuration.
unfoldable pub new_delete_fs_processor : (Bytes → Bool) → DeleterConfig → Result Policy
unfolding new_policy compile_all
new_delete_fs_processor compiles dc = elim (new_policy dc) [
  | err e ↦ err e
  | ok p ↦ elim (compile_all compiles dc.regex) [ err e ↦ err e | ok u ↦ ok p ]
]

-- The test that the regexps make together.
unfoldable pub matches_any : (Bytes → Bytes → Bool) → List Bytes → Bytes → Bool
matches_any matches rs name = any (λ r. matches r name) rs

module _ (H : Host) (decode : Bytes → Option Json) (T : Tools) where
  -- A round of the loop over the file systems.
  unfoldable pub delete_in : DeleterConfig → Policy → Bool → Bytes → H.State → List Error × H.State
  unfolding matches_any process_fs errors_of
  delete_in dc p dry_run fs s =
      let (r, s') = process_fs H decode (matches_any T.matches dc.regex) p fs dry_run s in
      (errors_of r, s')

  -- Behind the processor.
  unfoldable pub delete_with :
      Config → DeleterConfig → Bool → Policy → H.State → List Error × H.State
  unfolding resolve_include resolve_exclude expand_fs_to_process run_each delete_in
  delete_with cfg dc dry_run p s =
      let include = resolve_include cfg dc.include in
      let exclude = resolve_exclude cfg dc.exclude in
      let ((fss, es), s') = expand_fs_to_process H decode include exclude s in
      let (es', s'') = run_each (delete_in dc p dry_run) fss s' in (es ++ es', s'')

  unfoldable pub run_section : Config → DeleterConfig → ℤ → Bool → H.State → List Error × H.State
  unfolding new_delete_fs_processor delete_with
  run_section cfg dc parallelism dry_run s =
      let start : List Error × H.State = elim (new_delete_fs_processor T.compiles dc) [
        | err e ↦ (e ∷ [], s)
        | ok p ↦ delete_with cfg dc dry_run p s
      ] in
      if ltb_ℤ parallelism (pos 1) then (bad_parallelism ∷ [], s) else start

  -- `Run`
  unfoldable pub run : Config → ℤ → Bool → H.State → List Error × H.State
  unfolding run_section
  run cfg parallelism dry_run s = elim cfg.deleter [
    | none ↦ (no_section ∷ [], s)
    | some dc ↦ run_section cfg dc parallelism dry_run s
  ]
