-- ===== src/Receiver/Suggestion.antt =====
-- `incrementalSuggestion`: what the receiver asks the sender for. The result is the message that
-- is written to the standard output.
use zfsbackup.Base.{
  contains, true, false, Option, List, [], ◌∷◌, ◌++◌, Bytes, codes, if◌then◌else◌, text_eq, Result,
  ok, err, bad_output, cannot_inspect,
}
use zfsbackup.Config.{ReceiverConfig, IncrementalSuggestions}
use zfsbackup.Names.{snapshot_name}
use zfsbackup.Exec.{Host, Act, ◌>>=◌, lift, attempt}
use zfsbackup.Zfs.Json.{Json}
use zfsbackup.Zfs.Table.{zfs_list}

-- `fmt.Sprintf("%s/%s", baseds, ds)`
unfoldable pub destination : Bytes → Bytes → Bytes
destination baseds ds = baseds ++ b'/' ∷ ds

abbrev pub no_suggestions : IncrementalSuggestions
no_suggestions = record {
  send_full = false;
  resume_token = [];
  last_snapshot = [];
  guid = [];
  force_overwrite = false;
}

-- The loop over the file systems below the base: a destination that is there is an error.
unfoldable pub confirm_absent : Bytes → List (List Bytes) → Result IncrementalSuggestions
unfolding text_eq
confirm_absent dest [] = ok (record no_suggestions { send_full = true })
confirm_absent dest ([] ∷ rows) = err bad_output
confirm_absent dest ((name ∷ _) ∷ rows) =
    let rest = confirm_absent dest rows in if text_eq name dest then err cannot_inspect else rest

-- A token of `-` is none.
unfoldable pub resume_token_of : Bytes → Bytes
unfolding text_eq
resume_token_of token = if text_eq token (codes "-") then [] else token

-- The first row of the snapshots, newest first.
unfoldable pub with_last : Bytes → List (List Bytes) → Result IncrementalSuggestions
unfolding resume_token_of snapshot_name
with_last token [] = ok (record no_suggestions { resume_token = resume_token_of token })
with_last token ((name ∷ guid ∷ _) ∷ rows) = ok (record no_suggestions {
  resume_token = resume_token_of token;
  last_snapshot = snapshot_name name;
  guid = guid;
})
with_last token (_ ∷ rows) = err bad_output

unfoldable pub with_overwrite :
    ReceiverConfig → Bytes → IncrementalSuggestions → IncrementalSuggestions
unfolding contains
with_overwrite cfg dest sugg = record sugg {
  force_overwrite = contains cfg.force_overwrite_datasets dest;
}

module _ (H : Host) (decode : Bytes → Option Json) where
  -- The destination could not be inspected, or is not one file system.
  unfoldable pub when_unseen : Bytes → Bytes → Act H IncrementalSuggestions
  unfolding zfs_list confirm_absent
  when_unseen baseds dest =
      zfs_list H decode (codes "name" ∷ []) (codes "filesystem") baseds (codes "-r" ∷ [])
      >>= λ rows. lift (confirm_absent dest rows)

  -- The destination is there, with a token.
  unfoldable pub when_seen : Bytes → Bytes → Act H IncrementalSuggestions
  unfolding zfs_list with_last
  when_seen dest token =
      zfs_list H decode (codes "name" ∷ codes "guid" ∷ []) (codes "snapshot") dest
        (codes "-S" ∷ codes "createtxg" ∷ [])
      >>= λ rows. lift (with_last token rows)

  -- The two cases of the first listing.
  unfoldable pub inspect : Bytes → Bytes → Result (List (List Bytes)) → Act H IncrementalSuggestions
  unfolding when_unseen when_seen
  inspect baseds dest (ok ((_ ∷ token ∷ _) ∷ [])) = when_seen dest token
  inspect baseds dest (ok ([] ∷ [])) = lift (err bad_output)
  inspect baseds dest (ok ((_ ∷ []) ∷ [])) = lift (err bad_output)
  inspect baseds dest (ok []) = when_unseen baseds dest
  inspect baseds dest (ok (_ ∷ _ ∷ _)) = when_unseen baseds dest
  inspect baseds dest (err e) = when_unseen baseds dest

  -- `incrementalSuggestion`
  unfoldable pub incremental_suggestion :
      Bytes → Bytes → ReceiverConfig → Act H IncrementalSuggestions
  unfolding destination zfs_list inspect with_overwrite
  incremental_suggestion baseds ds cfg =
      let dest = destination baseds ds in
      attempt
        (zfs_list H decode (codes "name" ∷ codes "receive_resume_token" ∷ []) (codes "filesystem")
          dest [])
        (inspect baseds dest)
      >>= λ sugg. lift (ok (with_overwrite cfg dest sugg))
