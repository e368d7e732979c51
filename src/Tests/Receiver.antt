-- ===== src/Tests/Receiver.antt =====
-- Arguments of `zfs receive`, and a request for a full stream.
use zfsbackup.Base.{ℕ, ◌≡◌, refl, true, false, Option, none, some, List, [], ◌∷◌, Bytes, codes, ok}
use zfsbackup.Config.{ReceiverConfig, IncrementalSuggestions}
use zfsbackup.Names.{is_valid_zfs_dataset, fs_name}
use zfsbackup.Exec.{Host}
use zfsbackup.Zfs.Json.{Json, object, no_more, member}
use zfsbackup.Receiver.Suggestion.{destination, incremental_suggestion}
use zfsbackup.Receiver.Full.{IsAbsent, incremental_suggestion_full}
use zfsbackup.Receiver.Arguments.{receive_args}

abbrev receiver : ReceiverConfig
receiver = record {
  base_dataset = codes "b";
  enforce_local_properties = codes "atime" ∷ codes "canmount" ∷ [];
  mbuffer_args = [];
  disable_mount = none;
  resumable = some false;
  force_overwrite_datasets = codes "b/x" ∷ [];
}

abbrev arguments : List Bytes
arguments =
    codes "receive"
    ∷ codes "-v"
    ∷ codes "-u"
    ∷ codes "-o"
    ∷ codes "canmount=off"
    ∷ codes "-x"
    ∷ codes "atime"
    ∷ codes "-F"
    ∷ []

receive_args_runs : receive_args receiver (codes "b/x") ≡ ok arguments
unfolding receive_args
receive_args_runs = refl

-- Every command succeeds, and every listing shows `b` alone, with no property.
abbrev lone : Host
lone = record { State = ℕ; output = λ name args n. (some [], n) }

abbrev shown : Bytes → Option Json
shown out = some (
    object
      (member (codes "datasets") (object (member (codes "b") (object no_more) no_more)) no_more))

abbrev full : IncrementalSuggestions
full = record {
  send_full = true;
  resume_token = [];
  last_snapshot = [];
  guid = [];
  force_overwrite = true;
}

suggestion_runs :
    incremental_suggestion lone shown (codes "b") (codes "x") receiver 0 ≡ (ok full, 0)
unfolding incremental_suggestion is_valid_zfs_dataset fs_name
suggestion_runs = refl

incremental_suggestion_full_example :
    IsAbsent lone shown (codes "b") (destination (codes "b") (codes "x"))
    × (full.resume_token ≡ [])
    × (full.last_snapshot ≡ [])
    × (full.guid ≡ [])
incremental_suggestion_full_example =
    incremental_suggestion_full lone shown (codes "b") (codes "x") receiver 0 suggestion_runs refl
