-- ===== src/Tests/Sender.antt =====
-- A choice of snapshots.
use zfsbackup.Config.{DestinationConfig, SenderConfig}
use zfsbackup.Sender.Suffix.{auto_placeholder_name}
use zfsbackup.Sender.Defaults.{init_sender_defaults}
use zfsbackup.Sender.Ready.{IsReady, AllApart, init_sender_defaults_ready}
use zfsbackup.Base.{
  Bool, Option, none, some, ok, All, ◌≢◌, ◌≡◌, refl, List, [], ◌∷◌, Bytes, codes, true, false,
  is_empty,
}
use zfsbackup.Sender.Source.{Source, is_base, is_member, actual_snaps_to_send}
use zfsbackup.Sender.Select.{behind_base, marked_guids, wanted}
use zfsbackup.Sender.Chosen.{actual_snaps_to_send-wanted}

abbrev source : Bytes → Bytes → Source
source name guid = record { name = name; guid = guid }

abbrev sources : List Source
sources =
    source (codes "t@s1") (codes "1")
    ∷ source (codes "t#s1-p") (codes "1")
    ∷ source (codes "t@s2") (codes "2")
    ∷ source (codes "t#s2-q") (codes "2")
    ∷ source (codes "t@s3") (codes "3")
    ∷ source (codes "t@s4") (codes "4")
    ∷ []

-- Behind `s1`, the marked `s2` and the newest `s4`.
selection_runs :
    actual_snaps_to_send
      (λ name. true)
      (codes "q" ∷ [])
      false
      sources
      (source (codes "t@s1") (codes "1"))
    ≡ source (codes "t@s2") (codes "2") ∷ source (codes "t@s4") (codes "4") ∷ []
unfolding actual_snaps_to_send
selection_runs = refl

actual_snaps_to_send-wanted_example :
    let base = source (codes "t@s1") (codes "1") in
    let w = behind_base (is_base base) (is_empty base.guid) sources in
    actual_snaps_to_send (λ name. true) (codes "q" ∷ []) false sources base
    ≡ wanted (λ name. true) false (is_member (marked_guids (codes "q" ∷ []) w)) w
actual_snaps_to_send-wanted_example =
    actual_snaps_to_send-wanted (λ name. true) (codes "q" ∷ []) false sources
      (source (codes "t@s1") (codes "1"))

abbrev destination : Bytes → List Bytes → DestinationConfig
destination receiver placeholders = record {
  receiver = receiver;
  compression = [];
  compression_level = none;
  raw_send = false;
  placeholders = placeholders;
  sync_placeholders = [];
  mbuffer_args = [];
}

abbrev sender : Option Bool → List DestinationConfig → SenderConfig
sender properties destinations = record {
  include = [];
  exclude = [];
  name = [];
  snapshot_regex = codes ".*";
  send_intermediate = false;
  include_properties = properties;
  resumable = none;
  destinations = destinations;
}

abbrev given : SenderConfig
given = sender none (
    destination (codes "ssh  b recv") []
    ∷ destination (codes "c") (codes "p" ∷ codes "p" ∷ [])
    ∷ [])

abbrev ready : SenderConfig
ready = sender (some true) (
    destination (codes "ssh  b recv") (auto_placeholder_name (codes "ssh b  recv") ∷ [])
    ∷ destination (codes "c") (codes "p" ∷ codes "p" ∷ [])
    ∷ [])

init_sender_defaults_runs : init_sender_defaults false (λ text. true) given ≡ ok ready
unfolding init_sender_defaults
init_sender_defaults_runs = refl

init_sender_defaults_ready_example :
    (is_empty ready.destinations ≡ false)
    × All IsReady ready.destinations
    × AllApart ready.destinations
    × (ready.include_properties ≢ none)
init_sender_defaults_ready_example =
    init_sender_defaults_ready false (λ text. true) given init_sender_defaults_runs
