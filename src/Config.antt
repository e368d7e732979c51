-- ===== src/Config.antt =====
-- internal/config/config.go and internal/config/wire.go: the configuration of a job and the two
-- messages of the wire protocol. A pointer is an `Option`, a string is its bytes.
use zfsbackup.Base.{ℤ, Bool, Option, List, Bytes, is_empty, if◌then◌else◌}

pub record SnapshotConfig : Type 0 where
  pub include : List Bytes
  pub exclude : List Bytes
  pub name_pattern : Bytes
  pub skip_empty_younger_than : Bytes

pub record DestinationConfig : Type 0 where
  pub receiver : Bytes
  pub compression : Bytes
  pub compression_level : Option ℤ
  pub raw_send : Bool
  pub placeholders : List Bytes
  pub sync_placeholders : List Bytes
  pub mbuffer_args : List Bytes

pub record SenderConfig : Type 0 where
  pub include : List Bytes
  pub exclude : List Bytes
  pub name : Bytes
  pub snapshot_regex : Bytes
  pub send_intermediate : Bool
  pub include_properties : Option Bool
  pub resumable : Option Bool
  pub destinations : List DestinationConfig

pub record RetentionRule : Type 0 where
  pub interval : Bytes
  pub count : ℤ
  pub allow_holes : Bool

pub record DeleterConfig : Type 0 where
  pub include : List Bytes
  pub exclude : List Bytes
  pub regex : List Bytes
  pub preserve_top_n : ℤ
  pub preserve_newer_than : Bytes
  pub rules : List RetentionRule

pub record MonitorConfig : Type 0 where
  pub include : List Bytes
  pub exclude : List Bytes
  pub prometheus_output : Bytes

pub record ReceiverConfig : Type 0 where
  pub base_dataset : Bytes
  pub enforce_local_properties : List Bytes
  pub mbuffer_args : List Bytes
  pub disable_mount : Option Bool
  pub resumable : Option Bool
  pub force_overwrite_datasets : List Bytes

pub record Config : Type 0 where
  pub include : List Bytes
  pub exclude : List Bytes
  pub snapshot : Option SnapshotConfig
  pub sender : Option SenderConfig
  pub deleter : Option DeleterConfig
  pub monitor : Option MonitorConfig

-- `ResolveInclude`
unfoldable pub resolve_include : Config → List Bytes → List Bytes
resolve_include c own = if is_empty own then c.include else own

-- `ResolveExclude`
unfoldable pub resolve_exclude : Config → List Bytes → List Bytes
resolve_exclude c own = if is_empty own then c.exclude else own

-- The answer of the receiver to `--op=incremental_suggestions`.
pub record IncrementalSuggestions : Type 0 where
  pub send_full : Bool
  pub resume_token : Bytes
  pub last_snapshot : Bytes
  pub guid : Bytes
  pub force_overwrite : Bool

pub record PlaceholderEntry : Type 0 where
  pub name : Bytes
  pub guid : Bytes

-- What the sender writes to the receiver for `--op=set_placeholders`.
pub record SetPlaceholders : Type 0 where
  pub fs : Bytes
  pub placeholders : List PlaceholderEntry
