-- ===== src/Wire.antt =====
-- The messages between sender and receiver (internal/config/wire.go) as texts, and the processes
-- that carry them. Both are parameters: the JSON codec, and what the operating system does.
use zfsbackup.Base.{Bool, Option, List, Bytes}
use zfsbackup.Config.{IncrementalSuggestions, SetPlaceholders}
use zfsbackup.Exec.{Host}

-- `json.Marshal` and `json.Unmarshal` on the two messages.
pub record Codec : Type 0 where
  pub suggestions_text : IncrementalSuggestions → Bytes
  pub read_suggestions : Bytes → Option IncrementalSuggestions
  pub placeholders_text : SetPlaceholders → Bytes
  pub read_placeholders : Bytes → Option SetPlaceholders

-- A command and its arguments.
abbrev pub Stage : Type 0
Stage = Bytes × List Bytes

-- Besides `output`: a command that is fed a text, and the processes of a pipe, first to last. A pipe
-- succeeds where all its processes start and end without an error.
pub record Link (H : Host) : Type 0 where
  pub feed : Bytes → List Bytes → Bytes → H.State → Option Bytes × H.State
  pub pipe : List Stage → H.State → Bool × H.State

-- The test that a regexp makes, whether one compiles, and whether mbuffer is installed.
pub record Tools : Type 0 where
  pub matches : Bytes → Bytes → Bool
  pub compiles : Bytes → Bool
  pub mbuffer_present : Bool
