-- ===== src/Base/Results.antt =====
-- Errors as values.
use mathlib.Core.Path.{◌≡◌, refl}
use mathlib.Core.Logic.{◌⊎◌, inl, inr}

-- One error for each place of the source that makes one. A wrapped error is the error inside.
pub data Error : Type 0 where
  duration_too_short duration_not_number duration_bad_suffix duration_out_of_range : Error
  negative_top_n rule_not_positive bad_regexp : Error
  retention_hole : Error
  invalid_dataset invalid_component invalid_placeholder invalid_source : Error
  command_failed : Error
  bad_output : Error
  no_common_base too_many_retries ambiguous_resume ineligible_resume : Error
  no_destination empty_receiver unsupported_compression shared_placeholder : Error
  bookmark_guid_differs not_a_placeholder bad_txg bad_timestamp txg_order : Error
  bad_property cannot_inspect no_section bad_parallelism : Error
  fs_disagreement nothing_for_guid no_pool encrypted_parent no_parent : Error
  no_base_dataset unknown_operation bad_capacity cannot_publish : Error
  unexpected_arguments no_config_flag cannot_open cannot_lock cannot_parse : Error

-- The pair `(value, error)` of a Go function: a value, or an error that is not nil.
pub data Result {ℓ} (Value : Type ℓ) : Type ℓ where
  err : Error → Result Value
  ok : Value → Result Value

-- `if err != nil { return err }` between two steps.
infixl 5 ◌>>=◌ ◌>>◌
abbrev pub ◌>>=◌ {ℓ κ} :
    {Value : Type ℓ} {Next : Type κ} → Result Value → (Value → Result Next) → Result Next
◌>>=◌ first next = elim first [ ok value ↦ next value | err failure ↦ err failure ]

abbrev pub ◌>>◌ {κ} : {Next : Type κ} → Result (Unit {0}) → Result Next → Result Next
◌>>◌ first next = elim first [ ok _ ↦ next | err failure ↦ err failure ]

-- Two steps succeed only if both do.
pub >>=-ok {ℓ κ} :
    {Value : Type ℓ} {Next : Type κ} (first : Result Value) (next : Value → Result Next)
    {end : Next}
    → (first >>= next) ≡ ok end
    → (value : Value) × (first ≡ ok value) × (next value ≡ ok end)
>>=-ok (err failure) next both = cc
>>=-ok (ok value) next both = (value, refl, both)

pub ok-injective {ℓ} : {Value : Type ℓ} {v w : Value} → ok v ≡ ok w → v ≡ w
ok-injective e = cc

-- An error, or a value.
pub outcome {ℓ} :
    {Value : Type ℓ} (r : Result Value)
    → ((failure : Error) × (r ≡ err failure)) ⊎ ((value : Value) × (r ≡ ok value))
outcome (err failure) = inl (failure, refl)
outcome (ok value) = inr (value, refl)
