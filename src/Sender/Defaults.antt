-- ===== src/Sender/Defaults.antt =====
-- `initSenderDefaults`: the defaults of a sender configuration, and its validation.
use zfsbackup.Base.{
  ℕ, suc, ◌+◌, Bool, true, false, not, ◌&&◌, ◌||◌, Option, none, some, List, [], ◌∷◌, ◌++◌, Bytes,
  codes, leb, ◌==◌, if◌then◌else◌, is_empty, text_eq, Result, ok, err, ◌>>=◌, no_destination,
  bad_regexp, empty_receiver, unsupported_compression, invalid_placeholder, shared_placeholder,
}
use zfsbackup.Config.{DestinationConfig, SenderConfig}
use zfsbackup.Names.{is_valid_placeholder}
use zfsbackup.Sender.Suffix.{fields, auto_placeholder_name}

-- `strings.ToLower`, on ASCII text.
unfoldable pub to_lower : Bytes → Bytes
to_lower [] = []
to_lower (c ∷ s) = (if leb b'A' c && leb c b'Z' then c + 32 else c) ∷ to_lower s

-- `compressionType`
unfoldable pub compression_type : DestinationConfig → Bytes
compression_type dst = if is_empty dst.compression then codes "none" else dst.compression

-- The map `owners`, newest entry first.
abbrev pub Owners : Type 0
Owners = List (Bytes × ℕ)

unfoldable pub owner_of : Bytes → Owners → Option ℕ
unfolding text_eq
owner_of p [] = none
owner_of p ((q, i) ∷ owners) = let rest = owner_of p owners in if text_eq q p then some i else rest

unfoldable pub is_other : Option ℕ → ℕ → Bool
is_other none i = false
is_other (some j) i = not (j == i)

-- The loop over the placeholders of one destination.
unfoldable pub claim : ℕ → List Bytes → Owners → Result Owners
unfolding owner_of is_other is_valid_placeholder
claim i [] owners = ok owners
claim i (p ∷ ps) owners =
    let rest = claim i ps ((p, i) ∷ owners) in
    if not (is_valid_placeholder p)
    then err invalid_placeholder
    else if is_other (owner_of p owners) i
    then err shared_placeholder
    else rest

-- The loop over the synchronised placeholders.
unfoldable pub check_sync : List Bytes → Result (Unit {0})
unfolding is_valid_placeholder
check_sync [] = ok tt
check_sync (p ∷ ps) =
    let rest = check_sync ps in
    if not (is_valid_placeholder p) then err invalid_placeholder else rest

unfoldable pub is_supported : Bytes → Bool
unfolding text_eq
is_supported ct = text_eq ct (codes "none") || text_eq ct (codes "zstd")

-- The two tests at the head of a round.
unfoldable pub check_destination : DestinationConfig → Result (Unit {0})
unfolding fields is_supported to_lower compression_type
check_destination dst =
    if is_empty (fields dst.receiver)
    then err empty_receiver
    else if not (is_supported (to_lower (compression_type dst)))
    then err unsupported_compression
    else ok tt

-- The placeholders of a destination, with a derived one where it has none.
unfoldable pub own_placeholders : DestinationConfig → List Bytes
unfolding auto_placeholder_name
own_placeholders dst =
    if is_empty dst.placeholders && not (is_empty dst.receiver)
    then auto_placeholder_name dst.receiver ∷ []
    else dst.placeholders

unfoldable pub own_mbuffer_args : Bool → List Bytes → List Bytes
own_mbuffer_args present args =
    if is_empty args && present then codes "-p 90" ∷ codes "-m 3%" ∷ [] else args

abbrev pub with_defaults : Bool → DestinationConfig → DestinationConfig
with_defaults present dst = record dst {
  placeholders = own_placeholders dst;
  mbuffer_args = own_mbuffer_args present dst.mbuffer_args;
}

-- `mbuffer_present` is the answer of `MbufferPresent`.
module _ (mbuffer_present : Bool) where
  -- The loop over the destinations, from an index on.
  unfoldable pub init_destinations :
      ℕ → Owners → List DestinationConfig → Result (List DestinationConfig)
  unfolding check_destination own_placeholders own_mbuffer_args claim check_sync
  init_destinations i owners [] = ok []
  init_destinations i owners (dst ∷ dsts) = check_destination dst >>= λ _.
      claim i (own_placeholders dst) owners >>= λ owners'. check_sync dst.sync_placeholders >>= λ _.
      init_destinations (suc i) owners' dsts >>= λ rest.
      ok (with_defaults mbuffer_present dst ∷ rest)

  unfoldable pub or_true : Option Bool → Option Bool
  or_true none = some true
  or_true (some b) = some b

  -- `initSenderDefaults`. `compiles` tells whether `regexp.Compile` accepts a text.
  unfoldable pub init_sender_defaults : (Bytes → Bool) → SenderConfig → Result SenderConfig
  unfolding init_destinations or_true
  init_sender_defaults compiles sc =
      if is_empty sc.destinations
      then err no_destination
      else if not (compiles (codes "^(?:" ++ sc.snapshot_regex ++ codes ")$"))
      then err bad_regexp
      else init_destinations 0 [] sc.destinations >>= λ dsts.
          ok (record sc { include_properties = or_true sc.include_properties; destinations = dsts })
