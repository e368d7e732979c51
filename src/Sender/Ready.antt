-- ===== src/Sender/Ready.antt =====
-- What `initSenderDefaults` guarantees of the destinations that it accepts.
use zfsbackup.Base.{
  ◌≢◌, ℕ, suc, ◌<◌, ◌≡◌, refl, ◌∙◌, Bool, true, false, none, some, List, [], ◌∷◌, Bytes, arith,
  is_empty, All, text_eq_iff, ok, >>=-ok, ok-injective,
}
use zfsbackup.Config.{DestinationConfig, SenderConfig}
use zfsbackup.Names.{is_valid_placeholder}
use zfsbackup.Sender.Source.{is_member}
use zfsbackup.Sender.Suffix.{fields}
use zfsbackup.Sender.Defaults.{
  compression_type, to_lower, is_supported, Owners, owner_of, is_other, claim, check_sync,
  check_destination, own_placeholders, with_defaults, init_destinations, init_sender_defaults,
}

abbrev pub AllValid : List Bytes → Type 0
AllValid = All (λ p. is_valid_placeholder p ≡ true)

-- A destination that can be sent to.
pub record IsReady (dst : DestinationConfig) : Type 0 where
  pub reachable : is_empty (fields dst.receiver) ≡ false
  pub supported : is_supported (to_lower (compression_type dst)) ≡ true
  pub protected : is_empty dst.placeholders ≡ false
  pub valid : AllValid dst.placeholders
  pub synced : AllValid dst.sync_placeholders

-- Two destinations with no suffix in common.
abbrev pub Apart : DestinationConfig → DestinationConfig → Type 0
Apart d e = (p : Bytes) → is_member d.placeholders p ≡ true → is_member e.placeholders p ≡ false

abbrev pub AllApart : List DestinationConfig → Type 0
AllApart [] = Unit
AllApart (d ∷ ds) = All (Apart d) ds × AllApart ds

-- What the claims of one destination leave in the map.
record Claimed (i : ℕ) (ps : List Bytes) (owners owners' : Owners) : Type 0 where
  valid : AllValid ps
  own : (q : Bytes) → is_member ps q ≡ true → owner_of q owners' ≡ some i
  free : (q : Bytes) → is_member ps q ≡ true → is_other (owner_of q owners) i ≡ false
  kept : (q : Bytes) → is_member ps q ≡ false → owner_of q owners' ≡ owner_of q owners

claim_head :
    (i : ℕ) (p : Bytes) (ps : List Bytes) (owners : Owners) {owners' : Owners}
    → claim i (p ∷ ps) owners ≡ ok owners'
    → (is_valid_placeholder p ≡ true)
      × (is_other (owner_of p owners) i ≡ false)
      × (claim i ps ((p, i) ∷ owners) ≡ ok owners')
unfolding claim
claim_head i p ps owners h = ground arith

claim_nil :
    (i : ℕ) (owners : Owners) {owners' : Owners} → claim i [] owners ≡ ok owners' → owners ≡ owners'
unfolding claim
claim_nil i owners h = ok-injective h

claim-Claimed :
    (i : ℕ) (ps : List Bytes) (owners : Owners) {owners' : Owners}
    → claim i ps owners ≡ ok owners'
    → Claimed i ps owners owners'
unfolding is_member owner_of is_other
claim-Claimed i [] owners h = record {
  valid = tt;
  own = λ q m. cc;
  free = λ q m. cc;
  kept = λ q m. ground (arith, claim_nil i owners h);
}
claim-Claimed i (p ∷ ps) owners h =
    let (v, f, rest) = claim_head i p ps owners h in
    let c = claim-Claimed i ps ((p, i) ∷ owners) rest in
    record {
      valid = (v, c.valid);
      own = λ q m. ground (arith, c.own q, c.kept q, text_eq_iff p q);
      free = λ q m. ground (arith, c.free q, text_eq_iff p q);
      kept = λ q m. ground (arith, c.kept q, text_eq_iff p q);
    }

check_sync-AllValid : (ps : List Bytes) → check_sync ps ≡ ok tt → AllValid ps
unfolding check_sync
check_sync-AllValid [] h = tt
check_sync-AllValid (p ∷ ps) h = ground (arith, check_sync-AllValid ps)

fields_of_nil : (s : Bytes) → is_empty (fields s) ≡ false → is_empty s ≡ false
unfolding fields
fields_of_nil [] h = cc
fields_of_nil (c ∷ s) h = refl

own_placeholders_protect :
    (d : DestinationConfig) → is_empty d.receiver ≡ false → is_empty (own_placeholders d) ≡ false
unfolding own_placeholders
own_placeholders_protect d h = ground (arith, h)

check_destination_sound :
    (d : DestinationConfig)
    → check_destination d ≡ ok tt
    → (is_empty (fields d.receiver) ≡ false) × (is_supported (to_lower (compression_type d)) ≡ true)
unfolding check_destination
check_destination_sound d h = ground arith

-- Every suffix in the map belongs to an earlier destination.
abbrev OwnedBefore : ℕ → Owners → Type 0
OwnedBefore i owners = (q : Bytes) (j : ℕ) → owner_of q owners ≡ some j → j < i

-- The destination uses no suffix of the map.
abbrev Avoids : Owners → DestinationConfig → Type 0
Avoids owners d =
    (q : Bytes) (j : ℕ) → owner_of q owners ≡ some j → is_member d.placeholders q ≡ false

module _ (mbuffer : Bool) (i : ℕ) (owners owners' : Owners) (d : DestinationConfig)
    (b : OwnedBefore i owners) (c : Claimed i (own_placeholders d) owners owners') where
  head-Avoids : Avoids owners (with_defaults mbuffer d)
  unfolding is_other
  head-Avoids q j e = ground (arith, b q j e, c.free q)

  tail-OwnedBefore : OwnedBefore (suc i) owners'
  tail-OwnedBefore q j e = ground (arith, b q j, c.own q, c.kept q)

  weaken-Avoids : (ds : List DestinationConfig) → All (Avoids owners') ds → All (Avoids owners) ds
  weaken-Avoids [] h = tt
  weaken-Avoids (x ∷ ds) h =
      ((λ q j e. h.0 q j (c.kept q (head-Avoids q j e) ∙ e)), weaken-Avoids ds h.1)

  head-Apart :
      (ds : List DestinationConfig)
      → All (Avoids owners') ds
      → All (Apart (with_defaults mbuffer d)) ds
  head-Apart [] h = tt
  head-Apart (x ∷ ds) h = ((λ q m. h.0 q i (c.own q m)), head-Apart ds h.1)

-- What the loop leaves, with the map that it starts from.
record Initialised (owners : Owners) (out : List DestinationConfig) : Type 0 where
  ready : All IsReady out
  apart : AllApart out
  avoiding : All (Avoids owners) out

module _ (mbuffer : Bool) where
  ready_head :
      (d : DestinationConfig) {i : ℕ} {owners owners' : Owners}
      → check_destination d ≡ ok tt
      → check_sync d.sync_placeholders ≡ ok tt
      → Claimed i (own_placeholders d) owners owners'
      → IsReady (with_defaults mbuffer d)
  unfolding compression_type
  ready_head d h k c =
      let (reachable, supported) = check_destination_sound d h in
      record {
        reachable = reachable;
        supported = supported;
        protected = own_placeholders_protect d (fields_of_nil d.receiver reachable);
        valid = c.valid;
        synced = check_sync-AllValid d.sync_placeholders k;
      }

  init_destinations-Initialised :
      (i : ℕ) (owners : Owners) (ds : List DestinationConfig) {out : List DestinationConfig}
      → OwnedBefore i owners
      → init_destinations mbuffer i owners ds ≡ ok out
      → Initialised owners out
  unfolding init_destinations
  init_destinations-Initialised i owners [] b h =
      rw (← ok-injective h) (record { ready = tt; apart = tt; avoiding = tt })
  init_destinations-Initialised i owners (d ∷ ds) b h =
      let (u, checked, h₁) = >>=-ok (check_destination d) _ h in
      let (owners', claimed, h₂) = >>=-ok (claim i (own_placeholders d) owners) _ h₁ in
      let (v, synced, h₃) = >>=-ok (check_sync d.sync_placeholders) _ h₂ in
      let (rest, others, h₄) = >>=-ok (init_destinations mbuffer (suc i) owners' ds) _ h₃ in
      let c = claim-Claimed i (own_placeholders d) owners claimed in
      let t =
        init_destinations-Initialised (suc i) owners' ds
          (tail-OwnedBefore mbuffer i owners owners' d b c) others in
      rw (← ok-injective h₄) (record {
        ready = (ready_head d checked synced c, t.ready);
        apart = (head-Apart mbuffer i owners owners' d b c rest t.avoiding, t.apart);
        avoiding = (
          head-Avoids mbuffer i owners owners' d b c,
          weaken-Avoids mbuffer i owners owners' d b c rest t.avoiding,
        );
      })

  init_destinations-ne_nil :
      (i : ℕ) (owners : Owners) (ds : List DestinationConfig) {out : List DestinationConfig}
      → is_empty ds ≡ false
      → init_destinations mbuffer i owners ds ≡ ok out
      → is_empty out ≡ false
  unfolding init_destinations
  init_destinations-ne_nil i owners [] e h = cc
  init_destinations-ne_nil i owners (d ∷ ds) e h =
      let (u, checked, h₁) = >>=-ok (check_destination d) _ h in
      let (owners', claimed, h₂) = >>=-ok (claim i (own_placeholders d) owners) _ h₁ in
      let (v, synced, h₃) = >>=-ok (check_sync d.sync_placeholders) _ h₂ in
      let (rest, others, h₄) = >>=-ok (init_destinations mbuffer (suc i) owners' ds) _ h₃ in
      rw (← ok-injective h₄)

  accepted :
      (compiles : Bytes → Bool) (sc : SenderConfig) {out : SenderConfig}
      → init_sender_defaults mbuffer compiles sc ≡ ok out
      → (is_empty sc.destinations ≡ false)
        × (init_destinations mbuffer 0 [] sc.destinations ≡ ok out.destinations)
        × (out.include_properties ≢ none)
  unfolding init_sender_defaults
  accepted compiles sc h = ground arith

  -- An accepted sender configuration has a destination. Each has a receiver and a supported
  -- compression, and is protected by placeholder suffixes, all of them valid; no two destinations
  -- share a suffix; and whether properties are sent is set.
  pub init_sender_defaults_ready :
      (compiles : Bytes → Bool) (sc : SenderConfig) {out : SenderConfig}
      → init_sender_defaults mbuffer compiles sc ≡ ok out
      → (is_empty out.destinations ≡ false)
        × All IsReady out.destinations
        × AllApart out.destinations
        × (out.include_properties ≢ none)
  unfolding owner_of
  init_sender_defaults_ready compiles sc h =
      let (some_left, looped, set) = accepted compiles sc h in
      let t = init_destinations-Initialised 0 [] sc.destinations (λ q j e. cc) looped in
      (init_destinations-ne_nil 0 [] sc.destinations some_left looped, t.ready, t.apart, set)
