-- ===== src/Exchange/Planned.antt =====
-- What a plan says of the message that it is made of.
use mathlib.Core.List.{Memᴰ}
use mathlib.Core.Option.{some-injective}
use zfsbackup.Base.{
  ◌≡◌, refl, sym, ap, ◌∙◌, ◌⊎◌, true, false, not, ◌&&◌, Option, none, some, List, [], ◌∷◌, Bytes,
  arith, is_empty, Bool-cases, inl, inr, text_eq, text_eq_iff,
}
use zfsbackup.Config.{IncrementalSuggestions}
use zfsbackup.Sender.Source.{Source, no_source, is_snapshot, base_loop, base_for}
use zfsbackup.Sender.Plan.{or_no_source, plan_of}

or_no_source-some :
    (o : Option Source) → is_empty (or_no_source o).name ≡ false → (b : Source) × (o ≡ some b)
unfolding or_no_source
or_no_source-some none e = absurd (cc)
or_no_source-some (some b) e = (b, refl)

-- A plan with a base has the GUID of the message, and a source of this GUID.
pub plan_of_base :
    (sources : List Source) (sugg : IncrementalSuggestions)
    → is_empty (plan_of sources sugg).base.name ≡ false
    → (is_empty sugg.guid ≡ false)
      × ((b : Source) × (base_for sources sugg.guid ≡ some b) × ((plan_of sources sugg).base ≡ b))
unfolding plan_of or_no_source
plan_of_base sources sugg e = elim (Bool-cases sugg.send_full) [
  | inl f ↦ absurd (let q = rw (plan_of, f) at e in cc)
  | inr f ↦ elim (Bool-cases (not (is_empty sugg.last_snapshot) && not (is_empty sugg.guid))) [
    | inr n ↦ absurd (let q = rw (plan_of, f, n) at e in cc)
    | inl n ↦
        let (b, k) = or_no_source-some (base_for sources sugg.guid) (rw (plan_of, f, n) at e) in
        (ground (arith, n), (b, k, rw (plan_of, f, n) (ap or_no_source k)))
  ]
]

pub plan_of_full :
    (sources : List Source) (sugg : IncrementalSuggestions)
    → (plan_of sources sugg).send_full ≡ sugg.send_full
unfolding plan_of
plan_of_full sources sugg = ground arith

pub plan_of_leave :
    (sources : List Source) (sugg : IncrementalSuggestions)
    → (plan_of sources sugg).force_overwrite ≡ sugg.force_overwrite
unfolding plan_of
plan_of_leave sources sugg = ground arith

-- A plan with a full stream has no base and no token.
pub plan_of_alone :
    (sources : List Source) (sugg : IncrementalSuggestions)
    → (plan_of sources sugg).send_full ≡ true
    → ((plan_of sources sugg).base ≡ no_source) × ((plan_of sources sugg).resume_token ≡ [])
unfolding plan_of
plan_of_alone sources sugg e = elim (Bool-cases sugg.send_full) [
  | inl f ↦ rw (plan_of, f) (refl, refl)
  | inr f ↦ absurd (let q = rw (plan_of, f) at e in cc)
]

-- A token of a plan is that of the message.
pub plan_of_token :
    (sources : List Source) (sugg : IncrementalSuggestions)
    → is_empty (plan_of sources sugg).resume_token ≡ false
    → (plan_of sources sugg).resume_token ≡ sugg.resume_token
unfolding plan_of
plan_of_token sources sugg e = elim (Bool-cases sugg.send_full) [
  | inl f ↦ absurd (let q = rw (plan_of, f) at e in cc)
  | inr f ↦ rw (plan_of, f) refl
]

-- A base for a GUID has this GUID, and is one of the sources.
base_loop_sound :
    (guid : Bytes) (ss : List Source) (bookmark : Option Source) {b : Source}
    → base_loop guid ss bookmark ≡ some b
    → ((b.guid ≡ guid) × Memᴰ b ss) ⊎ (bookmark ≡ some b)
unfolding base_loop
base_loop_sound guid [] bookmark h = inr h
base_loop_sound guid (s ∷ ss) bookmark {b = b} h =
    elim (Bool-cases (text_eq s.guid guid && is_snapshot s)) [
      | inl e ↦
          let same : s ≡ b = some-injective _ _ (rw (base_loop, e) at h) in
          inl (at_head same (ground (arith, e)))
      | inr e ↦ elim (base_loop_sound guid ss _ (rw (base_loop, e) at h)) [
        | inl (g, m) ↦ inl (g, Memᴰ.tail m)
        | inr e' ↦ elim (Bool-cases (text_eq s.guid guid)) [
          | inr n ↦ inr (rw n at e')
          | inl n ↦ first_one bookmark n (rw n at e')
        ]
      ]
    ]
  where
    at_head : s ≡ b → text_eq s.guid guid ≡ true → (b.guid ≡ guid) × Memᴰ b (s ∷ ss)
    at_head same n = (
      ap (λ (x : Source). x.guid) (sym same) ∙ ground (arith, n, text_eq_iff s.guid guid),
      Memᴰ.head (sym same),
    )

    first_one :
        (o : Option Source)
        → text_eq s.guid guid ≡ true
        → (elim o [ none ↦ some s | some b ↦ some b ]) ≡ some b
        → ((b.guid ≡ guid) × Memᴰ b (s ∷ ss)) ⊎ (o ≡ some b)
    first_one none n e = inl (at_head (some-injective _ _ e) n)
    first_one (some x) n e = inr e

pub base_for_sound :
    (ss : List Source) (guid : Bytes) {b : Source}
    → base_for ss guid ≡ some b
    → (b.guid ≡ guid) × Memᴰ b ss
unfolding base_for
base_for_sound ss guid h = elim (base_loop_sound guid ss none h) [
  | inl found ↦ found
  | inr e ↦ absurd (cc)
]
