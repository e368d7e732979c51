-- ===== src/Receiver/Arguments.antt =====
-- The arguments of `zfs receive`, as `receive` builds them in front of the destination.
use zfsbackup.Base.{
  outcome, contains-append, contains, ℕ, ◌≡◌, ◌≢◌, refl, Bool, true, false, ◌&&◌, ◌||◌, Option,
  none, some, List, [], ◌∷◌, ◌++◌, Bytes, codes, if◌then◌else◌, arith, any, is_empty, text_eq,
  has_prefix, Result, ok, err, ◌==◌, bad_property, ap, sym, ◌∙◌, inl, inr,
}
use zfsbackup.Config.{ReceiverConfig}

-- A pointer to a Boolean that is true where it is nil.
unfoldable pub unless_false : Option Bool → Bool
unless_false none = true
unless_false (some b) = b

-- `strings.ContainsAny(p, " \t\n\r")`
unfoldable pub has_blank : Bytes → Bool
has_blank p = any (λ c. c == b' ' || c == 9 || c == 10 || c == 13) p

unfoldable pub is_bad_property : Bytes → Bool
unfolding has_blank has_prefix
is_bad_property p = is_empty p || has_blank p || has_prefix (codes "-") p

-- The loop over `EnforceLocalProperties`.
unfoldable pub enforced : Bool → List Bytes → Result (List Bytes)
unfolding is_bad_property text_eq
enforced disable_mount [] = ok []
enforced disable_mount (p ∷ ps) =
    let rest = enforced disable_mount ps in
    if is_bad_property p
    then err bad_property
    else if disable_mount && text_eq p (codes "canmount")
    then rest
    else elim rest [ err e ↦ err e | ok xs ↦ ok (codes "-x" ∷ p ∷ xs) ]

unfoldable pub mount_args : Bool → List Bytes
mount_args disable_mount =
    if disable_mount then codes "-u" ∷ codes "-o" ∷ codes "canmount=off" ∷ [] else []

unfoldable pub flag_if : Bool → Bytes → List Bytes
flag_if b flag = if b then flag ∷ [] else []

-- `recvArgs`, without the destination that comes last.
unfoldable pub receive_args : ReceiverConfig → Bytes → Result (List Bytes)
unfolding unless_false enforced mount_args flag_if contains
receive_args cfg dest =
    let disable_mount = unless_false cfg.disable_mount in
    elim (enforced disable_mount cfg.enforce_local_properties) [
      | err e ↦ err e
      | ok xs ↦ ok (
          codes "receive"
          ∷ codes "-v"
          ∷ (mount_args disable_mount
              ++ xs
              ++ flag_if (unless_false cfg.resumable) (codes "-s")
              ++ flag_if (contains cfg.force_overwrite_datasets dest) (codes "-F")))
    ]

-- A flag that is one letter behind a hyphen.
abbrev flag : ℕ → Bytes
flag c = b'-' ∷ c ∷ []

property_no_flag : (p : Bytes) (c : ℕ) → is_bad_property p ≡ false → text_eq p (flag c) ≡ false
unfolding is_bad_property has_prefix text_eq
property_no_flag [] c h = ground arith
property_no_flag (d ∷ p) c h = ground arith

x_no_flag : (c : ℕ) → c ≢ b'x' → text_eq (codes "-x") (flag c) ≡ false
unfolding text_eq
x_no_flag c h = ground arith

enforced_no_flag :
    (b : Bool) (ps : List Bytes) (c : ℕ) {xs : List Bytes}
    → c ≢ b'x'
    → enforced b ps ≡ ok xs
    → contains xs (flag c) ≡ false
unfolding enforced contains
enforced_no_flag b [] c d h = ground arith
enforced_no_flag b (p ∷ ps) c d h = elim (outcome (enforced b ps)) [
  | inl (e, q) ↦ ground (arith, q)
  | inr (ys, q) ↦
      ground (arith, q, enforced_no_flag b ps c d q, property_no_flag p c, x_no_flag c d)
]

receive_args_cases :
    (cfg : ReceiverConfig) (dest : Bytes) {args : List Bytes}
    → receive_args cfg dest ≡ ok args
    → let disable_mount = unless_false cfg.disable_mount in
      (xs : List Bytes) × (enforced disable_mount cfg.enforce_local_properties ≡ ok xs)
      × (codes "receive"
            ∷ codes "-v"
            ∷ (mount_args disable_mount
                ++ xs
                ++ flag_if (unless_false cfg.resumable) (codes "-s")
                ++ flag_if (contains cfg.force_overwrite_datasets dest) (codes "-F"))
          ≡ args)
unfolding receive_args
receive_args_cases cfg dest h =
    elim (outcome (enforced (unless_false cfg.disable_mount) cfg.enforce_local_properties)) [
      | inl (e, q) ↦ absurd (ground (arith, q))
      | inr (xs, q) ↦ (xs, q, ground (arith, q))
    ]

mount_flags :
    (b : Bool)
    → (contains (mount_args b) (codes "-F") ≡ false)
      × (contains (mount_args b) (codes "-s") ≡ false)
      × (contains (mount_args b) (codes "-u") ≡ b)
unfolding mount_args contains text_eq
mount_flags true = (refl, refl, refl)
mount_flags false = (refl, refl, refl)

resume_flags :
    (b : Bool)
    → (contains (flag_if b (codes "-s")) (codes "-F") ≡ false)
      × (contains (flag_if b (codes "-s")) (codes "-s") ≡ b)
      × (contains (flag_if b (codes "-s")) (codes "-u") ≡ false)
unfolding flag_if contains text_eq
resume_flags true = (refl, refl, refl)
resume_flags false = (refl, refl, refl)

force_flags :
    (b : Bool)
    → (contains (flag_if b (codes "-F")) (codes "-F") ≡ b)
      × (contains (flag_if b (codes "-F")) (codes "-s") ≡ false)
      × (contains (flag_if b (codes "-F")) (codes "-u") ≡ false)
unfolding flag_if contains text_eq
force_flags true = (refl, refl, refl)
force_flags false = (refl, refl, refl)

contains_four :
    (a b c d : List Bytes) (g : Bytes)
    → contains (a ++ b ++ c ++ d) g
      ≡ (((contains a g || contains b g) || contains c g) || contains d g)
contains_four a b c d g =
    ground (
      arith,
      contains-append (a ++ b ++ c) d g,
      contains-append (a ++ b) c g,
      contains-append a b g,
    )

contains_head :
    (xs : List Bytes) (c : ℕ)
    → c ≢ b'v'
    → contains (codes "receive" ∷ codes "-v" ∷ xs) (flag c) ≡ contains xs (flag c)
unfolding contains text_eq
contains_head xs c h = ground arith

-- Three of four alternatives are false.
only_first :
    {p q r t v : Bool} → p ≡ v → q ≡ false → r ≡ false → t ≡ false → (((p || q) || r) || t) ≡ v
only_first h k l m = ground arith

only_third :
    {p q r t v : Bool} → p ≡ false → q ≡ false → r ≡ v → t ≡ false → (((p || q) || r) || t) ≡ v
only_third h k l m = ground arith

only_last :
    {p q r t v : Bool} → p ≡ false → q ≡ false → r ≡ false → t ≡ v → (((p || q) || r) || t) ≡ v
only_last h k l m = ground arith

-- Where the arguments of `zfs receive` are accepted, `-F`, which overwrites the destination, is one
-- of them exactly for a destination that `force_overwrite_datasets` lists, `-s` exactly where
-- transfers are resumable, and `-u` exactly where mounting is disabled.
pub receive_args_flags :
    (cfg : ReceiverConfig) (dest : Bytes) {args : List Bytes}
    → receive_args cfg dest ≡ ok args
    → (contains args (codes "-F") ≡ contains cfg.force_overwrite_datasets dest)
      × (contains args (codes "-s") ≡ unless_false cfg.resumable)
      × (contains args (codes "-u") ≡ unless_false cfg.disable_mount)
receive_args_flags cfg dest h =
    let b = unless_false cfg.disable_mount in
    let s = unless_false cfg.resumable in
    let f = contains cfg.force_overwrite_datasets dest in
    let (xs, q, e) = receive_args_cases cfg dest h in
    let args' = mount_args b ++ xs ++ flag_if s (codes "-s") ++ flag_if f (codes "-F") in
    let found : (c : ℕ) → c ≢ b'v' → contains _ (flag c) ≡ contains args' (flag c) =
      λ c d. ap (λ a. contains a (flag c)) (sym e) ∙ contains_head args' c d in
    let own : (c : ℕ) → c ≢ b'x' → contains xs (flag c) ≡ false =
      λ c d. enforced_no_flag b cfg.enforce_local_properties c d q in
    let four = λ (c : ℕ).
      contains_four (mount_args b) xs (flag_if s (codes "-s")) (flag_if f (codes "-F")) (flag c) in
    let (m, m', m'') = mount_flags b in
    let (r, r', r'') = resume_flags s in
    let (o, o', o'') = force_flags f in
    (
      found b'F' (omega arith) ∙ four b'F' ∙ only_last m (own b'F' (omega arith)) r o,
      found b's' (omega arith) ∙ four b's' ∙ only_third m' (own b's' (omega arith)) r' o',
      found b'u' (omega arith) ∙ four b'u' ∙ only_first m'' (own b'u' (omega arith)) r'' o'',
    )
