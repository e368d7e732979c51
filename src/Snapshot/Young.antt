-- ===== src/Snapshot/Young.antt =====
-- Which file systems `MaybeSkipSnaps` takes from the second query.
use mathlib.Core.Path.{subst}
use zfsbackup.Base.{
  outcome, ◌≡◌, refl, sym, ap, ◌∙◌, Bool, false, ◌&&◌, ◌||◌, Option, none, some, List, [], ◌∷◌,
  Bytes, arith, if◌then◌else◌, any, text_eq, text_eq_iff, contains, parse_int, ℤ, pos, ◌≤ℤ◌, ltb_ℤ,
  ℕ, Bool-cases, inl, inr, ok, ok-injective,
}
use zfsbackup.Names.{fs_name}
use zfsbackup.Snapshot.Skip.{
  Times, time_of, set_time, note_time, note_times, newer_keys, cutoff, skip_from,
}

has_key : Bytes → Times → Bool
has_key fs [] = false
has_key fs ((k, t) ∷ m) = text_eq k fs || has_key fs m

-- No key twice.
IsMap : Times → Type 0
IsMap [] = Unit
IsMap ((k, t) ∷ m) = (has_key k m ≡ false) × IsMap m

time_of-set_time :
    (j fs : Bytes) (t : ℤ) (m : Times)
    → time_of j (set_time fs t m) ≡ (if text_eq fs j then t else time_of j m)
unfolding time_of set_time
time_of-set_time j fs t [] = refl
time_of-set_time j fs t ((k, u) ∷ m) =
    ground (arith, time_of-set_time j fs t m, text_eq_iff fs j, text_eq_iff k fs, text_eq_iff k j)

has_key-set_time :
    (j fs : Bytes) (t : ℤ) (m : Times) → has_key j (set_time fs t m) ≡ (text_eq fs j || has_key j m)
unfolding has_key set_time
has_key-set_time j fs t [] = refl
has_key-set_time j fs t ((k, u) ∷ m) =
    ground (arith, has_key-set_time j fs t m, text_eq_iff fs j, text_eq_iff k fs, text_eq_iff k j)

set_time-IsMap : (fs : Bytes) (t : ℤ) (m : Times) → IsMap m → IsMap (set_time fs t m)
unfolding set_time has_key IsMap
set_time-IsMap fs t [] h = (refl, tt)
set_time-IsMap fs t ((k, u) ∷ m) h = elim (Bool-cases (text_eq k fs)) [
  | inl e ↦ rw e (ground (arith, text_eq_iff k fs), h.1)
  | inr e ↦ rw e (
    ground (arith, has_key-set_time k fs t m, text_eq_iff k fs, text_eq_iff fs k),
    set_time-IsMap fs t m h.1,
  )
]

time_of_absent : (fs : Bytes) (m : Times) → has_key fs m ≡ false → time_of fs m ≡ pos 0
unfolding time_of has_key
time_of_absent fs [] h = refl
time_of_absent fs ((k, t) ∷ m) h = ground (arith, time_of_absent fs m)

-- There, and later than the cutoff.
is_young : ℤ → Bytes → Times → Bool
is_young c fs m = has_key fs m && ltb_ℤ c (time_of fs m)

newer_absent :
    (c : ℤ) (fs : Bytes) (m : Times) → has_key fs m ≡ false → contains (newer_keys c m) fs ≡ false
unfolding newer_keys has_key contains
newer_absent c fs [] h = refl
newer_absent c fs ((k, t) ∷ m) h = ground (arith, newer_absent c fs m)

contains-newer_keys :
    (c : ℤ) (fs : Bytes) (m : Times) → IsMap m → contains (newer_keys c m) fs ≡ is_young c fs m
unfolding newer_keys has_key contains is_young time_of IsMap
contains-newer_keys c fs [] h = refl
contains-newer_keys c fs ((k, t) ∷ m) h =
    ground (arith, contains-newer_keys c fs m h.1, text_eq_iff k fs, newer_absent c k m h.0)

-- A later time than the cutoff, after 1970.
abbrev pub is_recent_time : ℤ → Option ℤ → Bool
is_recent_time c none = false
is_recent_time c (some t) = ltb_ℤ c t && ltb_ℤ (pos 0) t

-- A row of a recent snapshot of the file system.
abbrev pub is_recent : ℤ → Bytes → List Bytes → Bool
is_recent c fs (name ∷ creation ∷ _) =
    text_eq (fs_name name) fs && is_recent_time c (parse_int creation)
is_recent c fs _ = false

record IsSound (m : Times) : Type 0 where
  distinct : IsMap m
  since : (fs : Bytes) → pos 0 ≤ℤ time_of fs m

note_time-IsSound :
    (name : Bytes) (o : Option ℤ) (m : Times) → IsSound m → IsSound (note_time name o m)
unfolding note_time
note_time-IsSound name none m h = h
note_time-IsSound name (some t) m h = elim (Bool-cases (ltb_ℤ (time_of (fs_name name) m) t)) [
  | inl e ↦ rw e (record {
    distinct = set_time-IsMap (fs_name name) t m h.distinct;
    since = λ fs.
        ground (arith, time_of-set_time fs (fs_name name) t m, h.since fs, h.since (fs_name name));
  })
  | inr e ↦ rw e h
]

note_time-young :
    (c : ℤ) (fs name : Bytes) (o : Option ℤ) (m : Times)
    → IsSound m
    → is_young c fs (note_time name o m)
      ≡ (is_young c fs m || (text_eq (fs_name name) fs && is_recent_time c o))
unfolding note_time is_young
note_time-young c fs name none m h = ground arith
note_time-young c fs name (some t) m h = ground (
  arith,
  time_of-set_time fs (fs_name name) t m,
  has_key-set_time fs (fs_name name) t m,
  text_eq_iff (fs_name name) fs,
  h.since fs,
  time_of_absent fs m,
)

or_false : (b : Bool) → b ≡ (b || false)
or_false b = ground arith

or_assoc : (a b c : Bool) → ((a || b) || c) ≡ (a || (b || c))
or_assoc a b c = ground arith

note_times-young :
    (c : ℤ) (rows : List (List Bytes)) (m : Times) {out : Times}
    → IsSound m
    → note_times rows m ≡ ok out
    → IsSound out
      × ((fs : Bytes) → is_young c fs out ≡ (is_young c fs m || any (is_recent c fs) rows))
unfolding note_times
note_times-young c [] m h e =
    let same = ok-injective e in
    (subst IsSound same h, λ fs. ap (is_young c fs) (sym same) ∙ or_false (is_young c fs m))
note_times-young c ([] ∷ rows) m h e = absurd cc
note_times-young c ((name ∷ []) ∷ rows) m h e = absurd cc
note_times-young c ((name ∷ creation ∷ r) ∷ rows) m h e =
    let m' = note_time name (parse_int creation) m in
    let (sound, young) =
      note_times-young c rows m' (note_time-IsSound name (parse_int creation) m h) e in
    (
      sound,
      λ fs.
          young fs
          ∙ ap (λ b. b || any (is_recent c fs) rows)
              (note_time-young c fs name (parse_int creation) m h)
          ∙ or_assoc (is_young c fs m) _ _,
    )

skip_cases :
    (now : ℤ) (d : ℕ) (rows : List (List Bytes)) {names : List Bytes}
    → skip_from now d rows ≡ ok names
    → (out : Times) × (note_times rows [] ≡ ok out) × (newer_keys (cutoff now d) out ≡ names)
unfolding skip_from
skip_cases now d rows h = elim (outcome (note_times rows [])) [
  | inl (e, p) ↦ absurd (ground (arith, p))
  | inr (out, p) ↦ (out, p, ground (arith, p))
]

none-IsSound : IsSound []
unfolding IsMap time_of
none-IsSound = record { distinct = tt; since = λ fs. omega arith }

-- Where the rows of the second query can be read, the file systems to skip are exactly those of
-- which some row has a time after 1970 that is later than `now` less the duration.
pub skip_from_recent :
    (now : ℤ) (d : ℕ) (rows : List (List Bytes)) {names : List Bytes}
    → skip_from now d rows ≡ ok names
    → (fs : Bytes) → contains names fs ≡ any (is_recent (cutoff now d) fs) rows
unfolding is_young has_key
skip_from_recent now d rows h fs =
    let (out, p, q) = skip_cases now d rows h in
    let (sound, young) = note_times-young (cutoff now d) rows [] none-IsSound p in
    ap (λ ns. contains ns fs) (sym q)
    ∙ contains-newer_keys (cutoff now d) fs out sound.distinct
    ∙ young fs
