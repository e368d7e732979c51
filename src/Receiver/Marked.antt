-- ===== src/Receiver/Marked.antt =====
-- `setPlaceholders` against a description that has no maps.
use mathlib.Core.Path.{subst}
use zfsbackup.Base.{
  outcome, ◌≡◌, refl, sym, ap, ◌∙◌, inl, inr, true, Option, none, some, List, [], ◌∷◌, ◌++◌,
  append-nil, append_assoc, Bytes, codes, arith, text_eq, text_eq_iff, contains, if◌then◌else◌,
  Bool-cases, GroupMap, group_of, add_to_group, group_of-add_to_group, All, Error, ok,
  nothing_for_guid,
}
use zfsbackup.Config.{PlaceholderEntry, SetPlaceholders}
use zfsbackup.Names.{is_valid_zfs_dataset}
use zfsbackup.Exec.{Host, errors_of, run_each}
use zfsbackup.Zfs.Json.{Json}
use zfsbackup.Zfs.Rows.{IsRowOf, zfs_list-IsRowOf}
use zfsbackup.Zfs.Bookmarks.{zfs_set_placeholder}
use zfsbackup.Receiver.Suggestion.{destination}
use zfsbackup.Receiver.Marks.{
  interesting_guids, check_payload, by_guid, is_marked, set_first, set_one, set_listed, list_guids,
  set_checked, set_placeholders,
}

-- The names of the rows that have a GUID.
unfoldable pub names_with : Bytes → List (List Bytes) → List Bytes
names_with guid [] = []
names_with guid ((name ∷ g ∷ _) ∷ rows) =
    let rest = names_with guid rows in if text_eq g guid then name ∷ rest else rest
names_with guid (_ ∷ rows) = names_with guid rows

abbrev pub IsPair : List Bytes → Type 0
IsPair = IsRowOf (codes "name" ∷ codes "guid" ∷ [])

one_more :
    (guids : List Bytes) (g guid name : Bytes) (rows : List (List Bytes)) (m : GroupMap Bytes)
    → contains guids guid ≡ true
    → group_of guid (if contains guids g then add_to_group g name m else m) ++ names_with guid rows
      ≡ group_of guid m
        ++ (if text_eq g guid then name ∷ names_with guid rows else names_with guid rows)
one_more guids g guid name rows m h = elim (Bool-cases (text_eq g guid)) [
  | inl e ↦
      let same : contains guids g ≡ true = ap (contains guids) ((text_eq_iff g guid).0 e) ∙ h in
      rw (e, same, group_of-add_to_group guid g name m)
        (rw e (append_assoc (group_of guid m) (name ∷ []) (names_with guid rows)))
  | inr e ↦ elim (Bool-cases (contains guids g)) [
    | inl f ↦ rw (e, f, group_of-add_to_group guid g name m) (rw e refl)
    | inr f ↦ rw (e, f) refl
  ]
]

-- The map of a listing is there, and holds for a GUID that matters the names that have it.
grouped :
    (guids : List Bytes) (rows : List (List Bytes)) (m : GroupMap Bytes)
    → All IsPair rows
    → (n : GroupMap Bytes) × (by_guid guids rows m ≡ ok n)
      × ((guid : Bytes)
          → contains guids guid ≡ true
          → group_of guid n ≡ group_of guid m ++ names_with guid rows)
unfolding by_guid names_with
grouped guids [] m h = (m, refl, λ guid k. sym (append-nil _))
grouped guids ([] ∷ rows) m h = absurd (omega (arith, h.0))
grouped guids ((name ∷ []) ∷ rows) m h = absurd (omega (arith, h.0))
grouped guids ((name ∷ g ∷ more) ∷ rows) m h =
    let (n, e, f) =
      grouped guids rows (if contains guids g then add_to_group g name m else m) h.1 in
    (n, e, λ guid k. f guid k ∙ one_more guids g guid name rows m k)

-- All GUIDs of the entries matter.
IsInteresting : List Bytes → PlaceholderEntry → Type 0
IsInteresting guids p = contains guids p.guid ≡ true

still-IsInteresting :
    (guid : Bytes) (guids : List Bytes) (ps : List PlaceholderEntry)
    → All (IsInteresting guids) ps
    → All (IsInteresting (guid ∷ guids)) ps
unfolding IsInteresting contains
still-IsInteresting guid guids [] h = tt
still-IsInteresting guid guids (p ∷ ps) h =
    (ground (arith, h.0), still-IsInteresting guid guids ps h.1)

all-IsInteresting :
    (ps : List PlaceholderEntry) {guids : List Bytes}
    → interesting_guids ps ≡ ok guids
    → All (IsInteresting guids) ps
unfolding interesting_guids IsInteresting contains
all-IsInteresting [] h = tt
all-IsInteresting (p ∷ ps) {guids = guids} h = elim (outcome (interesting_guids ps)) [
  | inl (e, q) ↦ absurd (ground (arith, q))
  | inr (gs, q) ↦
      let same : p.guid ∷ gs ≡ guids = ground (arith, q) in
      subst (λ gs'. All (λ x. contains gs' x.guid ≡ true) (p ∷ ps)) same
        (
          ground (arith, text_eq_iff p.guid p.guid),
          still-IsInteresting p.guid gs ps (all-IsInteresting ps {guids = gs} q),
        )
]

run_each-cong :
    {S A : Type 0} (P : A → Type 0) (f g : A → S → List Error × S) (xs : List A) (s : S)
    → All P xs
    → ((x : A) (t : S) → P x → f x t ≡ g x t)
    → run_each f xs s ≡ run_each g xs s
unfolding run_each
run_each-cong P f g [] s h k = refl
run_each-cong P f g (x ∷ xs) s h k = rw (k x s h.0, run_each-cong P f g xs (g x s).1 h.1 k) refl

module _ (H : Host) (decode : Bytes → Option Json) where
  -- A placeholder on the first snapshot, or bookmark, that has its GUID. There is nothing to do
  -- where a bookmark with the GUID carries the suffix.
  pub set_directly :
      List (List Bytes) → List (List Bytes) → PlaceholderEntry → H.State → List Error × H.State
  set_directly snaps bms p s = elim (names_with p.guid snaps ++ names_with p.guid bms) [
    | [] ↦ (nothing_for_guid ∷ [], s)
    | item ∷ _ ↦
        let (r, s') = zfs_set_placeholder H decode item p.name s in
        if is_marked p.name (names_with p.guid bms) then ([], s) else (errors_of r, s')
  ]

  one_directly :
      (name : Bytes) (snaps bms : List Bytes) (s : H.State)
      → set_one H decode name snaps bms s ≡ elim (snaps ++ bms) [
        | [] ↦ (nothing_for_guid ∷ [], s)
        | item ∷ _ ↦
            let (r, s') = zfs_set_placeholder H decode item name s in
            if is_marked name bms then ([], s) else (errors_of r, s')
      ]
  unfolding set_one set_first
  one_directly name [] [] s = refl
  one_directly name [] (b ∷ bms) s = refl
  one_directly name (x ∷ snaps) [] s = refl
  one_directly name (x ∷ snaps) (b ∷ bms) s = refl

  round :
      (snaps bms : List (List Bytes)) (p : PlaceholderEntry) (xs ys : List Bytes) (s : H.State)
      → xs ≡ names_with p.guid snaps
      → ys ≡ names_with p.guid bms
      → set_one H decode p.name xs ys s ≡ set_directly snaps bms p s
  unfolding set_directly
  round snaps bms p xs ys s h k =
      rw (h, k) (one_directly p.name (names_with p.guid snaps) (names_with p.guid bms) s)

  listed :
      (ps : List PlaceholderEntry) (guids : List Bytes) (snaps bms : List (List Bytes))
      (s : H.State)
      → All (IsInteresting guids) ps
      → All IsPair snaps
      → All IsPair bms
      → set_listed H decode ps guids snaps bms s ≡ run_each (set_directly snaps bms) ps s
  unfolding set_listed IsInteresting
  listed ps guids snaps bms s h a b =
      let (m, e, f) = grouped guids snaps [] a in
      let (n, e', f') = grouped guids bms [] b in
      rw (set_listed, e, e')
        (run_each-cong (IsInteresting guids) _ (set_directly snaps bms) ps s h λ p t k.
          round snaps bms p (group_of p.guid m) (group_of p.guid n) t (f p.guid k) (f' p.guid k))

  -- A payload with valid suffixes and a valid name, for the file system of the request.
  accepted :
      (ds : Bytes) (payload : Option SetPlaceholders) {sp : SetPlaceholders} {guids : List Bytes}
      → check_payload ds payload ≡ ok (sp, guids)
      → interesting_guids sp.placeholders ≡ ok guids
  unfolding check_payload
  accepted ds none h = absurd (cc)
  accepted ds (some sp') {sp = sp} {guids = guids} h =
      elim (outcome (interesting_guids sp'.placeholders)) [
        | inl (e, q) ↦ absurd (ground (arith, q))
        | inr (gs, q) ↦ elim (outcome (is_valid_zfs_dataset sp'.fs)) [
          | inl (e, q') ↦ absurd (ground (arith, q, q'))
          | inr (u, q') ↦
              let same : sp' ≡ sp = ground (arith, q, q') in
              let same_guids : gs ≡ guids = ground (arith, q, q') in
              sym (ap (λ x. interesting_guids x.placeholders) same) ∙ q ∙ ap (λ g. ok g) same_guids
        ]
      ]

  -- For a payload that is accepted and a destination whose snapshots and bookmarks can be listed,
  -- `setPlaceholders` goes through the placeholders in order, whatever fails. For each it looks at
  -- the names with its GUID: where there are none this is an error; where a bookmark among them
  -- carries the suffix nothing is done; and else the placeholder is set on the first, a snapshot if
  -- there is one. The errors are those of the rounds, in order.
  pub set_placeholders_directly :
      (baseds ds : Bytes) (payload : Option SetPlaceholders) (s t u : H.State)
      {sp : SetPlaceholders} {guids : List Bytes} {snaps bms : List (List Bytes)}
      → check_payload ds payload ≡ ok (sp, guids)
      → list_guids H decode (codes "snapshot") (destination baseds sp.fs) s ≡ (ok snaps, t)
      → list_guids H decode (codes "bookmark") (destination baseds sp.fs) t ≡ (ok bms, u)
      → set_placeholders H decode baseds ds payload s
        ≡ run_each (set_directly snaps bms) sp.placeholders u
  unfolding set_placeholders set_checked list_guids
  set_placeholders_directly baseds ds payload s t u {sp} {guids} {snaps} {bms} h a b =
      let dest = destination baseds sp.fs in
      let pair = codes "name" ∷ codes "guid" ∷ [] in
      let known = all-IsInteresting sp.placeholders (accepted ds payload h) in
      rw (set_placeholders, h, set_checked, a, ap (λ r. r.1) a, b, ap (λ r. r.1) a, ap (λ r. r.1) b)
        (listed sp.placeholders guids snaps bms u known
          (zfs_list-IsRowOf H decode pair (codes "snapshot") dest [] s a)
          (zfs_list-IsRowOf H decode pair (codes "bookmark") dest [] t b))
