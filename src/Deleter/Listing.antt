-- ===== src/Deleter/Listing.antt =====
-- The snapshots that the rows of a listing describe, and those that `getValidatedSnaps` takes.
use mathlib.Core.Path.{subst}
use zfsbackup.Base.{
  outcome, ℕ, ◌≡◌, inl, inr, Bool, true, false, Option, none, some, List, [], ◌∷◌, Bytes, arith,
  if◌then◌else◌, All, Bool-cases, ℤ, sym, ap, ◌∙◌, ◌++◌, parse_int, parse_uint, ok, ok-injective,
  keep_if,
}
use zfsbackup.Deleter.Mark.{Snapshot}
use zfsbackup.Deleter.Snaps.{parse_numbers, parse_row, parse_rows, trim_prefix}

-- Not marked, and of a name that some regexp matches.
abbrev pub IsTaken : (Bytes → Bool) → Snapshot → Type 0
IsTaken matches s = (s.preserve ≡ false) × (matches s.name ≡ true)

parse_numbers_fresh :
    (name : Bytes) (txg : Option ℕ) (time : Option ℤ) {s : Snapshot}
    → parse_numbers name txg time ≡ ok s
    → s.preserve ≡ false
unfolding parse_numbers
parse_numbers_fresh name none time h = cc
parse_numbers_fresh name (some txg) none h = cc
parse_numbers_fresh name (some txg) (some time) h =
    ap (λ (s : Snapshot). s.preserve) (sym (ok-injective h))

parse_row_fresh :
    (fs : Bytes) (row : List Bytes) {s : Snapshot} → parse_row fs row ≡ ok s → s.preserve ≡ false
unfolding parse_row
parse_row_fresh fs [] h = cc
parse_row_fresh fs (a ∷ []) h = cc
parse_row_fresh fs (a ∷ b ∷ []) h = cc
parse_row_fresh fs (a ∷ b ∷ c ∷ r) h =
    parse_numbers_fresh (trim_prefix (fs ++ b'@' ∷ []) a) (parse_uint b) (parse_int c) h

-- The snapshots that the rows describe, one for each row and in their order: the name behind that of
-- the file system and its `@`, the transaction number and the time, not marked.
pub data Described (fs : Bytes) : List (List Bytes) → List Snapshot → Type 0 where
  no_row : Described fs [] []
  a_row :
      {name txg time : Bytes} {more : List Bytes} {rows : List (List Bytes)} {s : Snapshot}
      {ss : List Snapshot}
      → trim_prefix (fs ++ b'@' ∷ []) name ≡ s.name
      → parse_uint txg ≡ some s.create_txg
      → parse_int time ≡ some s.timestamp
      → s.preserve ≡ false
      → Described fs rows ss
      → Described fs ((name ∷ txg ∷ time ∷ more) ∷ rows) (s ∷ ss)

-- Those of the snapshots that some regexp matches.
abbrev pub matching : (Bytes → Bool) → List Snapshot → List Snapshot
matching matches = keep_if (λ s. matches s.name)

-- The numbers of a row are those of its snapshot.
parse_numbers_exact :
    (name : Bytes) (txg : Option ℕ) (time : Option ℤ) {s : Snapshot}
    → parse_numbers name txg time ≡ ok s
    → (name ≡ s.name) × (txg ≡ some s.create_txg) × (time ≡ some s.timestamp)
unfolding parse_numbers
parse_numbers_exact name none time h = absurd cc
parse_numbers_exact name (some txg) none h = absurd cc
parse_numbers_exact name (some txg) (some time) h =
    let e = ok-injective h in
    (
      ap (λ (s : Snapshot). s.name) e,
      ap (λ (s : Snapshot). some s.create_txg) e,
      ap (λ (s : Snapshot). some s.timestamp) e,
    )

parse_row-Described :
    (fs : Bytes) (row : List Bytes) {s : Snapshot} {rows : List (List Bytes)} {ss : List Snapshot}
    → parse_row fs row ≡ ok s
    → Described fs rows ss
    → Described fs (row ∷ rows) (s ∷ ss)
unfolding parse_row
parse_row-Described fs [] h rest = absurd cc
parse_row-Described fs (a ∷ []) h rest = absurd cc
parse_row-Described fs (a ∷ b ∷ []) h rest = absurd cc
parse_row-Described fs (a ∷ b ∷ c ∷ r) h rest =
    let name = trim_prefix (fs ++ b'@' ∷ []) a in
    let (n, x, t) = parse_numbers_exact name (parse_uint b) (parse_int c) h in
    a_row n x t (parse_numbers_fresh name (parse_uint b) (parse_int c) h) rest

module _ (matches : Bytes → Bool) (fs : Bytes) where
  take-IsTaken :
      (s : Snapshot) (rest : List Snapshot) {ss : List Snapshot}
      → s.preserve ≡ false
      → All (IsTaken matches) rest
      → (if matches s.name then s ∷ rest else rest) ≡ ss
      → All (IsTaken matches) ss
  take-IsTaken s rest f k e = elim (Bool-cases (matches s.name)) [
    | inl m ↦
        subst (All (IsTaken matches)) (ap (λ b. if b then s ∷ rest else rest) (sym m) ∙ e)
          ((f, m), k)
    | inr m ↦ subst (All (IsTaken matches)) (ap (λ b. if b then s ∷ rest else rest) (sym m) ∙ e) k
  ]

  parse_rows_cons :
      (row : List Bytes) (rows : List (List Bytes)) {ss : List Snapshot}
      → parse_rows matches fs (row ∷ rows) ≡ ok ss
      → (s : Snapshot) × (rest : List Snapshot) × (parse_row fs row ≡ ok s)
        × (parse_rows matches fs rows ≡ ok rest)
        × ((if matches s.name then s ∷ rest else rest) ≡ ss)
  unfolding parse_rows
  parse_rows_cons row rows h = elim (outcome (parse_row fs row)) [
    | inl (e, p) ↦ absurd (ground arith)
    | inr (s, p) ↦ elim (outcome (parse_rows matches fs rows)) [
      | inl (e, q) ↦ absurd (ground arith)
      | inr (rest, q) ↦ (s, rest, p, q, ground arith)
    ]
  ]

  parse_nil : {ss : List Snapshot} → parse_rows matches fs [] ≡ ok ss → All (IsTaken matches) ss
  unfolding parse_rows
  parse_nil h = subst (All (IsTaken matches)) (ok-injective h) tt

  pub parse_rows-IsTaken :
      (rows : List (List Bytes)) {ss : List Snapshot}
      → parse_rows matches fs rows ≡ ok ss
      → All (IsTaken matches) ss
  parse_rows-IsTaken [] h = parse_nil h
  parse_rows-IsTaken (row ∷ rows) h =
      let (s, rest, p, q, e) = parse_rows_cons row rows h in
      take-IsTaken s rest (parse_row_fresh fs row p) (parse_rows-IsTaken rows q) e

  pub parse_rows-Described :
      (rows : List (List Bytes)) {ss : List Snapshot}
      → parse_rows matches fs rows ≡ ok ss
      → (all : List Snapshot) × Described fs rows all × (matching matches all ≡ ss)
  unfolding parse_rows
  parse_rows-Described [] h = ([], no_row, ok-injective h)
  parse_rows-Described (row ∷ rows) h =
      let (s, rest, p, q, e) = parse_rows_cons row rows h in
      let (all, described, same) = parse_rows-Described rows q in
      (
        s ∷ all,
        parse_row-Described fs row p described,
        ap (λ ss. if matches s.name then s ∷ ss else ss) same ∙ e,
      )
