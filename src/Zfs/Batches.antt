-- ===== src/Zfs/Batches.antt =====
-- The batches into which `ParseTabularBatched` divides its datasets.
use zfsbackup.Base.{
  ℕ, ◌+◌, ◌≤◌, ◌≡◌, refl, sym, ap, ◌∙◌, true, false, List, [], ◌∷◌, ◌++◌, append-nil, append_assoc,
  Bytes, arith, if◌then◌else◌, is_empty, length, flat, All, Bool-cases, inl, inr, ◌⊎◌,
}
use zfsbackup.Zfs.Tabular.{Batch, arg_max_safe, is_full, add, no_batch}

-- The batches of the datasets behind one that is not yet full.
unfoldable pub batches_from : ℕ → Batch → List Bytes → List (List Bytes)
batches_from base b [] = if is_empty b.datasets then [] else b.datasets ∷ []
batches_from base b (ds ∷ rest) =
    let cut_off = b.datasets ∷ batches_from base (add (no_batch base) ds) rest in
    let more = batches_from base (add b ds) rest in if is_full b ds then cut_off else more

-- The length of the arguments of a batch.
abbrev pub size_of : ℕ → List Bytes → ℕ
size_of base [] = base
size_of base (ds ∷ rest) = size_of base rest + (length ds + 1)

-- Not empty, and short or of one dataset.
pub record Fits (base : ℕ) (batch : List Bytes) : Type 0 where
  pub some_left : is_empty batch ≡ false
  pub short : (size_of base batch ≤ arg_max_safe) ⊎ (length batch ≡ 1)

size_of-append :
    (base : ℕ) (xs : List Bytes) (ds : Bytes)
    → size_of base (xs ++ ds ∷ []) ≡ size_of base xs + (length ds + 1)
size_of-append base [] ds = refl
size_of-append base (x ∷ xs) ds = omega (arith, size_of-append base xs ds)

-- A batch that may be sent, or nothing yet, with its size as counted.
pub record IsSound (base : ℕ) (b : Batch) : Type 0 where
  counted : b.size ≡ size_of base b.datasets
  short : (size_of base b.datasets ≤ arg_max_safe) ⊎ (length b.datasets ≤ 1)

is_empty-append : (xs : List Bytes) (ds : Bytes) → is_empty (xs ++ ds ∷ []) ≡ false
is_empty-append [] ds = refl
is_empty-append (x ∷ xs) ds = refl

length_of_empty : (xs : List Bytes) → is_empty xs ≡ true → length xs ≡ 0
length_of_empty [] h = refl
length_of_empty (x ∷ xs) h = cc

length-add : (xs : List Bytes) (ds : Bytes) → length (xs ++ ds ∷ []) ≡ length xs + 1
length-add [] ds = refl
length-add (x ∷ xs) ds = omega (arith, length-add xs ds)

add_short :
    (base : ℕ) (b : Batch) (ds : Bytes)
    → b.size ≡ size_of base b.datasets
    → is_full b ds ≡ false
    → (size_of base (b.datasets ++ ds ∷ []) ≤ arg_max_safe) ⊎ (length (b.datasets ++ ds ∷ []) ≤ 1)
unfolding is_full
add_short base b ds h k = elim (Bool-cases (is_empty b.datasets)) [
  | inl e ↦ inr (omega (arith, length-add b.datasets ds, length_of_empty b.datasets e))
  | inr e ↦
      let small : b.size + length ds + 1 ≤ arg_max_safe = ground arith in
      inl (omega (arith, size_of-append base b.datasets ds))
]

add-IsSound :
    (base : ℕ) (b : Batch) (ds : Bytes)
    → IsSound base b
    → is_full b ds ≡ false
    → IsSound base (add b ds)
add-IsSound base b ds h k = record {
  counted = omega (arith, h.counted, size_of-append base b.datasets ds);
  short = add_short base b ds h.counted k;
}

single-IsSound : (base : ℕ) (ds : Bytes) → IsSound base (add (no_batch base) ds)
single-IsSound base ds = record { counted = refl; short = inr (omega arith) }

pub full_some : (b : Batch) (ds : Bytes) → is_full b ds ≡ true → is_empty b.datasets ≡ false
unfolding is_full
full_some b ds h = ground arith

exactly_one :
    (base : ℕ) (xs : List Bytes)
    → (size_of base xs ≤ arg_max_safe) ⊎ (length xs ≤ 1)
    → is_empty xs ≡ false
    → (size_of base xs ≤ arg_max_safe) ⊎ (length xs ≡ 1)
exactly_one base xs (inl h) k = inl h
exactly_one base [] (inr h) k = cc
exactly_one base (x ∷ xs) (inr h) k = inr (omega arith)

empty_nil : (xs : List Bytes) → is_empty xs ≡ true → xs ≡ []
empty_nil [] h = refl
empty_nil (x ∷ xs) h = cc

IsSound-Fits :
    (base : ℕ) (b : Batch) → IsSound base b → is_empty b.datasets ≡ false → Fits base b.datasets
IsSound-Fits base b h k = record { some_left = k; short = exactly_one base b.datasets h.short k }

pub flat-batches_from :
    (base : ℕ) (b : Batch) (dss : List Bytes) → flat (batches_from base b dss) ≡ b.datasets ++ dss
unfolding batches_from
flat-batches_from base b [] = elim (Bool-cases (is_empty b.datasets)) [
  | inl e ↦ rw e (sym (append-nil b.datasets ∙ empty_nil b.datasets e))
  | inr e ↦ rw e refl
]
flat-batches_from base b (ds ∷ rest) = elim (Bool-cases (is_full b ds)) [
  | inl e ↦ rw e (ap (λ t. b.datasets ++ t) (flat-batches_from base (add (no_batch base) ds) rest))
  | inr e ↦ rw e (flat-batches_from base (add b ds) rest ∙ append_assoc b.datasets (ds ∷ []) rest)
]

pub batches_from-Fits :
    (base : ℕ) (b : Batch) (dss : List Bytes)
    → IsSound base b
    → All (Fits base) (batches_from base b dss)
unfolding batches_from
batches_from-Fits base b [] h = elim (Bool-cases (is_empty b.datasets)) [
  | inl e ↦ rw e tt
  | inr e ↦ rw e (IsSound-Fits base b h e, tt)
]
batches_from-Fits base b (ds ∷ rest) h = elim (Bool-cases (is_full b ds)) [
  | inl e ↦ rw e (
    IsSound-Fits base b h (full_some b ds e),
    batches_from-Fits base (add (no_batch base) ds) rest (single-IsSound base ds),
  )
  | inr e ↦ rw e (batches_from-Fits base (add b ds) rest (add-IsSound base b ds h e))
]

pub none_yet-IsSound : (base : ℕ) → IsSound base (no_batch base)
none_yet-IsSound base = record { counted = refl; short = inr (omega arith) }
