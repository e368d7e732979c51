-- ===== src/Deleter/Batches.antt =====
-- `deleteManySnaps`: long lists of snapshots are destroyed in halves.
use mathlib.Core.Path.{ap₂}
use zfsbackup.Base.{
  ℕ, zero, suc, ◌/◌, ◌≤◌, ◌≡◌, refl, ap, ◌∙◌, sym, inl, inr, Bool, true, false, ◌||◌, List, [], ◌∷◌,
  ◌++◌, append-nil, append_assoc, arith, Bytes, codes, ltb, ◌==◌, if◌then◌else◌, length, take, drop,
  length-take, length-drop, take-append-drop, join, is_empty, flat, All, All-append, Bool-cases, ok,
}
use zfsbackup.Exec.{Host, Act, ◌>>◌, >>=_assoc, >>_done, lift, zfs_destroy}

abbrev pub arg_max : ℕ
arg_max = 131072

unfoldable pub target : Bytes → List Bytes → Bytes
unfolding join
target fs names = fs ++ b'@' ∷ join names b','

unfoldable pub destroy_flags : Bool → List Bytes
destroy_flags dry_run = codes "-d" ∷ codes "-v" ∷ (if dry_run then codes "-n" ∷ [] else [])

-- One command is enough: the target is short, or cannot be split.
unfoldable pub fits_command : Bytes → List Bytes → Bool
unfolding target
fits_command fs names = ltb (length (target fs names)) (arg_max / 2) || length names == 1

-- `deleteManySnaps`, on fuel: the halves of a list of two or more are shorter.
unfoldable pub delete_many_snaps : (H : Host) → ℕ → Bytes → Bool → List Bytes → Act H (Unit {0})
delete_many_snaps H zero fs dry_run names = lift (ok tt)
delete_many_snaps H (suc fuel) fs dry_run names =
    let whole = zfs_destroy H (target fs names) (destroy_flags dry_run) in
    let mid = length names / 2 in
    let halves =
      delete_many_snaps H fuel fs dry_run (take mid names)
      >> delete_many_snaps H fuel fs dry_run (drop mid names) in
    if is_empty names then lift (ok tt) else if fits_command fs names then whole else halves

-- The lists of names of the commands, in the order in which they run.
pub batches : ℕ → Bytes → List Bytes → List (List Bytes)
batches zero fs names = []
batches (suc fuel) fs names =
    let mid = length names / 2 in
    let halves = batches fuel fs (take mid names) ++ batches fuel fs (drop mid names) in
    if is_empty names then [] else if fits_command fs names then names ∷ [] else halves

-- One `zfs destroy` for each batch, up to the first that fails.
pub destroy_all : (H : Host) → Bytes → Bool → List (List Bytes) → Act H (Unit {0})
destroy_all H fs dry_run [] = lift (ok tt)
destroy_all H fs dry_run (b ∷ bs) =
    zfs_destroy H (target fs b) (destroy_flags dry_run) >> destroy_all H fs dry_run bs

module _ (H : Host) (fs : Bytes) (dry_run : Bool) where
  destroy_all-append :
      (bs cs : List (List Bytes))
      → destroy_all H fs dry_run (bs ++ cs)
        ≡ (destroy_all H fs dry_run bs >> destroy_all H fs dry_run cs)
  unfolding destroy_all
  destroy_all-append [] cs = refl
  destroy_all-append (b ∷ bs) cs =
      let whole = zfs_destroy H (target fs b) (destroy_flags dry_run) in
      ap (λ (k : Act H (Unit {0})). whole >> k) (destroy_all-append bs cs)
      ∙ sym (>>=_assoc whole (λ _. destroy_all H fs dry_run bs) (λ _. destroy_all H fs dry_run cs))

  delete_many_snaps-batches :
      (fuel : ℕ) (names : List Bytes)
      → delete_many_snaps H fuel fs dry_run names ≡ destroy_all H fs dry_run (batches fuel fs names)
  unfolding delete_many_snaps batches destroy_all
  delete_many_snaps-batches zero names = refl
  delete_many_snaps-batches (suc fuel) names = elim (Bool-cases (is_empty names)) [
    | inl none_left ↦ rw none_left
    | inr some_left ↦ elim (Bool-cases (fits_command fs names)) [
      | inl fits ↦
          rw (some_left, fits)
            (sym (>>_done (zfs_destroy H (target fs names) (destroy_flags dry_run))))
      | inr long ↦
          let first = take (length names / 2) names in
          let second = drop (length names / 2) names in
          rw (some_left, long)
            (ap₂ (λ (a b : Act H (Unit {0})). a >> b) (delete_many_snaps-batches fuel first)
                (delete_many_snaps-batches fuel second)
              ∙ sym (destroy_all-append (batches fuel fs first) (batches fuel fs second)))
    ]
  ]

flat-append : (xs ys : List (List Bytes)) → flat (xs ++ ys) ≡ flat xs ++ flat ys
flat-append [] ys = refl
flat-append (x ∷ xs) ys = simp (flat-append xs ys, append_assoc)

-- A list that does not fit a command has two names or more.
long_lem :
    (fs : Bytes) (names : List Bytes)
    → is_empty names ≡ false
    → fits_command fs names ≡ false
    → 2 ≤ length names
unfolding fits_command
long_lem fs [] h k = cc
long_lem fs (a ∷ []) h k = ground arith
long_lem fs (a ∷ b ∷ r) h k = omega arith

nil_of_empty : (names : List Bytes) → is_empty names ≡ true → [] ≡ names
nil_of_empty [] h = refl
nil_of_empty (a ∷ r) h = cc

abbrev pub IsBatch : Bytes → List Bytes → Type 0
IsBatch fs b = (is_empty b ≡ false) × (fits_command fs b ≡ true)

module _ (fs : Bytes) where
  half_lengths :
      (fuel : ℕ) (names : List Bytes)
      → length names ≤ suc fuel
      → 2 ≤ length names
      → (length (take (length names / 2) names) ≤ fuel)
        × (length (drop (length names / 2) names) ≤ fuel)
  half_lengths fuel names h k =
      omega (arith, length-take (length names / 2) names, length-drop (length names / 2) names)

  flat-batches :
      (fuel : ℕ) (names : List Bytes) → length names ≤ fuel → flat (batches fuel fs names) ≡ names
  unfolding batches
  flat-batches zero [] h = refl
  flat-batches zero (a ∷ r) h = absurd (omega arith)
  flat-batches (suc fuel) names h = elim (Bool-cases (is_empty names)) [
    | inl e ↦ rw e (nil_of_empty names e)
    | inr e ↦ elim (Bool-cases (fits_command fs names)) [
      | inl fits ↦ rw (e, fits) (append-nil names)
      | inr long ↦
          let (a, b) = half_lengths fuel names h (long_lem fs names e long) in
          let mid = length names / 2 in
          rw (e, long)
            (flat-append (batches fuel fs (take mid names)) (batches fuel fs (drop mid names))
              ∙ ap₂ (λ (x y : List Bytes). x ++ y) (flat-batches fuel (take mid names) a)
                  (flat-batches fuel (drop mid names) b)
              ∙ take-append-drop mid names)
    ]
  ]

  batches-IsBatch : (fuel : ℕ) (names : List Bytes) → All (IsBatch fs) (batches fuel fs names)
  unfolding batches
  batches-IsBatch zero names = tt
  batches-IsBatch (suc fuel) names = elim (Bool-cases (is_empty names)) [
    | inl e ↦ rw e tt
    | inr e ↦ elim (Bool-cases (fits_command fs names)) [
      | inl fits ↦ rw (e, fits) ((e, fits), tt)
      | inr long ↦
          rw (e, long)
            (All-append (IsBatch fs) (batches fuel fs (take (length names / 2) names))
              (batches fuel fs (drop (length names / 2) names))
              (batches-IsBatch fuel (take (length names / 2) names))
              (batches-IsBatch fuel (drop (length names / 2) names)))
    ]
  ]

-- With fuel for each name, the run is one `zfs destroy` for each of some batches, in order and up
-- to the first that fails. The batches together are the names, each once and in order, and no batch
-- is empty or, where it holds two names or more, makes an argument of half of `argMax` or longer.
pub delete_many_snaps_plan :
    (H : Host) (fuel : ℕ) (fs : Bytes) (dry_run : Bool) (names : List Bytes)
    → length names ≤ fuel
    → (bs : List (List Bytes)) × (delete_many_snaps H fuel fs dry_run names
        ≡ destroy_all H fs dry_run bs)
      × (flat bs ≡ names)
      × All (IsBatch fs) bs
delete_many_snaps_plan H fuel fs dry_run names h = (
  batches fuel fs names,
  delete_many_snaps-batches H fs dry_run fuel names,
  flat-batches fs fuel names h,
  batches-IsBatch fs fuel names,
)
