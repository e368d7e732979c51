-- ===== src/Names/Parts.antt =====
-- Taking a full name apart gives back the parts that it was put together from.
use zfsbackup.Base.{
  ℕ, ◌≡◌, ◌≢◌, refl, Bool, true, false, none, some, [], ◌∷◌, ◌++◌, Bytes, arith, All, cut, ok,
}
use zfsbackup.Names.{
  is_name_byte, ds_rest, is_valid_zfs_dataset, is_valid_zfs_component, fs_name, snapshot_name,
  bookmark_name,
}

-- Neither `@` nor `#`.
abbrev pub IsUnmarked : Bytes → Type 0
IsUnmarked = All (λ c. (c ≢ b'@') × (c ≢ b'#'))

name_byte-unmarked : (c : ℕ) → is_name_byte c ≡ true → (c ≢ b'@') × (c ≢ b'#')
unfolding is_name_byte
name_byte-unmarked c h = ground arith

ds_rest-IsUnmarked : (seen : Bool) (s : Bytes) → ds_rest seen s ≡ true → IsUnmarked s
unfolding ds_rest
ds_rest-IsUnmarked seen [] h = tt
ds_rest-IsUnmarked seen (c ∷ s) h =
    ground (arith, name_byte-unmarked c, ds_rest-IsUnmarked (is_name_byte c) s)

pub dataset-IsUnmarked : (s : Bytes) → is_valid_zfs_dataset s ≡ ok tt → IsUnmarked s
unfolding is_valid_zfs_dataset
dataset-IsUnmarked s h = ground (arith, ds_rest-IsUnmarked false s)

pub component-IsUnmarked : (s : Bytes) → is_valid_zfs_component s ≡ ok tt → IsUnmarked s
unfolding is_valid_zfs_component
component-IsUnmarked s h = ground (arith, ds_rest-IsUnmarked false s)

module _ (sep : ℕ) where
  pub cut-append :
      (s rest : Bytes) → All (λ c. c ≢ sep) s → cut sep (s ++ sep ∷ rest) ≡ some (s, rest)
  unfolding cut
  cut-append [] rest h = ground arith
  cut-append (c ∷ s) rest h = ground (arith, cut-append s rest h.1)

  pub cut_of_lacking : (s : Bytes) → All (λ c. c ≢ sep) s → cut sep s ≡ none
  unfolding cut
  cut_of_lacking [] h = refl
  cut_of_lacking (c ∷ s) h = ground (arith, cut_of_lacking s h.1)

  pub cut_other :
      (s rest : Bytes) (d : ℕ)
      → All (λ c. c ≢ sep) s
      → d ≢ sep
      → All (λ c. c ≢ sep) rest
      → cut sep (s ++ d ∷ rest) ≡ none
  unfolding cut
  cut_other [] rest d h k r = ground (arith, cut_of_lacking rest r)
  cut_other (c ∷ s) rest d h k r = ground (arith, cut_other s rest d h.1 k r)

pub lacks_at : (s : Bytes) → IsUnmarked s → All (λ c. c ≢ b'@') s
lacks_at [] h = tt
lacks_at (c ∷ s) h = (h.0.0, lacks_at s h.1)

pub lacks_hash : (s : Bytes) → IsUnmarked s → All (λ c. c ≢ b'#') s
lacks_hash [] h = tt
lacks_hash (c ∷ s) h = (h.0.1, lacks_hash s h.1)

-- The parts of `fs@name` and of `fs#name`, for a valid dataset and a valid component, are `fs` and
-- `name`, and a name of the one kind has no part of the other.
pub full_name_parts :
    (fs name : Bytes)
    → is_valid_zfs_dataset fs ≡ ok tt
    → is_valid_zfs_component name ≡ ok tt
    → (fs_name (fs ++ b'@' ∷ name) ≡ fs)
      × (fs_name (fs ++ b'#' ∷ name) ≡ fs)
      × (snapshot_name (fs ++ b'@' ∷ name) ≡ name)
      × (bookmark_name (fs ++ b'#' ∷ name) ≡ name)
      × (snapshot_name (fs ++ b'#' ∷ name) ≡ [])
      × (bookmark_name (fs ++ b'@' ∷ name) ≡ [])
unfolding fs_name snapshot_name bookmark_name
full_name_parts fs name hf hn =
    let uf = dataset-IsUnmarked fs hf in
    let un = component-IsUnmarked name hn in
    ground (
      arith,
      cut-append b'@' fs name (lacks_at fs uf),
      cut-append b'#' fs name (lacks_hash fs uf),
      cut_other b'@' fs name b'#' (lacks_at fs uf) (omega arith) (lacks_at name un),
      cut_other b'#' fs name b'@' (lacks_hash fs uf) (omega arith) (lacks_hash name un),
    )
