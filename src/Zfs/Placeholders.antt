-- ===== src/Zfs/Placeholders.antt =====
-- Which bookmarks the garbage collection of `ZfsSetPlaceholder` destroys.
use mathlib.Core.Path.{ap₂}
use zfsbackup.Base.{
  ℕ, zero, suc, ◌-◌, ◌≡◌, ◌≢◌, refl, ap, ◌∙◌, true, false, Option, List, [], ◌∷◌, ◌++◌, ◌&&◌, map,
  arith, Bytes, codes, has_suffix, contains_byte, split, take, length, keep_if, All-append, ok,
  Bool-cases, ◌⊎◌, inl, inr,
}
use zfsbackup.Names.{
  is_mark, is_placeholder_byte, all_placeholder, is_valid_placeholder, is_valid_zfs_dataset,
  is_valid_zfs_component, fs_name, bookmark_name,
}
use zfsbackup.Names.Parts.{
  IsUnmarked, dataset-IsUnmarked, component-IsUnmarked, lacks_at, lacks_hash, cut-append, cut_other,
  full_name_parts,
}
use zfsbackup.Names.Source.{placeholder_source_name_complete}
use zfsbackup.Sender.Suffix.{valid-no_hyphen}
use zfsbackup.Exec.{Host, Act, ◌>>=◌, ◌>>◌, lift}
use zfsbackup.Zfs.Json.{Json}
use zfsbackup.Zfs.Table.{zfs_list}
use zfsbackup.Zfs.Bookmarks.{
  placeholder_of, trim_suffix, gc_loop, zfs_gc_placeholder, zfs_bookmark_idempotent, new_bookmark,
  zfs_set_placeholder,
}
use zfsbackup.Zfs.Obsolete.{
  placeholder_of-split, is_obsolete, one_owner, destroy_each, gc_loop_obsolete,
}

placeholder_byte-unmarked : (c : ℕ) → is_placeholder_byte c ≡ true → (c ≢ b'@') × (c ≢ b'#')
unfolding is_placeholder_byte
placeholder_byte-unmarked c h = ground arith

all_placeholder-IsUnmarked : (p : Bytes) → all_placeholder p ≡ true → IsUnmarked p
unfolding all_placeholder
all_placeholder-IsUnmarked [] h = tt
all_placeholder-IsUnmarked (c ∷ p) h =
    ground (arith, placeholder_byte-unmarked c, all_placeholder-IsUnmarked p)

placeholder-IsUnmarked : (p : Bytes) → is_valid_placeholder p ≡ true → IsUnmarked p
unfolding is_valid_placeholder
placeholder-IsUnmarked p h = all_placeholder-IsUnmarked p (ground arith)

take-IsUnmarked : (n : ℕ) (s : Bytes) → IsUnmarked s → IsUnmarked (take n s)
take-IsUnmarked zero s h = tt
take-IsUnmarked (suc n) [] h = tt
take-IsUnmarked (suc n) (c ∷ s) h = (h.0, take-IsUnmarked n s h.1)

trim_suffix-IsUnmarked : (x s : Bytes) → IsUnmarked s → IsUnmarked (trim_suffix x s)
unfolding trim_suffix
trim_suffix-IsUnmarked x s h = elim (Bool-cases (has_suffix x s)) [
  | inl e ↦ rw e (take-IsUnmarked (length s - length x) s h)
  | inr e ↦ rw e h
]

-- The name of a bookmark behind its `#`: a stem, and the suffix behind a hyphen.
new_bookmark_stem :
    (src p name : Bytes)
    → IsUnmarked name
    → (stem : Bytes) × (new_bookmark src p name ≡ b'#' ∷ stem ++ b'-' ∷ p) × IsUnmarked stem
unfolding new_bookmark
new_bookmark_stem src p name h = elim (Bool-cases (contains_byte b'#' src)) [
  | inl e ↦ (trim_suffix (b'-' ∷ p) name, rw e refl, trim_suffix-IsUnmarked (b'-' ∷ p) name h)
  | inr e ↦ (name, rw e refl, h)
]

fs_name_of_bookmark :
    (fs rest : Bytes) → IsUnmarked fs → IsUnmarked rest → fs_name (fs ++ b'#' ∷ rest) ≡ fs
unfolding fs_name
fs_name_of_bookmark fs rest h k = ground (
  arith,
  cut_other b'@' fs rest b'#' (lacks_at fs h) (omega arith) (lacks_at rest k),
  cut-append b'#' fs rest (lacks_hash fs h),
)

mark_cases : (c : ℕ) → is_mark c ≡ true → (c ≡ b'@') ⊎ (c ≡ b'#')
unfolding is_mark
mark_cases c h = ground arith

append-hyphen :
    (fs stem p : Bytes) → fs ++ b'#' ∷ (stem ++ b'-' ∷ p) ≡ (fs ++ b'#' ∷ stem) ++ b'-' ∷ p
append-hyphen [] stem p = refl
append-hyphen (c ∷ fs) stem p = ap (λ t. c ∷ t) (append-hyphen fs stem p)

module _ (H : Host) (decode : Bytes → Option Json) where
  gc_of_bookmark :
      (fs stem p : Bytes)
      → IsUnmarked fs
      → IsUnmarked stem
      → is_valid_placeholder p ≡ true
      → zfs_gc_placeholder H decode (fs ++ b'#' ∷ (stem ++ b'-' ∷ p)) ≡ (
          zfs_list H decode (codes "name" ∷ []) (codes "bookmark") fs [] >>= λ rows.
          gc_loop H (fs ++ b'#' ∷ (stem ++ b'-' ∷ p)) (b'-' ∷ p) rows)
  unfolding zfs_gc_placeholder
  gc_of_bookmark fs stem p hf hs hp =
      let named =
        fs_name_of_bookmark fs (stem ++ b'-' ∷ p) hf
          (All-append _ stem (b'-' ∷ p) hs (omega arith, placeholder-IsUnmarked p hp)) in
      let split_off : placeholder_of (split (fs ++ b'#' ∷ (stem ++ b'-' ∷ p)) b'-') ≡ ok p =
        ap (λ t. placeholder_of (split t b'-')) (append-hyphen fs stem p)
        ∙ placeholder_of-split (fs ++ b'#' ∷ stem) p (valid-no_hyphen p hp) in
      rw (split_off, named) refl

  fs_name_of_source :
      (fs name : Bytes) (c : ℕ)
      → is_mark c ≡ true
      → is_valid_zfs_dataset fs ≡ ok tt
      → is_valid_zfs_component name ≡ ok tt
      → fs_name (fs ++ c ∷ name) ≡ fs
  fs_name_of_source fs name c m hf hn =
      let parts = full_name_parts fs name hf hn in
      elim (mark_cases c m) [ inl e ↦ rw e parts.0 | inr e ↦ rw e parts.1 ]

  set_steps :
      (fs name p : Bytes) (c : ℕ)
      → is_mark c ≡ true
      → is_valid_placeholder p ≡ true
      → is_valid_zfs_dataset fs ≡ ok tt
      → is_valid_zfs_component name ≡ ok tt
      → (stem : Bytes) → new_bookmark (fs ++ c ∷ name) p name ≡ b'#' ∷ stem ++ b'-' ∷ p
      → IsUnmarked stem
      → zfs_set_placeholder H decode (fs ++ c ∷ name) p ≡ (
          zfs_bookmark_idempotent H decode (fs ++ c ∷ name) (b'#' ∷ (stem ++ b'-' ∷ p))
          >> (zfs_list H decode (codes "name" ∷ []) (codes "bookmark") fs [] >>= λ rows.
              gc_loop H (fs ++ b'#' ∷ (stem ++ b'-' ∷ p)) (b'-' ∷ p) rows))
  unfolding zfs_set_placeholder
  set_steps fs name p c m hp hf hn stem e u =
      let src = fs ++ c ∷ name in
      let made = b'#' ∷ (stem ++ b'-' ∷ p) in
      let steps : Bytes → Bytes → Act H (Unit {0}) =
        λ f bm. zfs_bookmark_idempotent H decode src bm >> zfs_gc_placeholder H decode (f ++ bm) in
      let accepted = placeholder_source_name_complete fs name p c m hp hf hn in
      ap (λ r. lift r >>= λ n. steps (fs_name src) (new_bookmark src p n)) accepted
      ∙ ap₂ steps (fs_name_of_source fs name c m hf hn) e
      ∙ ap (λ (k : Act H (Unit {0})). zfs_bookmark_idempotent H decode src made >> k)
          (gc_of_bookmark fs stem p (dataset-IsUnmarked fs hf) u hp)

  -- Given a dataset and a component that are valid, with an `@` or a `#` between them, and two
  -- valid suffixes that differ, `ZfsSetPlaceholder` for the first makes a bookmark of that suffix
  -- and lists the bookmarks of the dataset. Of those it destroys, in their order and up to the first
  -- that fails, exactly the others whose names carry the suffix, and none whose name carries the
  -- second.
  pub zfs_set_placeholder_checkpoint :
      (fs name p q : Bytes) (c : ℕ)
      → is_mark c ≡ true
      → is_valid_placeholder p ≡ true
      → is_valid_placeholder q ≡ true
      → p ≢ q
      → is_valid_zfs_dataset fs ≡ ok tt
      → is_valid_zfs_component name ≡ ok tt
      → (stem : Bytes) × let made = b'#' ∷ (stem ++ b'-' ∷ p) in
          (zfs_set_placeholder H decode (fs ++ c ∷ name) p ≡ (
            zfs_bookmark_idempotent H decode (fs ++ c ∷ name) made
            >> (zfs_list H decode (codes "name" ∷ []) (codes "bookmark") fs [] >>= λ rows.
                gc_loop H (fs ++ made) (b'-' ∷ p) rows)))
          × ((bs : List Bytes)
              → gc_loop H (fs ++ made) (b'-' ∷ p) (map (λ b. b ∷ []) bs)
                ≡ destroy_each H (keep_if (is_obsolete (fs ++ made) p) bs))
          × ((b : Bytes)
              → (is_obsolete (fs ++ made) p b && has_suffix (b'-' ∷ q) (bookmark_name b)) ≡ false)
  zfs_set_placeholder_checkpoint fs name p q c m hp hq d hf hn =
      let src = fs ++ c ∷ name in
      let (stem, e, u) = new_bookmark_stem src p name (component-IsUnmarked name hn) in
      let made = b'#' ∷ (stem ++ b'-' ∷ p) in
      (
        stem,
        (
          set_steps fs name p c m hp hf hn stem e u,
          gc_loop_obsolete H (fs ++ made) p,
          λ b. one_owner (fs ++ made) p q b hp hq d,
        ),
      )
