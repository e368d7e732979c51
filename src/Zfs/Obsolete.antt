-- ===== src/Zfs/Obsolete.antt =====
-- The suffix of a placeholder bookmark, and the loop of the garbage collection.
use zfsbackup.Base.{
  ℕ, ◌≡◌, ◌≢◌, refl, sym, ap, ◌∙◌, Bool, true, false, not, ◌&&◌, List, [], ◌∷◌, ◌++◌, ◌==◌, map,
  arith, Bytes, text_eq, text_eq_iff, has_suffix, contains_byte, split, split_parts, keep_if, ok,
  ok-injective, Bool-cases, inl, inr,
}
use zfsbackup.Names.{is_valid_placeholder, bookmark_name}
use zfsbackup.Sender.Suffix.{valid-no_hyphen}
use zfsbackup.Exec.{Host, Act, ◌>>◌, lift, zfs_destroy}
use zfsbackup.Zfs.Bookmarks.{last_part, placeholder_of, gc_loop}

module _ (sep : ℕ) where
  pub split_parts_of_lacking :
      (p : Bytes) → contains_byte sep p ≡ false → split_parts sep p ≡ (p, [])
  unfolding split_parts contains_byte
  split_parts_of_lacking [] h = refl
  split_parts_of_lacking (c ∷ p) h = ground (arith, split_parts_of_lacking p)

  -- The last part stands behind the last separator.
  split_parts-append :
      (a p : Bytes)
      → contains_byte sep p ≡ false
      → (x : Bytes) × (y : Bytes) × (ys : List Bytes) × (split_parts sep (a ++ sep ∷ p)
          ≡ (x, y ∷ ys))
        × (last_part y ys ≡ p)
  unfolding split_parts last_part
  split_parts-append [] p h = ([], p, [], ground (arith, split_parts_of_lacking p h), refl)
  split_parts-append (c ∷ a) p h =
      let (x, y, ys, e, l) = split_parts-append a p h in
      elim (Bool-cases (c == sep)) [
        | inl same ↦ ([], x, y ∷ ys, ground (arith, e), l)
        | inr other ↦ (c ∷ x, y, ys, ground (arith, e), l)
      ]

pub placeholder_of-split :
    (a p : Bytes)
    → contains_byte b'-' p ≡ false
    → placeholder_of (split (a ++ b'-' ∷ p) b'-') ≡ ok p
unfolding placeholder_of split
placeholder_of-split a p h =
    let (x, y, ys, e, l) = split_parts-append b'-' a p h in ground (arith, e, l)

has_suffix_cases : (x s : Bytes) → has_suffix x s ≡ true → (a : Bytes) × (s ≡ a ++ x)
unfolding has_suffix
has_suffix_cases x [] h = ([], ground (arith, text_eq_iff x []))
has_suffix_cases x (c ∷ s) h = elim (Bool-cases (text_eq x (c ∷ s))) [
  | inl e ↦ ([], ground (arith, text_eq_iff x (c ∷ s)))
  | inr e ↦ let (a, spelt) = has_suffix_cases x s (ground arith) in (c ∷ a, ap (λ t. c ∷ t) spelt)
]

-- A name carries one suffix only.
suffix_unique :
    (p q n : Bytes)
    → is_valid_placeholder p ≡ true
    → is_valid_placeholder q ≡ true
    → has_suffix (b'-' ∷ p) n ≡ true
    → has_suffix (b'-' ∷ q) n ≡ true
    → p ≡ q
suffix_unique p q n hp hq h k =
    let (a, e) = has_suffix_cases (b'-' ∷ p) n h in
    let (b, f) = has_suffix_cases (b'-' ∷ q) n k in
    ok-injective (
      sym (placeholder_of-split a p (valid-no_hyphen p hp))
      ∙ ap (λ t. placeholder_of (split t b'-')) (sym e ∙ f)
      ∙ placeholder_of-split b q (valid-no_hyphen q hq))

-- Other than the bookmark to keep, and of its suffix.
pub is_obsolete : Bytes → Bytes → Bytes → Bool
is_obsolete keep p b = not (text_eq b keep) && has_suffix (b'-' ∷ p) (bookmark_name b)

pub one_owner :
    (keep p q b : Bytes)
    → is_valid_placeholder p ≡ true
    → is_valid_placeholder q ≡ true
    → p ≢ q
    → (is_obsolete keep p b && has_suffix (b'-' ∷ q) (bookmark_name b)) ≡ false
unfolding is_obsolete
one_owner keep p q b hp hq d = ground (arith, suffix_unique p q (bookmark_name b))

-- One `zfs destroy` for each name, up to the first that fails.
pub destroy_each : (H : Host) → List Bytes → Act H (Unit {0})
destroy_each H [] = lift (ok tt)
destroy_each H (b ∷ bs) = zfs_destroy H b [] >> destroy_each H bs

pub gc_loop_obsolete :
    (H : Host) (keep p : Bytes) (bs : List Bytes)
    → gc_loop H keep (b'-' ∷ p) (map (λ b. b ∷ []) bs)
      ≡ destroy_each H (keep_if (is_obsolete keep p) bs)
unfolding gc_loop destroy_each is_obsolete
gc_loop_obsolete H keep p [] = refl
gc_loop_obsolete H keep p (b ∷ bs) = elim (Bool-cases (text_eq b keep)) [
  | inl e ↦ rw e (gc_loop_obsolete H keep p bs)
  | inr e ↦ elim (Bool-cases (has_suffix (b'-' ∷ p) (bookmark_name b))) [
    | inl f ↦
        rw (e, f)
          (ap (λ (k : Act H (Unit {0})). zfs_destroy H b [] >> k) (gc_loop_obsolete H keep p bs))
    | inr f ↦ rw (e, f) (gc_loop_obsolete H keep p bs)
  ]
]
