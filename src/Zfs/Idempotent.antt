-- ===== src/Zfs/Idempotent.antt =====
-- What success of `zfsBookmarkIdempotent` means.
use zfsbackup.Base.{
  ◌≡◌, refl, ap, ◌∙◌, ◌⊎◌, inl, inr, Option, List, [], ◌∷◌, ◌++◌, Bytes, codes, arith,
  if◌then◌else◌, text_eq, text_eq_iff, Bool-cases, Error, Result, ok, err, bookmark_guid_differs,
}
use zfsbackup.Names.{fs_name}
use zfsbackup.Exec.{Host, ◌>>=◌, lift, run_ok, zfs, zfs_get, trim_space}
use zfsbackup.Zfs.Json.{Json}
use zfsbackup.Zfs.Table.{zfs_list}
use zfsbackup.Zfs.Bookmarks.{check_existing, when_listed, when_created, zfs_bookmark_idempotent}

-- A row of that name and GUID.
abbrev pub IsRow : Bytes → Bytes → List Bytes → Type 0
IsRow full guid (name ∷ g ∷ _) = (name ≡ full) × (g ≡ guid)
IsRow full guid _ = ⊥

abbrev pub HasRow : Bytes → Bytes → List (List Bytes) → Type 0
HasRow full guid [] = ⊥
HasRow full guid (row ∷ rows) = IsRow full guid row ⊎ HasRow full guid rows

-- The source has that GUID.
abbrev pub HasGuid : (H : Host) → Bytes → Bytes → H.State → H.State → Type 0
HasGuid H src guid s t =
    (g : Bytes) × (zfs_get H src (codes "guid") s ≡ (ok g, t)) × (trim_space g ≡ guid)

refused : {e : Error} → err e ≡ ok (tt {0}) → ⊥
refused h = absurd cc

module _ (H : Host) (src : Bytes) where
  same_guid :
      (guid : Bytes) (s : H.State) {t : H.State}
      → (zfs_get H src (codes "guid") >>= λ g.
            lift (if text_eq (trim_space g) guid then ok tt else err bookmark_guid_differs))
          s
        ≡ (ok (tt {0}), t)
      → HasGuid H src guid s t
  same_guid guid s h =
      let (g, u, got, end) =
        run_ok (zfs_get H src (codes "guid"))
          (λ g. lift (if text_eq (trim_space g) guid then ok tt else err bookmark_guid_differs)) s
          h in
      elim (Bool-cases (text_eq (trim_space g) guid)) [
        | inl e ↦ (
          g,
          got ∙ ap (λ x. (ok g, x)) (ap (λ r. r.1) (rw e at end)),
          ground (arith, text_eq_iff (trim_space g) guid),
        )
        | inr e ↦ absurd (refused (ap (λ r. r.0) (rw e at end)))
      ]

  check_existing_sound :
      (full : Bytes) (failure : Error) (rows : List (List Bytes)) (s : H.State) {t : H.State}
      → check_existing H src full failure rows s ≡ (ok (tt {0}), t)
      → (guid : Bytes) × HasRow full guid rows × HasGuid H src guid s t
  unfolding check_existing
  check_existing_sound full failure [] s h = absurd cc
  check_existing_sound full failure ([] ∷ rows) s h = absurd cc
  check_existing_sound full failure ((name ∷ []) ∷ rows) s h = absurd cc
  check_existing_sound full failure ((name ∷ guid ∷ r) ∷ rows) s {t} h =
      elim (Bool-cases (text_eq name full)) [
        | inl e ↦
            (guid, inl (ground (arith, text_eq_iff name full), refl), same_guid guid s (rw e at h))
        | inr e ↦
            let (g, row, has) = check_existing_sound full failure rows s (rw e at h) in
            (g, inr row, has)
      ]

module _ (H : Host) (decode : Bytes → Option Json) (src dst : Bytes) where
  -- A listing shows a bookmark of that name whose GUID is that of the source.
  pub IsThere : H.State → Type 0
  IsThere t =
      (guid : Bytes) × (rows : List (List Bytes)) × (u v : H.State) × (zfs_list H decode
          (codes "name" ∷ codes "guid" ∷ []) (codes "bookmark") (fs_name src) [] u
        ≡ (ok rows, v))
      × HasRow (fs_name src ++ dst) guid rows
      × HasGuid H src guid v t

  when_listed_sound :
      (failure : Error) (r : Result (List (List Bytes))) (u v : H.State) {t : H.State}
      → zfs_list H decode (codes "name" ∷ codes "guid" ∷ []) (codes "bookmark") (fs_name src) [] u
        ≡ (r, v)
      → when_listed H decode src dst failure r v ≡ (ok (tt {0}), t)
      → IsThere t
  unfolding when_listed IsThere
  when_listed_sound failure (err e) u v l h = absurd (refused (ap (λ r. r.0) h))
  when_listed_sound failure (ok rows) u v l h =
      let (guid, row, has) = check_existing_sound H src (fs_name src ++ dst) failure rows v h in
      (guid, rows, u, v, l, row, has)

  when_created_sound :
      (r : Result Bytes) (u : H.State) {t : H.State}
      → when_created H decode src dst r u ≡ (ok (tt {0}), t)
      → ((out : Bytes) × (◌≡◌ {A = Result Bytes × H.State} (r, u) (ok out, t))) ⊎ IsThere t
  unfolding when_created
  when_created_sound (ok out) u h = inl (out, ap (λ x. (ok out, x)) (ap (λ r. r.1) h))
  when_created_sound (err e) u h = inr (when_listed_sound e _ u _ refl h)

  -- Success of `zfsBookmarkIdempotent` means that `zfs bookmark` made the bookmark, or that a
  -- listing shows a bookmark of that name whose GUID is that of the source.
  pub zfs_bookmark_idempotent_sound :
      (s : H.State) {t : H.State}
      → zfs_bookmark_idempotent H decode src dst s ≡ (ok (tt {0}), t)
      → ((out : Bytes) × (zfs H (codes "bookmark" ∷ src ∷ dst ∷ []) s ≡ (ok out, t))) ⊎ IsThere t
  unfolding zfs_bookmark_idempotent
  zfs_bookmark_idempotent_sound s h =
      let made = zfs H (codes "bookmark" ∷ src ∷ dst ∷ []) s in when_created_sound made.0 made.1 h
