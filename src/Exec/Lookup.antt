-- ===== src/Exec/Lookup.antt =====
-- The search for a program, in internal/zfs/exec.go: findExecutablePath, getExecutablePath with its
-- cache, and MbufferPresent.
use zfsbackup.Base.{
  ◌≡◌, refl, sym, ◌∙◌, ap, Bool, true, false, Option, none, some, List, [], ◌∷◌, Bytes, codes,
  if◌then◌else◌, contains_byte, text_eq, text_eq_iff, Bool-cases, Option-cases, inl, inr,
}

-- `exec.LookPath` and `filepath.Join`.
pub record Search : Type 0 where
  pub look_path : Bytes → Option Bytes
  pub join : Bytes → Bytes → Bytes

-- What `execPathCache` holds.
abbrev pub Cache : Type 0
Cache = List (Bytes × Bytes)

unfoldable pub load : Bytes → Cache → Option Bytes
unfolding text_eq
load name [] = none
load name ((n, p) ∷ c) = let rest = load name c in if text_eq n name then some p else rest

-- The name, where nothing is found.
unfoldable pub or_name : Bytes → Option Bytes → Bytes
or_name name none = name
or_name name (some p) = p

module _ (X : Search) where
  -- The loop over the directories.
  unfoldable pub find_in : Bytes → List Bytes → Option Bytes
  find_in name [] = none
  find_in name (dir ∷ dirs) =
      let rest = find_in name dirs in
      elim (X.look_path (X.join dir name)) [ none ↦ rest | some p ↦ some p ]

  -- `findExecutablePath`
  unfoldable pub find_executable_path : Bytes → Option Bytes
  unfolding contains_byte find_in
  find_executable_path name = elim (X.look_path name) [
    | some p ↦ some p
    | none ↦
        let beyond = find_in name (codes "/sbin" ∷ codes "/usr/sbin" ∷ []) in
        if contains_byte b'/' name then none else beyond
  ]

  -- `getExecutablePath` behind the second `Load`: a program that is not found is left to `exec.Cmd`.
  unfoldable pub find_and_store : Bytes → Cache → Bytes × Cache
  unfolding find_executable_path
  find_and_store name now = elim (find_executable_path name) [
    | none ↦ (name, now)
    | some p ↦ (p, (name, p) ∷ now)
  ]

  -- `getExecutablePath`: `before` is the cache at the first `Load`, and `now` behind `Lock`, where
  -- other goroutines may have stored since.
  unfoldable pub get_executable_path : Bytes → Cache → Cache → Bytes × Cache
  unfolding load find_and_store
  get_executable_path name before now = elim (load name before) [
    | some p ↦ (p, now)
    | none ↦ elim (load name now) [ some p ↦ (p, now) | none ↦ find_and_store name now ]
  ]

  -- `MbufferPresent`
  unfoldable pub is_mbuffer_present : Bool
  unfolding find_executable_path
  is_mbuffer_present = elim (find_executable_path (codes "mbuffer")) [
    | none ↦ false
    | some p ↦ true
  ]

  -- Each entry is what a search finds, and no name has two.
  abbrev pub IsFound : Cache → Type 0
  IsFound c = (name p : Bytes) → load name c ≡ some p → find_executable_path name ≡ some p

  store-IsFound :
      (name p : Bytes) (c : Cache)
      → find_executable_path name ≡ some p
      → IsFound c
      → IsFound ((name, p) ∷ c)
  unfolding load
  store-IsFound name p c e f n q l = elim (Bool-cases (text_eq name n)) [
    | inl same ↦
        let eq = (text_eq_iff name n).0 same in
        ap find_executable_path (sym eq) ∙ e ∙ (rw (load, same) at l)
    | inr other ↦ f n q (rw (load, other) at l)
  ]

  store_keeps :
      (name p : Bytes) (c : Cache)
      → load name c ≡ none
      → (n q : Bytes) → load n c ≡ some q
      → load n ((name, p) ∷ c) ≡ some q
  unfolding load
  store_keeps name p c e n q l = elim (Bool-cases (text_eq name n)) [
    | inl same ↦ let eq = ap (λ x. load x c) ((text_eq_iff name n).0 same) in absurd (cc)
    | inr other ↦ rw (load, other) l
  ]

  -- Whatever other goroutines store between the two calls of `Load`, the path is the one that the
  -- search finds, and the name itself where it finds none; each entry of the cache is what a search
  -- finds, and no entry is replaced.
  pub get_executable_path-IsFound :
      (name : Bytes) (before now : Cache)
      → IsFound before
      → IsFound now
      → let (path, c) = get_executable_path name before now in
        (path ≡ or_name name (find_executable_path name))
        × IsFound c
        × ((n p : Bytes) → load n now ≡ some p → load n c ≡ some p)
  unfolding get_executable_path find_and_store or_name
  get_executable_path-IsFound name before now f g = elim (Option-cases (load name before)) [
    | inr (p, e) ↦ rw (get_executable_path, e, f name p e) (refl, g, λ n q l. l)
    | inl e ↦ elim (Option-cases (load name now)) [
      | inr (p, h) ↦ rw (get_executable_path, e, h, g name p h) (refl, g, λ n q l. l)
      | inl h ↦ elim (Option-cases (find_executable_path name)) [
        | inl k ↦ rw (get_executable_path, e, h, find_and_store, k) (refl, g, λ n q l. l)
        | inr (p, k) ↦
            rw (get_executable_path, e, h, find_and_store, k)
              (refl, store-IsFound name p now k g, store_keeps name p now h)
      ]
    ]
  ]
