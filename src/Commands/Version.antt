-- ===== src/Commands/Version.antt =====
-- versionString of cmd/zfsbackup/main.go.
use zfsbackup.Base.{
  ◌≡◌, refl, false, not, ◌&&◌, Option, none, some, List, [], ◌∷◌, ◌++◌, Bytes, codes, if◌then◌else◌,
  ltb, arith, is_empty, text_eq, length, take, Bool-cases, inl, inr,
}

-- What `debug.ReadBuildInfo` reports.
pub record BuildInfo : Type 0 where
  pub main_version : Bytes
  pub settings : List (Bytes × Bytes)

-- The loop over the settings: the revision, and the mark of a modified tree.
unfoldable pub read_settings : List (Bytes × Bytes) → Bytes → Bytes → Bytes × Bytes
unfolding text_eq
read_settings [] rev mod_mark = (rev, mod_mark)
read_settings ((key, value) ∷ more) rev mod_mark =
    let revision = read_settings more value mod_mark in
    let modified = read_settings more rev (codes "-dirty") in
    let other = read_settings more rev mod_mark in
    if text_eq key (codes "vcs.revision")
    then revision
    else if text_eq key (codes "vcs.modified") && text_eq value (codes "true")
    then modified
    else other

unfoldable pub revision_of : Bytes → Bytes → Bytes
revision_of rev mod_mark =
    let short = if ltb 12 (length rev) then take 12 rev else rev in
    if is_empty rev then codes "dev" else short ++ mod_mark

unfoldable pub version_of : BuildInfo → Bytes
unfolding text_eq read_settings revision_of
version_of bi =
    let (rev, mod_mark) = read_settings bi.settings [] [] in
    if not (is_empty bi.main_version) && not (text_eq bi.main_version (codes "(devel)"))
    then bi.main_version
    else revision_of rev mod_mark

-- `versionString`, for the value of `version` and the build info
unfoldable pub version_string : Bytes → Option BuildInfo → Bytes
unfolding version_of
version_string version info =
    let built : Bytes = elim info [ none ↦ codes "dev" | some bi ↦ version_of bi ] in
    if is_empty version then built else version

append_some : (xs ys : Bytes) → is_empty xs ≡ false → is_empty (xs ++ ys) ≡ false
append_some [] ys e = absurd (cc)
append_some (x ∷ xs) ys e = refl

short_some : (rev : Bytes) → is_empty rev ≡ false → is_empty (take 12 rev) ≡ false
short_some [] e = e
short_some (x ∷ xs) e = refl

revision_of_some : (rev mod_mark : Bytes) → is_empty (revision_of rev mod_mark) ≡ false
unfolding revision_of
revision_of_some [] mod_mark = refl
revision_of_some (x ∷ xs) mod_mark = elim (Bool-cases (ltb 12 (length (x ∷ xs)))) [
  | inl e ↦ rw (revision_of, e) refl
  | inr e ↦ rw (revision_of, e) refl
]

version_of_some : (bi : BuildInfo) → is_empty (version_of bi) ≡ false
unfolding version_of
version_of_some bi =
    let (rev, mod_mark) = read_settings bi.settings [] [] in
    ground (arith, revision_of_some rev mod_mark)

-- There is always a version to print.
pub version_string_some :
    (version : Bytes) (info : Option BuildInfo) → is_empty (version_string version info) ≡ false
unfolding version_string
version_string_some [] none = refl
version_string_some [] (some bi) = version_of_some bi
version_string_some (x ∷ xs) info = refl
