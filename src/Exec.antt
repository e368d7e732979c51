-- ===== src/Exec.antt =====
-- Running commands: `DefaultExecCommand(…).Output()` of internal/zfs/exec.go, and the thin wrappers
-- around zfs(8) of internal/zfs/zfs.go. The operating system and zfs itself are a parameter.
pub mod Lookup
use mathlib.Core.Path.{fun_ext}
use zfsbackup.Base.{
  ◌≡◌, refl, ap, Bool, true, false, Option, none, some, List, [], ◌∷◌, ◌++◌, Bytes, codes, ◌||◌,
  if◌then◌else◌, Error, Result, ok, err, command_failed, bad_output, text_eq, ℕ, ◌==◌, leb, ◌&&◌,
  reverse,
}
use zfsbackup.Names.{is_valid_zfs_dataset, fs_name}

-- The machine that the program runs on. `output` runs a command to its end, with its arguments:
-- its standard output, or `none` where it cannot start or exits with an error.
pub record Host : Type 1 where
  pub State : Type 0
  pub output : Bytes → List Bytes → State → Option Bytes × State

-- A Go function that returns an error, over the state of the machine.
abbrev pub Run : Type 0 → Type 0 → Type 0
Run S A = S → Result A × S

-- An error ends the sequence of actions.
abbrev pub after : {S A B : Type 0} → (A → Run S B) → Result A → Run S B
after f (ok a) s = f a s
after f (err e) s = (err e, s)

infixl 5 ◌>>=◌ ◌>>◌
abbrev pub ◌>>=◌ : {S A B : Type 0} → Run S A → (A → Run S B) → Run S B
◌>>=◌ m f s = let (r, s') = m s in after f r s'

abbrev pub ◌>>◌ : {S B : Type 0} → Run S (Unit {0}) → Run S B → Run S B
◌>>◌ m k = m >>= λ _. k

abbrev pub lift : {S A : Type 0} → Result A → Run S A
lift r s = (r, s)

-- The next step looks at the error, if there is one.
abbrev pub attempt : {S A B : Type 0} → Run S A → (Result A → Run S B) → Run S B
attempt m f s = let (r, s') = m s in f r s'

-- Errors that are collected rather than returned at once, in the order in which they came up. The
-- value of `errors.Join` is nil exactly where there are none.
unfoldable pub errors_of : {A : Type 0} → Result A → List Error
errors_of (ok a) = []
errors_of (err e) = e ∷ []

-- A loop that goes on behind an error of a round.
unfoldable pub run_each : {S A : Type 0} → (A → S → List Error × S) → List A → S → List Error × S
run_each f [] s = ([], s)
run_each f (x ∷ xs) s =
    let (es, s') = f x s in let (es', s'') = run_each f xs s' in (es ++ es', s'')

-- White space as `strings.TrimSpace` and `strings.Fields` see it in ASCII.
unfoldable pub is_space : ℕ → Bool
is_space c = c == b' ' || (leb 9 c && leb c 13)

unfoldable pub trim_left : Bytes → Bytes
unfolding is_space
trim_left [] = []
trim_left (c ∷ s) = let rest = trim_left s in if is_space c then rest else c ∷ s

-- `strings.TrimSpace`
unfoldable pub trim_space : Bytes → Bytes
unfolding trim_left
trim_space s = reverse (trim_left (reverse (trim_left s)))

module _ (H : Host) where
  abbrev pub Act : Type 0 → Type 0
  Act = Run H.State

  unfoldable pub command : Bytes → List Bytes → Act Bytes
  command arg0 args s =
      let (out, s') = H.output arg0 args s in
      elim out [ none ↦ (err command_failed, s') | some b ↦ (ok b, s') ]

  unfoldable pub zfs : List Bytes → Act Bytes
  zfs args s =
      let (out, s') = H.output (codes "zfs") args s in
      elim out [ none ↦ (err command_failed, s') | some b ↦ (ok b, s') ]

  -- `ZfsCreate`
  unfoldable pub zfs_create : Bytes → Bool → Act (Unit {0})
  unfolding zfs
  zfs_create fs disable_mount = do
    lift (is_valid_zfs_dataset fs)
    let off = if disable_mount then codes "-o" ∷ codes "canmount=off" ∷ [] else []
    _ ← zfs (codes "create" ∷ off ++ fs ∷ [])
    lift (ok tt)

  -- `ZfsGet`
  unfoldable pub zfs_get : Bytes → Bytes → Act Bytes
  unfolding zfs
  zfs_get fs prop = do
    lift (is_valid_zfs_dataset (fs_name fs))
    zfs (codes "get" ∷ codes "-H" ∷ codes "-o" ∷ codes "value" ∷ prop ∷ fs ∷ [])

  unfoldable pub encryption_of : Bytes → Result Bool
  unfolding text_eq
  encryption_of v =
      if text_eq v (codes "off") then ok false else if text_eq v [] then err bad_output else ok true

  -- `IsEncrypted`
  unfoldable pub is_encrypted : Bytes → Act Bool
  unfolding zfs_get encryption_of trim_space
  is_encrypted fs = do val ← zfs_get fs (codes "encryption"); lift (encryption_of (trim_space val))

  -- `ZfsDestroy`
  unfoldable pub zfs_destroy : Bytes → List Bytes → Act (Unit {0})
  unfolding zfs
  zfs_destroy target flags = do
    lift (is_valid_zfs_dataset (fs_name target))
    _ ← zfs (codes "destroy" ∷ flags ++ target ∷ [])
    lift (ok tt)

-- The laws of the sequence of actions.
module _ {S : Type 0} where
  after_assoc :
      {A B C : Type 0} (f : A → Run S B) (g : B → Run S C) (r : Result A) (s : S)
      → after g (after f r s).0 (after f r s).1 ≡ after (λ a. f a >>= g) r s
  after_assoc f g (ok a) s = refl
  after_assoc f g (err e) s = refl

  pub >>=_assoc :
      {A B C : Type 0} (m : Run S A) (f : A → Run S B) (g : B → Run S C)
      → (m >>= f >>= g) ≡ (m >>= λ a. f a >>= g)
  >>=_assoc m f g = fun_ext λ s. after_assoc f g (m s).0 (m s).1

  after_done : (r : Result (Unit {0})) (s : S) → after (λ _. lift (ok tt)) r s ≡ (r, s)
  after_done (ok a) s = refl
  after_done (err e) s = refl

  pub >>_done : (m : Run S (Unit {0})) → (m >> lift (ok tt)) ≡ m
  >>_done m = fun_ext λ s. after_done (m s).0 (m s).1

  after_ok :
      {A B : Type 0} (f : A → Run S B) (r : Result A) (s : S) {b : B} {s' : S}
      → after f r s ≡ (ok b, s')
      → (a : A) × (r ≡ ok a) × (f a s ≡ (ok b, s'))
  after_ok f (ok a) s h = (a, refl, h)
  after_ok f (err e) s h = absurd (cc)

  -- A sequence succeeds only if both steps do.
  pub run_ok :
      {A B : Type 0} (m : Run S A) (f : A → Run S B) (s : S) {b : B} {s' : S}
      → (m >>= f) s ≡ (ok b, s')
      → (a : A) × (t : S) × (m s ≡ (ok a, t)) × (f a t ≡ (ok b, s'))
  run_ok m f s h =
      let (a, e, g) = after_ok f (m s).0 (m s).1 h in (a, (m s).1, ap (λ r. (r, (m s).1)) e, g)

  after-ok : {A : Type 0} (r : Result A) (s : S) → after (λ a. lift (ok a)) r s ≡ (r, s)
  after-ok (ok a) s = refl
  after-ok (err e) s = refl

  pub >>=_ok : {A : Type 0} (m : Run S A) (s : S) → (m >>= λ a. lift (ok a)) s ≡ m s
  >>=_ok m s = after-ok (m s).0 (m s).1

  -- What a sequence returns whose last step is a fixed value.
  after_returns :
      {A B : Type 0} (x : B) (r : Result A) (s : S) {b : B} {t : S}
      → after (λ _. lift (ok x)) r s ≡ (ok b, t)
      → b ≡ x
  after_returns x (ok a) s h = cc
  after_returns x (err e) s h = absurd (cc)

  pub run_returns :
      {A B : Type 0} (x : B) (m : Run S A) (s : S) {b : B} {t : S}
      → (m >>= λ _. lift (ok x)) s ≡ (ok b, t)
      → b ≡ x
  run_returns x m s h = after_returns x (m s).0 (m s).1 h

  pub run_returns_within :
      {A B C : Type 0} (x : C) (m : Run S A) (n : A → Run S B) (s : S) {c : C} {t : S}
      → (m >>= λ a. n a >>= λ _. lift (ok x)) s ≡ (ok c, t)
      → c ≡ x
  run_returns_within x m n s h =
      let (a, u, _, e) = run_ok m (λ a. n a >>= λ _. lift (ok x)) s h in run_returns x (n a) u e

-- A loop is determined by what its rounds do.
pub run_each_congr :
    {S A : Type 0} (f g : A → S → List Error × S)
    → ((a : A) (s : S) → f a s ≡ g a s)
    → (xs : List A) (s : S) → run_each f xs s ≡ run_each g xs s
run_each_congr f g e xs s = ap (λ h. run_each h xs s) (fun_ext λ a. fun_ext λ t. e a t)
