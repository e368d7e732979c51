-- ===== src/Receiver/Ancestors.antt =====
-- `checkParent` ends, and what its success means.
use mathlib.Core.Path.{fun_ext}
use zfsbackup.Base.{
  ℕ, zero, suc, ◌<◌, ◌≤◌, ◌≡◌, refl, sym, ap, ◌∙◌, ◌⊎◌, inl, inr, Bool, true, false, ◌==◌, Option,
  none, some, [], ◌∷◌, Bytes, arith, length, if◌then◌else◌, Result, ok, err, no_pool,
  encrypted_parent,
}
use zfsbackup.Exec.{Host, Act, ◌>>=◌, lift, run_ok, is_encrypted, zfs_create}
use zfsbackup.Zfs.Json.{Json}
use zfsbackup.Zfs.Bookmarks.{exists}
use zfsbackup.Receiver.Parents.{
  before_slash, dir, create_not_if_encrypted, created, check_pool, make_parent, check_parent,
}

unfoldable pub slashes : Bytes → ℕ
slashes [] = 0
slashes (c ∷ s) = if c == b'/' then suc (slashes s) else slashes s

slashes-length : (s : Bytes) → slashes s ≤ length s
unfolding slashes
slashes-length [] = omega arith
slashes-length (c ∷ s) = ground (arith, slashes-length s)

before_cases : (s : Bytes) → (before_slash s ≡ none) ⊎ ((d : Bytes) × (before_slash s ≡ some d))
before_cases s = go (before_slash s) refl
  where
    go :
        (r : Option Bytes)
        → before_slash s ≡ r
        → (before_slash s ≡ none) ⊎ ((d : Bytes) × (before_slash s ≡ some d))
    go none h = inl h
    go (some d) h = inr (d, h)

no_slash : (s : Bytes) → before_slash s ≡ none → slashes s ≡ 0
unfolding before_slash slashes
no_slash [] h = refl
no_slash (c ∷ s) h = elim (before_cases s) [
  | inl e ↦ ground (arith, e, no_slash s e)
  | inr (d, e) ↦ absurd (ground (arith, e))
]

fewer_slashes : (s : Bytes) {d : Bytes} → before_slash s ≡ some d → slashes s ≡ suc (slashes d)
unfolding before_slash slashes
fewer_slashes [] h = absurd (cc)
fewer_slashes (c ∷ s) {d = d} h = elim (before_cases s) [
  | inl e ↦ ground (arith, e, no_slash s e)
  | inr (f, e) ↦
      let same : c ∷ f ≡ d = ground (arith, e) in
      rw (sym same) (ground (arith, fewer_slashes s {d = f} e))
]

module _ (H : Host) (decode : Bytes → Option Json) (disable_mount : Bool) where
  -- With fuel for each slash of the name and one more, checkParent does the same with any fuel: it
  -- never runs out.
  pub check_parent_enough :
      (m n : ℕ) (fs : Bytes) (s : H.State)
      → slashes fs < m
      → slashes fs < n
      → check_parent H decode m fs disable_mount s ≡ check_parent H decode n fs disable_mount s
  unfolding check_parent
  check_parent_enough zero n fs s h k = absurd (omega arith)
  check_parent_enough (suc m) zero fs s h k = absurd (omega arith)
  check_parent_enough (suc m) (suc n) fs s h k = elim (before_cases fs) [
    | inl e ↦ rw (check_parent, e) refl
    | inr (parent, e) ↦
        let fewer = fewer_slashes fs e in
        let rest : check_parent H decode m parent disable_mount
            ≡ check_parent H decode n parent disable_mount =
          fun_ext λ t. check_parent_enough m n parent t (omega arith) (omega arith) in
        rw (check_parent, e, rest) refl
  ]

  -- The state `t` behind a success: the pool, or the parent, is there, or the parent was just made
  -- in a parent that is not encrypted.
  pub data Ready (fs : Bytes) (t : H.State) : Type 0 where
    pool : (s : H.State) → before_slash fs ≡ none → exists H decode fs s ≡ (ok true, t) → Ready fs t
    there :
        (parent : Bytes) (s : H.State)
        → before_slash fs ≡ some parent
        → exists H decode parent s ≡ (ok true, t)
        → Ready fs t
    made :
        (parent : Bytes) (s u v : H.State)
        → before_slash fs ≡ some parent
        → is_encrypted H (dir parent) s ≡ (ok false, u)
        → zfs_create H parent disable_mount u ≡ (ok tt, v)
        → exists H decode parent v ≡ (ok false, t)
        → Ready fs t

  refuse_encrypted : Bool → Act H (Unit {0}) → Act H (Unit {0})
  refuse_encrypted encrypted create = if encrypted then lift (err encrypted_parent) else create

  unencrypted :
      (encrypted : Bool) (create : Act H (Unit {0})) (s : H.State) {t : H.State}
      → refuse_encrypted encrypted create s ≡ (ok tt, t)
      → (encrypted ≡ false) × (create s ≡ (ok tt, t))
  unfolding refuse_encrypted
  unencrypted true create s h = absurd (cc)
  unencrypted false create s h = (refl, h)

  -- The creation succeeds only where the parent of the new file system is not encrypted.
  create_not_if_encrypted_ok :
      (parent : Bytes) (s : H.State) {t : H.State}
      → create_not_if_encrypted H decode parent disable_mount s ≡ (ok tt, t)
      → (u : H.State) × (is_encrypted H (dir parent) s ≡ (ok false, u))
        × (zfs_create H parent disable_mount u ≡ (ok tt, t))
  unfolding create_not_if_encrypted refuse_encrypted
  create_not_if_encrypted_ok parent s h =
      let (encrypted, u, asked, rest) =
        run_ok (is_encrypted H (dir parent))
          (λ encrypted. refuse_encrypted encrypted (zfs_create H parent disable_mount)) s h in
      let (off, create) = unencrypted encrypted (zfs_create H parent disable_mount) u rest in
      (u, asked ∙ ap (λ b. (ok b, u)) off, create)

  created-Ready :
      (fs parent : Bytes) (s : H.State) (r : Result (Unit {0})) (u : H.State) {t : H.State}
      → before_slash fs ≡ some parent
      → create_not_if_encrypted H decode parent disable_mount s ≡ (r, u)
      → created H decode parent r u ≡ (ok tt, t)
      → Ready fs t
  unfolding created
  created-Ready fs parent s r u {t = t} e c h =
      let (seen, v, f, g) =
        run_ok (exists H decode parent) (λ b. lift (if b then ok tt else r)) u h in
      seen_cases seen (f ∙ ap (λ w. (ok seen, w)) (ap (λ q. q.1) g)) (ap (λ q. q.0) g)
    where
      seen_cases :
          (b : Bool)
          → exists H decode parent u ≡ (ok b, t)
          → (if b then ok tt else r) ≡ ok tt
          → Ready fs t
      seen_cases true f g = there parent u e f
      seen_cases false f g =
          let (v, asked, create) = create_not_if_encrypted_ok parent s (c ∙ ap (λ q. (q, u)) g) in
          made parent s v u e asked create f

  or_no_pool : Bool → Result (Unit {0})
  or_no_pool b = if b then ok tt else err no_pool

  check_pool-Ready :
      (fs : Bytes) (s : H.State) {t : H.State}
      → before_slash fs ≡ none
      → check_pool H decode fs s ≡ (ok tt, t)
      → Ready fs t
  unfolding check_pool or_no_pool
  check_pool-Ready fs s {t = t} e h =
      let (seen, v, f, g) = run_ok (exists H decode fs) (λ b. lift (or_no_pool b)) s h in
      seen_cases seen (f ∙ ap (λ w. (ok seen, w)) (ap (λ q. q.1) g)) (ap (λ q. q.0) g)
    where
      seen_cases : (b : Bool) → exists H decode fs s ≡ (ok b, t) → or_no_pool b ≡ ok tt → Ready fs t
      seen_cases true f g = pool s e f
      seen_cases false f g = absurd (cc)

  -- Where checkParent succeeds, Exists has answered in the end that the pool itself is there, for a
  -- name without a slash, or that the parent is; or zfs create has just made the parent, directly
  -- behind a reading of the encryption of the parent's own parent, which is off.
  pub check_parent-Ready :
      (n : ℕ) (fs : Bytes) (s : H.State) {t : H.State}
      → check_parent H decode n fs disable_mount s ≡ (ok tt, t)
      → Ready fs t
  unfolding check_parent make_parent
  check_parent-Ready zero fs s h = absurd (cc)
  check_parent-Ready (suc n) fs s {t = t} h = elim (before_cases fs) [
    | inl e ↦ check_pool-Ready fs s e (sym (rw (check_parent, e) refl) ∙ h)
    | inr (parent, e) ↦
        let make : Act H (Unit {0}) = check_parent H decode n parent disable_mount >>= λ _.
        make_parent H decode parent disable_mount in
        let (seen, v, f, g) =
          run_ok (exists H decode parent) (λ b. if b then lift (ok tt) else make) s
            (sym (rw (check_parent, e) refl) ∙ h) in
        seen_cases parent e seen v f g
  ]
    where
      seen_cases :
          (parent : Bytes)
          → before_slash fs ≡ some parent
          → (b : Bool) (v : H.State) → exists H decode parent s ≡ (ok b, v)
          → (if b
                then lift (ok tt)
                else check_parent H decode n parent disable_mount >>= λ _.
                    make_parent H decode parent disable_mount)
              v
            ≡ (ok tt, t)
          → Ready fs t
      seen_cases parent e true v f g =
          there parent s e (f ∙ ap (λ w. (ok true, w)) (ap (λ q. q.1) g))
      seen_cases parent e false v f g =
          let (_, u, _, k) =
            run_ok (check_parent H decode n parent disable_mount)
              (λ _. make_parent H decode parent disable_mount) v g in
          created-Ready fs parent u (create_not_if_encrypted H decode parent disable_mount u).0
            (create_not_if_encrypted H decode parent disable_mount u).1 e refl k
