-- ===== src/Receiver/Parents.antt =====
-- `checkParent` and `createNotIfEncrypted`: the parents of a destination are made where they are
-- missing.
use zfsbackup.Base.{
  ℕ, zero, suc, Bool, ◌==◌, Option, none, some, [], ◌∷◌, Bytes, codes, if◌then◌else◌, Result, ok,
  err, no_pool, encrypted_parent, no_parent,
}
use zfsbackup.Exec.{Host, Act, ◌>>=◌, lift, attempt, is_encrypted, zfs_create}
use zfsbackup.Zfs.Json.{Json}
use zfsbackup.Zfs.Bookmarks.{exists}

-- What stands before the last slash.
unfoldable pub before_slash : Bytes → Option Bytes
before_slash [] = none
before_slash (c ∷ s) = elim (before_slash s) [
  | some d ↦ some (c ∷ d)
  | none ↦ if c == b'/' then some [] else none
]

-- `path.Dir`, on the name of a dataset.
unfoldable pub dir : Bytes → Bytes
unfolding before_slash
dir fs = elim (before_slash fs) [ none ↦ codes "." | some d ↦ d ]

module _ (H : Host) (decode : Bytes → Option Json) where
  -- `createNotIfEncrypted`
  unfoldable pub create_not_if_encrypted : Bytes → Bool → Act H (Unit {0})
  unfolding dir is_encrypted zfs_create
  create_not_if_encrypted fs disable_mount = is_encrypted H (dir fs) >>= λ encrypted.
      if encrypted then lift (err encrypted_parent) else zfs_create H fs disable_mount

  -- Behind the creation: a dataset that is there now is fine, whoever made it.
  unfoldable pub created : Bytes → Result (Unit {0}) → Act H (Unit {0})
  unfolding exists
  created parent r = exists H decode parent >>= λ there. lift (if there then ok tt else r)

  unfoldable pub check_pool : Bytes → Act H (Unit {0})
  unfolding exists
  check_pool fs = exists H decode fs >>= λ there. lift (if there then ok tt else err no_pool)

  unfoldable pub make_parent : Bytes → Bool → Act H (Unit {0})
  unfolding create_not_if_encrypted created
  make_parent parent disable_mount =
      attempt (create_not_if_encrypted parent disable_mount) (created parent)

  -- `checkParent`
  unfoldable pub check_parent : ℕ → Bytes → Bool → Act H (Unit {0})
  unfolding before_slash check_pool exists make_parent
  check_parent zero fs disable_mount = lift (err no_parent)
  check_parent (suc fuel) fs disable_mount = elim (before_slash fs) [
    | none ↦ check_pool fs
    | some parent ↦ exists H decode parent >>= λ there.
        let make =
          check_parent fuel parent disable_mount >>= λ _. make_parent parent disable_mount in
        if there then lift (ok tt) else make
  ]
