-- ===== src/Run/Quiet.antt =====
-- Functions that leave the machine as it is.
use zfsbackup.Base.{
  ℕ, ◌≡◌, refl, ◌∙◌, inl, inr, Bool, true, false, Option, none, some, List, [], ◌∷◌, ◌++◌, Bytes,
  codes, if◌then◌else◌, is_empty, Bool-cases, outcome, Error, Result, ok, err, command_failed,
}
use zfsbackup.Names.{is_valid_zfs_dataset, fs_name}
use zfsbackup.Exec.{Host, Run, after, ◌>>=◌, lift, attempt, zfs, command, run_each}
use zfsbackup.Zfs.Json.{Json}
use zfsbackup.Zfs.Table.{no_flags, scan_flags, requested, list_args, decoded, zfs_list}
use zfsbackup.Zfs.Tabular.{
  Batch, is_full, add, no_batch, overhead, parse_tabular, flush, batch_loop, parse_tabular_batched,
}
use zfsbackup.Zfs.Expand.{list_below, check_names, expand_roots, expand_fs_to_process}

-- The state behind a function, whatever its result.
abbrev pub Keeps : {S B : Type 0} → (S → B × S) → Type 0
Keeps {S} f = (s : S) → (f s).1 ≡ s

-- Listings, and destroy with -n, change nothing: zfs(8).
pub record IsReadOnly (H : Host) : Type 0 where
  pub list : (args : List Bytes) → Keeps (H.output (codes "zfs") (codes "list" ∷ args))
  pub get : (args : List Bytes) → Keeps (H.output (codes "zfs") (codes "get" ∷ args))
  pub dry_destroy :
      (args : List Bytes)
      → Keeps
          (H.output (codes "zfs") (codes "destroy" ∷ codes "-d" ∷ codes "-v" ∷ codes "-n" ∷ args))

module _ {S : Type 0} where
  after-Keeps :
      {A B : Type 0} (f : A → Run S B) (r : Result A) → ((a : A) → Keeps (f a)) → Keeps (after f r)
  after-Keeps f (ok a) h s = h a s
  after-Keeps f (err e) h s = refl

  pub >>=-Keeps :
      {A B : Type 0} (m : Run S A) (f : A → Run S B)
      → Keeps m
      → ((a : A) → Keeps (f a))
      → Keeps (m >>= f)
  >>=-Keeps m f h k s = after-Keeps f (m s).0 k (m s).1 ∙ h s

  pub attempt-Keeps :
      {A B : Type 0} (m : Run S A) (f : Result A → Run S B)
      → Keeps m
      → ((r : Result A) → Keeps (f r))
      → Keeps (attempt m f)
  attempt-Keeps m f h k s = k (m s).0 (m s).1 ∙ h s

  pub lift-Keeps : {A : Type 0} (r : Result A) → Keeps (lift {S = S} r)
  lift-Keeps r s = refl

  pub if-Keeps :
      {B : Type 0} (b : Bool) (f g : S → B × S)
      → Keeps f
      → Keeps g
      → Keeps (λ s. if b then f s else g s)
  if-Keeps true f g h k s = h s
  if-Keeps false f g h k s = k s

  pub run_each-Keeps :
      {A : Type 0} (f : A → S → List Error × S) (xs : List A)
      → ((x : A) → Keeps (f x))
      → Keeps (run_each f xs)
  unfolding run_each
  run_each-Keeps f [] h s = refl
  run_each-Keeps f (x ∷ xs) h s = run_each-Keeps f xs h (f x s).1 ∙ h x s

module _ (H : Host) where
  answered : Bytes → List Bytes → H.State → Option Bytes → Result Bytes × H.State
  answered arg0 args s o = elim o [
    | none ↦ (err command_failed, (H.output arg0 args s).1)
    | some b ↦ (ok b, (H.output arg0 args s).1)
  ]

  answered-state :
      (arg0 : Bytes) (args : List Bytes) (s : H.State) (o : Option Bytes)
      → (answered arg0 args s o).1 ≡ (H.output arg0 args s).1
  unfolding answered
  answered-state arg0 args s none = refl
  answered-state arg0 args s (some b) = refl

  pub command-Keeps :
      (arg0 : Bytes) (args : List Bytes) → Keeps (H.output arg0 args) → Keeps (command H arg0 args)
  unfolding command answered
  command-Keeps arg0 args h s = answered-state arg0 args s (H.output arg0 args s).0 ∙ h s

  pub zfs-Keeps : (args : List Bytes) → Keeps (H.output (codes "zfs") args) → Keeps (zfs H args)
  unfolding zfs answered
  zfs-Keeps args h s = answered-state (codes "zfs") args s (H.output (codes "zfs") args s).0 ∙ h s

  module _ (R : IsReadOnly H) where
    module _ (decode : Bytes → Option Json) where
      pub zfs_list-Keeps :
          (props : List Bytes) (t fullds : Bytes) (flags : List Bytes)
          → Keeps (zfs_list H decode props t fullds flags)
      unfolding zfs_list list_args
      zfs_list-Keeps props t fullds flags =
          let f = scan_flags flags no_flags in
          let args = list_args (requested props f.key) t fullds f.others in
          >>=-Keeps (lift (is_valid_zfs_dataset (fs_name fullds))) _ (λ s. refl)
            λ _.
              >>=-Keeps (zfs H args) _ (zfs-Keeps args (R.list _))
                λ out. >>=-Keeps (lift (decoded (decode out))) _ (λ s. refl) λ datasets. λ s. refl

      expand_roots-Keeps :
          (exclude roots : List Bytes) → Keeps (expand_roots H decode exclude roots)
      unfolding expand_roots list_below
      expand_roots-Keeps exclude [] s = refl
      expand_roots-Keeps exclude (root ∷ roots) s =
          expand_roots-Keeps exclude roots (list_below H decode root s).1
          ∙ zfs_list-Keeps (codes "name" ∷ []) (codes "filesystem") root (codes "-r" ∷ []) s

      pub expand-Keeps :
          (include exclude : List Bytes) → Keeps (expand_fs_to_process H decode include exclude)
      unfolding expand_fs_to_process
      expand-Keeps include exclude s = elim (outcome (check_names include)) [
        | inl (e, p) ↦ rw (expand_fs_to_process, p) refl
        | inr (u, p) ↦ elim (outcome (check_names exclude)) [
          | inl (e, q) ↦ rw (expand_fs_to_process, p, q) refl
          | inr (u', q) ↦ rw (expand_fs_to_process, p, q) (expand_roots-Keeps exclude include s)
        ]
      ]

    -- Queries with zfs get.
    module _ (fixed_args : List Bytes) (base : ℕ) where
      parse-Keeps : (args : List Bytes) → Keeps (parse_tabular H (codes "zfs") (codes "get" ∷ args))
      unfolding parse_tabular
      parse-Keeps args =
          >>=-Keeps (command H (codes "zfs") (codes "get" ∷ args)) _
            (command-Keeps (codes "zfs") (codes "get" ∷ args) (R.get args)) λ out. λ s. refl

      flush-Keeps :
          (all : List (List Bytes)) (batch : List Bytes)
          → Keeps (flush H (codes "zfs") (codes "get" ∷ fixed_args) base all batch)
      unfolding flush
      flush-Keeps all batch = elim (Bool-cases (is_empty batch)) [
        | inl e ↦ λ s. rw (flush, e) refl
        | inr e ↦ λ s.
            rw (flush, e)
              (>>=-Keeps (parse_tabular H (codes "zfs") (codes "get" ∷ fixed_args ++ batch)) _
                (parse-Keeps (fixed_args ++ batch)) (λ rows. λ t. refl) s)
      ]

      batch_loop-Keeps :
          (dss : List Bytes) (all : List (List Bytes)) (b : Batch)
          → Keeps (batch_loop H (codes "zfs") (codes "get" ∷ fixed_args) base dss all b)
      unfolding batch_loop
      batch_loop-Keeps [] all b = flush-Keeps all b.datasets
      batch_loop-Keeps (ds ∷ rest) all b = elim (Bool-cases (is_full b ds)) [
        | inl e ↦ λ s.
            rw (batch_loop, e)
              (>>=-Keeps (flush H (codes "zfs") (codes "get" ∷ fixed_args) base all b.datasets) _
                (flush-Keeps all b.datasets)
                (λ all'. batch_loop-Keeps rest all' (add (no_batch base) ds)) s)
        | inr e ↦ λ s. rw (batch_loop, e) (batch_loop-Keeps rest all (add b ds) s)
      ]

    pub queries-Keeps :
        (fixed_args dss : List Bytes)
        → Keeps (parse_tabular_batched H (codes "zfs") (codes "get" ∷ fixed_args) dss)
    unfolding parse_tabular_batched
    queries-Keeps fixed_args [] s = refl
    queries-Keeps fixed_args (ds ∷ rest) s =
        let base = overhead (codes "zfs") (codes "get" ∷ fixed_args) in
        batch_loop-Keeps fixed_args base (ds ∷ rest) [] (no_batch base) s
