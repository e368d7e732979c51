-- ===== src/Zfs/Batched.antt =====
-- The queries of `ParseTabularBatched`.
use zfsbackup.Base.{
  ℕ, ◌≡◌, refl, sym, ap, ◌∙◌, true, false, List, [], ◌∷◌, ◌++◌, append-nil, append_assoc, Bytes,
  if◌then◌else◌, is_empty, flat, All, Result, ok, err, Bool-cases, inl, inr,
}
use zfsbackup.Exec.{after, >>=_ok, Host, Act, ◌>>=◌, lift}
use zfsbackup.Zfs.Tabular.{
  Batch, overhead, is_full, add, no_batch, parse_tabular, flush, batch_loop, parse_tabular_batched,
}
use zfsbackup.Zfs.Batches.{
  batches_from, Fits, flat-batches_from, batches_from-Fits, none_yet-IsSound, full_some,
}

-- The rows that a query adds to those before it.
prepend :
    {S : Type 0}
    → List (List Bytes)
    → Result (List (List Bytes)) × S
    → Result (List (List Bytes)) × S
prepend all (err e, s) = (err e, s)
prepend all (ok rows, s) = (ok (all ++ rows), s)

prepend-prepend :
    {S : Type 0} (all rows : List (List Bytes)) (r : Result (List (List Bytes))) (s : S)
    → prepend (all ++ rows) (r, s) ≡ prepend all (after (λ rest. lift (ok (rows ++ rest))) r s)
unfolding prepend
prepend-prepend all rows (err e) s = refl
prepend-prepend all rows (ok rest) s = ap (λ t. (ok t, s)) (append_assoc all rows rest)

module _ (H : Host) (arg0 : Bytes) (fixed_args : List Bytes) where
  -- One query for each batch, in order and up to the first that fails, and all their rows.
  pub query_all : List (List Bytes) → Act H (List (List Bytes))
  query_all [] = lift (ok [])
  query_all (b ∷ bs) = parse_tabular H arg0 (fixed_args ++ b) >>= λ rows.
      query_all bs >>= λ rest. lift (ok (rows ++ rest))

  module _ (base : ℕ) (all : List (List Bytes)) (batch : List Bytes)
      (k : List (List Bytes) → Act H (List (List Bytes))) (k' : Act H (List (List Bytes)))
      (same : (all' : List (List Bytes)) (s : H.State) → k all' s ≡ prepend all' (k' s)) where
    joined : Act H (List (List Bytes))
    joined = parse_tabular H arg0 (fixed_args ++ batch) >>= λ rows.
        k' >>= λ rest. lift (ok (rows ++ rest))

    after_flush :
        (r : Result (List (List Bytes))) (s : H.State)
        → after k
            (after (λ rows. lift (ok (all ++ rows))) r s).0
            (after (λ rows. lift {S = H.State} (ok (all ++ rows))) r s).1
          ≡ prepend all (after (λ rows. k' >>= λ rest. lift (ok (rows ++ rest))) r s)
    unfolding prepend
    after_flush (err e) s = refl
    after_flush (ok rows) s = same (all ++ rows) s ∙ prepend-prepend all rows (k' s).0 (k' s).1

    -- A flush of some datasets, and what follows.
    flush_then :
        (s : H.State)
        → is_empty batch ≡ false
        → (flush H arg0 fixed_args base all batch >>= k) s ≡ prepend all (joined s)
    unfolding flush joined
    flush_then s h =
        let r = parse_tabular H arg0 (fixed_args ++ batch) s in rw h (after_flush r.0 r.1)

  flush_empty :
      (base : ℕ) (all : List (List Bytes)) (batch : List Bytes) (s : H.State)
      → is_empty batch ≡ true
      → flush H arg0 fixed_args base all batch s ≡ (ok all, s)
  unfolding flush
  flush_empty base all batch s e = rw e refl

  flush_last :
      (base : ℕ) (all : List (List Bytes)) (batch : List Bytes) (s : H.State)
      → flush H arg0 fixed_args base all batch s
        ≡ prepend all (query_all (if is_empty batch then [] else batch ∷ []) s)
  unfolding query_all joined prepend
  flush_last base all batch s = elim (Bool-cases (is_empty batch)) [
    | inl e ↦ rw e (flush_empty base all batch s e ∙ ap (λ t. (ok t, s)) (sym (append-nil all)))
    | inr e ↦ rw e (
        sym (>>=_ok (flush H arg0 fixed_args base all batch) s)
        ∙ flush_then base all batch (λ a. lift (ok a)) (lift (ok []))
            (λ a t. ap (λ z. (ok z, t)) (sym (append-nil a))) s e)
  ]

  batch_loop-query_all :
      (base : ℕ) (b : Batch) (dss : List Bytes) (all : List (List Bytes)) (s : H.State)
      → batch_loop H arg0 fixed_args base dss all b s
        ≡ prepend all (query_all (batches_from base b dss) s)
  unfolding batch_loop batches_from query_all joined
  batch_loop-query_all base b [] all s = flush_last base all b.datasets s
  batch_loop-query_all base b (ds ∷ rest) all s = elim (Bool-cases (is_full b ds)) [
    | inl e ↦
        rw (e, query_all)
          (flush_then base all b.datasets
            (λ all'. batch_loop H arg0 fixed_args base rest all' (add (no_batch base) ds))
            (query_all (batches_from base (add (no_batch base) ds) rest))
            (λ all' t. batch_loop-query_all base (add (no_batch base) ds) rest all' t) s
            (full_some b ds e))
    | inr e ↦ rw e (batch_loop-query_all base (add b ds) rest all s)
  ]

prepend_nil : {S : Type 0} (r : Result (List (List Bytes)) × S) → prepend [] r ≡ r
unfolding prepend
prepend_nil (err e, s) = refl
prepend_nil (ok rows, s) = refl

-- `ParseTabularBatched` runs one query for each of some batches, in order and up to the first that
-- fails, and returns all their rows. The batches together are the datasets, each once and in order;
-- no batch is empty, and one of two datasets or more has arguments of 64 KiB at most.
pub parse_tabular_batched_plan :
    (H : Host) (arg0 : Bytes) (fixed_args datasets : List Bytes)
    → (bs : List (List Bytes)) × ((s : H.State)
        → parse_tabular_batched H arg0 fixed_args datasets s ≡ query_all H arg0 fixed_args bs s)
      × (flat bs ≡ datasets)
      × All (Fits (overhead arg0 fixed_args)) bs
unfolding parse_tabular_batched query_all
parse_tabular_batched_plan H arg0 fixed_args [] = ([], λ s. refl, refl, tt)
parse_tabular_batched_plan H arg0 fixed_args (ds ∷ rest) =
    let base = overhead arg0 fixed_args in
    let none_yet = no_batch base in
    (
      batches_from base none_yet (ds ∷ rest),
      λ s. batch_loop-query_all H arg0 fixed_args base none_yet (ds ∷ rest) [] s ∙ prepend_nil _,
      flat-batches_from base none_yet (ds ∷ rest),
      batches_from-Fits base none_yet (ds ∷ rest) (none_yet-IsSound base),
    )
