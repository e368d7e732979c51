-- ===== src/Zfs/Tabular.antt =====
-- `ParseTabular` and `ParseTabularBatched`: queries whose output is lines of fields, in batches that
-- keep a command's arguments short.
use zfsbackup.Base.{
  ℕ, ◌+◌, Bool, not, ◌&&◌, List, [], ◌∷◌, ◌++◌, Bytes, if◌then◌else◌, is_empty, ltb, length, split,
  has_suffix, take, ◌-◌, ok,
}
use zfsbackup.Exec.{Host, Act, ◌>>=◌, lift, command}

-- The loop over the lines. An empty line is skipped.
unfoldable pub tabular : List Bytes → List (List Bytes)
unfolding split
tabular [] = []
tabular (line ∷ lines) =
    let rest = tabular lines in if is_empty line then rest else split line 9 ∷ rest

-- `strings.TrimSuffix(s, "\n")`
unfoldable pub trim_newline : Bytes → Bytes
unfolding has_suffix
trim_newline s = if has_suffix (10 ∷ []) s then take (length s - 1) s else s

-- 64 KiB.
abbrev pub arg_max_safe : ℕ
arg_max_safe = 65536

-- The length of the fixed part of a command line.
unfoldable pub overhead : Bytes → List Bytes → ℕ
overhead arg0 [] = length arg0
overhead arg0 (a ∷ args) = overhead arg0 args + length a + 1

-- `batch` and `batchLen`.
pub record Batch : Type 0 where
  pub datasets : List Bytes
  pub size : ℕ

unfoldable pub is_full : Batch → Bytes → Bool
is_full b ds = not (is_empty b.datasets) && ltb arg_max_safe (b.size + length ds + 1)

abbrev pub add : Batch → Bytes → Batch
add b ds = record { datasets = b.datasets ++ ds ∷ []; size = b.size + (length ds + 1) }

abbrev pub no_batch : ℕ → Batch
no_batch base = record { datasets = []; size = base }

module _ (H : Host) where
  -- `ParseTabular`
  unfoldable pub parse_tabular : Bytes → List Bytes → Act H (List (List Bytes))
  unfolding command split trim_newline tabular
  parse_tabular arg0 args =
      command H arg0 args >>= λ out. lift (ok (tabular (split (trim_newline out) 10)))

  module _ (arg0 : Bytes) (fixed_args : List Bytes) (base : ℕ) where
    -- `flush`, with the rows so far.
    unfoldable pub flush : List (List Bytes) → List Bytes → Act H (List (List Bytes))
    unfolding parse_tabular
    flush all batch =
        if is_empty batch
        then lift (ok all)
        else parse_tabular arg0 (fixed_args ++ batch) >>= λ rows. lift (ok (all ++ rows))

    -- The loop over the datasets, and the flush behind it.
    unfoldable pub batch_loop : List Bytes → List (List Bytes) → Batch → Act H (List (List Bytes))
    unfolding flush is_full
    batch_loop [] all b = flush all b.datasets
    batch_loop (ds ∷ rest) all b =
        let flushed =
          flush all b.datasets >>= λ all'. batch_loop rest all' (add (no_batch base) ds) in
        let more = batch_loop rest all (add b ds) in if is_full b ds then flushed else more

  -- `ParseTabularBatched`
  unfoldable pub parse_tabular_batched : Bytes → List Bytes → List Bytes → Act H (List (List Bytes))
  unfolding batch_loop overhead
  parse_tabular_batched arg0 fixed_args datasets =
      let base = overhead arg0 fixed_args in
      if is_empty datasets
      then lift (ok [])
      else batch_loop arg0 fixed_args base datasets [] (no_batch base)
