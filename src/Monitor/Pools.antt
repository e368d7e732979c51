-- ===== src/Monitor/Pools.antt =====
-- What `zpoolMetrics` measures.
use zfsbackup.Base.{
  ℕ, ◌+◌, ◌≡◌, refl, sym, ap, ◌∙◌, ◌⊎◌, inl, inr, Bool, true, false, not, Option, none, some, List,
  [], ◌∷◌, ◌++◌, Bytes, codes, arith, length, keep_if, text_eq, parse_int, ℤ, Bool-cases,
  append_assoc, text_eq_iff,
}
use zfsbackup.Monitor.Metrics.{
  Metric, Measured, used_space, has_broken_pool, count_broken, pool_metric, pool_metrics,
}

-- A pool that is not online.
pub is_broken : List Bytes → Bool
is_broken (name ∷ capacity ∷ health ∷ _) = not (text_eq health (codes "ONLINE"))
is_broken _ = false

-- The metric of a pool, where its capacity is a number.
pub measured_pool : List Bytes → List Metric
measured_pool (name ∷ capacity ∷ _) = elim (parse_int capacity) [
  | none ↦ []
  | some n ↦ used_space name n ∷ []
]
measured_pool _ = []

pub measured : List (List Bytes) → List Metric
measured [] = []
measured (row ∷ rows) = measured_pool row ++ measured rows

number_cases : (o : Option ℤ) → (o ≡ none) ⊎ ((n : ℤ) × (o ≡ some n))
number_cases none = inl refl
number_cases (some n) = inr (n, refl)

-- A dash is no number.
dash_no_number : (s : Bytes) → text_eq s (codes "-") ≡ true → parse_int s ≡ none
unfolding text_eq parse_int
dash_no_number s h = let e = (text_eq_iff s (codes "-")).0 h in rw e refl

counted :
    (name capacity health : Bytes) (rows : List (List Bytes)) (broken : ℕ)
    → count_broken health broken + length (keep_if is_broken rows)
      ≡ broken + length (keep_if is_broken ((name ∷ capacity ∷ health ∷ []) ∷ rows))
unfolding count_broken is_broken
counted name capacity health rows broken = elim (Bool-cases (text_eq health (codes "ONLINE"))) [
  | inl e ↦ rw e refl
  | inr e ↦ rw e (omega arith)
]

-- Without a dash for a capacity, the metric of a pool goes in front of the others.
one_pool :
    (name capacity : Bytes) (rest : Measured)
    → (pool_metric name capacity (parse_int capacity) rest).1 ≡ []
    → (rest.1 ≡ [])
      × ((pool_metric name capacity (parse_int capacity) rest).0
          ≡ measured_pool (name ∷ capacity ∷ []) ++ rest.0)
unfolding pool_metric measured_pool
one_pool name capacity rest h = elim (Bool-cases (text_eq capacity (codes "-"))) [
  | inl e ↦
      (rw (pool_metric, e) at h, rw (pool_metric, e, measured_pool, dash_no_number capacity e) refl)
  | inr e ↦ elim (number_cases (parse_int capacity)) [
    | inl p ↦ absurd (ground (arith, e, p))
    | inr (n, p) ↦ (rw (pool_metric, e, p) at h, rw (pool_metric, e, measured_pool, p) refl)
  ]
]

-- Where all pools can be read, the metrics are, in their order, those of the pools whose capacity
-- is a number, and then the number of pools that are not online. A capacity of `-` is left out, but
-- its pool is counted.
pub pool_metrics_exact :
    (rows : List (List Bytes)) (broken : ℕ)
    → (pool_metrics rows broken).1 ≡ []
    → (pool_metrics rows broken).0
      ≡ measured rows ++ has_broken_pool (broken + length (keep_if is_broken rows)) ∷ []
unfolding pool_metrics measured measured_pool
pool_metrics_exact [] broken h =
    let same : broken ≡ broken + 0 = omega arith in ap (λ n. has_broken_pool n ∷ []) same
pool_metrics_exact ((name ∷ capacity ∷ health ∷ []) ∷ rows) broken h =
    let rest = pool_metrics rows (count_broken health broken) in
    let (no_error, front) = one_pool name capacity rest h in
    front
    ∙ ap (λ ms. measured_pool (name ∷ capacity ∷ []) ++ ms)
        (pool_metrics_exact rows (count_broken health broken) no_error
          ∙ ap (λ n. measured rows ++ has_broken_pool n ∷ [])
              (counted name capacity health rows broken))
    ∙ sym (append_assoc (measured_pool (name ∷ capacity ∷ [])) (measured rows) _)
pool_metrics_exact ([] ∷ rows) broken h = absurd (cc)
pool_metrics_exact ((a ∷ []) ∷ rows) broken h = absurd (cc)
pool_metrics_exact ((a ∷ b ∷ []) ∷ rows) broken h = absurd (cc)
pool_metrics_exact ((a ∷ b ∷ c ∷ d ∷ e) ∷ rows) broken h = absurd (cc)
