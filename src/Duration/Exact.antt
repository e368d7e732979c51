-- ===== src/Duration/Exact.antt =====
-- What `ParseDuration` accepts and returns.
use mathlib.Core.Path.{ap₂}
use zfsbackup.Base.{
  ◌↔◌, ℕ, ◌*◌, ◌≤◌, ◌≡◌, refl, Option, none, some, [], ◌∷◌, ◌++◌, arith, Bytes, ℤ, pos, negsuc,
  max_i64, parse_int, ok, ap, sym, ◌∙◌,
}
use zfsbackup.Duration.{second, suffix_map, unsnoc, scale, measure, convert, parse_duration}

pub suffix_map_bounds : (c : ℕ) {m : ℕ} → suffix_map c ≡ some m → (second ≤ m) × (m ≤ max_i64)
unfolding suffix_map
suffix_map_bounds c h = ground arith

unsnoc-append : (c : ℕ) (s : Bytes) → (unsnoc c s).0 ++ (unsnoc c s).1 ∷ [] ≡ c ∷ s
unfolding unsnoc
unsnoc-append c [] = refl
unsnoc-append c (d ∷ s) = ap (λ t. c ∷ t) (unsnoc-append d s)

append-unsnoc : (c : ℕ) (num : Bytes) (suf : ℕ) → unsnoc c (num ++ suf ∷ []) ≡ (c ∷ num, suf)
unfolding unsnoc
append-unsnoc c [] suf = refl
append-unsnoc c (d ∷ num) suf = rw (append-unsnoc d num suf)

-- `d` is the exact value of the text `num` followed by the unit `suf`.
pub record IsValueOf (num : Bytes) (suf d : ℕ) : Type 0 where
  pub count : ℕ
  pub unit : ℕ
  pub counted : parse_int num ≡ some (pos count)
  pub measured : suffix_map suf ≡ some unit
  pub exact : d ≡ count * unit
  pub fits : d ≤ max_i64

scale_exact :
    (n c : ℕ) {m d : ℕ}
    → suffix_map c ≡ some m
    → scale (pos n) m ≡ ok d
    → (d ≡ n * m) × (d ≤ max_i64)
unfolding scale suffix_map
scale_exact n c h e = ground arith

scale_fits :
    (n c : ℕ) {m : ℕ} → suffix_map c ≡ some m → n * m ≤ max_i64 → scale (pos n) m ≡ ok (n * m)
unfolding scale suffix_map
scale_fits n c h e = ground arith

measure_sound :
    (o : Option ℤ) (u : Option ℕ) {d : ℕ}
    → measure o u ≡ ok d
    → (n m : ℕ) × (o ≡ some (pos n)) × (u ≡ some m) × (scale (pos n) m ≡ ok d)
unfolding measure
measure_sound none u h = cc
measure_sound (some n) none h = cc
measure_sound (some (negsuc n)) (some m) h = cc
measure_sound (some (pos n)) (some m) h = (n, m, refl, refl, h)

convert_sound : (num : Bytes) (suf : ℕ) {d : ℕ} → convert (num, suf) ≡ ok d → IsValueOf num suf d
unfolding convert
convert_sound num suf h =
    let (n, m, counted, measured, e) = measure_sound (parse_int num) (suffix_map suf) h in
    let (exact, fits) = scale_exact n suf measured e in
    record {
      count = n;
      unit = m;
      counted = counted;
      measured = measured;
      exact = exact;
      fits = fits;
    }

-- An accepted text is a number that is not negative, followed by a known unit, and the duration is
-- their exact product: it lies in the range of int64, so nothing wrapped around.
pub parse_duration_sound :
    (s : Bytes) {d : ℕ}
    → parse_duration s ≡ ok d
    → (num : Bytes) × (suf : ℕ) × (s ≡ num ++ suf ∷ []) × IsValueOf num suf d
unfolding parse_duration
parse_duration_sound [] h = cc
parse_duration_sound (c ∷ []) h = cc
parse_duration_sound (c ∷ d ∷ s) h = (
  (unsnoc c (d ∷ s)).0,
  (unsnoc c (d ∷ s)).1,
  sym (unsnoc-append c (d ∷ s)),
  convert_sound (unsnoc c (d ∷ s)).0 (unsnoc c (d ∷ s)).1 h,
)

parse_duration-append :
    (c : ℕ) (num : Bytes) (suf : ℕ) → parse_duration (c ∷ num ++ suf ∷ []) ≡ convert (c ∷ num, suf)
unfolding parse_duration
parse_duration-append c [] suf = refl
parse_duration-append c (d ∷ num) suf = ap convert (append-unsnoc c (d ∷ num) suf)

convert_complete :
    (num : Bytes) (suf n m : ℕ)
    → parse_int num ≡ some (pos n)
    → suffix_map suf ≡ some m
    → n * m ≤ max_i64
    → convert (num, suf) ≡ ok (n * m)
unfolding convert
convert_complete num suf n m counted measured fits =
    ap₂ measure counted measured ∙ scale_fits n suf measured fits

-- Every such text is accepted: the range test refuses nothing that fits.
pub parse_duration_complete :
    (num : Bytes) (suf n m : ℕ)
    → parse_int num ≡ some (pos n)
    → suffix_map suf ≡ some m
    → n * m ≤ max_i64
    → parse_duration (num ++ suf ∷ []) ≡ ok (n * m)
unfolding parse_int
parse_duration_complete [] suf n m counted measured fits = cc
parse_duration_complete (c ∷ num) suf n m counted measured fits =
    parse_duration-append c num suf ∙ convert_complete (c ∷ num) suf n m counted measured fits

-- ParseDuration accepts exactly the numbers that are not negative, followed by a known unit, whose
-- product is in the range of int64, and returns this product: nothing wraps around.
pub parse_duration_exact :
    (s : Bytes) (d : ℕ)
    → (parse_duration s ≡ ok d)
      ↔ ((num : Bytes) × (suf : ℕ) × (s ≡ num ++ suf ∷ []) × IsValueOf num suf d)
parse_duration_exact s d = (
  parse_duration_sound s,
  λ (num, suf, e, v).
      ap parse_duration e
      ∙ parse_duration_complete num suf v.count v.unit v.counted v.measured
          (rw (sym v.exact) v.fits)
      ∙ ap ok (sym v.exact),
)
