-- ===== src/Deleter/Policy.antt =====
-- `newPolicy`: a configuration with its durations parsed once.
use mathlib.Core.Path.{ap₂}
use zfsbackup.Base.{
  ℕ, zero, suc, ◌*◌, ◌/◌, ◌≤◌, ◌≡◌, ◌≢◌, refl, ◌∙◌, ◌||◌, List, [], ◌∷◌, map, arith, Bytes, ℤ, pos,
  ◌≤ℤ◌, ltb_ℤ, leb_ℤ, max_i64, ◌==◌, if◌then◌else◌, is_empty, All, Result, ok, err, ◌>>=◌, >>=-ok,
  ok-injective, Bool-cases, inl, inr, negative_top_n, rule_not_positive,
}
use zfsbackup.Config.{RetentionRule, DeleterConfig}
use zfsbackup.Duration.{second, parse_duration}
use zfsbackup.Duration.Exact.{suffix_map_bounds, parse_duration_sound}

-- `rule`: the rule as configured, and its interval in nanoseconds.
pub record Rule : Type 0 where
  pub rule : RetentionRule
  pub interval : ℕ

-- `policy`
pub record Policy : Type 0 where
  pub top_n : ℤ
  pub newer_than : ℕ
  pub rules : List Rule

unfoldable pub check_rule : RetentionRule → ℕ → Result Rule
check_rule r interval =
    if interval == 0 || leb_ℤ r.count (pos 0)
    then err rule_not_positive
    else ok (record { rule = r; interval = interval })

-- The loop over `dc.Rules`.
unfoldable pub new_rules : List RetentionRule → Result (List Rule)
unfolding check_rule
new_rules [] = ok []
new_rules (r ∷ rs) = do
  interval ← parse_duration r.interval
  rule ← check_rule r interval
  rules ← new_rules rs
  ok (rule ∷ rules)

unfoldable pub newer_than : Bytes → Result ℕ
newer_than s = if is_empty s then ok 0 else parse_duration s

unfoldable pub new_policy : DeleterConfig → Result Policy
unfolding new_rules newer_than
new_policy dc = if ltb_ℤ dc.preserve_top_n (pos 0) then err negative_top_n else do
  newer ← newer_than dc.preserve_newer_than
  rules ← new_rules dc.rules
  ok (record { top_n = dc.preserve_top_n; newer_than = newer; rules = rules })

-- A rule that the walk can use: a positive count of buckets, each a second wide at least.
pub record IsUsable (r : Rule) : Type 0 where
  pub counts : pos 1 ≤ℤ r.rule.count
  pub wide : 1 ≤ r.interval / second
  pub fits : r.interval ≤ max_i64

pub record IsValid (p : Policy) : Type 0 where
  pub top : pos 0 ≤ℤ p.top_n
  pub window : p.newer_than ≤ max_i64
  pub usable : All IsUsable p.rules

product_ge : (n m : ℕ) → n * m ≢ 0 → m ≤ n * m
product_ge zero m h = absurd (h (omega arith))
product_ge (suc n) m h = omega arith

-- A duration that is not zero is a second at least: every unit is a whole number of seconds.
parse_duration_whole : (s : Bytes) {d : ℕ} → parse_duration s ≡ ok d → d ≢ 0 → second ≤ d
parse_duration_whole s {d} h k =
    let (num, suf, spelt, v) = parse_duration_sound s h in
    let bounds = suffix_map_bounds suf v.measured in
    omega (arith, v.exact, bounds, product_ge v.count v.unit (λ e. k (v.exact ∙ e)))

parse_duration_fits : (s : Bytes) {d : ℕ} → parse_duration s ≡ ok d → d ≤ max_i64
parse_duration_fits s h = let (num, suf, spelt, v) = parse_duration_sound s h in v.fits

check_rule_sound :
    (r : RetentionRule) (d : ℕ) {q : Rule}
    → check_rule r d ≡ ok q
    → (d ≢ 0) × (pos 1 ≤ℤ r.count) × (q ≡ record { rule = r; interval = d })
unfolding check_rule
check_rule_sound r d h = ground arith

pub check_rule-IsUsable :
    (r : RetentionRule) {d : ℕ} {q : Rule}
    → parse_duration r.interval ≡ ok d
    → check_rule r d ≡ ok q
    → IsUsable q × (q.rule ≡ r)
check_rule-IsUsable r {d} {q} parsed checked =
    let (nonzero, positive, e) = check_rule_sound r d checked in
    let wide = parse_duration_whole r.interval parsed nonzero in
    let fits = parse_duration_fits r.interval parsed in
    rw e (record { counts = positive; wide = omega arith; fits = fits }, refl)

new_rules_sound :
    (rs : List RetentionRule) {qs : List Rule}
    → new_rules rs ≡ ok qs
    → All IsUsable qs × (map (λ (q : Rule). q.rule) qs ≡ rs)
unfolding new_rules
new_rules_sound [] h = rw (← ok-injective h) (tt, refl)
new_rules_sound (r ∷ rs) h =
    let (d, parsed, h₁) = >>=-ok (parse_duration r.interval) _ h in
    let (q, checked, h₂) = >>=-ok (check_rule r d) _ h₁ in
    let (qs, others, h₃) = >>=-ok (new_rules rs) _ h₂ in
    let (usable, same) = check_rule-IsUsable r parsed checked in
    let (all_usable, all_same) = new_rules_sound rs others in
    rw (← ok-injective h₃) ((usable, all_usable), ap₂ (λ a b. a ∷ b) same all_same)

newer_than_fits : (s : Bytes) {d : ℕ} → newer_than s ≡ ok d → d ≤ max_i64
unfolding newer_than
newer_than_fits [] h = ground arith
newer_than_fits (c ∷ s) h = parse_duration_fits (c ∷ s) h

-- An accepted configuration gives a policy whose durations are in the range of int64, whose rules
-- are the configured ones in order, and whose intervals are a second at least, so that no bucket
-- index divides by zero.
pub new_policy-IsValid :
    (dc : DeleterConfig) {p : Policy}
    → new_policy dc ≡ ok p
    → IsValid p × (p.top_n ≡ dc.preserve_top_n) × (map (λ (q : Rule). q.rule) p.rules ≡ dc.rules)
unfolding new_policy
new_policy-IsValid dc h = elim (Bool-cases (ltb_ℤ dc.preserve_top_n (pos 0))) [
  | inl negative ↦ cc (rw negative at h)
  | inr positive ↦
      let h₀ = rw positive at h in
      let (w, windowed, h₁) = >>=-ok (newer_than dc.preserve_newer_than) _ h₀ in
      let (qs, ruled, h₂) = >>=-ok (new_rules dc.rules) _ h₁ in
      let (usable, same) = new_rules_sound dc.rules ruled in
      rw (← ok-injective h₂) (
        record { top = ground arith; window = newer_than_fits _ windowed; usable = usable },
        refl,
        same,
      )
]
