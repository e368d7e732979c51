-- ===== src/Tests/Deleter.antt =====
-- A timeline of four snapshots under a policy, and a run of deletions.
use mathlib.Core.List.{Perm}
use zfsbackup.Deleter.Snaps.{validate}
use zfsbackup.Deleter.Listing.{IsTaken, Described, matching}
use zfsbackup.Deleter.Timeline.{IsTxgOrdered, validate_exact, validate-IsTimeline}
use zfsbackup.Base.{
  Bool, not, text_eq, parse_int, ℕ, ◌≡◌, ◌*◌, refl, List, [], ◌∷◌, Bytes, codes, ok, err, true,
  false, arith, pos, flat, All, any, if◌then◌else◌, retention_hole, some, map,
}
use zfsbackup.Config.{RetentionRule, DeleterConfig}
use zfsbackup.Duration.{second, suffix_map, parse_duration}
use zfsbackup.Deleter.Policy.{Policy, Rule, IsValid, new_policy, new_policy-IsValid}
use zfsbackup.Deleter.Mark.{Snapshot, newest, mark_for_preservation}
use zfsbackup.Deleter.Keep.{blocks, obsolete}
use zfsbackup.Deleter.Retention.{IsTimeline, mark_for_preservation-obsolete}
use zfsbackup.Deleter.Batches.{delete_many_snaps, destroy_all, IsBatch, delete_many_snaps_plan}
use zfsbackup.Exec.{Host}

abbrev hourly : RetentionRule
hourly = record { interval = codes "1h"; count = pos 2; allow_holes = false }

abbrev config : DeleterConfig
config = record {
  include = [];
  exclude = [];
  regex = codes ".*" ∷ [];
  preserve_top_n = pos 1;
  preserve_newer_than = codes "5m";
  rules = hourly ∷ [];
}

abbrev policy : Policy
policy = record {
  top_n = pos 1;
  newer_than = 300 * second;
  rules = record { rule = hourly; interval = 3600 * second } ∷ [];
}

new_policy_runs : new_policy config ≡ ok policy
unfolding new_policy parse_duration parse_int suffix_map
new_policy_runs = refl

new_policy-IsValid_example :
    IsValid policy
    × (policy.top_n ≡ config.preserve_top_n)
    × (map (λ (q : Rule). q.rule) policy.rules ≡ config.rules)
new_policy-IsValid_example = new_policy-IsValid config new_policy_runs

abbrev snap : Bytes → ℕ → Snapshot
snap name time = record { name = name; timestamp = pos time; create_txg = time; preserve = false }

abbrev oldest : Snapshot
oldest = snap (codes "a") 1000

abbrev others : List Snapshot
others = snap (codes "b") 6000 ∷ snap (codes "c") 9000 ∷ snap (codes "d") 10000 ∷ []

timeline : IsTimeline (oldest ∷ others)
timeline = record { in_range = omega arith; sorted = omega arith; fresh = ground arith }

-- `c` is neither young nor the newest of the first hour, and `a` lies behind the second hour.
retention_runs : mark_for_preservation policy (oldest ∷ others) ≡ ok (codes "a" ∷ codes "c" ∷ [])
unfolding mark_for_preservation
retention_runs = refl

mark_for_preservation-obsolete_example : mark_for_preservation policy (oldest ∷ others) ≡ (
    if any (blocks (newest oldest others) (oldest ∷ others)) policy.rules
    then err retention_hole
    else ok (obsolete policy (newest oldest others) (oldest ∷ others)))
mark_for_preservation-obsolete_example =
    mark_for_preservation-obsolete policy new_policy-IsValid_example.0 oldest others timeline

-- A machine on which every command succeeds, and which lists the arguments, last first.
abbrev recorder : Host
recorder = record { State = List (List Bytes); output = λ name args log. (some [], args ∷ log) }

delete_many_snaps_plan_example :
    (bs : List (List Bytes)) × (delete_many_snaps recorder 2
        (codes "tank")
        true
        (codes "a" ∷ codes "c" ∷ [])
      ≡ destroy_all recorder (codes "tank") true bs)
    × (flat bs ≡ codes "a" ∷ codes "c" ∷ [])
    × All (IsBatch (codes "tank")) bs
delete_many_snaps_plan_example =
    delete_many_snaps_plan recorder 2 (codes "tank") true (codes "a" ∷ codes "c" ∷ []) (omega arith)

abbrev rows : List (List Bytes)
rows =
    (codes "t@b" ∷ codes "9" ∷ codes "200" ∷ [])
    ∷ (codes "t@x" ∷ codes "8" ∷ codes "150" ∷ [])
    ∷ (codes "t@a" ∷ codes "7" ∷ codes "100" ∷ [])
    ∷ []

abbrev taken : Bytes → ℕ → ℕ → Snapshot
taken name txg time = record {
  name = name;
  timestamp = pos time;
  create_txg = txg;
  preserve = false;
}

abbrev not_x : Bytes → Bool
not_x name = not (text_eq name (codes "x"))

abbrev validated : List Snapshot
validated = taken (codes "a") 7 100 ∷ taken (codes "b") 9 200 ∷ []

validate_runs : validate not_x (codes "t") rows ≡ ok validated
unfolding validate text_eq
validate_runs = refl

validate_exact_example :
    ((all : List Snapshot) × Described (codes "t") rows all × Perm validated (matching not_x all))
    × IsTxgOrdered validated
validate_exact_example = validate_exact not_x (codes "t") rows validate_runs

validate-IsTimeline_example : IsTimeline validated × All (IsTaken not_x) validated
validate-IsTimeline_example = validate-IsTimeline not_x (codes "t") rows validate_runs (omega arith)
