-- ===== src/Group.antt =====
-- internal/zfs/group.go: goroutines that end in any order, with the first error kept.
use zfsbackup.Base.{
  ℕ, suc, ◌-◌, ◌≤◌, ◌≡◌, ◌==◌, refl, ap, ◌∙◌, Bool, true, false, Option, none, some, List, [], ◌∷◌,
  arith, if◌then◌else◌, Error, Result, ok, err, Bool-cases, inl, inr,
}

-- `Group`: the counter of the wait group, whether `once` is used up, the error, and whether the
-- derived context is cancelled.
pub record Group : Type 0 where
  pub running : ℕ
  pub once : Bool
  pub error : Option Error
  pub cancelled : Bool

-- `NewGroup`
abbrev pub new_group : Group
new_group = record { running = 0; once = false; error = none; cancelled = false }

-- `Go`, up to the start of the goroutine.
unfoldable pub go : Group → Group
go g = record g { running = suc g.running }

-- The function given to `once.Do`.
unfoldable pub keep_error : Error → Group → Group
keep_error e g = if g.once then g else record g { once = true; error = some e; cancelled = true }

-- The end of a goroutine, with what its function returned.
unfoldable pub finish : Result (Unit {0}) → Group → Group
unfolding keep_error
finish (ok u) g = record g { running = g.running - 1 }
finish (err e) g = let h = keep_error e g in record h { running = h.running - 1 }

-- `Wait`: it blocks, as `none`, while a goroutine runs.
unfoldable pub wait : Group → Option (Group × Option Error)
wait g = if g.running == 0 then some (record g { cancelled = true }, g.error) else none

-- Some goroutines start and end, in any order, and end with these results in this order.
pub data Steps : Group → List (Result (Unit {0})) → Group → Type 0 where
  stay : {g : Group} → Steps g [] g
  start : {g h : Group} {rs : List (Result (Unit {0}))} → Steps (go g) rs h → Steps g rs h
  stop :
      {g h : Group} {rs : List (Result (Unit {0}))} (r : Result (Unit {0}))
      → 1 ≤ g.running
      → Steps (finish r g) rs h
      → Steps g (r ∷ rs) h

-- The error of the first result that is one.
pub first_error : List (Result (Unit {0})) → Option Error
first_error [] = none
first_error (ok u ∷ rs) = first_error rs
first_error (err e ∷ rs) = some e

pub is_some : Option Error → Bool
is_some none = false
is_some (some e) = true

-- The error and the context before the results, if an error came before them.
behind : Group → List (Result (Unit {0})) → Option Error
behind g rs = if g.once then g.error else first_error rs

-- `once` is used up exactly where there is an error, and the context is cancelled with it.
record IsConsistent (g : Group) : Type 0 where
  used : g.once ≡ is_some g.error
  stopped : g.cancelled ≡ is_some g.error

go-IsConsistent : (g : Group) → IsConsistent g → IsConsistent (go g)
unfolding go
go-IsConsistent g c = record { used = c.used; stopped = c.stopped }

finish-IsConsistent :
    (r : Result (Unit {0})) (g : Group) → IsConsistent g → IsConsistent (finish r g)
unfolding finish keep_error is_some
finish-IsConsistent (ok u) g c = record { used = c.used; stopped = c.stopped }
finish-IsConsistent (err e) g c = elim (Bool-cases g.once) [
  | inl h ↦ record { used = ground (arith, c.used); stopped = ground (arith, c.stopped) }
  | inr h ↦ record { used = ground (arith, h); stopped = ground (arith, h) }
]

finish_first :
    (r : Result (Unit {0})) (g : Group) (rs : List (Result (Unit {0})))
    → behind (finish r g) rs ≡ behind g (r ∷ rs)
unfolding finish keep_error behind first_error
finish_first (ok u) g rs = refl
finish_first (err e) g rs = elim (Bool-cases g.once) [
  | inl h ↦ ground (arith, h)
  | inr h ↦ ground (arith, h)
]

behind_nil : (g : Group) → IsConsistent g → g.error ≡ behind g []
unfolding behind first_error is_some
behind_nil g c = ground (arith, c.used)

behind_new : (rs : List (Result (Unit {0}))) → behind new_group rs ≡ first_error rs
unfolding behind
behind_new rs = refl

new_group-IsConsistent : IsConsistent new_group
unfolding is_some
new_group-IsConsistent = record { used = refl; stopped = refl }

run_first :
    {g h : Group} {rs : List (Result (Unit {0}))}
    → Steps g rs h
    → IsConsistent g
    → (h.error ≡ behind g rs) × IsConsistent h
unfolding go behind
run_first {g} stay c = (behind_nil g c, c)
run_first {g} (start s) c = run_first s (go-IsConsistent g c)
run_first {g} (stop {rs = rs} r e s) c =
    let (first, d) = run_first s (finish-IsConsistent r g c) in (first ∙ finish_first r g rs, d)

cancelled_of :
    (h : Group) (rs : List (Result (Unit {0})))
    → h.error ≡ first_error rs
    → IsConsistent h
    → h.cancelled ≡ is_some (first_error rs)
cancelled_of h rs e c = c.stopped ∙ ap is_some e

wait_error :
    (h : Group) {e : Option Error}
    → h.error ≡ e
    → wait h ≡ (if h.running == 0 then some (record h { cancelled = true }, e) else none)
unfolding wait
wait_error h f =
    ap (λ e. if h.running == 0 then some (record h { cancelled = true }, e) else none) f

-- In whichever order goroutines start and end in a new group, the context is cancelled exactly
-- where some have ended with an error, and once none runs `Wait` returns the first of these errors,
-- in the order in which they ended, with the context cancelled.
pub group_first_error :
    {rs : List (Result (Unit {0}))} {h : Group}
    → Steps new_group rs h
    → (h.cancelled ≡ is_some (first_error rs))
      × (wait h
          ≡ (if h.running == 0 then some (record h { cancelled = true }, first_error rs) else none))
group_first_error {rs = rs} {h} s =
    let (e, c) = run_first s new_group-IsConsistent in
    let e' = e ∙ behind_new rs in (cancelled_of h rs e' c, wait_error h e')
