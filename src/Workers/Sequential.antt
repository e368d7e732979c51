-- ===== src/Workers/Sequential.antt =====
-- With room for one goroutine, the file systems are processed one at a time and in their order.
use mathlib.Core.Path.{subst, ap₂}
use zfsbackup.Base.{
  ℕ, ◌≤◌, ◌≡◌, refl, sym, ◌∙◌, ap, List, [], ◌∷◌, ◌++◌, Bytes, Error, arith, ◌⊎◌, inl, inr,
  append-nil, append_assoc,
}
use zfsbackup.Exec.{run_each_congr, run_each}
use zfsbackup.Workers.{
  Returns, launched, Job, alone, Divided, Worker, working, locking, reading, writing, unlocking,
  releasing, signalling, gone, Shared, Event, Turn, turn_command, turn_succeed, turn_fail,
  turn_lock, turn_read, turn_write, turn_unlock, turn_release, turn_done, Turns, here, there,
  System, Step, acquire, spawn, turn, Runs, stop, next, IsOver, started,
}
use zfsbackup.Workers.Invariant.{holding, total, main_holding, IsSound}
use zfsbackup.Workers.Sound.{Step-IsSound, Runs-IsSound, started-IsSound}
use zfsbackup.Workers.Progress.{holding-le-alive}
use zfsbackup.Workers.Collected.{over-gone, pending}

module _ {S : Type 0} where
  -- What is left to do, in sequence, to `errs` and the machine: by one goroutine, by those that have
  -- been started, and by the loop.
  complete : Worker S → List Error × S → List Error × S
  unfolding alone
  complete (working fs j) (es, m) = let (fs', m') = alone j m in (es ++ fs', m')
  complete (locking e) (es, m) = (es ++ e, m)
  complete (reading e) (es, m) = (es ++ e, m)
  complete (writing e old) (es, m) = (old ++ e, m)
  complete _ x = x

  complete_all : List (Worker S) → List Error × S → List Error × S
  complete_all [] x = x
  complete_all (w ∷ ws) x = complete_all ws (complete w x)

  abbrev of_shared : Shared S → List Error × S
  of_shared h = (h.errs, h.machine)

  Turn-complete :
      {h h' : Shared S} {w w' : Worker S} {ev : List Event}
      → Turn h w ev h' w'
      → complete w' (of_shared h') ≡ complete w (of_shared h)
  unfolding complete alone
  Turn-complete turn_command = refl
  Turn-complete {h} turn_succeed = ap (λ l. (l, h.machine)) (sym (append-nil h.errs))
  Turn-complete turn_fail = refl
  Turn-complete (turn_lock e) = refl
  Turn-complete turn_read = refl
  Turn-complete turn_write = refl
  Turn-complete (turn_unlock e) = refl
  Turn-complete (turn_release e) = refl
  Turn-complete (turn_done e) = refl

  -- A goroutine that holds no value of `sem` has nothing left to do to them.
  idle-complete : (w : Worker S) (x : List Error × S) → holding w ≡ 0 → complete w x ≡ x
  unfolding complete holding
  idle-complete signalling x e = refl
  idle-complete gone x e = refl
  idle-complete unlocking x e = absurd (omega (arith, e))
  idle-complete releasing x e = absurd (omega (arith, e))
  idle-complete (working fs j) x e = absurd (omega (arith, e))
  idle-complete (locking es) x e = absurd (omega (arith, e))
  idle-complete (reading es) x e = absurd (omega (arith, e))
  idle-complete (writing es old) x e = absurd (omega (arith, e))

  idle-complete_all :
      (ws : List (Worker S)) (x : List Error × S) → total holding ws ≡ 0 → complete_all ws x ≡ x
  unfolding complete_all total
  idle-complete_all [] x e = refl
  idle-complete_all (w ∷ ws) x e =
      ap (complete_all ws) (idle-complete w x (omega (arith, e)))
      ∙ idle-complete_all ws x (omega (arith, e))

  -- A step of a goroutine that holds none changes neither.
  Turn-holds :
      {h h' : Shared S} {w w' : Worker S} {ev : List Event}
      → Turn h w ev h' w'
      → (holding w ≡ 1)
        ⊎ ((of_shared h' ≡ of_shared h) × ((x : List Error × S) → complete w' x ≡ complete w x))
  unfolding holding complete
  Turn-holds turn_command = inl refl
  Turn-holds turn_succeed = inl refl
  Turn-holds turn_fail = inl refl
  Turn-holds (turn_lock e) = inl refl
  Turn-holds turn_read = inl refl
  Turn-holds turn_write = inl refl
  Turn-holds (turn_unlock e) = inl refl
  Turn-holds (turn_release e) = inl refl
  Turn-holds (turn_done e) = inr (refl, λ x. refl)

  Turns-holds :
      {h h' : Shared S} {ws ws' : List (Worker S)} {ev : List Event}
      → Turns h ws ev h' ws'
      → (1 ≤ total holding ws)
        ⊎ ((of_shared h' ≡ of_shared h)
            × ((x : List Error × S) → complete_all ws' x ≡ complete_all ws x))
  unfolding total complete_all
  Turns-holds (here {ws = ws} t) = elim (Turn-holds t) [
    | inl e ↦ inl (omega (arith, e))
    | inr p ↦ inr (p.0, λ x. ap (complete_all ws) (p.1 x))
  ]
  Turns-holds (there {w = w} ts) = elim (Turns-holds ts) [
    | inl e ↦ inl (omega (arith, e))
    | inr p ↦ inr (p.0, λ x. p.1 (complete w x))
  ]

  Turns-complete :
      {h h' : Shared S} {ws ws' : List (Worker S)} {ev : List Event}
      → Turns h ws ev h' ws'
      → total holding ws ≤ 1
      → complete_all ws' (of_shared h') ≡ complete_all ws (of_shared h)
  unfolding total complete_all
  Turns-complete (here {ws = ws} t) few = ap (complete_all ws) (Turn-complete t)
  Turns-complete {h} {h'} (there {w = w} {ws = ws} {ws' = ws'} ts) few = elim (Turns-holds ts) [
    | inl e ↦
        let idle = idle-complete w in
        ap (complete_all ws') (idle (of_shared h') (omega (arith, e, few)))
        ∙ Turns-complete ts (omega (arith, few))
        ∙ ap (complete_all ws) (sym (idle (of_shared h) (omega (arith, e, few))))
    | inr p ↦ p.1 (complete w (of_shared h')) ∙ ap (λ x. complete_all ws (complete w x)) p.0
  ]

module _ {S : Type 0} (job : Bytes → Job S) where
  -- The loop over the rest of the list, one file system at a time.
  complete_loop : List Bytes → List Error × S → List Error × S
  unfolding run_each alone
  complete_loop rest (es, m) =
      let (fs, m') = run_each (λ fs. alone (job fs)) rest m in (es ++ fs, m')

  expected : System S → List Error × S
  unfolding complete_loop complete_all
  expected s = complete_loop (pending s.loop) (complete_all s.workers (of_shared s.shared))

  complete_loop-cons :
      (fs : Bytes) (rest : List Bytes) (x : List Error × S)
      → complete_loop rest (complete (working fs (job fs)) x) ≡ complete_loop (fs ∷ rest) x
  unfolding complete_loop complete run_each
  complete_loop-cons fs rest (es, m) =
      ap (λ l. (l, (run_each (λ fs. alone (job fs)) (fs ∷ rest) m).1)) (append_assoc es _ _)

  Step-expected :
      {s t : System S} {ev : List Event} → Step job 1 s ev t → IsSound 1 s → expected t ≡ expected s
  unfolding expected pending main_holding
  Step-expected (acquire fs rest e lt) i = rw e refl
  Step-expected {s} (spawn fs rest e) i =
      let none_holding : total holding s.workers ≡ 0 =
        omega (arith, i.tokens, i.fits, ap main_holding e) in
      let x = of_shared s.shared in
      ap (complete_loop rest)
        (idle-complete_all s.workers (complete (working fs (job fs)) x) none_holding)
      ∙ complete_loop-cons fs rest x
      ∙ sym (ap (complete_loop (fs ∷ rest)) (idle-complete_all s.workers x none_holding))
      ∙ ap (λ l. complete_loop (pending l) (complete_all s.workers x)) (sym e)
  Step-expected {s} (turn ts) i =
      ap (complete_loop (pending s.loop)) (Turns-complete ts (omega (arith, i.tokens, i.fits)))

  Runs-expected :
      {s t : System S} {evs : List Event}
      → Runs job 1 s evs t
      → IsSound 1 s
      → expected t ≡ expected s
  Runs-expected stop i = refl
  Runs-expected (next st r) i = Runs-expected r (Step-IsSound st i) ∙ Step-expected st i

  over-expected : (t : System S) → IsSound 1 t → IsOver t → expected t ≡ of_shared t.shared
  unfolding expected complete_loop pending run_each
  over-expected t i o =
      let x = of_shared t.shared in
      let none_holding : total holding t.workers ≡ 0 =
        omega (arith, over-gone t i o, holding-le-alive t.workers) in
      ap (λ l. complete_loop (pending l) (complete_all t.workers x)) o.0
      ∙ ap (complete_loop []) (idle-complete_all t.workers x none_holding)
      ∙ ap (λ l. (l, t.shared.machine)) (append-nil t.shared.errs)

  -- With room for one, `Run` does what a loop does that processes one file system after the other:
  -- to the machine and to the errors, in their order.
  pub runs-sequential :
      (fss : List Bytes) (es : List Error) (m : S) {evs : List Event} {t : System S}
      → Runs job 1 (started fss es m) evs t
      → IsOver t
      → let (fs, m') = run_each (λ fs. alone (job fs)) fss m in
        ◌≡◌ {A = List Error × S} (t.shared.errs, t.shared.machine) (es ++ fs, m')
  unfolding started expected complete_loop pending complete_all
  runs-sequential fss es m {t = t} r o =
      let i = started-IsSound 1 fss es m in
      sym (over-expected t (Runs-IsSound r i) o) ∙ Runs-expected r i

-- The same of what `Run` returns, where the jobs are those of a function in steps.
pub Returns-sequential :
    {S : Type 0} {f : Bytes → S → List Error × S} (divided : Divided f) (room : ℕ)
    (fss : List Bytes) (es : List Error) (m : S) {es' : List Error} {m' : S}
    → room ≡ 1
    → Returns (launched room divided.job (started fss es m)) es' m'
    → ◌≡◌ {A = List Error × S} (es ++ (run_each f fss m).0, (run_each f fss m).1) (es', m')
Returns-sequential {f = f} divided room fss es m e (evs, t, r, o, p, q) =
    let job = divided.job in
    let in_turn =
      run_each_congr f (λ fs. alone (job fs)) (λ fs s. sym (divided.whole fs s)) fss m in
    ap (λ x. (es ++ x.0, x.1)) in_turn
    ∙ sym (runs-sequential job fss es m (subst (λ n. Runs job n (started fss es m) evs t) e r) o)
    ∙ ap₂ (λ a b. (a, b)) p q
