-- ===== src/Workers/Sound.antt =====
-- Every step of the loop and of the goroutines keeps the invariant.
use zfsbackup.Base.{
  ℕ, ◌+◌, ◌≤◌, ◌<◌, ◌≡◌, refl, ap, Bool, true, false, List, ◌∷◌, Bytes, Error, arith,
}
use zfsbackup.Workers.{
  Job, Worker, working, Shared, Event, Turns, looping, acquired, System, Step, acquire, spawn, turn,
  Runs, stop, next, started,
}
use zfsbackup.Workers.Invariant.{
  holding, alive, inside, total, main_holding, held, IsFresh, AllFresh, IsSound,
}
use zfsbackup.Workers.Turned.{
  Turn-holding, Turn-alive, Turn-inside, Turns-total, Turns-AllFresh, Turns-sem,
}

held-le : (b : Bool) → held b ≤ 1
unfolding held
held-le true = omega arith
held-le false = omega arith

module _ {S : Type 0} where
  IsSound-acquire :
      (room : ℕ) (s : System S) (fs : Bytes) (rest : List Bytes)
      → s.loop ≡ looping (fs ∷ rest)
      → s.shared.sem < room
      → IsSound room s
      → IsSound room (record s {
        loop = acquired fs rest;
        shared = record s.shared { sem = s.shared.sem + 1 };
      })
  unfolding main_holding
  IsSound-acquire room s fs rest e lt i = record {
    tokens = omega (arith, i.tokens, ap main_holding e);
    fits = omega (arith, lt);
    counted = i.counted;
    mutex = i.mutex;
    fresh = i.fresh;
  }

  IsSound-spawn :
      (room : ℕ) (s : System S) (fs : Bytes) (rest : List Bytes) (j : Job S)
      → s.loop ≡ acquired fs rest
      → IsSound room s
      → IsSound room (record s {
        loop = looping rest;
        shared = record s.shared { wg = s.shared.wg + 1 };
        workers = working fs j ∷ s.workers;
      })
  unfolding main_holding total holding alive inside AllFresh IsFresh
  IsSound-spawn room s fs rest j e i = record {
    tokens = omega (arith, i.tokens, ap main_holding e);
    fits = i.fits;
    counted = omega (arith, i.counted);
    mutex = omega (arith, i.mutex);
    fresh = (tt, i.fresh);
  }

  IsSound-turn :
      (room : ℕ) (s : System S) {ev : List Event} {h' : Shared S} {ws' : List (Worker S)}
      → Turns s.shared s.workers ev h' ws'
      → IsSound room s
      → IsSound room (record s { shared = h'; workers = ws' })
  IsSound-turn room s ts i =
      let sem = Turns-total (λ h. h.sem) holding (λ _ _ _ _ _ t. Turn-holding t) ts in
      let wg = Turns-total (λ h. h.wg) alive (λ _ _ _ _ _ t. Turn-alive t) ts in
      let mu = Turns-total (λ h. held h.locked) inside (λ _ _ _ _ _ t. Turn-inside t) ts in
      record {
        tokens = omega (arith, i.tokens, sem);
        fits = omega (arith, i.fits, Turns-sem ts);
        counted = omega (arith, i.counted, wg);
        mutex = omega (arith, i.mutex, mu);
        fresh = Turns-AllFresh ts (omega (arith, i.mutex, held-le s.shared.locked)) i.fresh;
      }

module _ {S : Type 0} {job : Bytes → Job S} {room : ℕ} where
  pub Step-IsSound :
      {s t : System S} {ev : List Event} → Step job room s ev t → IsSound room s → IsSound room t
  Step-IsSound {s} (acquire fs rest e lt) i = IsSound-acquire room s fs rest e lt i
  Step-IsSound {s} (spawn fs rest e) i = IsSound-spawn room s fs rest (job fs) e i
  Step-IsSound {s} (turn ts) i = IsSound-turn room s ts i

  pub Runs-IsSound :
      {s t : System S} {evs : List Event} → Runs job room s evs t → IsSound room s → IsSound room t
  Runs-IsSound stop i = i
  Runs-IsSound (next st r) i = Runs-IsSound r (Step-IsSound st i)

pub started-IsSound :
    {S : Type 0} (room : ℕ) (fss : List Bytes) (es : List Error) (s : S)
    → IsSound room (started fss es s)
unfolding started main_holding total held AllFresh
started-IsSound room fss es s = record {
  tokens = refl;
  fits = omega arith;
  counted = refl;
  mutex = refl;
  fresh = tt;
}

-- Whatever the order of the steps, at most as many goroutines as the semaphore has room for are
-- between their start and the deferred receive from it, and at most one of them holds the mutex.
pub runs_bounded :
    {S : Type 0} (job : Bytes → Job S) (room : ℕ) (fss : List Bytes) (es : List Error) (m : S)
    {evs : List Event} {t : System S}
    → Runs job room (started fss es m) evs t
    → (total holding t.workers ≤ room) × (total inside t.workers ≤ 1)
runs_bounded job room fss es m {t = t} r =
    let i = Runs-IsSound r (started-IsSound room fss es m) in
    (omega (arith, i.tokens, i.fits), omega (arith, i.mutex, held-le t.shared.locked))
