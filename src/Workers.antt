-- ===== src/Workers.antt =====
-- The goroutines of `Run` in internal/sender/sender.go and internal/deleter/deleter.go, one for each
-- file system: the semaphore `sem`, the wait group `wg` and the mutex `mu` for the errors.
pub mod Invariant
pub mod Turned
pub mod Sound
pub mod Collected
pub mod Halting
pub mod Progress
pub mod Ending
pub mod Sequential
use zfsbackup.Base.{
  refl, ℤ, pos, negsuc, ℕ, ◌+◌, ◌-◌, ◌≤◌, ◌<◌, ◌≡◌, Bool, true, false, Option, none, some, List, [],
  ◌∷◌, ◌++◌, Bytes, Error,
}

-- What one goroutine does to the machine, in steps that none can divide, up to the errors that it
-- returns: between two steps of it other goroutines may change the machine.
pub data Job (S : Type 0) : Type 0 where
  returned : List Error → Job S
  act : (S → S) → (S → Job S) → Job S

-- A job that runs with no other beside it.
unfoldable pub alone : {S : Type 0} → Job S → S → List Error × S
alone (returned es) s = (es, s)
alone (act f k) s = alone (k s) (f s)

-- A function of the state in steps: how it is divided is left open.
pub record Divided {A S : Type 0} (f : A → S → List Error × S) : Type 0 where
  pub job : A → Job S
  pub whole : (a : A) (s : S) → alone (job a) s ≡ f a s

-- Where a goroutine stands in the function that `wg.Go` is given, with what is live there. The
-- assignment to `errs` reads the slice before it writes it.
pub data Worker (S : Type 0) : Type 0 where
  working : Bytes → Job S → Worker S
  locking : List Error → Worker S  -- before `mu.Lock`
  reading : List Error → Worker S  -- before `append`
  writing : List Error → List Error → Worker S  -- behind it, with the slice that it read
  unlocking : Worker S  -- before `mu.Unlock`
  releasing : Worker S  -- before the deferred `<-sem`
  signalling : Worker S  -- before the `wg.Done` of `wg.Go`
  gone : Worker S

-- What the goroutines share: the machine, `errs`, whether `mu` is locked, how many values `sem`
-- holds and the counter of `wg`.
pub record Shared (S : Type 0) : Type 0 where
  pub machine : S
  pub errs : List Error
  pub locked : Bool
  pub sem : ℕ
  pub wg : ℕ

-- A file system is done, with these errors.
abbrev pub Event : Type 0
Event = Bytes × List Error

-- One step of one goroutine. `mu.Lock` waits while the mutex is locked.
pub data Turn {S : Type 0} (h : Shared S)
    : Worker S → List Event → Shared S → Worker S → Type 0 where
  turn_command :
      {fs : Bytes} {f : S → S} {k : S → Job S}
      → Turn h
          (working fs (act f k))
          []
          (record h { machine = f h.machine })
          (working fs (k h.machine))
  turn_succeed : {fs : Bytes} → Turn h (working fs (returned [])) ((fs, []) ∷ []) h releasing
  turn_fail :
      {fs : Bytes} {e : Error} {es : List Error}
      → Turn h (working fs (returned (e ∷ es))) ((fs, e ∷ es) ∷ []) h (locking (e ∷ es))
  turn_lock :
      {es : List Error}
      → h.locked ≡ false
      → Turn h (locking es) [] (record h { locked = true }) (reading es)
  turn_read : {es : List Error} → Turn h (reading es) [] h (writing es h.errs)
  turn_write :
      {es old : List Error} → Turn h (writing es old) [] (record h { errs = old ++ es }) unlocking
  turn_unlock : h.locked ≡ true → Turn h unlocking [] (record h { locked = false }) releasing
  turn_release : 1 ≤ h.sem → Turn h releasing [] (record h { sem = h.sem - 1 }) signalling
  turn_done : 1 ≤ h.wg → Turn h signalling [] (record h { wg = h.wg - 1 }) gone

-- One of the goroutines takes a step.
pub data Turns {S : Type 0} (h : Shared S)
    : List (Worker S) → List Event → Shared S → List (Worker S) → Type 0 where
  here :
      {w w' : Worker S} {ws : List (Worker S)} {ev : List Event} {h' : Shared S}
      → Turn h w ev h' w'
      → Turns h (w ∷ ws) ev h' (w' ∷ ws)
  there :
      {w : Worker S} {ws ws' : List (Worker S)} {ev : List Event} {h' : Shared S}
      → Turns h ws ev h' ws'
      → Turns h (w ∷ ws) ev h' (w ∷ ws')

-- Where the loop over the file systems stands: before `sem <- struct{}{}` with the rest of the
-- list, which is `wg.Wait` where nothing is left, or behind it, before `wg.Go`.
pub data Loop : Type 0 where
  looping : List Bytes → Loop
  acquired : Bytes → List Bytes → Loop

pub record System (S : Type 0) : Type 0 where
  pub loop : Loop
  pub shared : Shared S
  pub workers : List (Worker S)

module _ {S : Type 0} (job : Bytes → Job S) (room : ℕ) where
  -- A step of the loop or of a goroutine, with a semaphore of `room`: a send waits while it is full.
  pub data Step (s : System S) : List Event → System S → Type 0 where
    acquire :
        (fs : Bytes) (rest : List Bytes)
        → s.loop ≡ looping (fs ∷ rest)
        → s.shared.sem < room
        → Step s [] (record s {
          loop = acquired fs rest;
          shared = record s.shared { sem = s.shared.sem + 1 };
        })
    spawn :
        (fs : Bytes) (rest : List Bytes)
        → s.loop ≡ acquired fs rest
        → Step s [] (record s {
          loop = looping rest;
          shared = record s.shared { wg = s.shared.wg + 1 };
          workers = working fs (job fs) ∷ s.workers;
        })
    turn :
        {ev : List Event} {h' : Shared S} {ws' : List (Worker S)}
        → Turns s.shared s.workers ev h' ws'
        → Step s ev (record s { shared = h'; workers = ws' })

  -- The steps of a run, with the events in their order.
  pub data Runs : System S → List Event → System S → Type 0 where
    stop : {s : System S} → Runs s [] s
    next :
        {s t u : System S} {ev evs : List Event} → Step s ev t → Runs t evs u → Runs s (ev ++ evs) u

-- `wg.Wait` returns, so `Run` does, behind the whole loop.
abbrev pub IsOver : {S : Type 0} → System S → Type 0
IsOver s = (s.loop ≡ looping []) × (s.shared.wg ≡ 0)

-- `Run` before the loop, with the errors of the discovery.
unfoldable pub started : {S : Type 0} → List Bytes → List Error → S → System S
started fss es s = record {
  loop = looping fss;
  shared = record { machine = s; errs = es; locked = false; sem = 0; wg = 0 };
  workers = [];
}

-- What `Run` does before the loop: it returns errors at once, or it starts the loop with a semaphore.
pub data Launched (S : Type 0) : Type 0 where
  refused : List Error → S → Launched S
  launched : ℕ → (Bytes → Job S) → System S → Launched S

-- With some order of the steps, `Run` returns these errors and leaves this machine.
abbrev pub Returns : {S : Type 0} → Launched S → List Error → S → Type 0
Returns (refused es s) es' s' = (es ≡ es') × (s ≡ s')
Returns (launched room job s) es' s' =
    (evs : List Event) × (t : System _) × Runs job room s evs t
    × IsOver t
    × (t.shared.errs ≡ es')
    × (t.shared.machine ≡ s')

-- The capacity that `make(chan struct{}, n)` is given. A negative one panics: neither module gets there
-- with one.
unfoldable pub capacity : ℤ → ℕ
capacity (pos n) = n
capacity (negsuc n) = 0

-- A function of the state as a job of one step.
unfoldable pub at_once : {A S : Type 0} (f : A → S → List Error × S) → Divided f
unfolding alone
at_once f = record {
  job = λ a. act (λ s. (f a s).1) (λ s. returned (f a s).0);
  whole = λ a s. refl;
}
