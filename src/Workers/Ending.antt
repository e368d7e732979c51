-- ===== src/Workers/Ending.antt =====
-- The loop and its goroutines come to their end, whatever the order of the steps.
use mathlib.Core.Path.{subst}
use zfsbackup.Base.{ℕ, ◌≤◌, ◌≡◌, refl, List, [], ◌∷◌, Bytes, Error, ◌⊎◌}
use zfsbackup.Workers.{
  Launched, refused, launched, Job, Event, looping, acquired, System, Step, acquire, spawn, turn,
  IsOver, started,
}
use zfsbackup.Workers.Invariant.{IsSound}
use zfsbackup.Workers.Sound.{Step-IsSound, started-IsSound}
use zfsbackup.Workers.Halting.{AllHalt, all_halt, working-Halts, nil-AllHalt, cons-AllHalt}
use zfsbackup.Workers.Progress.{CanStep, sound-CanStep}

module _ {S : Type 0} (job : Bytes → Job S) (room : ℕ) where
  -- Whichever steps are taken, `Run` comes to its end: something can go on until it does, and there
  -- are finitely many steps.
  pub data Ends : System S → Type 0 where
    ends :
        {s : System S}
        → IsOver s ⊎ CanStep job room s
        → ((ev : List Event) (t : System S) → Step job room s ev t → Ends t)
        → Ends s

module _ {S : Type 0} (job : Bytes → Job S) (room : ℕ) where
  -- The loop at its head, with `rest` to go, comes to its end.
  LoopEnds : List Bytes → Type 0
  LoopEnds rest =
      (s : System S) → s.loop ≡ looping rest → AllHalt s.workers → IsSound room s → Ends job room s

module _ {S : Type 0} {job : Bytes → Job S} {room : ℕ} (some_room : 1 ≤ room) where
  -- Between `sem <- struct{}{}` and `wg.Go` the goroutines go on, and then the loop does.
  acquired_next :
      (fs : Bytes) (rest : List Bytes) {s t : System S} {ev : List Event}
      → LoopEnds job room rest
      → s.loop ≡ acquired fs rest
      → AllHalt s.workers
      → IsSound room s
      → Step job room s ev t
      → Ends job room t
  unfolding LoopEnds
  acquired_next fs rest k e a i (acquire fs' rest' f lt) = absurd (cc)
  acquired_next fs rest k e a i (spawn fs' rest' f) =
      k _ (cc) (cons-AllHalt (working-Halts fs' (job fs')) a)
        (Step-IsSound {job = job} (spawn fs' rest' f) i)
  acquired_next fs rest {s} k e (all_halt g) i (turn {ev = ev} {h' = h'} {ws' = ws'} ts) =
      let j = Step-IsSound {job = job} (turn ts) i in
      ends (sound-CanStep job room _ some_room j)
        (λ _ _ st. acquired_next fs rest k e (g s.shared h' ws' ev ts) j st)

  acquired-Ends :
      (fs : Bytes) (rest : List Bytes) (s : System S)
      → LoopEnds job room rest
      → s.loop ≡ acquired fs rest
      → AllHalt s.workers
      → IsSound room s
      → Ends job room s
  acquired-Ends fs rest s k e a i =
      ends (sound-CanStep job room s some_room i) (λ _ _ st. acquired_next fs rest k e a i st)

  looping_next :
      (rest : List Bytes) {s t : System S} {ev : List Event}
      → ((fs : Bytes) (more : List Bytes) → rest ≡ fs ∷ more → LoopEnds job room more)
      → s.loop ≡ looping rest
      → AllHalt s.workers
      → IsSound room s
      → Step job room s ev t
      → Ends job room t
  looping_next rest {s} k e a i (acquire fs' rest' f lt) =
      acquired-Ends fs' rest' _ (k fs' rest' (cc)) refl a
        (Step-IsSound {job = job} (acquire fs' rest' f lt) i)
  looping_next rest k e a i (spawn fs' rest' f) = absurd (cc)
  looping_next rest {s} k e (all_halt g) i (turn {ev = ev} {h' = h'} {ws' = ws'} ts) =
      let j = Step-IsSound {job = job} (turn ts) i in
      ends (sound-CanStep job room _ some_room j)
        (λ _ _ st. looping_next rest k e (g s.shared h' ws' ev ts) j st)

module _ {S : Type 0} (job : Bytes → Job S) (room : ℕ) (some_room : 1 ≤ room) where
  loop_ends : (rest : List Bytes) → LoopEnds job room rest
  unfolding LoopEnds
  loop_ends [] s e a i =
      ends (sound-CanStep job room s some_room i)
        (λ _ _ st. looping_next some_room [] (λ fs more f. absurd (cc)) e a i st)
  loop_ends (fs ∷ rest) s e a i = ends (sound-CanStep job room s some_room i) (λ _ _ st.
      looping_next some_room (fs ∷ rest)
        (λ fs' more f. subst (LoopEnds job room) (cc) (loop_ends rest)) e a i st)

  -- With a semaphore that has room, the loop comes to its end for all file systems, whatever the
  -- goroutines do, with every order of the steps.
  pub started-Ends : (fss : List Bytes) (es : List Error) (m : S) → Ends job room (started fss es m)
  unfolding started LoopEnds
  started-Ends fss es m =
      loop_ends fss (started fss es m) refl nil-AllHalt (started-IsSound room fss es m)

-- `Run` returns, with every order of the steps.
abbrev pub Terminates : {S : Type 0} → Launched S → Type 0
Terminates (refused es s) = Unit
Terminates (launched room job s) = Ends job room s
