-- ===== src/Workers/Progress.antt =====
-- No deadlock: while `Run` has not come to its end, something can go on.
use zfsbackup.Base.{
  ℕ, ◌≤◌, ◌≡◌, refl, ap, true, false, List, [], ◌∷◌, Bytes, arith, ◌⊎◌, inl, inr, Bool-cases,
}
use native.Mathlib.Decide.{dec_lt, ℕ_discrete}
use zfsbackup.Workers.{
  Job, returned, act, Worker, working, locking, reading, writing, unlocking, releasing, signalling,
  gone, Shared, Event, turn_command, turn_succeed, turn_fail, turn_lock, turn_read, turn_write,
  turn_unlock, turn_release, turn_done, Turns, here, there, Loop, looping, acquired, System, Step,
  acquire, spawn, turn, IsOver,
}
use zfsbackup.Workers.Invariant.{holding, alive, inside, total, main_holding, held, IsSound}

module _ {S : Type 0} where
  -- A step of some goroutine.
  abbrev pub CanTurn : Shared S → List (Worker S) → Type 0
  CanTurn h ws =
      (ev : List Event) × (h' : Shared S) × (ws' : List (Worker S)) × Turns h ws ev h' ws'

  later : {h : Shared S} (w : Worker S) {ws : List (Worker S)} → CanTurn h ws → CanTurn h (w ∷ ws)
  later w (ev, h', ws', ts) = (ev, h', w ∷ ws', there ts)

  -- The goroutine that holds the mutex can go on.
  pub inside-CanTurn :
      (h : Shared S) (ws : List (Worker S)) → h.locked ≡ true → 1 ≤ total inside ws → CanTurn h ws
  unfolding total inside
  inside-CanTurn h [] l i = absurd (omega arith)
  inside-CanTurn h (reading es ∷ ws) l i = (_, _, _, here turn_read)
  inside-CanTurn h (writing es old ∷ ws) l i = (_, _, _, here turn_write)
  inside-CanTurn h (unlocking ∷ ws) l i = (_, _, _, here (turn_unlock l))
  inside-CanTurn h (working fs j ∷ ws) l i =
      later (working fs j) (inside-CanTurn h ws l (omega (arith, i)))
  inside-CanTurn h (locking es ∷ ws) l i =
      later (locking es) (inside-CanTurn h ws l (omega (arith, i)))
  inside-CanTurn h (releasing ∷ ws) l i = later releasing (inside-CanTurn h ws l (omega (arith, i)))
  inside-CanTurn h (signalling ∷ ws) l i =
      later signalling (inside-CanTurn h ws l (omega (arith, i)))
  inside-CanTurn h (gone ∷ ws) l i = later gone (inside-CanTurn h ws l (omega (arith, i)))

  -- While the mutex is free, every goroutine can go on.
  pub alive-CanTurn :
      (h : Shared S) (ws : List (Worker S))
      → h.locked ≡ false
      → total inside ws ≡ 0
      → total holding ws ≤ h.sem
      → total alive ws ≤ h.wg
      → 1 ≤ total alive ws
      → CanTurn h ws
  unfolding total inside holding alive
  alive-CanTurn h [] l i s g a = absurd (omega arith)
  alive-CanTurn h (reading es ∷ ws) l i s g a = (_, _, _, here turn_read)
  alive-CanTurn h (writing es old ∷ ws) l i s g a = (_, _, _, here turn_write)
  alive-CanTurn h (unlocking ∷ ws) l i s g a = absurd (omega (arith, i))
  alive-CanTurn h (working fs (returned []) ∷ ws) l i s g a = (_, _, _, here turn_succeed)
  alive-CanTurn h (working fs (returned (e ∷ es)) ∷ ws) l i s g a = (_, _, _, here turn_fail)
  alive-CanTurn h (working fs (act f k) ∷ ws) l i s g a = (_, _, _, here turn_command)
  alive-CanTurn h (locking es ∷ ws) l i s g a = (_, _, _, here (turn_lock l))
  alive-CanTurn h (releasing ∷ ws) l i s g a = (_, _, _, here (turn_release (omega (arith, s))))
  alive-CanTurn h (signalling ∷ ws) l i s g a = (_, _, _, here (turn_done (omega (arith, g))))
  alive-CanTurn h (gone ∷ ws) l i s g a = later gone (
      alive-CanTurn h ws l (omega (arith, i)) (omega (arith, s)) (omega (arith, g))
        (omega (arith, a)))

  pub holding-le-alive : (ws : List (Worker S)) → total holding ws ≤ total alive ws
  unfolding total holding alive
  holding-le-alive [] = omega arith
  holding-le-alive (signalling ∷ ws) = omega (arith, holding-le-alive ws)
  holding-le-alive (gone ∷ ws) = omega (arith, holding-le-alive ws)
  holding-le-alive (reading es ∷ ws) = omega (arith, holding-le-alive ws)
  holding-le-alive (writing es old ∷ ws) = omega (arith, holding-le-alive ws)
  holding-le-alive (unlocking ∷ ws) = omega (arith, holding-le-alive ws)
  holding-le-alive (releasing ∷ ws) = omega (arith, holding-le-alive ws)
  holding-le-alive (locking es ∷ ws) = omega (arith, holding-le-alive ws)
  holding-le-alive (working fs j ∷ ws) = omega (arith, holding-le-alive ws)

  -- While some goroutine has not ended, one can go on.
  sound-CanTurn :
      {room : ℕ} (s : System S)
      → IsSound room s
      → 1 ≤ total alive s.workers
      → CanTurn s.shared s.workers
  unfolding held
  sound-CanTurn s i a = elim (Bool-cases s.shared.locked) [
    | inl l ↦ inside-CanTurn s.shared s.workers l (omega (arith, i.mutex, ap held l))
    | inr l ↦
        alive-CanTurn s.shared s.workers l (omega (arith, i.mutex, ap held l))
          (omega (arith, i.tokens)) (omega (arith, i.counted)) a
  ]

module _ {S : Type 0} (job : Bytes → Job S) (room : ℕ) where
  abbrev pub CanStep : System S → Type 0
  CanStep s = (ev : List Event) × (t : System S) × Step job room s ev t

  CanTurn-CanStep : (s : System S) → CanTurn s.shared s.workers → CanStep s
  CanTurn-CanStep s (ev, h', ws', ts) = (ev, _, turn ts)

  at-CanStep :
      (s : System S) (l : Loop) → s.loop ≡ l → 1 ≤ room → IsSound room s → IsOver s ⊎ CanStep s
  unfolding main_holding
  at-CanStep s (acquired fs rest) e r i = inr (_, _, spawn fs rest e)
  at-CanStep s (looping []) e r i = elim (ℕ_discrete s.shared.wg 0) [
    | yes z ↦ inl (e, z)
    | no n ↦ inr (CanTurn-CanStep s (sound-CanTurn s i (omega (arith, i.counted))))
  ]
  at-CanStep s (looping (fs ∷ rest)) e r i = elim (dec_lt s.shared.sem room) [
    | yes lt ↦ inr (_, _, acquire fs rest e lt)
    | no ge ↦ inr (
        CanTurn-CanStep s (
          sound-CanTurn s i
            (omega (arith, i.tokens, ap main_holding e, holding-le-alive s.workers))))
  ]

  -- With room for one goroutine, there is no deadlock.
  pub sound-CanStep : (s : System S) → 1 ≤ room → IsSound room s → IsOver s ⊎ CanStep s
  sound-CanStep s r i = at-CanStep s s.loop refl r i
