-- ===== src/Workers/Halting.antt =====
-- The steps of each goroutine, and of all that have been started, are finitely many.
use zfsbackup.Base.{List, [], ◌∷◌, Bytes, Error}
use zfsbackup.Workers.{
  Job, returned, act, Worker, working, locking, reading, writing, unlocking, releasing, signalling,
  gone, Shared, Event, Turn, turn_command, turn_succeed, turn_fail, turn_lock, turn_read,
  turn_write, turn_unlock, turn_release, turn_done, Turns, here, there,
}

module _ {S : Type 0} where
  -- Whatever steps follow, they are finitely many: of one goroutine, and of a list of them.
  pub data Halts : Worker S → Type 0 where
    halts :
        {w : Worker S}
        → ((h h' : Shared S) (w' : Worker S) (ev : List Event) → Turn h w ev h' w' → Halts w')
        → Halts w

  pub data AllHalt : List (Worker S) → Type 0 where
    all_halt :
        {ws : List (Worker S)}
        → ((h h' : Shared S) (ws' : List (Worker S)) (ev : List Event)
            → Turns h ws ev h' ws'
            → AllHalt ws')
        → AllHalt ws

  gone_next : {h h' : Shared S} {w' : Worker S} {ev : List Event} → Turn h gone ev h' w' → Halts w'
  gone_next t = elim t [ ]

  gone-Halts : Halts gone
  gone-Halts = halts λ _ _ _ _ t. gone_next t

  signalling_next :
      {h h' : Shared S} {w' : Worker S} {ev : List Event} → Turn h signalling ev h' w' → Halts w'
  signalling_next (turn_done e) = gone-Halts

  signalling-Halts : Halts signalling
  signalling-Halts = halts λ _ _ _ _ t. signalling_next t

  releasing_next :
      {h h' : Shared S} {w' : Worker S} {ev : List Event} → Turn h releasing ev h' w' → Halts w'
  releasing_next (turn_release e) = signalling-Halts

  releasing-Halts : Halts releasing
  releasing-Halts = halts λ _ _ _ _ t. releasing_next t

  unlocking_next :
      {h h' : Shared S} {w' : Worker S} {ev : List Event} → Turn h unlocking ev h' w' → Halts w'
  unlocking_next (turn_unlock e) = releasing-Halts

  unlocking-Halts : Halts unlocking
  unlocking-Halts = halts λ _ _ _ _ t. unlocking_next t

  writing_next :
      (es old : List Error) {h h' : Shared S} {w' : Worker S} {ev : List Event}
      → Turn h (writing es old) ev h' w'
      → Halts w'
  writing_next es old turn_write = unlocking-Halts

  writing-Halts : (es old : List Error) → Halts (writing es old)
  writing-Halts es old = halts λ _ _ _ _ t. writing_next es old t

  reading_next :
      (es : List Error) {h h' : Shared S} {w' : Worker S} {ev : List Event}
      → Turn h (reading es) ev h' w'
      → Halts w'
  reading_next es {h} turn_read = writing-Halts es h.errs

  reading-Halts : (es : List Error) → Halts (reading es)
  reading-Halts es = halts λ _ _ _ _ t. reading_next es t

  locking_next :
      (es : List Error) {h h' : Shared S} {w' : Worker S} {ev : List Event}
      → Turn h (locking es) ev h' w'
      → Halts w'
  locking_next es (turn_lock e) = reading-Halts es

  locking-Halts : (es : List Error) → Halts (locking es)
  locking-Halts es = halts λ _ _ _ _ t. locking_next es t

  returned_next :
      (fs : Bytes) (es : List Error) {h h' : Shared S} {w' : Worker S} {ev : List Event}
      → Turn h (working fs (returned es)) ev h' w'
      → Halts w'
  returned_next fs [] turn_succeed = releasing-Halts
  returned_next fs (e ∷ es) turn_fail = locking-Halts (e ∷ es)

  command_next :
      (fs : Bytes) (f : S → S) (k : S → Job S) {h h' : Shared S} {w' : Worker S} {ev : List Event}
      → ((s : S) → Halts (working fs (k s)))
      → Turn h (working fs (act f k)) ev h' w'
      → Halts w'
  command_next fs f k {h} rest turn_command = rest h.machine

  pub working-Halts : (fs : Bytes) (j : Job S) → Halts (working fs j)
  working-Halts fs (returned es) = halts λ _ _ _ _ t. returned_next fs es t
  working-Halts fs (act f k) =
      halts λ _ _ _ _ t. command_next fs f k (λ s. working-Halts fs (k s)) t

  nil_next :
      {h h' : Shared S} {ws' : List (Worker S)} {ev : List Event}
      → Turns h [] ev h' ws'
      → AllHalt ws'
  nil_next t = elim t [ ]

  pub nil-AllHalt : AllHalt []
  nil-AllHalt = all_halt λ _ _ _ _ t. nil_next t

  cons_next :
      {w : Worker S} {ws : List (Worker S)} {h h' : Shared S} {ws' : List (Worker S)}
      {ev : List Event}
      → Halts w
      → AllHalt ws
      → Turns h (w ∷ ws) ev h' ws'
      → AllHalt ws'
  cons_next (halts f) a (here u) = all_halt λ _ _ _ _ t. cons_next (f _ _ _ _ u) a t
  cons_next k (all_halt g) (there us) = all_halt λ _ _ _ _ t. cons_next k (g _ _ _ _ us) t

  pub cons-AllHalt : {w : Worker S} {ws : List (Worker S)} → Halts w → AllHalt ws → AllHalt (w ∷ ws)
  cons-AllHalt k a = all_halt λ _ _ _ _ t. cons_next k a t
