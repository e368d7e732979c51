-- ===== src/Workers/Collected.antt =====
-- What the goroutines return is collected: no file system is left out, and no error is lost.
use mathlib.Core.List.Perm
use mathlib.Core.List.{Perm, perm_middle}
use zfsbackup.Base.{
  perm_cast, perm_front, perm_past, perm_within, ℕ, ◌≡◌, refl, sym, ◌∙◌, ap, List, [], ◌∷◌, ◌++◌,
  Bytes, Error, arith, append-nil, append_assoc,
}
use zfsbackup.Workers.{
  Job, Worker, working, locking, reading, writing, gone, Shared, Event, Turn, turn_command,
  turn_succeed, turn_fail, turn_lock, turn_read, turn_write, turn_unlock, turn_release, turn_done,
  Turns, here, there, Loop, looping, acquired, System, Step, acquire, spawn, turn, Runs, stop, next,
  IsOver, started,
}
use zfsbackup.Workers.Invariant.{alive, total, IsFresh, AllFresh, IsSound}
use zfsbackup.Workers.Sound.{Step-IsSound, Runs-IsSound, started-IsSound}

-- The file systems of some events, and the errors.
unfoldable pub finished : List Event → List Bytes
finished [] = []
finished ((fs, es) ∷ evs) = fs ∷ finished evs

unfoldable pub failures : List Event → List Error
failures [] = []
failures ((fs, es) ∷ evs) = es ++ failures evs

finished-append : (xs ys : List Event) → finished (xs ++ ys) ≡ finished xs ++ finished ys
unfolding finished
finished-append [] ys = refl
finished-append ((fs, es) ∷ xs) ys = ap (λ l. fs ∷ l) (finished-append xs ys)

failures-append : (xs ys : List Event) → failures (xs ++ ys) ≡ failures xs ++ failures ys
unfolding failures
failures-append [] ys = refl
failures-append ((fs, es) ∷ xs) ys =
    ap (λ l. es ++ l) (failures-append xs ys) ∙ sym (append_assoc es (failures xs) (failures ys))

-- The file systems that the loop has yet to start a goroutine for.
unfoldable pub pending : Loop → List Bytes
pending (looping rest) = rest
pending (acquired fs rest) = fs ∷ rest

module _ {S : Type 0} where
  -- The file system that a goroutine works on, and the errors that it has yet to add.
  ahead : Worker S → List Bytes
  ahead (working fs j) = fs ∷ []
  ahead _ = []

  owed : Worker S → List Error
  owed (locking es) = es
  owed (reading es) = es
  owed (writing es old) = es
  owed _ = []

  all_of : {A : Type 0} → (Worker S → List A) → List (Worker S) → List A
  all_of c [] = []
  all_of c (w ∷ ws) = c w ++ all_of c ws

  gone-all_of :
      {A : Type 0} (c : Worker S → List A) (ws : List (Worker S))
      → c gone ≡ []
      → total alive ws ≡ 0
      → all_of c ws ≡ []
  unfolding all_of total alive
  gone-all_of c [] e z = refl
  gone-all_of c (gone ∷ ws) e z = rw (e, gone-all_of c ws e (omega (arith, z))) refl
  gone-all_of c (w ∷ ws) e z = absurd (omega arith)

  Turn-ahead :
      {h h' : Shared S} {w w' : Worker S} {ev : List Event}
      → Turn h w ev h' w'
      → ahead w ≡ finished ev ++ ahead w'
  unfolding ahead finished
  Turn-ahead turn_command = refl
  Turn-ahead turn_succeed = refl
  Turn-ahead turn_fail = refl
  Turn-ahead (turn_lock e) = refl
  Turn-ahead turn_read = refl
  Turn-ahead turn_write = refl
  Turn-ahead (turn_unlock e) = refl
  Turn-ahead (turn_release e) = refl
  Turn-ahead (turn_done e) = refl

  Turns-ahead :
      {h h' : Shared S} {ws ws' : List (Worker S)} {ev : List Event}
      → Turns h ws ev h' ws'
      → Perm (all_of ahead ws) (finished ev ++ all_of ahead ws')
  unfolding all_of
  Turns-ahead {ev = ev} (here {w' = w'} {ws = ws} t) =
      rw (Turn-ahead t, append_assoc (finished ev) (ahead w') (all_of ahead ws)) (Perm.refl _)
  Turns-ahead {ev = ev} (there {w = w} {ws = ws} {ws' = ws'} ts) =
      perm_within (finished ev) (ahead w) (all_of ahead ws) (all_of ahead ws') (Turns-ahead ts)

  Turn-owed :
      {h h' : Shared S} {w w' : Worker S} {ev : List Event} (r : List Error)
      → Turn h w ev h' w'
      → IsFresh h.errs w
      → Perm (failures ev ++ (h.errs ++ (owed w ++ r))) (h'.errs ++ (owed w' ++ r))
  unfolding owed failures IsFresh
  Turn-owed r turn_command f = Perm.refl _
  Turn-owed r turn_succeed f = Perm.refl _
  Turn-owed {h} r (turn_fail {e = e} {es = es}) f =
      rw (append-nil es) (perm_front (e ∷ es) h.errs r)
  Turn-owed r (turn_lock e) f = Perm.refl _
  Turn-owed r turn_read f = Perm.refl _
  Turn-owed {h} r (turn_write {es = es} {old = old}) f = rw (append_assoc old es r, f) (Perm.refl _)
  Turn-owed r (turn_unlock e) f = Perm.refl _
  Turn-owed r (turn_release e) f = Perm.refl _
  Turn-owed r (turn_done e) f = Perm.refl _

  Turns-owed :
      {h h' : Shared S} {ws ws' : List (Worker S)} {ev : List Event}
      → Turns h ws ev h' ws'
      → AllFresh h.errs ws
      → Perm (failures ev ++ (h.errs ++ all_of owed ws)) (h'.errs ++ all_of owed ws')
  unfolding all_of AllFresh
  Turns-owed (here {ws = ws} t) f = Turn-owed (all_of owed ws) t f.0
  Turns-owed {h} {h'} {ev = ev} (there {w = w} {ws = ws} {ws' = ws'} ts) f =
      perm_past (failures ev) h.errs h'.errs (owed w) (all_of owed ws) (all_of owed ws')
        (Turns-owed ts f.1)

  -- The file systems that are not done.
  remaining : System S → List Bytes
  remaining s = pending s.loop ++ all_of ahead s.workers

  -- The errors that are or will be collected.
  collected : System S → List Error
  collected s = s.shared.errs ++ all_of owed s.workers

module _ {S : Type 0} {job : Bytes → Job S} {room : ℕ} where
  Step-remaining :
      {s t : System S} {ev : List Event}
      → Step job room s ev t
      → Perm (remaining s) (finished ev ++ remaining t)
  unfolding remaining pending finished all_of ahead
  Step-remaining {s} (acquire fs rest e lt) = rw e (Perm.refl _)
  Step-remaining {s} (spawn fs rest e) =
      rw e (Perm.symm (perm_middle rest (all_of ahead s.workers)))
  Step-remaining {s} (turn {ev = ev} {ws' = ws'} ts) =
      perm_within (finished ev) (pending s.loop) (all_of ahead s.workers) (all_of ahead ws')
        (Turns-ahead ts)

  Step-collected :
      {s t : System S} {ev : List Event}
      → Step job room s ev t
      → IsSound room s
      → Perm (failures ev ++ collected s) (collected t)
  unfolding collected failures all_of owed
  Step-collected (acquire fs rest e lt) i = Perm.refl _
  Step-collected (spawn fs rest e) i = Perm.refl _
  Step-collected (turn ts) i = Turns-owed ts i.fresh

  Runs-remaining :
      {s t : System S} {evs : List Event}
      → Runs job room s evs t
      → Perm (remaining s) (finished evs ++ remaining t)
  unfolding finished
  Runs-remaining stop = Perm.refl _
  Runs-remaining {t = t} (next {ev = ev} {evs = evs} st r) =
      rw (finished-append ev evs, append_assoc (finished ev) (finished evs) (remaining t))
        (Perm.trans (Step-remaining st) (Perm.append_left (finished ev) (Runs-remaining r)))

  Runs-collected :
      {s t : System S} {evs : List Event}
      → Runs job room s evs t
      → IsSound room s
      → Perm (failures evs ++ collected s) (collected t)
  unfolding failures
  Runs-collected stop i = Perm.refl _
  Runs-collected {s} (next {ev = ev} {evs = evs} st r) i =
      rw (failures-append ev evs, append_assoc (failures ev) (failures evs) (collected s))
        (Perm.trans (perm_front (failures ev) (failures evs) (collected s)) (
          Perm.trans (Perm.append_left (failures evs) (Step-collected st i))
            (Runs-collected r (Step-IsSound st i))))

pub over-gone :
    {S : Type 0} {room : ℕ} (s : System S) → IsSound room s → IsOver s → total alive s.workers ≡ 0
over-gone s i o = omega (arith, i.counted, o.1)

module _ {S : Type 0} (job : Bytes → Job S) (room : ℕ) where
  over-remaining : (s : System S) → IsSound room s → IsOver s → remaining s ≡ []
  unfolding remaining pending ahead
  over-remaining s i o = rw (o.0, gone-all_of ahead s.workers refl (over-gone s i o)) refl

  over-collected : (s : System S) → IsSound room s → IsOver s → collected s ≡ s.shared.errs
  unfolding collected owed
  over-collected s i o =
      rw (gone-all_of owed s.workers refl (over-gone s i o)) (append-nil s.shared.errs)

  started-remaining :
      (fss : List Bytes) (es : List Error) (m : S) → remaining (started fss es m) ≡ fss
  unfolding started remaining pending all_of
  started-remaining fss es m = append-nil fss

  started-collected :
      (fss : List Bytes) (es : List Error) (m : S) → collected (started fss es m) ≡ es
  unfolding started collected all_of
  started-collected fss es m = append-nil es

  -- Whatever the order of the steps, where the loop and its goroutines have come to their end each
  -- file system was done as often as it is listed, and the errors are those of the discovery and
  -- those that the file systems were done with: none is lost, and none is there twice.
  pub runs-collected :
      (fss : List Bytes) (es : List Error) (m : S) {evs : List Event} {t : System S}
      → Runs job room (started fss es m) evs t
      → IsOver t
      → Perm fss (finished evs) × Perm (failures evs ++ es) t.shared.errs
  runs-collected fss es m {evs} {t} r o =
      let i = started-IsSound room fss es m in
      let j = Runs-IsSound r i in
      (
        perm_cast (started-remaining fss es m)
            (ap (λ l. finished evs ++ l) (over-remaining t j o) ∙ append-nil (finished evs))
            (Runs-remaining r),
        perm_cast (ap (λ l. failures evs ++ l) (started-collected fss es m)) (over-collected t j o)
            (Runs-collected r i),
      )
