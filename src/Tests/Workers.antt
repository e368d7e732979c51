-- ===== src/Tests/Workers.antt =====
-- Goroutines that take turns, and the modules that start them.
use mathlib.Core.List.{Perm}
use zfsbackup.Base.{
  ℕ, suc, ◌≤◌, refl, List, [], ◌∷◌, ◌++◌, Bytes, codes, arith, command_failed, bad_output,
}
use zfsbackup.Workers.{
  Job, returned, act, turn_command, turn_succeed, turn_fail, turn_lock, turn_read, turn_write,
  turn_unlock, turn_release, turn_done, here, there, System, Event, acquire, spawn, turn, Runs,
  stop, next, IsOver, started,
}
use zfsbackup.Workers.Invariant.{holding, inside, total}
use zfsbackup.Workers.Sound.{runs_bounded}
use zfsbackup.Workers.Collected.{finished, failures, runs-collected}

-- A file system that is processed in one step, with an error for the name of two letters.
abbrev job : Bytes → Job ℕ
job (a ∷ b ∷ l) = act suc (λ n. returned (command_failed ∷ []))
job _ = act suc (λ n. returned [])

abbrev both : List Bytes
both = codes "ab" ∷ codes "c" ∷ []

-- Both are processed at a time; the second ends first.
interleaved :
    (evs : List Event) × (t : System ℕ) × Runs job 2 (started both (bad_output ∷ []) 0) evs t
    × IsOver t
unfolding started
interleaved = (
  _,
  _,
  next (acquire (codes "ab") (codes "c" ∷ []) refl (omega arith)) (
      next (spawn (codes "ab") (codes "c" ∷ []) refl) (
        next (acquire (codes "c") [] refl (omega arith)) (
          next (turn (here turn_command)) (
            next (spawn (codes "c") [] refl) (
              next (turn (here turn_command)) (
                next (turn (there (here turn_fail))) (
                  next (turn (there (here (turn_lock refl)))) (
                    next (turn (here turn_succeed)) (
                      next (turn (there (here turn_read))) (
                        next (turn (here (turn_release (omega arith)))) (
                          next (turn (here (turn_done (omega arith)))) (
                            next (turn (there (here turn_write))) (
                              next (turn (there (here (turn_unlock refl)))) (
                                next (turn (there (here (turn_release (omega arith))))) (
                                  next (turn (there (here (turn_done (omega arith)))))
                                    stop))))))))))))))),
  (refl, refl),
)

runs_bounded_example :
    (total holding interleaved.1.workers ≤ 2) × (total inside interleaved.1.workers ≤ 1)
runs_bounded_example = runs_bounded job 2 both (bad_output ∷ []) 0 interleaved.2

runs-collected_example :
    Perm both (finished interleaved.0)
    × Perm (failures interleaved.0 ++ bad_output ∷ []) interleaved.1.shared.errs
runs-collected_example = runs-collected job 2 both (bad_output ∷ []) 0 interleaved.2 interleaved.3
