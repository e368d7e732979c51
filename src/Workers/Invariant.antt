-- ===== src/Workers/Invariant.antt =====
-- What the counters and the mutex of the goroutines stand for, whatever the order of the steps.
use zfsbackup.Base.{ℕ, ◌+◌, ◌≤◌, ◌≡◌, Bool, true, false, List, [], ◌∷◌, Error}
use zfsbackup.Workers.{
  Worker, reading, writing, unlocking, signalling, gone, Loop, looping, acquired, System,
}

-- Whether the loop has sent a value to `sem` for a goroutine that it is about to start.
unfoldable pub main_holding : Loop → ℕ
main_holding (looping rest) = 0
main_holding (acquired fs rest) = 1

unfoldable pub held : Bool → ℕ
held true = 1
held false = 0

module _ {S : Type 0} where
  -- Holds a value of `sem`, has not called `wg.Done`, holds `mu`.
  unfoldable pub holding : Worker S → ℕ
  holding signalling = 0
  holding gone = 0
  holding _ = 1

  unfoldable pub alive : Worker S → ℕ
  alive gone = 0
  alive _ = 1

  unfoldable pub inside : Worker S → ℕ
  inside (reading es) = 1
  inside (writing es old) = 1
  inside unlocking = 1
  inside _ = 0

  unfoldable pub total : (Worker S → ℕ) → List (Worker S) → ℕ
  total c [] = 0
  total c (w ∷ ws) = c w + total c ws

  -- The copy of `errs` that a goroutine has read is what `errs` still is.
  unfoldable pub IsFresh : List Error → Worker S → Type 0
  IsFresh errs (writing es old) = old ≡ errs
  IsFresh errs _ = Unit

  unfoldable pub AllFresh : List Error → List (Worker S) → Type 0
  unfolding IsFresh
  AllFresh errs [] = Unit
  AllFresh errs (w ∷ ws) = IsFresh errs w × AllFresh errs ws

  pub record IsSound (room : ℕ) (s : System S) : Type 0 where
    pub tokens : s.shared.sem ≡ main_holding s.loop + total holding s.workers
    pub fits : s.shared.sem ≤ room
    pub counted : s.shared.wg ≡ total alive s.workers
    pub mutex : held s.shared.locked ≡ total inside s.workers
    pub fresh : AllFresh s.shared.errs s.workers
