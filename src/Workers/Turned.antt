-- ===== src/Workers/Turned.antt =====
-- What one step of a goroutine keeps of the counters, the mutex and the copies of `errs`.
use mathlib.Core.Path.{subst}
use zfsbackup.Base.{ℕ, ◌+◌, ◌≤◌, ◌≡◌, refl, sym, List, [], ◌∷◌, Error, arith, ◌⊎◌, inl, inr}
use zfsbackup.Workers.{
  Worker, working, locking, reading, writing, unlocking, releasing, signalling, gone, Shared, Event,
  Turn, turn_command, turn_succeed, turn_fail, turn_lock, turn_read, turn_write, turn_unlock,
  turn_release, turn_done, Turns, here, there,
}
use zfsbackup.Workers.Invariant.{holding, alive, inside, total, held, IsFresh, AllFresh}

module _ {S : Type 0} where
  -- What a step of one goroutine keeps of a quantity, a step in the list keeps of the sum.
  pub Turns-total :
      (a : Shared S → ℕ) (c : Worker S → ℕ)
      → ((h h' : Shared S) (w w' : Worker S) (ev : List Event)
          → Turn h w ev h' w'
          → a h + c w' ≡ a h' + c w)
      → {h h' : Shared S} {ws ws' : List (Worker S)} {ev : List Event} → Turns h ws ev h' ws'
      → a h + total c ws' ≡ a h' + total c ws
  unfolding total
  Turns-total a c each (here t) = omega (arith, each _ _ _ _ _ t)
  Turns-total a c each (there ts) = omega (arith, Turns-total a c each ts)

  pub Turn-holding :
      {h h' : Shared S} {w w' : Worker S} {ev : List Event}
      → Turn h w ev h' w'
      → h.sem + holding w' ≡ h'.sem + holding w
  unfolding holding
  Turn-holding turn_command = refl
  Turn-holding turn_succeed = refl
  Turn-holding turn_fail = refl
  Turn-holding (turn_lock e) = refl
  Turn-holding turn_read = refl
  Turn-holding turn_write = refl
  Turn-holding (turn_unlock e) = refl
  Turn-holding (turn_release e) = omega arith
  Turn-holding (turn_done e) = refl

  pub Turn-alive :
      {h h' : Shared S} {w w' : Worker S} {ev : List Event}
      → Turn h w ev h' w'
      → h.wg + alive w' ≡ h'.wg + alive w
  unfolding alive
  Turn-alive turn_command = refl
  Turn-alive turn_succeed = refl
  Turn-alive turn_fail = refl
  Turn-alive (turn_lock e) = refl
  Turn-alive turn_read = refl
  Turn-alive turn_write = refl
  Turn-alive (turn_unlock e) = refl
  Turn-alive (turn_release e) = refl
  Turn-alive (turn_done e) = omega arith

  pub Turn-inside :
      {h h' : Shared S} {w w' : Worker S} {ev : List Event}
      → Turn h w ev h' w'
      → held h.locked + inside w' ≡ held h'.locked + inside w
  unfolding inside held
  Turn-inside turn_command = refl
  Turn-inside turn_succeed = refl
  Turn-inside turn_fail = refl
  Turn-inside (turn_lock e) = rw e refl
  Turn-inside turn_read = refl
  Turn-inside turn_write = refl
  Turn-inside (turn_unlock e) = rw e refl
  Turn-inside (turn_release e) = refl
  Turn-inside (turn_done e) = refl

  outside-IsFresh : (errs : List Error) (w : Worker S) → inside w ≡ 0 → IsFresh errs w
  unfolding IsFresh inside
  outside-IsFresh errs (working fs j) e = tt
  outside-IsFresh errs (locking es) e = tt
  outside-IsFresh errs (reading es) e = tt
  outside-IsFresh errs (writing es old) e = absurd (omega arith)
  outside-IsFresh errs unlocking e = tt
  outside-IsFresh errs releasing e = tt
  outside-IsFresh errs signalling e = tt
  outside-IsFresh errs gone e = tt

  pub outside-AllFresh :
      (errs : List Error) (ws : List (Worker S)) → total inside ws ≡ 0 → AllFresh errs ws
  unfolding total AllFresh
  outside-AllFresh errs [] e = tt
  outside-AllFresh errs (w ∷ ws) e =
      (outside-IsFresh errs w (omega arith), outside-AllFresh errs ws (omega arith))

  -- Only a goroutine that holds the mutex changes `errs`.
  pub Turn-errs :
      {h h' : Shared S} {w w' : Worker S} {ev : List Event}
      → Turn h w ev h' w'
      → (h'.errs ≡ h.errs) ⊎ (inside w ≡ 1)
  unfolding inside
  Turn-errs turn_command = inl refl
  Turn-errs turn_succeed = inl refl
  Turn-errs turn_fail = inl refl
  Turn-errs (turn_lock e) = inl refl
  Turn-errs turn_read = inl refl
  Turn-errs turn_write = inr refl
  Turn-errs (turn_unlock e) = inl refl
  Turn-errs (turn_release e) = inl refl
  Turn-errs (turn_done e) = inl refl

  Turn-IsFresh :
      {h h' : Shared S} {w w' : Worker S} {ev : List Event} → Turn h w ev h' w' → IsFresh h'.errs w'
  unfolding IsFresh
  Turn-IsFresh turn_command = tt
  Turn-IsFresh turn_succeed = tt
  Turn-IsFresh turn_fail = tt
  Turn-IsFresh (turn_lock e) = tt
  Turn-IsFresh turn_read = refl
  Turn-IsFresh turn_write = tt
  Turn-IsFresh (turn_unlock e) = tt
  Turn-IsFresh (turn_release e) = tt
  Turn-IsFresh (turn_done e) = tt

  Turns-errs :
      {h h' : Shared S} {ws ws' : List (Worker S)} {ev : List Event}
      → Turns h ws ev h' ws'
      → (h'.errs ≡ h.errs) ⊎ (1 ≤ total inside ws)
  unfolding total
  Turns-errs (here t) = elim (Turn-errs t) [ inl e ↦ inl e | inr e ↦ inr (omega arith) ]
  Turns-errs (there ts) = elim (Turns-errs ts) [ inl e ↦ inl e | inr e ↦ inr (omega arith) ]

  pub Turns-AllFresh :
      {h h' : Shared S} {ws ws' : List (Worker S)} {ev : List Event}
      → Turns h ws ev h' ws'
      → total inside ws ≤ 1
      → AllFresh h.errs ws
      → AllFresh h'.errs ws'
  unfolding total AllFresh
  Turns-AllFresh {h' = h'} (here {ws = ws} t) few f = (
    Turn-IsFresh t,
    elim (Turn-errs t) [
      | inl e ↦ subst (λ x. AllFresh x ws) (sym e) f.1
      | inr e ↦ outside-AllFresh h'.errs ws (omega arith)
    ],
  )
  Turns-AllFresh {h' = h'} (there {w = w} {ws = ws} ts) few f = (
    elim (Turns-errs ts) [
      | inl e ↦ subst (λ x. IsFresh x w) (sym e) f.0
      | inr e ↦ outside-IsFresh h'.errs w (omega arith)
    ],
    Turns-AllFresh ts (omega arith) f.1,
  )

  -- Only the loop sends to `sem`.
  Turn-sem :
      {h h' : Shared S} {w w' : Worker S} {ev : List Event} → Turn h w ev h' w' → h'.sem ≤ h.sem
  Turn-sem turn_command = omega arith
  Turn-sem turn_succeed = omega arith
  Turn-sem turn_fail = omega arith
  Turn-sem (turn_lock e) = omega arith
  Turn-sem turn_read = omega arith
  Turn-sem turn_write = omega arith
  Turn-sem (turn_unlock e) = omega arith
  Turn-sem (turn_release e) = omega arith
  Turn-sem (turn_done e) = omega arith

  pub Turns-sem :
      {h h' : Shared S} {ws ws' : List (Worker S)} {ev : List Event}
      → Turns h ws ev h' ws'
      → h'.sem ≤ h.sem
  Turns-sem (here t) = Turn-sem t
  Turns-sem (there ts) = Turns-sem ts
