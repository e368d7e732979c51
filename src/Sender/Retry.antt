-- ===== src/Sender/Retry.antt =====
-- The rounds of `ProcessFs`, and when one asks for another.
use zfsbackup.Base.{
  ℕ, zero, suc, ◌<◌, ◌≡◌, refl, inl, inr, Bool, true, false, not, ◌&&◌, ◌||◌, Option, Bytes, arith,
  is_empty, Bool-cases, Error, Result, ok, err, too_many_retries,
}
use zfsbackup.Exec.{Host, Run, ◌>>◌, run_ok, run_returns, run_returns_within, is_encrypted}
use zfsbackup.Wire.{Codec, Link}
use zfsbackup.Zfs.Json.{Json}
use zfsbackup.Sender.Source.{no_source}
use zfsbackup.Sender.Resume.{resume_snapshot}
use zfsbackup.Sender.Transfer.{resume_args}
use zfsbackup.Sender.Marks.{send_placeholders}
use zfsbackup.Sender.Plan.{FsProcessor, Plan, fetch_plan}
use zfsbackup.Sender.Round.{
  retry_loop, has_no_base, snaps_behind, follow, send_all, send_marked, send_resumed, send_new,
  get_next_and_send, process_filled,
}

module _ {S : Type 0} (step : Run S Bool) where
  -- Some rounds, each of which asked for another.
  pub data Retries : ℕ → S → S → Type 0 where
    done : {s : S} → Retries zero s s
    more : {k : ℕ} {s t u : S} → step s ≡ (ok true, t) → Retries k t u → Retries (suc k) s u

  -- How a loop of at most `n` rounds ends behind `k` of them: the next one asks for no more, or
  -- fails, or there is none left.
  pub data Ends : ℕ → ℕ → S → Result (Unit {0}) × S → Type 0 where
    finished : {n k : ℕ} {t u : S} → k < n → step t ≡ (ok false, u) → Ends n k t (ok tt, u)
    failed : {n k : ℕ} {t u : S} {e : Error} → k < n → step t ≡ (err e, u) → Ends n k t (err e, u)
    gave_up : {n : ℕ} {t : S} → Ends n n t (err too_many_retries, t)

  next_round :
      {n k : ℕ} {t : S} {r : Result (Unit {0}) × S} → Ends n k t r → Ends (suc n) (suc k) t r
  next_round (finished h e) = finished (omega arith) e
  next_round (failed h e) = failed (omega arith) e
  next_round gave_up = gave_up

  data Cases (s : S) : Type 0 where
    stop : {u : S} → step s ≡ (ok false, u) → Cases s
    again : {u : S} → step s ≡ (ok true, u) → Cases s
    fail : {e : Error} {u : S} → step s ≡ (err e, u) → Cases s

  which_case : (s : S) (r : Result Bool × S) → step s ≡ r → Cases s
  which_case s (ok false, u) h = stop h
  which_case s (ok true, u) h = again h
  which_case s (err e, u) h = fail h

  Rounds : ℕ → S → Type 0
  unfolding retry_loop
  Rounds n s = (k : ℕ) × (t : S) × Retries k s t × Ends n k t (retry_loop step n s)

  first_round : (n : ℕ) (s : S) → ((t : S) → Rounds n t) → Cases s → Rounds (suc n) s
  unfolding Rounds retry_loop
  first_round n s rest (stop h) = (0, s, done, rw h (finished (omega arith) h))
  first_round n s rest (fail h) = (0, s, done, rw h (failed (omega arith) h))
  first_round n s rest (again {u} h) =
      let (k, t, before, end) = rest u in (suc k, t, more h before, rw h (next_round end))

  pub retry_loop-Ends :
      (n : ℕ) (s : S) → (k : ℕ) × (t : S) × Retries k s t × Ends n k t (retry_loop step n s)
  unfolding Rounds retry_loop
  retry_loop-Ends zero s = (0, s, done, gave_up)
  retry_loop-Ends (suc n) s = first_round n s (retry_loop-Ends n) (which_case s (step s) refl)

module _ (H : Host) (decode : Bytes → Option Json) (C : Codec) (L : Link H) where
  -- Where there is something to send and the file system's encryption is known, ProcessFs goes
  -- through rounds that ask for another, at most 20: it ends with the first that does not, or with
  -- the first error, or with an error of its own behind 20 of them. What it returns, and the state
  -- that it leaves, are those of the last round.
  pub process_filled_rounds :
      (fsp : FsProcessor) (s t : H.State) (encrypted : Bool)
      → is_empty (snaps_behind fsp no_source) ≡ false
      → is_encrypted H fsp.fs s ≡ (ok encrypted, t)
      → let step = get_next_and_send H decode C L (record fsp { encrypted = encrypted }) in
        (k : ℕ) × (u : H.State) × Retries step k t u
        × Ends step 20 k u (process_filled H decode C L fsp s)
  unfolding process_filled
  process_filled_rounds fsp s t encrypted h e =
      let step = get_next_and_send H decode C L (record fsp { encrypted = encrypted }) in
      rw (h, e) (retry_loop-Ends step 20 t)

  send_new_stops :
      (fsp : FsProcessor) (p : Plan) (s : H.State) {retry : Bool} {t : H.State}
      → send_new H decode C L fsp p s ≡ (ok retry, t)
      → retry ≡ false
  unfolding send_new
  send_new_stops fsp p s h =
      run_returns false
        (send_all H decode C L fsp p.base (snaps_behind fsp p.base)
          >> send_placeholders H decode C L fsp)
        s h

  send_resumed_repeats :
      (fsp : FsProcessor) (p : Plan) (s : H.State) {retry : Bool} {t : H.State}
      → send_resumed H decode C L fsp p s ≡ (ok retry, t)
      → retry ≡ true
  unfolding send_resumed
  send_resumed_repeats fsp p s h =
      let args = resume_args fsp p.resume_token in
      run_returns_within true (resume_snapshot H fsp args p.base)
        (send_marked H decode C L fsp args) s h

  followed :
      (fsp : FsProcessor) (p : Plan) (s : H.State) {retry : Bool} {t : H.State}
      → follow H decode C L fsp p s ≡ (ok retry, t)
      → ((has_no_base p && not p.force_overwrite) ≡ false) × (retry ≡ not (is_empty p.resume_token))
  unfolding follow
  followed fsp p s {t = t} h = elim (Bool-cases (has_no_base p && not p.force_overwrite)) [
    | inl e ↦ absurd (ground (arith, e))
    | inr e ↦ elim (Bool-cases (is_empty p.resume_token)) [
      | inl e' ↦ (e, rw e' (send_new_stops fsp p s {t = t} (ground (arith, e, e'))))
      | inr e' ↦ (e, rw e' (send_resumed_repeats fsp p s {t = t} (ground (arith, e, e'))))
    ]
  ]

  -- Where GetNextAndSend succeeds, the receiver's answer was read as a plan with a full stream, a
  -- resume token, a known base, or leave to overwrite the destination; and it asks for another
  -- round exactly where the plan has a resume token.
  pub get_next_and_send_retry :
      (fsp : FsProcessor) (s : H.State) {retry : Bool} {t : H.State}
      → get_next_and_send H decode C L fsp s ≡ (ok retry, t)
      → (p : Plan) × (u : H.State) × (fetch_plan H decode C fsp s ≡ (ok p, u))
        × ((p.send_full
              || not (is_empty p.resume_token)
              || not (is_empty p.base.name)
              || p.force_overwrite)
            ≡ true)
        × (retry ≡ not (is_empty p.resume_token))
  unfolding get_next_and_send has_no_base
  get_next_and_send_retry fsp s h =
      let (p, u, e, f) = run_ok (fetch_plan H decode C fsp) (follow H decode C L fsp) s h in
      let (known, asks) = followed fsp p u f in (p, u, e, ground (arith, known), asks)
