-- ===== src/Sender/Round.antt =====
-- `GetNextAndSend`, and the loop of `ProcessFs` that repeats it.
use zfsbackup.Base.{
  ℕ, zero, suc, Bool, true, false, not, ◌&&◌, Option, List, [], ◌∷◌, Bytes, if◌then◌else◌, is_empty,
  ok, err, no_common_base, too_many_retries,
}
use zfsbackup.Exec.{Host, Act, Run, ◌>>=◌, ◌>>◌, lift, is_encrypted}
use zfsbackup.Wire.{Codec, Link}
use zfsbackup.Zfs.Json.{Json}
use zfsbackup.Sender.Source.{Source, no_source, actual_snaps_to_send}
use zfsbackup.Sender.Plan.{FsProcessor, Plan, fetch_plan, fill_sources}
use zfsbackup.Sender.Resume.{resume_snapshot}
use zfsbackup.Sender.Transfer.{
  send_args, resume_args, set_placeholders_before, set_placeholders_after, send,
}
use zfsbackup.Sender.Marks.{send_placeholders}

-- No base, no token and no request for a full stream.
unfoldable pub has_no_base : Plan → Bool
has_no_base p = not p.send_full && is_empty p.resume_token && is_empty p.base.name

-- `ActualSnapsToSend` of a processor.
unfoldable pub snaps_behind : FsProcessor → Source → List Source
unfolding actual_snaps_to_send
snaps_behind fsp =
    actual_snaps_to_send fsp.snap_re fsp.dst.sync_placeholders fsp.job.send_intermediate fsp.sources

-- The loop of `ProcessFs`, for as many rounds as are left.
unfoldable pub retry_loop : {S : Type 0} → Run S Bool → ℕ → Run S (Unit {0})
retry_loop step zero = lift (err too_many_retries)
retry_loop step (suc retries_left) = step >>= λ retry.
    let again = retry_loop step retries_left in if retry then again else lift (ok tt)

module _ (H : Host) (decode : Bytes → Option Json) (C : Codec) (L : Link H) where
  -- One stream, between its two bookmarks.
  unfoldable pub send_marked : FsProcessor → List Bytes → Source → Act H (Unit {0})
  unfolding set_placeholders_before send set_placeholders_after
  send_marked fsp args snap =
      set_placeholders_before H decode fsp.dst.placeholders snap
      >> send H L fsp args
      >> set_placeholders_after H decode fsp.dst.placeholders snap

  -- The loop over the snapshots, each sent on the base before it.
  unfoldable pub send_all : FsProcessor → Source → List Source → Act H (Unit {0})
  unfolding send_marked send_args
  send_all fsp base [] = lift (ok tt)
  send_all fsp base (snap ∷ snaps) =
      send_marked fsp (send_args fsp base snap) snap >> send_all fsp snap snaps

  unfoldable pub send_resumed : FsProcessor → Plan → Act H Bool
  unfolding resume_args resume_snapshot send_marked
  send_resumed fsp p =
      let args = resume_args fsp p.resume_token in
      resume_snapshot H fsp args p.base >>= λ snap.
      send_marked fsp args snap >>= λ _. lift (ok true)

  unfoldable pub send_new : FsProcessor → Plan → Act H Bool
  unfolding send_all snaps_behind send_placeholders
  send_new fsp p =
      send_all fsp p.base (snaps_behind fsp p.base) >> send_placeholders H decode C L fsp >>= λ _.
      lift (ok false)

  -- Behind the plan.
  unfoldable pub follow : FsProcessor → Plan → Act H Bool
  unfolding has_no_base send_resumed send_new
  follow fsp p =
      if has_no_base p && not p.force_overwrite
      then lift (err no_common_base)
      else if not (is_empty p.resume_token)
      then send_resumed fsp p
      else send_new fsp p

  -- `GetNextAndSend`: whether to ask for a plan again.
  unfoldable pub get_next_and_send : FsProcessor → Act H Bool
  unfolding fetch_plan follow
  get_next_and_send fsp = fetch_plan H decode C fsp >>= follow fsp

  -- Behind `FillSources`.
  unfoldable pub process_filled : FsProcessor → Act H (Unit {0})
  unfolding snaps_behind send_placeholders is_encrypted get_next_and_send retry_loop
  process_filled fsp =
      let transfer = is_encrypted H fsp.fs >>= λ encrypted.
      retry_loop (get_next_and_send (record fsp { encrypted = encrypted })) 20 in
      if is_empty (snaps_behind fsp no_source) then send_placeholders H decode C L fsp else transfer

  -- `ProcessFs`
  unfoldable pub process_fs : FsProcessor → Act H (Unit {0})
  unfolding fill_sources process_filled
  process_fs fsp = fill_sources H decode C fsp >>= process_filled
