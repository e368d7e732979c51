-- ===== src/Exchange/Sent.antt =====
-- What is sent, by what the receiver saw.
use mathlib.Core.Path.{subst}
use mathlib.Core.List.{Memᴰ}
use zfsbackup.Base.{
  ◌≡◌, sym, ap, ◌∙◌, Bool, true, false, not, ◌&&◌, ◌||◌, Option, List, [], ◌∷◌, ◌++◌, Bytes, codes,
  arith, contains, is_empty, ok, ok-injective, Bool-cases, inl, inr, if◌then◌else◌,
}
use zfsbackup.Exec.{Host, ◌>>=◌, ◌>>◌, lift, run_ok}
use zfsbackup.Wire.{Codec, Link}
use zfsbackup.Zfs.Json.{Json}
use zfsbackup.Receiver.Suggestion.{destination}
use zfsbackup.Receiver.Full.{IsAbsent, incremental_suggestion_full}
use zfsbackup.Receiver.Newest.{
  IsNewest, incremental_suggestion-IsNewest, incremental_suggestion_leave,
}
use zfsbackup.Receiver.Partial.{IsPartial, incremental_suggestion-IsPartial}
use zfsbackup.Sender.Source.{Source, no_source}
use zfsbackup.Sender.Plan.{FsProcessor, Plan, fetch_plan}
use zfsbackup.Sender.Resume.{resume_snapshot}
use zfsbackup.Sender.Transfer.{resume_args}
use zfsbackup.Sender.Marks.{send_placeholders}
use zfsbackup.Sender.Round.{
  has_no_base, snaps_behind, send_marked, send_all, send_new, send_resumed, follow,
  get_next_and_send,
}
use zfsbackup.Sender.Streams.{Streams, Marked, send_marked-Marked, send_all-Streams}
use zfsbackup.Exchange.{Remote}
use zfsbackup.Exchange.Planned.{
  plan_of_base, plan_of_full, plan_of_leave, plan_of_alone, plan_of_token, base_for_sound,
}
use zfsbackup.Exchange.Answer.{Answered, planned}

-- The arguments that resume the stream of a token.
pub resume_with : FsProcessor → Bytes → List Bytes
resume_with fsp token =
    codes "send" ∷ (if fsp.dst.raw_send then codes "-w" ∷ [] else []) ++ codes "-t" ∷ token ∷ []

module _ {H : Host} {C : Codec} (fsp : FsProcessor) (R : Remote H C fsp.dst.receiver)
    (decode : Bytes → Option Json) (L : Link H) where
  -- Where the file system goes on the backup host.
  abbrev pub stored_at : Bytes
  stored_at = destination R.cfg.base_dataset fsp.fs

  -- The snapshots behind a base were sent, and the placeholders of the destination after them.
  pub Behind : Source → H.State → H.State → Type 0
  Behind base s t =
      (u : H.State) × Streams H decode C L fsp base (snaps_behind fsp base) s u
      × (send_placeholders H decode C L fsp u ≡ (ok tt, t))

  -- What was sent between two states, and what allowed it. Nothing was at the destination when the
  -- receiver listed the file systems below its base, and snapshots went there with no base; the
  -- destination's newest snapshot has the GUID of a source, and snapshots went there on this
  -- source; the receiver's configuration gives leave to overwrite the destination, and snapshots
  -- went there with no base; or a listing of the destination showed the token of a part of a
  -- stream, and the rest of the stream of this token went there.
  pub data IsAllowed (s t : H.State) : Bool → Type 0 where
    absent :
        IsAbsent R.host R.decode R.cfg.base_dataset stored_at
        → Behind no_source s t
        → IsAllowed s t false
    continued :
        (guid : Bytes) (base : Source)
        → IsNewest R.host R.decode stored_at guid
        → base.guid ≡ guid
        → Memᴰ base fsp.sources
        → is_empty base.name ≡ false
        → Behind base s t
        → IsAllowed s t false
    overwritten :
        (base : Source)
        → contains R.cfg.force_overwrite_datasets stored_at ≡ true
        → is_empty base.name ≡ true
        → Behind base s t
        → IsAllowed s t false
    resumed :
        (token : Bytes) (base snap : Source) (u : H.State)
        → IsPartial R.host R.decode stored_at token
        → resume_snapshot H fsp (resume_with fsp token) base s ≡ (ok snap, u)
        → Marked H decode C L fsp snap (resume_with fsp token) u t
        → IsAllowed s t true

  send_new-IsAllowed :
      (p : Plan) (s : H.State) {t : H.State}
      → Answered fsp R decode p
      → (p.send_full || not (is_empty p.base.name) || p.force_overwrite) ≡ true
      → Behind p.base s t
      → IsAllowed s t false
  unfolding Answered
  send_new-IsAllowed p s {t = t} (r, r', sugg, made, e) some_way sent =
      elim (Bool-cases p.send_full) [
        | inl f ↦
            let full = ap (λ (q : Plan). q.send_full) e ∙ f in
            let asked = sym (plan_of_full fsp.sources sugg) ∙ full in
            let no_base =
              sym (ap (λ (q : Plan). q.base) e) ∙ (plan_of_alone fsp.sources sugg full).0 in
            absent
              (incremental_suggestion_full R.host R.decode R.cfg.base_dataset fsp.fs R.cfg r made
                asked).0
              (subst (λ b. Behind b s t) no_base sent)
        | inr f ↦ elim (Bool-cases (is_empty p.base.name)) [
          | inr b ↦
              let (guid, (source, known, same)) =
                plan_of_base fsp.sources sugg (ap (λ (q : Plan). is_empty q.base.name) e ∙ b) in
              let (of_guid, mem) = base_for_sound fsp.sources sugg.guid known in
              let to_source = sym (ap (λ (q : Plan). q.base) e) ∙ same in
              continued sugg.guid source
                (incremental_suggestion-IsNewest R.host R.decode R.cfg.base_dataset fsp.fs R.cfg r
                  made guid)
                of_guid mem (ap (λ (b : Source). is_empty b.name) (sym to_source) ∙ b)
                (subst (λ b. Behind b s t) to_source sent)
          | inl b ↦
              let leave : p.force_overwrite ≡ true = ground (arith, some_way, f, b) in
              overwritten p.base
                (sym (
                    incremental_suggestion_leave R.host R.decode R.cfg.base_dataset fsp.fs R.cfg r
                      made)
                  ∙ sym (plan_of_leave fsp.sources sugg)
                  ∙ ap (λ (q : Plan). q.force_overwrite) e
                  ∙ leave)
                b sent
        ]
      ]

  plan-IsPartial :
      (p : Plan)
      → Answered fsp R decode p
      → is_empty p.resume_token ≡ false
      → IsPartial R.host R.decode stored_at p.resume_token
  unfolding Answered
  plan-IsPartial p (r, r', sugg, made, e) k =
      let own = ap (λ (q : Plan). q.resume_token) e in
      let same = plan_of_token fsp.sources sugg (ap is_empty own ∙ k) in
      subst (IsPartial R.host R.decode stored_at) (sym same ∙ own) (
        incremental_suggestion-IsPartial R.host R.decode R.cfg.base_dataset fsp.fs R.cfg r made
          (ap is_empty (sym same ∙ own) ∙ k))

  send_new-Behind :
      (p : Plan) (s : H.State) {again : Bool} {t : H.State}
      → send_new H decode C L fsp p s ≡ (ok again, t)
      → (again ≡ false) × Behind p.base s t
  unfolding send_new Behind
  send_new-Behind p s h =
      let all = send_all H decode C L fsp p.base (snaps_behind fsp p.base) in
      let marks = send_placeholders H decode C L fsp in
      let (_, v, both, end) = run_ok (all >> marks) (λ _. lift (ok false)) s h in
      let (_, u, sent, noted) = run_ok all (λ _. marks) s both in
      (
        sym (ok-injective (ap (λ r. r.0) end)),
        (
          u,
          send_all-Streams H decode C L fsp p.base (snaps_behind fsp p.base) s sent,
          noted ∙ ap (λ t. (ok tt, t)) (ap (λ r. r.1) end),
        ),
      )

  send_resumed-IsAllowed :
      (p : Plan) (s : H.State) {again : Bool} {t : H.State}
      → send_resumed H decode C L fsp p s ≡ (ok again, t)
      → IsPartial R.host R.decode stored_at p.resume_token
      → IsAllowed s t again
  unfolding send_resumed resume_args resume_with
  send_resumed-IsAllowed p s {t = t} h partial =
      let args = resume_args fsp p.resume_token in
      let (snap, u, found, rest) =
        run_ok (resume_snapshot H fsp args p.base)
          (λ snap. send_marked H decode C L fsp args snap >>= λ _. lift (ok true)) s h in
      let (_, v, sent, end) =
        run_ok (send_marked H decode C L fsp args snap) (λ _. lift (ok true)) u rest in
      subst (IsAllowed s t) (ok-injective (ap (λ r. r.0) end)) (
        resumed p.resume_token p.base snap u partial found (
          send_marked-Marked H decode C L fsp args snap u
            (sent ∙ ap (λ t. (ok tt, t)) (ap (λ r. r.1) end))))

  follow-IsAllowed :
      (p : Plan) (s : H.State) {again : Bool} {t : H.State}
      → Answered fsp R decode p
      → follow H decode C L fsp p s ≡ (ok again, t)
      → IsAllowed s t again
  unfolding follow has_no_base
  follow-IsAllowed p s {again = again} {t = t} answered h =
      elim (Bool-cases (has_no_base p && not p.force_overwrite)) [
        | inl e ↦ absurd (ground (arith, e))
        | inr e ↦ elim (Bool-cases (is_empty p.resume_token)) [
          | inr k ↦
              let went : send_resumed H decode C L fsp p s ≡ (ok again, t) = ground (arith, e, k) in
              send_resumed-IsAllowed p s went (plan-IsPartial p answered k)
          | inl k ↦
              let went : send_new H decode C L fsp p s ≡ (ok again, t) = ground (arith, e, k) in
              let (stops, sent) = send_new-Behind p s went in
              subst (IsAllowed s t) (sym stops)
                (send_new-IsAllowed p s answered (ground (arith, e, k)) sent)
        ]
      ]

  -- Where GetNextAndSend succeeds with the receiver of the destination, a plan was fetched and what
  -- was sent behind it is one of these. The snapshots that ActualSnapsToSend chooses went, each on
  -- the one before it, and then the placeholders: with no base and the first one whole, to a
  -- destination that was not there when the receiver listed the file systems below its base, or that
  -- the receiver's configuration gives leave to overwrite; or, the first one as an increment, on a
  -- source that has the GUID of the destination's newest snapshot. Or the rest of the stream went
  -- whose token a listing of the destination showed, and only then another round is asked for.
  pub get_next_and_send-IsAllowed :
      (s : H.State) {retry : Bool} {t : H.State}
      → get_next_and_send H decode C L fsp s ≡ (ok retry, t)
      → (p : Plan) × (u : H.State) × (fetch_plan H decode C fsp s ≡ (ok p, u)) × IsAllowed u t retry
  unfolding get_next_and_send
  get_next_and_send-IsAllowed s h =
      let (p, u, e, sent) = run_ok (fetch_plan H decode C fsp) (follow H decode C L fsp) s h in
      (p, u, e, follow-IsAllowed p u (planned fsp R decode s e) sent)
