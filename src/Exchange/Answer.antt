-- ===== src/Exchange/Answer.antt =====
-- What a plan of the sender is made of.
use zfsbackup.Base.{
  ◌≡◌, refl, sym, ap, ◌∙◌, true, Option, none, some, List, [], ◌∷◌, Bytes, codes, text_eq, is_empty,
  if◌then◌else◌, Error, ok, ok-injective, outcome, Option-cases, inl, inr,
}
use zfsbackup.Config.{ReceiverConfig, IncrementalSuggestions}
use zfsbackup.Names.{is_valid_zfs_dataset}
use zfsbackup.Exec.{Host, command, lift, run_ok}
use zfsbackup.Wire.{Codec, Link}
use zfsbackup.Zfs.Json.{Json}
use zfsbackup.Zfs.Bookmarks.{exists}
use zfsbackup.Receiver.Suggestion.{incremental_suggestion}
use zfsbackup.Receiver.Refused.{bool_cases}
use zfsbackup.Receiver.Serve.{serve, dispatch, suggest}
use zfsbackup.Sender.Plan.{
  FsProcessor, Plan, build_receiver_cmd, receiver_args, plan_of, plan_from, fetch_plan,
}
use zfsbackup.Exchange.{asking, Remote}

module _ (H : Host) (decode : Bytes → Option Json) (C : Codec) (L : Link H)
    (cfg : ReceiverConfig) where
  -- What the receiver printed without an error is a message that it made.
  Suggests : Bytes → Bytes → Type 0
  Suggests fs out =
      (r r' : H.State) × (sugg : IncrementalSuggestions) × (incremental_suggestion H decode
          cfg.base_dataset fs cfg r
        ≡ (ok sugg, r'))
      × (out ≡ C.suggestions_text sugg)

  suggested :
      (fs : Bytes) (r : H.State)
      → is_empty (suggest H decode C L cfg.base_dataset fs cfg r).0.1 ≡ true
      → Suggests fs (suggest H decode C L cfg.base_dataset fs cfg r).0.0
  unfolding suggest Suggests
  suggested fs r e =
      let m = incremental_suggestion H decode cfg.base_dataset fs cfg r in
      elim (outcome m.0) [
        | inl (x, k) ↦ absurd (let q = rw (suggest, k) at e in cc)
        | inr (sugg, k) ↦ (r, m.1, sugg, ap (λ x. (x, m.1)) k, rw (suggest, k) refl)
      ]

  serve-Suggests :
      (fs : Bytes) (r : H.State)
      → is_empty (serve H decode C L cfg (asking fs) r).0.1 ≡ true
      → Suggests fs (serve H decode C L cfg (asking fs) r).0.0
  unfolding serve dispatch text_eq
  serve-Suggests fs r e = elim (outcome (is_valid_zfs_dataset cfg.base_dataset)) [
    | inl (f, p) ↦ absurd (let q = rw (serve, p) at e in cc)
    | inr (u, p) ↦ elim (bool_cases (exists H decode cfg.base_dataset r).0) [
      | inr (inl k) ↦ absurd (let q = rw (serve, p, k) at e in cc)
      | inr (inr (f, k)) ↦ absurd (let q = rw (serve, p, k) at e in cc)
      | inl k ↦ elim (outcome (is_valid_zfs_dataset fs)) [
        | inl (f, v) ↦ absurd (let q = rw (serve, p, k, v) at e in cc)
        | inr (u', v) ↦
            let r1 = (exists H decode cfg.base_dataset r).1 in
            rw (serve, p, k, v) (suggested fs r1 (rw (serve, p, k, v) at e))
      ]
    ]
  ]

output_of :
    (H : Host) (name : Bytes) (args : List Bytes) (s : H.State) {out : Bytes} {t : H.State}
    → command H name args s ≡ (ok out, t)
    → (H.output name args s).0 ≡ some out
unfolding command
output_of H name args s h = elim (Option-cases (H.output name args s).0) [
  | inl e ↦ absurd (let q = rw (command, e) at h in cc)
  | inr (b, e) ↦ let q = rw (command, e) at h in e ∙ ap some (ok-injective (ap (λ x. x.0) q))
]

printed_of :
    (es : List Error) (o out : Bytes)
    → (if is_empty es then some o else none) ≡ some out
    → (is_empty es ≡ true) × (o ≡ out)
printed_of [] o out e = (refl, cc)
printed_of (x ∷ xs) o out e = absurd (cc)

module _ {H : Host} {C : Codec} (fsp : FsProcessor) (R : Remote H C fsp.dst.receiver)
    (decode : Bytes → Option Json) where
  -- The plan is made of a message of the receiver.
  unfoldable pub Answered : Plan → Type 0
  Answered p =
      (r r' : R.host.State) × (sugg : IncrementalSuggestions) × (incremental_suggestion R.host
          R.decode R.cfg.base_dataset fsp.fs R.cfg r
        ≡ (ok sugg, r'))
      × (plan_of fsp.sources sugg ≡ p)

  pub planned :
      (s : H.State) {p : Plan} {t : H.State} → fetch_plan H decode C fsp s ≡ (ok p, t) → Answered p
  unfolding fetch_plan Answered Suggests plan_from
  planned s h =
      let args = receiver_args (codes "incremental_suggestions") fsp.fs in
      let cmd = build_receiver_cmd fsp.dst.receiver args in
      let (out, u, ran, read) =
        run_ok (command H cmd.0 cmd.1)
          (λ out. lift (plan_from fsp.sources (C.read_suggestions out))) s h in
      let reply = serve R.host R.decode C R.link R.cfg (asking fsp.fs) (R.seen s) in
      let printed = output_of H cmd.0 cmd.1 s ran in
      let (clean, same) =
        printed_of reply.0.1 reply.0.0 out (sym (ap (λ x. x.0) (R.answers fsp.fs s)) ∙ printed) in
      let (r, r', sugg, made, text) =
        serve-Suggests R.host R.decode C R.link R.cfg fsp.fs (R.seen s) clean in
      let readable = ap C.read_suggestions (sym same ∙ text) ∙ R.read_back sugg in
      let plan = sym (ap (plan_from fsp.sources) readable) ∙ ap (λ x. x.0) read in
      (r, r', sugg, made, ok-injective plan)
