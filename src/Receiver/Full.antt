-- ===== src/Receiver/Full.antt =====
-- When the receiver asks for a full stream.
use zfsbackup.Base.{
  ◌≡◌, ◌≢◌, sym, ap, ◌∙◌, true, false, Option, List, [], ◌∷◌, Bytes, codes, arith, text_eq,
  text_eq_iff, All, Result, ok, err, ok-injective, Bool-cases, inl, inr,
}
use zfsbackup.Config.{ReceiverConfig, IncrementalSuggestions}
use zfsbackup.Exec.{Host, lift, attempt, run_ok}
use zfsbackup.Zfs.Json.{Json}
use zfsbackup.Zfs.Table.{zfs_list}
use zfsbackup.Receiver.Suggestion.{
  destination, no_suggestions, confirm_absent, with_last, with_overwrite, when_unseen, when_seen,
  inspect, incremental_suggestion,
}

-- A row of another file system.
abbrev pub IsOther : Bytes → List Bytes → Type 0
IsOther dest [] = Unit
IsOther dest (name ∷ _) = name ≢ dest

confirm_absent_sound :
    (dest : Bytes) (rows : List (List Bytes)) {g : IncrementalSuggestions}
    → confirm_absent dest rows ≡ ok g
    → (g ≡ record no_suggestions { send_full = true }) × All (IsOther dest) rows
unfolding confirm_absent
confirm_absent_sound dest [] h = (sym (ok-injective h), tt)
confirm_absent_sound dest ([] ∷ rows) h = absurd cc
confirm_absent_sound dest ((name ∷ r) ∷ rows) h = elim (Bool-cases (text_eq name dest)) [
  | inl e ↦ absurd (ground arith)
  | inr e ↦
      let (g, others) = confirm_absent_sound dest rows (ground arith) in
      (g, (ground (arith, text_eq_iff name dest), others))
]

with_last_partial :
    (token : Bytes) (rows : List (List Bytes)) {g : IncrementalSuggestions}
    → with_last token rows ≡ ok g
    → g.send_full ≡ false
unfolding with_last
with_last_partial token [] h =
    ap (λ (g : IncrementalSuggestions). g.send_full) (sym (ok-injective h))
with_last_partial token ((name ∷ guid ∷ r) ∷ rows) h =
    ap (λ (g : IncrementalSuggestions). g.send_full) (sym (ok-injective h))
with_last_partial token ((name ∷ []) ∷ rows) h = absurd cc
with_last_partial token ([] ∷ rows) h = absurd cc

-- Some listing of the file systems below the base succeeds, and shows no such destination.
pub IsAbsent : (H : Host) → (Bytes → Option Json) → Bytes → Bytes → Type 0
IsAbsent H decode baseds dest =
    (rows : List (List Bytes)) × (s t : H.State) × (zfs_list H decode (codes "name" ∷ [])
        (codes "filesystem") baseds (codes "-r" ∷ []) s
      ≡ (ok rows, t))
    × All (IsOther dest) rows

module _ (H : Host) (decode : Bytes → Option Json) (baseds dest : Bytes) where
  pub unseen_full :
      (s : H.State) {t : H.State} {g : IncrementalSuggestions}
      → when_unseen H decode baseds dest s ≡ (ok g, t)
      → (g ≡ record no_suggestions { send_full = true }) × IsAbsent H decode baseds dest
  unfolding when_unseen IsAbsent
  unseen_full s h =
      let (rows, u, listed, end) =
        run_ok (zfs_list H decode (codes "name" ∷ []) (codes "filesystem") baseds (codes "-r" ∷ []))
          (λ rows. lift (confirm_absent dest rows)) s h in
      let (e, others) = confirm_absent_sound dest rows (ap (λ r. r.0) end) in
      (e, (rows, s, u, listed, others))

  seen_partial :
      (token : Bytes) (s : H.State) {t : H.State} {g : IncrementalSuggestions}
      → when_seen H decode dest token s ≡ (ok g, t)
      → g.send_full ≡ false
  unfolding when_seen
  seen_partial token s h =
      let (rows, u, listed, end) =
        run_ok
          (zfs_list H decode (codes "name" ∷ codes "guid" ∷ []) (codes "snapshot") dest
            (codes "-S" ∷ codes "createtxg" ∷ []))
          (λ rows. lift (with_last token rows)) s h in
      with_last_partial token rows (ap (λ r. r.0) end)

  inspect_full :
      (r : Result (List (List Bytes))) (s : H.State) {t : H.State} {g : IncrementalSuggestions}
      → inspect H decode baseds dest r s ≡ (ok g, t)
      → g.send_full ≡ true
      → (g ≡ record no_suggestions { send_full = true }) × IsAbsent H decode baseds dest
  unfolding inspect
  inspect_full (ok ((n ∷ token ∷ r) ∷ [])) s h k =
      let partial = seen_partial token s h in absurd (ground arith)
  inspect_full (ok ([] ∷ [])) s h k = absurd cc
  inspect_full (ok ((n ∷ []) ∷ [])) s h k = absurd cc
  inspect_full (ok []) s h k = unseen_full s h
  inspect_full (ok (a ∷ b ∷ c)) s h k = unseen_full s h
  inspect_full (err e) s h k = unseen_full s h

kept_full :
    (cfg : ReceiverConfig) (dest : Bytes) (sugg : IncrementalSuggestions)
    {g : IncrementalSuggestions}
    → with_overwrite cfg dest sugg ≡ g
    → g.send_full ≡ true
    → sugg.send_full ≡ true
unfolding with_overwrite
kept_full cfg dest sugg e k = ap (λ (g : IncrementalSuggestions). g.send_full) e ∙ k

kept_empty :
    (cfg : ReceiverConfig) (dest : Bytes) (sugg : IncrementalSuggestions)
    {g : IncrementalSuggestions}
    → sugg ≡ record no_suggestions { send_full = true }
    → with_overwrite cfg dest sugg ≡ g
    → (g.resume_token ≡ []) × (g.last_snapshot ≡ []) × (g.guid ≡ [])
unfolding with_overwrite
kept_empty cfg dest sugg f e = (
  sym (ap (λ (g : IncrementalSuggestions). g.resume_token) e)
      ∙ ap (λ (g : IncrementalSuggestions). g.resume_token) f,
  sym (ap (λ (g : IncrementalSuggestions). g.last_snapshot) e)
      ∙ ap (λ (g : IncrementalSuggestions). g.last_snapshot) f,
  sym (ap (λ (g : IncrementalSuggestions). g.guid) e)
      ∙ ap (λ (g : IncrementalSuggestions). g.guid) f,
)

-- Where the receiver asks for a full stream, some listing of the file systems below the base
-- succeeded and did not show the destination, and the message has no token and no base.
pub incremental_suggestion_full :
    (H : Host) (decode : Bytes → Option Json) (baseds ds : Bytes) (cfg : ReceiverConfig)
    (s : H.State) {t : H.State} {g : IncrementalSuggestions}
    → incremental_suggestion H decode baseds ds cfg s ≡ (ok g, t)
    → g.send_full ≡ true
    → IsAbsent H decode baseds (destination baseds ds)
      × (g.resume_token ≡ [])
      × (g.last_snapshot ≡ [])
      × (g.guid ≡ [])
unfolding incremental_suggestion
incremental_suggestion_full H decode baseds ds cfg s h k =
    let dest = destination baseds ds in
    let first =
      zfs_list H decode (codes "name" ∷ codes "receive_resume_token" ∷ []) (codes "filesystem") dest
        [] in
    let (sugg, u, inspected, end) =
      run_ok (attempt first (inspect H decode baseds dest))
        (λ sugg. lift (ok (with_overwrite cfg dest sugg))) s h in
    let e = ok-injective (ap (λ r. r.0) end) in
    let (full, absent) =
      inspect_full H decode baseds dest (first s).0 (first s).1 inspected
        (kept_full cfg dest sugg e k) in
    let (no_token, no_name, no_guid) = kept_empty cfg dest sugg full e in
    (absent, no_token, no_name, no_guid)
