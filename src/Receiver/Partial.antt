-- ===== src/Receiver/Partial.antt =====
-- The token of the receiver's message.
use mathlib.Core.Path.{subst}
use zfsbackup.Base.{
  ◌≡◌, ◌≢◌, refl, sym, ap, ◌∙◌, false, Option, List, [], ◌∷◌, Bytes, codes, arith, is_empty,
  text_eq, text_eq_iff, Result, ok, err, ok-injective, Bool-cases, inl, inr,
}
use zfsbackup.Config.{ReceiverConfig, IncrementalSuggestions}
use zfsbackup.Exec.{Host, lift, attempt, run_ok}
use zfsbackup.Zfs.Json.{Json}
use zfsbackup.Zfs.Table.{zfs_list}
use zfsbackup.Receiver.Suggestion.{
  destination, resume_token_of, with_last, with_overwrite, when_unseen, when_seen, inspect,
  incremental_suggestion,
}
use zfsbackup.Receiver.Full.{unseen_full}

-- A listing of the destination shows it alone, with this token, which is a real one.
pub IsPartial : (H : Host) → (Bytes → Option Json) → Bytes → Bytes → Type 0
IsPartial H decode dest token =
    (name : Bytes) × (more : List Bytes) × (s t : H.State) × (zfs_list H decode
        (codes "name" ∷ codes "receive_resume_token" ∷ []) (codes "filesystem") dest [] s
      ≡ (ok ((name ∷ token ∷ more) ∷ []), t))
    × (is_empty token ≡ false)
    × (token ≢ codes "-")

real_token :
    (token : Bytes)
    → is_empty (resume_token_of token) ≡ false
    → (resume_token_of token ≡ token) × (token ≢ codes "-")
unfolding resume_token_of
real_token token h = elim (Bool-cases (text_eq token (codes "-"))) [
  | inl e ↦ absurd (let q = rw (resume_token_of, e) at h in cc)
  | inr e ↦ (rw (resume_token_of, e) refl, λ same. ground (arith, e, text_eq_iff token (codes "-")))
]

with_last-token :
    (token : Bytes) (rows : List (List Bytes)) {g : IncrementalSuggestions}
    → with_last token rows ≡ ok g
    → g.resume_token ≡ resume_token_of token
unfolding with_last
with_last-token token [] h =
    sym (ap (λ (g : IncrementalSuggestions). g.resume_token) (ok-injective h))
with_last-token token ((name ∷ guid ∷ more) ∷ rows) h =
    sym (ap (λ (g : IncrementalSuggestions). g.resume_token) (ok-injective h))
with_last-token token ((name ∷ []) ∷ rows) h = absurd cc
with_last-token token ([] ∷ rows) h = absurd cc

module _ (H : Host) (decode : Bytes → Option Json) (baseds dest : Bytes) where
  seen-token :
      (token : Bytes) (s : H.State) {t : H.State} {g : IncrementalSuggestions}
      → when_seen H decode dest token s ≡ (ok g, t)
      → g.resume_token ≡ resume_token_of token
  unfolding when_seen
  seen-token token s h =
      let (rows, u, listed, end) =
        run_ok
          (zfs_list H decode (codes "name" ∷ codes "guid" ∷ []) (codes "snapshot") dest
            (codes "-S" ∷ codes "createtxg" ∷ []))
          (λ rows. lift (with_last token rows)) s h in
      with_last-token token rows (ap (λ r. r.0) end)

  unseen-IsPartial :
      (s : H.State) {t : H.State} {g : IncrementalSuggestions}
      → when_unseen H decode baseds dest s ≡ (ok g, t)
      → is_empty g.resume_token ≡ false
      → IsPartial H decode dest g.resume_token
  unseen-IsPartial s h k =
      let (full, _) = unseen_full H decode baseds dest s h in
      absurd (let q = ap (λ (g : IncrementalSuggestions). is_empty g.resume_token) full in cc)

  seen-IsPartial :
      (name token : Bytes) (more : List Bytes) (s u : H.State) {t : H.State}
      {g : IncrementalSuggestions}
      → zfs_list H decode
          (codes "name" ∷ codes "receive_resume_token" ∷ [])
          (codes "filesystem")
          dest
          []
          s
        ≡ (ok ((name ∷ token ∷ more) ∷ []), u)
      → when_seen H decode dest token u ≡ (ok g, t)
      → is_empty g.resume_token ≡ false
      → IsPartial H decode dest g.resume_token
  unfolding IsPartial
  seen-IsPartial name token more s u listed h k =
      let same = seen-token token u h in
      let (kept, real) = real_token token (ap is_empty (sym same) ∙ k) in
      subst (IsPartial H decode dest) (sym (same ∙ kept))
        (name, more, s, u, listed, ap is_empty (sym (same ∙ kept)) ∙ k, real)

  inspect-IsPartial :
      (r : Result (List (List Bytes))) (s u : H.State) {t : H.State} {g : IncrementalSuggestions}
      → zfs_list H decode
          (codes "name" ∷ codes "receive_resume_token" ∷ [])
          (codes "filesystem")
          dest
          []
          s
        ≡ (r, u)
      → inspect H decode baseds dest r u ≡ (ok g, t)
      → is_empty g.resume_token ≡ false
      → IsPartial H decode dest g.resume_token
  unfolding inspect
  inspect-IsPartial (ok ((name ∷ token ∷ more) ∷ [])) s u e h k =
      seen-IsPartial name token more s u e h k
  inspect-IsPartial (ok ([] ∷ [])) s u e h k = absurd cc
  inspect-IsPartial (ok ((n ∷ []) ∷ [])) s u e h k = absurd cc
  inspect-IsPartial (ok []) s u e h k = unseen-IsPartial u h k
  inspect-IsPartial (ok (a ∷ b ∷ c)) s u e h k = unseen-IsPartial u h k
  inspect-IsPartial (err x) s u e h k = unseen-IsPartial u h k

-- A token that the receiver's message has is one that a listing of the destination shows.
pub incremental_suggestion-IsPartial :
    (H : Host) (decode : Bytes → Option Json) (baseds ds : Bytes) (cfg : ReceiverConfig)
    (s : H.State) {t : H.State} {g : IncrementalSuggestions}
    → incremental_suggestion H decode baseds ds cfg s ≡ (ok g, t)
    → is_empty g.resume_token ≡ false
    → IsPartial H decode (destination baseds ds) g.resume_token
unfolding incremental_suggestion with_overwrite
incremental_suggestion-IsPartial H decode baseds ds cfg s h k =
    let dest = destination baseds ds in
    let first =
      zfs_list H decode (codes "name" ∷ codes "receive_resume_token" ∷ []) (codes "filesystem") dest
        [] in
    let (sugg, u, inspected, end) =
      run_ok (attempt first (inspect H decode baseds dest))
        (λ sugg. lift (ok (with_overwrite cfg dest sugg))) s h in
    let same =
      ap (λ (g : IncrementalSuggestions). g.resume_token) (ok-injective (ap (λ r. r.0) end)) in
    let found =
      inspect-IsPartial H decode baseds dest (first s).0 s (first s).1 refl inspected
        (ap is_empty same ∙ k) in
    subst (IsPartial H decode dest) same found
