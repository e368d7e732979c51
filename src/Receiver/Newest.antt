-- ===== src/Receiver/Newest.antt =====
-- The GUID that the receiver asks to start from, and its leave to overwrite.
use mathlib.Core.Path.{subst}
use zfsbackup.Base.{
  ◌≡◌, sym, ap, ◌∙◌, false, Option, List, [], ◌∷◌, Bytes, codes, contains, is_empty, Result, ok,
  err, ok-injective,
}
use zfsbackup.Config.{ReceiverConfig, IncrementalSuggestions}
use zfsbackup.Exec.{Host, lift, attempt, run_ok}
use zfsbackup.Zfs.Json.{Json}
use zfsbackup.Zfs.Table.{zfs_list}
use zfsbackup.Receiver.Suggestion.{
  destination, with_last, with_overwrite, when_unseen, when_seen, inspect, incremental_suggestion,
}
use zfsbackup.Receiver.Full.{unseen_full}

-- A listing of the snapshots of the destination, newest first, begins with one of this GUID.
pub IsNewest : (H : Host) → (Bytes → Option Json) → Bytes → Bytes → Type 0
IsNewest H decode dest guid =
    (name : Bytes) × (more : List Bytes) × (rows : List (List Bytes)) × (s t : H.State) × (zfs_list
        H decode (codes "name" ∷ codes "guid" ∷ []) (codes "snapshot") dest
        (codes "-S" ∷ codes "createtxg" ∷ []) s
      ≡ (ok ((name ∷ guid ∷ more) ∷ rows), t))

module _ (H : Host) (decode : Bytes → Option Json) (baseds dest : Bytes) where
  first_row :
      (token : Bytes) (rows : List (List Bytes)) (s t : H.State) {g : IncrementalSuggestions}
      → zfs_list H decode
          (codes "name" ∷ codes "guid" ∷ [])
          (codes "snapshot")
          dest
          (codes "-S" ∷ codes "createtxg" ∷ [])
          s
        ≡ (ok rows, t)
      → with_last token rows ≡ ok g
      → is_empty g.guid ≡ false
      → IsNewest H decode dest g.guid
  unfolding with_last IsNewest
  first_row token [] s t e h k =
      absurd (let q = ap (λ (g : IncrementalSuggestions). is_empty g.guid) (ok-injective h) in cc)
  first_row token ((name ∷ guid ∷ more) ∷ rows) s t {g} e h k =
      let q = ap (λ (g : IncrementalSuggestions). g.guid) (ok-injective h) in
      (name, more, rows, s, t, rw (sym q) e)
  first_row token ((name ∷ []) ∷ rows) s t e h k = absurd cc
  first_row token ([] ∷ rows) s t e h k = absurd cc

  seen-IsNewest :
      (token : Bytes) (s : H.State) {t : H.State} {g : IncrementalSuggestions}
      → when_seen H decode dest token s ≡ (ok g, t)
      → is_empty g.guid ≡ false
      → IsNewest H decode dest g.guid
  unfolding when_seen
  seen-IsNewest token s h k =
      let (rows, u, listed, end) =
        run_ok
          (zfs_list H decode (codes "name" ∷ codes "guid" ∷ []) (codes "snapshot") dest
            (codes "-S" ∷ codes "createtxg" ∷ []))
          (λ rows. lift (with_last token rows)) s h in
      first_row token rows s u listed (ap (λ r. r.0) end) k

  unseen-IsNewest :
      (s : H.State) {t : H.State} {g : IncrementalSuggestions}
      → when_unseen H decode baseds dest s ≡ (ok g, t)
      → is_empty g.guid ≡ false
      → IsNewest H decode dest g.guid
  unseen-IsNewest s h k =
      let (full, _) = unseen_full H decode baseds dest s h in
      absurd (let q = ap (λ (g : IncrementalSuggestions). is_empty g.guid) full in cc)

  inspect-IsNewest :
      (r : Result (List (List Bytes))) (s : H.State) {t : H.State} {g : IncrementalSuggestions}
      → inspect H decode baseds dest r s ≡ (ok g, t)
      → is_empty g.guid ≡ false
      → IsNewest H decode dest g.guid
  unfolding inspect
  inspect-IsNewest (ok ((n ∷ token ∷ r) ∷ [])) s h k = seen-IsNewest token s h k
  inspect-IsNewest (ok ([] ∷ [])) s h k = absurd cc
  inspect-IsNewest (ok ((n ∷ []) ∷ [])) s h k = absurd cc
  inspect-IsNewest (ok []) s h k = unseen-IsNewest s h k
  inspect-IsNewest (ok (a ∷ b ∷ c)) s h k = unseen-IsNewest s h k
  inspect-IsNewest (err e) s h k = unseen-IsNewest s h k

-- A GUID that the receiver's message has is that of the newest snapshot of the destination.
pub incremental_suggestion-IsNewest :
    (H : Host) (decode : Bytes → Option Json) (baseds ds : Bytes) (cfg : ReceiverConfig)
    (s : H.State) {t : H.State} {g : IncrementalSuggestions}
    → incremental_suggestion H decode baseds ds cfg s ≡ (ok g, t)
    → is_empty g.guid ≡ false
    → IsNewest H decode (destination baseds ds) g.guid
unfolding incremental_suggestion with_overwrite
incremental_suggestion-IsNewest H decode baseds ds cfg s h k =
    let dest = destination baseds ds in
    let first =
      zfs_list H decode (codes "name" ∷ codes "receive_resume_token" ∷ []) (codes "filesystem") dest
        [] in
    let (sugg, u, inspected, end) =
      run_ok (attempt first (inspect H decode baseds dest))
        (λ sugg. lift (ok (with_overwrite cfg dest sugg))) s h in
    let same = ap (λ (g : IncrementalSuggestions). g.guid) (ok-injective (ap (λ r. r.0) end)) in
    let found =
      inspect-IsNewest H decode baseds dest (first s).0 (first s).1 inspected
        (ap is_empty same ∙ k) in
    subst (IsNewest H decode dest) same found

-- The message gives leave to overwrite exactly the destinations of the configuration.
pub incremental_suggestion_leave :
    (H : Host) (decode : Bytes → Option Json) (baseds ds : Bytes) (cfg : ReceiverConfig)
    (s : H.State) {t : H.State} {g : IncrementalSuggestions}
    → incremental_suggestion H decode baseds ds cfg s ≡ (ok g, t)
    → g.force_overwrite ≡ contains cfg.force_overwrite_datasets (destination baseds ds)
unfolding incremental_suggestion with_overwrite
incremental_suggestion_leave H decode baseds ds cfg s h =
    let dest = destination baseds ds in
    let first =
      zfs_list H decode (codes "name" ∷ codes "receive_resume_token" ∷ []) (codes "filesystem") dest
        [] in
    let (sugg, u, inspected, end) =
      run_ok (attempt first (inspect H decode baseds dest))
        (λ sugg. lift (ok (with_overwrite cfg dest sugg))) s h in
    sym (ap (λ (g : IncrementalSuggestions). g.force_overwrite) (ok-injective (ap (λ r. r.0) end)))
