-- ===== src/Receiver/Refused.antt =====
-- Requests that the receiver does not carry out.
use zfsbackup.Base.{
  ◌≡◌, refl, ◌⊎◌, inl, inr, Bool, true, false, Option, [], Bytes, is_empty, outcome, Error, Result,
  ok, err,
}
use zfsbackup.Config.{ReceiverConfig}
use zfsbackup.Names.{is_valid_zfs_dataset}
use zfsbackup.Exec.{Host}
use zfsbackup.Wire.{Codec, Link}
use zfsbackup.Zfs.Json.{Json}
use zfsbackup.Zfs.Bookmarks.{exists}
use zfsbackup.Receiver.Serve.{Request, serve}

pub bool_cases : (r : Result Bool) → (r ≡ ok true) ⊎ ((r ≡ ok false) ⊎ ((e : Error) × (r ≡ err e)))
bool_cases (ok true) = inl refl
bool_cases (ok false) = inr (inl refl)
bool_cases (err e) = inr (inr (e, refl))

-- A request for a dataset whose name is not valid, whatever the operation, is refused: nothing is
-- printed, there is an error, and no command runs but the check that the base dataset exists.
pub serve_refused :
    (H : Host) (decode : Bytes → Option Json) (C : Codec) (L : Link H) (cfg : ReceiverConfig)
    (q : Request) (s : H.State) {e : Error}
    → is_valid_zfs_dataset q.dataset ≡ err e
    → let (reply, t) = serve H decode C L cfg q s in
      (reply.0 ≡ [])
      × (is_empty reply.1 ≡ false)
      × ((t ≡ s) ⊎ (t ≡ (exists H decode cfg.base_dataset s).1))
unfolding serve
serve_refused H decode C L cfg q s {e = e} h =
    elim (outcome (is_valid_zfs_dataset cfg.base_dataset)) [
      | inl (f, p) ↦ rw (serve, p) (refl, refl, inl refl)
      | inr (u, p) ↦ elim (bool_cases (exists H decode cfg.base_dataset s).0) [
        | inl r ↦ rw (serve, p, r, h) (refl, refl, inr refl)
        | inr (inl r) ↦ rw (serve, p, r) (refl, refl, inr refl)
        | inr (inr (f, r)) ↦ rw (serve, p, r) (refl, refl, inr refl)
      ]
    ]
