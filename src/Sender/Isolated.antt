-- ===== src/Sender/Isolated.antt =====
-- A destination that fails does not keep the others from their turn.
use zfsbackup.Base.{◌≡◌, refl, Option, List, [], ◌∷◌, ◌++◌, Bytes, Error, Result, ok, err}
use zfsbackup.Config.{SenderConfig, DestinationConfig}
use zfsbackup.Exec.{Host, errors_of, run_each}
use zfsbackup.Wire.{Codec, Link, Tools}
use zfsbackup.Zfs.Json.{Json}
use zfsbackup.Sender.Round.{process_fs}
use zfsbackup.Sender.Job.{new_fs_processor, process_destination, process_filesystem}

module _ (H : Host) (decode : Bytes → Option Json) (C : Codec) (L : Link H) (T : Tools)
    (sc : SenderConfig) (fs : Bytes) where
  -- From the first state to the second, ProcessFs runs once for each of the destinations, in order
  -- and each in the state that the one before it leaves; the errors are those of the runs that
  -- failed, one for each, in order.
  pub data Turns : List DestinationConfig → H.State → List Error → H.State → Type 0 where
    no_turn : (s : H.State) → Turns [] s [] s
    succeeded :
        {s u t : H.State} {dst : DestinationConfig} {dsts : List DestinationConfig}
        {es : List Error}
        → process_fs H decode C L (new_fs_processor T.matches fs sc dst) s ≡ (ok tt, u)
        → Turns dsts u es t
        → Turns (dst ∷ dsts) s es t
    failed :
        {s u t : H.State} {dst : DestinationConfig} {dsts : List DestinationConfig}
        {es : List Error} {e : Error}
        → process_fs H decode C L (new_fs_processor T.matches fs sc dst) s ≡ (err e, u)
        → Turns dsts u es t
        → Turns (dst ∷ dsts) s (e ∷ es) t

  turn_then :
      (dst : DestinationConfig) (dsts : List DestinationConfig) (s : H.State)
      (r : Result (Unit {0})) (u : H.State) {es : List Error} {t : H.State}
      → process_fs H decode C L (new_fs_processor T.matches fs sc dst) s ≡ (r, u)
      → Turns dsts u es t
      → Turns (dst ∷ dsts) s (errors_of r ++ es) t
  unfolding errors_of
  turn_then dst dsts s (ok tt) u e rest = succeeded e rest
  turn_then dst dsts s (err x) u e rest = failed e rest

  each-Turns :
      (dsts : List DestinationConfig) (s : H.State)
      → let (es, t) = run_each (process_destination H decode C L T sc fs) dsts s in
        Turns dsts s es t
  unfolding run_each process_destination
  each-Turns [] s = no_turn s
  each-Turns (dst ∷ dsts) s =
      let (r, u) = process_fs H decode C L (new_fs_processor T.matches fs sc dst) s in
      turn_then dst dsts s r u refl (each-Turns dsts u)

  -- processFilesystem runs ProcessFs once for each destination, in the order of the configuration
  -- and whatever fails before it, each run in the state that the one before it leaves. It ends in
  -- the state behind the last run, and its errors are those of the runs that failed, one for each,
  -- in order.
  pub process_filesystem-Turns :
      (s : H.State)
      → let (es, t) = process_filesystem H decode C L T sc fs s in Turns sc.destinations s es t
  unfolding process_filesystem
  process_filesystem-Turns s = each-Turns sc.destinations s
