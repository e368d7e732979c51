-- ===== src/Commands/Exits.antt =====
-- When a process ends with the status 0.
use zfsbackup.Base.{
  ◌≡◌, refl, sym, ap, ◌∙◌, Bool, true, false, Option, none, some, List, [], ◌∷◌, Bytes, pos, arith,
  is_empty, Error, Result, ok, err, ok-injective, unexpected_arguments, cannot_parse, no_section,
  inl, inr, Bool-cases,
}
use mathlib.Core.Path.{subst, ap₂}
use zfsbackup.Config.{Config, SenderConfig}
use zfsbackup.Exec.{lift, run_ok}
use zfsbackup.Run.{Machine}
use zfsbackup.Workers.{Launched, Returns, Divided}
use zfsbackup.Sender.Job.{process_filesystem}
use zfsbackup.Sender.Parallel.{launch}
use zfsbackup.Commands.Start.{
  Given, Setup, flag, require, require_some, load_config, begin, check_limit, exit_status, Exits,
  sender_main,
}

exit_status_zero : (es : List Error) → 0 ≡ exit_status es → es ≡ []
unfolding exit_status
exit_status_zero [] e = refl
exit_status_zero (x ∷ xs) e = absurd (omega (arith, e))

require-ok : (e : Error) (b : Bool) → require e b ≡ ok tt → b ≡ true
unfolding require
require-ok e true h = refl
require-ok e false h = absurd (cc)

require_some-ok :
    {A : Type 0} (e : Error) (o : Option A) {a : A} → require_some e o ≡ ok a → o ≡ some a
unfolding require_some
require_some-ok e none h = absurd (cc)
require_some-ok e (some b) h = cc

-- The file was opened, then locked, then decoded, and nothing else was done.
abbrev pub IsLoaded : {S : Type 0} → Setup S → Bytes → S → Config → S → Type 0
IsLoaded U path s cfg s' =
    (U.open_file path s).0 ≡ true
    × (U.lock_file path (U.open_file path s).1).0 ≡ true
    × (U.decode_config path (U.lock_file path (U.open_file path s).1).1 ≡ (some cfg, s'))

load_config-IsLoaded :
    {S : Type 0} (U : Setup S) (path : Bytes) (s : S) {cfg : Config} {s' : S}
    → load_config U path s ≡ (ok cfg, s')
    → IsLoaded U path s cfg s'
unfolding load_config require_some
load_config-IsLoaded U path s e = elim (Bool-cases (U.open_file path s).0) [
  | inr h ↦ absurd (let q = rw (load_config, h) at e in cc)
  | inl h ↦ elim (Bool-cases (U.lock_file path (U.open_file path s).1).0) [
    | inr k ↦ absurd (let q = rw (load_config, h, k) at e in cc)
    | inl k ↦
        let d = U.decode_config path (U.lock_file path (U.open_file path s).1).1 in
        let q = rw (load_config, h, k) at e in
        let decoded = require_some-ok cannot_parse d.0 (ap (λ r. r.0) q) in
        (h, k, ap₂ (λ a b. (a, b)) decoded (ap (λ r. r.1) q))
  ]
]

lift_ok :
    {S A : Type 0} (r : Result A) (s : S) {a : A} {t : S}
    → lift r s ≡ (ok a, t)
    → (r ≡ ok a) × (s ≡ t)
lift_ok r s e = (ap (λ x. x.0) e, ap (λ x. x.1) e)

begin-IsLoaded :
    {S : Type 0} (U : Setup S) (g : Given) (s : S) {cfg : Config} {s' : S}
    → begin U g s ≡ (ok cfg, s')
    → (is_empty g.args ≡ true) × IsLoaded U (flag g.config []) s cfg s'
unfolding begin
begin-IsLoaded U g s {cfg} {s'} e =
    let test = require unexpected_arguments (is_empty g.args) in
    let (_, t, h, k) = run_ok (lift test) (λ _. load_config U (flag g.config [])) s e in
    let (passed, same) = lift_ok test s h in
    (
      require-ok unexpected_arguments (is_empty g.args) passed,
      load_config-IsLoaded U (flag g.config []) s
          (subst (λ x. load_config U (flag g.config []) x ≡ (ok cfg, s')) (sym same) k),
    )

-- What the sender does where its process ends with 0.
abbrev pub IsDone :
    (M : Machine) (U : Setup M.host.State)
    → ((sc : SenderConfig) → Divided (process_filesystem M.host M.decode M.codec M.link M.tools sc))
    → Given
    → M.host.State
    → M.host.State
    → Type 0
IsDone M U divided g s s' =
    (is_empty g.args ≡ true)
    × (check_limit (flag g.limit_fs []) ≡ ok tt)
    × ((cfg : Config) × (s1 : M.host.State) × IsLoaded U (flag g.config []) s cfg s1
        × Returns
            (launch M.host M.decode M.codec M.link M.tools divided cfg (flag g.parallelism (pos 1))
              (flag g.limit_fs []) s1)
            [] s')

module _ (M : Machine) (U : Setup M.host.State)
    (divided : (sc : SenderConfig)
      → Divided (process_filesystem M.host M.decode M.codec M.link M.tools sc))
    (g : Given) where
  main-IsDone :
      (s s1 s' : M.host.State) (l : Launched M.host.State)
      → sender_main M U divided g s ≡ (ok l, s1)
      → Returns l [] s'
      → IsDone M U divided g s s'
  unfolding sender_main
  main-IsDone s s1 s' l e r =
      let (cfg, t, loaded, e1) = run_ok (begin U g) _ s e in
      let (sc, t1, section, e2) = run_ok (lift (require_some no_section cfg.sender)) _ t e1 in
      let (_, t2, limit, e3) = run_ok (lift (check_limit (flag g.limit_fs []))) _ t1 e2 in
      let (clean, there) = begin-IsLoaded U g s loaded in
      let sent : M.host.State → Launched M.host.State = λ x.
        launch M.host M.decode M.codec M.link M.tools divided cfg (flag g.parallelism (pos 1))
          (flag g.limit_fs []) x in
      let same = (lift_ok _ t section).1 ∙ (lift_ok _ t1 limit).1 in
      let same_launch : l ≡ sent t = sym (ok-injective (ap (λ x. x.0) e3)) ∙ ap sent (sym same) in
      (clean, (lift_ok _ t1 limit).0, (cfg, t, there, subst (λ x. Returns x [] s') same_launch r))

  -- Where the process of the sender ends with the status 0, no argument was left over, the limit is
  -- empty or a valid dataset, the configuration was opened, locked and decoded, in this order and
  -- before anything else, and some order of the steps of `Run` on it returns no error.
  pub sender_main_zero :
      (s s' : M.host.State) → Exits (sender_main M U divided g s) 0 s' → IsDone M U divided g s s'
  sender_main_zero s s' = go (sender_main M U divided g s) refl
    where
      go :
          (r : Result (Launched M.host.State) × M.host.State)
          → sender_main M U divided g s ≡ r
          → Exits r 0 s'
          → IsDone M U divided g s s'
      go (err x, s1) e (z, _) = absurd (omega (arith, z))
      go (ok l, s1) e (es, r, z) =
          main-IsDone s s1 s' l e (subst (λ x. Returns l x s') (exit_status_zero es z) r)
