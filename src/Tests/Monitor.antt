-- ===== src/Tests/Monitor.antt =====
-- A metrics file on a file system that is a function, and the text of three metrics.
use zfsbackup.Base.{
  ◌+◌, keep_if, parse_int, ℕ, suc, ◌≡◌, ◌≢◌, refl, sym, ap, ◌∙◌, true, Option, none, some, List, [],
  ◌∷◌, ◌++◌, Bytes, codes, arith, length, text_eq, text_eq_iff, if◌then◌else◌, Bool-cases, inl, inr,
  map, flat, contains, IsDistinct, pos,
}
use zfsbackup.Exec.{Host}
use zfsbackup.Monitor.Metrics.{Metric, used_space, has_broken_pool, pool_metrics}
use zfsbackup.Monitor.Pools.{is_broken, measured, pool_metrics_exact}
use zfsbackup.Monitor.Text.{family_text, as_prometheus}
use zfsbackup.Monitor.Families.{of_family, as_prometheus_families}
use zfsbackup.Monitor.Publish.{Files, write_prometheus_file}
use zfsbackup.Monitor.Atomic.{IsFileSystem, published, write_prometheus_file_atomic}

abbrev Store : Type 0
Store = Bytes → Option Bytes

unfoldable put : Bytes → Option Bytes → Store → Store
unfolding text_eq
put p v f q = if text_eq q p then v else f q

put_same : (p : Bytes) (v : Option Bytes) (f : Store) → put p v f p ≡ v
unfolding put
put_same p v f = let e : text_eq p p ≡ true = (text_eq_iff p p).1 refl in rw e refl

put_other : (p q : Bytes) (v : Option Bytes) (f : Store) → q ≢ p → put p v f q ≡ f q
unfolding put
put_other p q v f h = elim (Bool-cases (text_eq q p)) [
  | inl e ↦ absurd (h ((text_eq_iff q p).0 e))
  | inr e ↦ rw e refl
]

abbrev disk : Host
disk = record { State = Store; output = λ name args f. (none, f) }

abbrev files : Files disk
files = record {
  create_temp = λ path f. (some (b'.' ∷ path), put (b'.' ∷ path) (some []) f);
  make_readable = λ tmp f. (true, f);
  write = λ tmp text f. (true, put tmp (some text) f);
  close = λ tmp f. (true, f);
  rename = λ tmp path f. (true, put path (f tmp) (put tmp none f));
  discard = λ tmp f. put tmp none f;
}

longer : (path : Bytes) → path ≢ b'.' ∷ path
longer path e = let same : length path ≡ suc (length path) = ap length e in omega (arith, same)

some_apart : (path tmp : Bytes) → some (b'.' ∷ path) ≡ some tmp → path ≢ tmp
some_apart path tmp h e = longer path (e ∙ sym (cc))

disk_laws : IsFileSystem disk files
disk_laws = record {
  content = λ f path. f path;
  temp_is_new = λ path f {tmp} h. some_apart path tmp h;
  temp_keeps = λ path f. put_other (b'.' ∷ path) path (some []) f (longer path);
  make_readable_keeps = λ tmp path f. refl;
  close_keeps = λ tmp path f. refl;
  write_keeps = λ tmp text path f h. put_other tmp path (some text) f h;
  written = λ tmp text f h. put_same tmp (some text) f;
  renamed = λ tmp path f h. put_same path (f tmp) (put tmp none f);
  not_renamed = λ tmp path f h. absurd (cc);
  discard_keeps = λ tmp path f h. put_other tmp path none f h;
}

abbrev old_file : Store
old_file = put (codes "m") (some (codes "old")) λ path. none

write_prometheus_file_atomic_example :
    let (r, f) = write_prometheus_file disk files (codes "m") (codes "new") old_file in
    disk_laws.content f (codes "m")
    ≡ published r (codes "new") (disk_laws.content old_file (codes "m"))
write_prometheus_file_atomic_example =
    write_prometheus_file_atomic disk files disk_laws (codes "m") (codes "new") old_file

write_prometheus_file_runs :
    (write_prometheus_file disk files (codes "m") (codes "new") old_file).1 (codes "m")
    ≡ some (codes "new")
unfolding write_prometheus_file put
write_prometheus_file_runs = refl

abbrev age : Bytes → ℕ → Metric
age fs n = record { name = codes "Age"; dimensions = (codes "fs", fs) ∷ []; value = pos n }

abbrev metrics : List Metric
metrics =
    age (codes "t") 3
    ∷ record { name = codes "Ok"; dimensions = []; value = pos 1 }
    ∷ age (codes "u") 45
    ∷ []

abbrev line_feed : Bytes
line_feed = 10 ∷ []

as_prometheus_runs :
    as_prometheus metrics
    ≡ codes "# HELP Age zfsbackup metric"
      ++ line_feed
      ++ codes "# TYPE Age untyped"
      ++ line_feed
      ++ codes "Age{fs=\"t\"} 3"
      ++ line_feed
      ++ codes "Age{fs=\"u\"} 45"
      ++ line_feed
      ++ codes "# HELP Ok zfsbackup metric"
      ++ line_feed
      ++ codes "# TYPE Ok untyped"
      ++ line_feed
      ++ codes "Ok 1"
      ++ line_feed
unfolding as_prometheus
as_prometheus_runs = refl

as_prometheus_families_example :
    (names : List Bytes) × IsDistinct names
    × ((name : Bytes) → contains names name ≡ contains (map (λ met. met.name) metrics) name)
    × (as_prometheus metrics ≡ flat (map (λ name. family_text name (of_family name metrics)) names))
as_prometheus_families_example = as_prometheus_families metrics

abbrev pools : List (List Bytes)
pools =
    (codes "t" ∷ codes "41" ∷ codes "ONLINE" ∷ [])
    ∷ (codes "u" ∷ codes "-" ∷ codes "FAULTED" ∷ [])
    ∷ (codes "v" ∷ codes "7" ∷ codes "DEGRADED" ∷ [])
    ∷ []

pools_run : pool_metrics pools 0 ≡ (
  used_space (codes "t") (pos 41) ∷ used_space (codes "v") (pos 7) ∷ has_broken_pool 2 ∷ [],
  [],
)
unfolding pool_metrics parse_int
pools_run = refl

pool_metrics_exact_example :
    (pool_metrics pools 0).0
    ≡ measured pools ++ has_broken_pool (0 + length (keep_if is_broken pools)) ∷ []
pool_metrics_exact_example = pool_metrics_exact pools 0 (ap (λ r. r.1) pools_run)
