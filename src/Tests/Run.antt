-- ===== src/Tests/Run.antt =====
-- A dry run on a machine without datasets.
use zfsbackup.Base.{
  ℕ, ◌≡◌, refl, true, false, none, some, [], ◌∷◌, codes, pos, suc, text_eq, if◌then◌else◌,
}
use zfsbackup.Config.{Config}
use zfsbackup.Exec.{Host}
use zfsbackup.Wire.{Codec}
use zfsbackup.Run.{Machine, run_snapshot, run_deleter, run_sender, run_monitor, run_all}
use zfsbackup.Run.Quiet.{IsReadOnly}
use zfsbackup.Run.Dry.{dry_run_unchanged}

-- Every command succeeds; those that zfs list, get and a dry destroy do not reach are counted.
abbrev counter : Host
counter = record {
  State = ℕ;
  output = λ name args n. (
    some [],
    elim args [ [] ↦ n | kind ∷ _ ↦ if text_eq kind (codes "snapshot") then suc n else n ],
  );
}

read_only : IsReadOnly counter
unfolding text_eq
read_only = record { list = λ args s. refl; get = λ args s. refl; dry_destroy = λ args s. refl }

abbrev codec : Codec
codec = record {
  suggestions_text = λ m. [];
  read_suggestions = λ b. none;
  placeholders_text = λ m. [];
  read_placeholders = λ b. none;
}

abbrev machine : Machine
machine = record {
  host = counter;
  decode = λ b. none;
  codec = codec;
  link = record { feed = λ name args text n. (none, suc n); pipe = λ ps n. (true, suc n) };
  tools = record { matches = λ r s. true; compiles = λ r. true; mbuffer_present = false };
  files = record {
    create_temp = λ path n. (some path, n);
    make_readable = λ path n. (true, n);
    write = λ path text n. (true, n);
    close = λ path n. (true, n);
    rename = λ from to n. (true, n);
    discard = λ path n. n;
  };
  clock = λ n. pos n;
  format = λ n layout. layout;
}

abbrev job : Config
job = record {
  include = [];
  exclude = [];
  snapshot = some (record {
    include = [];
    exclude = [];
    name_pattern = codes "s";
    skip_empty_younger_than = [];
  });
  sender = none;
  deleter = some (record {
    include = codes "t" ∷ [];
    exclude = [];
    regex = [];
    preserve_top_n = pos 1;
    preserve_newer_than = [];
    rules = [];
  });
  monitor = none;
}

dry_run_unchanged_example :
    ((run_snapshot machine job true 7).1 ≡ 7)
    × ((run_deleter machine job true 7).1 ≡ 7)
    × (run_sender machine job true 7 ≡ ([], 7))
    × ((run_all machine job true 7).1 ≡ (run_monitor machine job true 7).1)
    × ((run_all machine job true 7).0.0 ≡ (run_monitor machine job true 7).0.0)
dry_run_unchanged_example = dry_run_unchanged machine read_only job 7
