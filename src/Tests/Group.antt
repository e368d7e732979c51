-- ===== src/Tests/Group.antt =====
-- Two goroutines, the second of which fails first.
use zfsbackup.Base.{
  ◌≡◌, ◌==◌, if◌then◌else◌, none, true, some, List, [], ◌∷◌, arith, Result, ok, err, command_failed,
  bad_output,
}
use zfsbackup.Group.{
  Group, new_group, go, finish, wait, Steps, start, stop, stay, first_error, is_some,
  group_first_error,
}

abbrev results : List (Result (Unit {0}))
results = err bad_output ∷ ok tt ∷ err command_failed ∷ []

abbrev failed : Group
failed = record { running = 0; once = true; error = some bad_output; cancelled = true }

history : Steps new_group results failed
unfolding go finish
history = start (
    start (
      stop (err bad_output) (omega arith)
        (stop (ok tt) (omega arith) (start (stop (err command_failed) (omega arith) stay)))))

group_first_error_example :
    (failed.cancelled ≡ is_some (first_error results))
    × (wait failed ≡ (
        if failed.running == 0
        then some (record failed { cancelled = true }, first_error results)
        else none))
group_first_error_example = group_first_error history
