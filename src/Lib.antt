-- ===== src/Lib.antt =====
-- zfsbackup: incremental backups of ZFS file systems over SSH, with retention and monitoring. This
-- library models the program of cmd/zfsbackup and internal/ and proves what its parts promise.
--
-- The program's parts. `run` (cmd/zfsbackup) calls the modules snapshot, deleter, sender and monitor
-- in turn, on one configuration (internal/config). Each module lists and changes datasets through
-- zfs(8) and zpool(8) (internal/zfs). The sender talks to the receiver, which runs on the backup
-- host, in JSON messages and a stream (internal/sender, internal/receiver).
--
-- Which file models which part:
--   Base        shared types and lemmas: Boolean tests, lists over the native numbers, signed
--               integers with the wrap-around of int64, errors, Go strings as lists of bytes with the
--               functions of the packages strings and strconv that the program calls, sorted and
--               compacted lists of strings (Order), maps from strings to lists (Groups) and
--               rearrangements (Moves).
--   Config      internal/config/config.go and wire.go: the records, ResolveInclude, ResolveExclude.
--   Duration    internal/zfs/exec.go, ParseDuration; a Duration is its bit pattern in nanoseconds.
--   Names       internal/zfs/zfs.go: the validators of names, FSName, SnapshotName, BookmarkName,
--               PoolName and placeholderSourceName.
--   Exec        internal/zfs/exec.go and zfs.go: commands, ZfsCreate, ZfsGet, IsEncrypted, ZfsDestroy;
--               getExecutablePath with its cache (Lookup).
--   Wire        the JSON texts of the messages, and the processes of a pipe: parameters.
--   Zfs         internal/zfs/zfs.go: extractProps on decoded JSON (Json), ZfsList (Table, Rows,
--               Shown, Listed), ZpoolList, Exists, zfsGcPlaceholder, zfsBookmarkIdempotent,
--               ZfsSetBeforeBookmark and ZfsSetPlaceholder (Bookmarks, with lemmas in Obsolete, Placeholders and Idempotent),
--               ParseTabular and ParseTabularBatched (Tabular, Batches, Batched); internal/zfs/exec.go,
--               ExpandFsToProcess (Expand, Expanded).
--   Snapshot    internal/snapshot/snapshot.go: MaybeSkipSnaps (Skip, Young) and Run (Take, Pools).
--   Deleter     internal/deleter/deleter.go: newPolicy (Policy), getValidatedSnaps and ProcessFs
--               (Snaps, with lemmas in Listing and Timeline), preserveTopN, preserveNewerThan and
--               markForPreservation (Mark), deleteManySnaps (Batches), Run (Job, and with
--               goroutines Parallel). Keep describes the
--               retention; Walk, Rules, Sequence, Times and Retention relate Mark to it.
--   Sender      internal/sender/sender.go: autoPlaceholderName (Suffix), initSenderDefaults (Defaults)
--               with lemmas in Ready; the choice of the snapshots to send and of the incremental
--               base (Source), with its description (Select) and the proof (Chosen); fetchPlan and
--               FillSources (Plan), resumeSnapshot (Resume, Resumed), send and the flags of a stream,
--               with the stages of internal/zfs/exec.go (Transfer), sendPlaceholders (Marks, Known),
--               GetNextAndSend and ProcessFs (Round, Streams, Retry), processFilesystem and Run (Job,
--               Isolated, and with goroutines Parallel).
--   Workers     the loop of Run over the file systems in internal/sender/sender.go and
--               internal/deleter/deleter.go, with its semaphore, wait group and mutex, as a relation over
--               the steps of the loop and of the goroutines. Invariant, Turned and Sound say what the
--               counters stand for, Collected what is returned, Halting, Progress and Ending that it
--               ends, Sequential what it is with room for one.
--   Group       internal/zfs/group.go: NewGroup, Go and Wait, as a step relation.
--   Receiver    internal/receiver/receiver.go: incrementalSuggestion (Suggestion, Full, Newest,
--               Partial), the arguments of zfs receive (Arguments), setPlaceholders (Marks, Marked), checkParent
--               (Parents, Ancestors), receive and the requests of Main (Serve,
--               Refused).
--   Exchange    the sender and the receiver together: Remote says what running the receiver's command
--               means, by the requests of Receiver.Serve; a plan is a message of the receiver
--               (Answer, Planned), and what is sent goes by what the receiver saw (Sent).
--   Monitor     internal/monitor/monitor.go: the metrics (Metrics, Pools), their text (Text, Families),
--               writePrometheusFile (Publish, Atomic), run and Run (Job).
--   Run         cmd/zfsbackup/run.go: the modules in sequence, with lemmas on dry runs in Quiet,
--               Preview and Dry, and with goroutines in the deleter and the sender (Parallel).
--   Commands    cmd/zfsbackup/main.go and the Main functions of the modules: versionString (Version),
--               the commands, the flags, LoadConfig and the exit status (Start, Exits), and Main of the
--               receiver (Receive).
--   Tests       the theorems at concrete data, and runs of the definitions.
--
-- How the code is read. A Go string is the list of its bytes, so an ASCII literal is `codes "..."`. A
-- pointer that may be nil is an `Option`. An error is a constructor of `Error`, one for each place
-- that makes one; the text of a message and of a log line is not modelled, and an error that only
-- adds context to another is the inner one. A row with fewer values than were asked for, where the
-- code would panic, is an error. A function that runs commands is a function of the state of a
-- `Host`, which stands for the operating system and for zfs(8). An int64 is a `ℤ`, with `wrap_i64`
-- where a difference may leave the range. A loop over a slice is a recursion on the list; a loop
-- from the last index down to 0 is a right fold. A Go map is an association list with distinct keys,
-- in the order in which the code happens to visit it. The three regular expressions of zfs.go that
-- are literals are written out as recognisers; those of a configuration are a parameter, the test
-- that they make.
--
-- Errors that the code joins are the list of them, in the order in which they come up; it is empty
-- exactly where the joined error is nil.
--
-- Goroutines. Sender.Job and Deleter.Job process one file system at a time and in order, as the
-- code does with the parallelism of 1 that is the default; Run calls the modules so.
-- Sender.Parallel, Deleter.Parallel and Run.Parallel start a goroutine for each file system. A
-- goroutine is a sequence of steps on the machine, and how its work is divided into steps is a
-- parameter: only that the steps, taken without another goroutine between them, make the function
-- that processes a file system. A step relation takes the steps of the loop and of the goroutines
-- in any order.
--
-- Fuel. `delete_many_snaps` recurs on halves of a list and takes fuel; as much as there are names is
-- enough, since each half of a list of two names or more is shorter than the list. `check_parent`
-- recurs on the parent of a name; the number of slashes and one more is enough.
--
-- Not modelled: the text of log lines and of the help, the parsing of flags, the environment and the
-- start of processes, which are calls of the operating system or of Go's packages, and closing the
-- configuration file, which releases its lock, at the end of a process.
pub mod Base
pub mod Config
pub mod Duration
pub mod Names
pub mod Exec
pub mod Wire
pub mod Zfs
pub mod Deleter
pub mod Sender
pub mod Receiver
pub mod Group
pub mod Workers
pub mod Exchange
pub mod Snapshot
pub mod Monitor
pub mod Run
pub mod Commands
mod Tests
