-- ===== src/Lib.antt =====
-- Verification of fabric-workspace-fs, a filesystem over Microsoft Fabric workspaces.
--
-- The program answers filesystem requests (internal/fusefs) from an adapter (internal/workspacefs)
-- that names remote objects (internal/namespace), keeps what it has read in bounded caches
-- (internal/cache) whose lifetimes a policy decides (internal/cachepolicy), buffers writes in spool
-- files that are committed as a whole (internal/writeback), and talks to the Fabric, OneLake and
-- notebook services (internal/fabric, internal/onelake, internal/mwc over internal/transport). Local
-- dot-directories live in an overlay (internal/overlay).
--
-- Prelude, Keyed and Tables hold the tests, lists and maps that the parts share; Bytes holds Go
-- strings as lists of bytes, with what is used of the standard library on them; Errors is
-- internal/fserrors/errors.go with the result type of fallible functions. The program's parts:
--   Cache         internal/cache/cache.go. The state is the record Cache: the map, the recency list and
--                 the expiry heap, all of entries, the flights, the detached flights that are still
--                 loading, the byte count and the counters. Each critical section under the mutex is a
--                 function: lookup_locked (the lookup of GetWithin), complete, peek_within, invalidate,
--                 invalidate_prefix, clear, stats. A run is a list of sections.
--   Writeback     internal/writeback/file.go. The record File is the handle with the content of its
--                 spool; open_file, read_at, write_at, truncate, flush and close take the answers of the
--                 operating system and of the commit as arguments.
--   Names         internal/namespace/names.go, and Names/Labels the rest of it with
--                 internal/namespace/creation.go. The hash of long names is a parameter.
--   Policy        internal/cachepolicy/policy.go, and Policy/Config the parser in
--                 internal/cachepolicy/config.go. The JSON decoder and the parser of durations are
--                 parameters; a document is the tree that the decoder reads.
--   Invalidation  internal/fusefs/invalidation_linux.go. The coordinator of kernel notifications: reserve,
--                 add, changed, collect, failure, finish, close and stop, one per section under the
--                 mutex, and receive, which run does outside it. The kernel's answers are arguments.
--   Onelake       internal/onelake/path.go: addresses and entity tags.
--   Retry         internal/transport/retry.go: the delay before another attempt.
--   Resources     internal/resources/backend.go, internal/resources/snapshot.go and, in
--                 Resources/Binding, internal/resources/binding.go with the JSON decoder as parameter.
--   Overlay       internal/overlay/store.go, file.go and path.go of the same folder, and
--                 security_unix.go. The state is the record Store; the operating system is a parameter,
--                 the record Os of system calls on an unknown world, and an operation is a function from
--                 the world and the store to its reply and both afterwards, composed in do blocks.
--                 Overlay/Paths has resolve and the checks, Access the helpers under the lock,
--                 Naming the new names of a rename, Directories and Files the operations of Store and
--                 File, Lifecycle New with the scan, and Close. The other modules are proofs: Logic the rules for operations that may fail,
--                 Quota the accounting, Accounting the runs of a store. Files are numbers, and entries
--                 are named by their paths.
--   Gate          internal/workspacefs/definition_gate.go: the sections of the gate of exports, and the
--                 goroutines that sleep at it.
--
-- Numbers are natural numbers, and integers where the source has signed values. Fuel stands in two
-- loops of Cache: expire_loop has the length of the heap, since every round removes its root, and
-- evict_loop one round more than the recency list is long, since every round removes its last entry.
-- In Overlay, scan_entries has 33 rounds, since resolve refuses a path of more than 32 components, and
-- read_names has the rounds that readDir itself counts. That this is enough is part of the theorems.
-- All other loops are structural.
--
-- Not modelled: panics of callbacks other than a loader, overflow of the byte and statistics
-- counters of the cache, timings that are only reported, and the wording of errors, of which the
-- sentinel value is kept. Of the overlay, the branches for Windows, the opening of its root, a
-- nil context and Size of a closed file whose entry was renamed or removed are left out. The
-- catalog of names, the service clients, the rest of the adapter, the mounts and the command line
-- are not part of this library.
pub mod Prelude
pub mod Keyed
pub mod Errors
pub mod Cache
pub mod Writeback
pub mod Bytes
pub mod Names
pub mod Tables
pub mod Policy
pub mod Invalidation
pub mod Onelake
pub mod Retry
pub mod Resources
pub mod Overlay
pub mod Gate
