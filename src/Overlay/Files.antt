-- ===== src/Overlay/Files.antt =====
-- internal/overlay/file.go: the files of a store. A file is named by its number; the callers hold the
-- numbers that `Open` and `Create` return.
use fabric_workspace_fs.Prelude.{
  ℕ, ◌+◌, ◌-◌, Bool, true, false, not, ◌&&◌, ◌||◌, Option, none, some, List, [], ◌∷◌, ◌++◌, max,
  leb, ◌==◌, if◌then◌else◌, length, is_some,
}
use fabric_workspace_fs.Prelude.Int.{ℤ, pos, is_neg, pos_part}
use fabric_workspace_fs.Errors.{
  Error, conflict, busy as busy_error, is_dir as is_dir_error, read_only, handle_closed, invalid,
  permission, closed, exist, external,
}
use fabric_workspace_fs.Bytes.{Bytes}
use fabric_workspace_fs.Tables.{put, lookup}
use fabric_workspace_fs.Overlay.{
  Location, Info, Node, File, Store, Reply, failed, value, Flags, Os, M, ◌>>=◌, ◌>>◌, pure, fail,
  when_ok, guard, call, ask, get_store, put_store, attempt,
}
use fabric_workspace_fs.Overlay.Paths.{Resolved, resolve}
use fabric_workspace_fs.Overlay.Access.{
  max_int64, found, is_directory, growth, errors_of, has_writer, check_locked, reserve_entry,
  refresh, checked_stat, close_failed, open_verified, existing, destination, check_private_at,
}
use fabric_workspace_fs.Overlay.Directories.{of_result, is_present, is_root_name}

-- `io.ErrShortWrite`
abbrev pub short_write : Error
short_write = external 1

unfoldable pub valid_flags : Flags → Bool → Bool
valid_flags f create =
    not f.other
    && (create || not f.create && not f.exclusive)
    && not (f.write_only && f.read_write)
    && (f.write_only || f.read_write || not f.truncate && not f.append)

abbrev pub is_writable : Flags → Bool
is_writable f = f.write_only || f.read_write

unfoldable pub find_file : ℕ → List File → Option File
find_file id [] = none
find_file id (f ∷ fs) = if f.id == id then some f else find_file id fs

unfoldable pub set_closed : ℕ → List Error → List File → List File
set_closed id errors [] = []
set_closed id errors (f ∷ fs) =
    (if f.id == id then record f { closed = true; close_err = errors } else f)
    ∷ set_closed id errors fs

-- `makeHandle`, with the next number
unfoldable pub make_handle : ℕ → ℕ → Bytes → Flags → File
make_handle id fd path f = record {
  id = id;
  fd = fd;
  path = path;
  readable = not f.write_only;
  writable = is_writable f;
  append = f.append;
  closed = false;
  close_err = [];
}

-- the store with a new handle
abbrev pub with_file : File → Store → Store
with_file f s = record s { files = f ∷ s.files; next_file = s.next_file + 1 }

-- the error of a write of fewer bytes than asked for
abbrev pub write_errors : ℕ → ℕ → List Error → List Error
write_errors n wanted [] = if n == wanted then [] else short_write ∷ []
write_errors n wanted (e ∷ es) = e ∷ es

-- the offset of a write, and the size after it
abbrev pub write_place : File → ℕ → ℕ → ℕ
write_place f old offset = if f.append then old else offset

module _ (O : Os) where
  -- The file behind a number, if the caller holds it.
  unfoldable pub held : ℕ → M O.World File
  held id = do s ← get_store; found (find_file id s.files) handle_closed

  -- `File.checkLocked`
  unfoldable pub check_file : ℕ → M O.World File
  check_file id = do
    f ← held id
    (if f.closed then fail (closed ∷ handle_closed ∷ []) else pure tt)
    check_locked O
    pure f

  unfoldable pub refresh_locked : ℕ → Bytes → M O.World (Unit {0})
  refresh_locked fd path = do
    i ← ask (O.fstat fd)
    guard (check_private_at O i) permission
    refresh O path i

  -- a step whose failure poisons the store, with the errors that it returns
  abbrev pub poisoned_by : Reply (Unit {0}) → M O.World (List Error)
  poisoned_by (value u) = pure []
  poisoned_by (failed e) = get_store >>= (λ s. put_store (record s { poison = some e }) >> pure e)

  unfoldable pub refresh_or_poison : ℕ → Bytes → M O.World (List Error)
  unfolding refresh_locked
  refresh_or_poison fd path = attempt (refresh_locked fd path) >>= poisoned_by

  unfoldable pub close_locked : File → M O.World (List Error)
  close_locked f =
      if f.closed
      then pure f.close_err
      else (call (O.close f.fd) >>= (λ e.
          get_store
          >>= (λ s. put_store (record s { files = set_closed f.id e s.files }) >> pure e)))

  -- the truncation of `Open`, whose failure closes the file
  abbrev pub closes_failed : ℕ → List Error → M O.World (Unit {0})
  closes_failed fd [] = pure tt
  closes_failed fd (e ∷ es) = call (O.close fd) >>= (λ c. fail ((e ∷ es) ++ c))

  unfoldable pub open_truncate : ℕ → Bytes → M O.World (Unit {0})
  unfolding refresh_or_poison
  open_truncate fd path = do
    e ← call (O.truncate fd 0)
    r ← refresh_or_poison fd path
    closes_failed fd (e ++ r)

  abbrev pub register : ℕ → Bytes → Flags → M O.World ℕ
  register fd path flags =
      get_store
      >>= (λ s. put_store (with_file (make_handle s.next_file fd path flags) s) >> pure s.next_file)

  -- `Open` once the entry may be opened
  unfoldable pub opening : Bytes → Flags → M O.World ℕ
  unfolding open_truncate
  opening path flags = do
    opened ← open_verified O path (record flags { truncate = false })
    r ← attempt (refresh O path opened.1)
    close_failed O opened.0 r
    (if flags.truncate then open_truncate opened.0 path else pure tt)
    register opened.0 path flags

  unfoldable pub open_entry : Location → Flags → M O.World ℕ
  open_entry l flags = do
    check_locked O
    guard (valid_flags flags false) invalid
    p ← of_result (resolve l false)
    n ← existing O p.path
    guard (not (is_directory n.info)) is_dir_error
    s ← get_store
    guard (not (is_writable flags && has_writer p.path s)) busy_error
    opening p.path flags

  -- the checks of `Create` on the file that it made
  unfoldable pub check_created : ℕ → M O.World Info
  check_created fd = do
    i ← ask (O.fstat fd)
    guard (check_private_at O i) permission
    s ← get_store
    when_ok (errors_of (growth 0 i.size s))
    pure i

  abbrev pub poison_and_close : ℕ → Reply Info → M O.World Info
  poison_and_close fd (value i) = pure i
  poison_and_close fd (failed e) = get_store >>= (λ s.
      put_store (record s { poison = some e }) >> call (O.close fd) >>= (λ c. fail (e ++ c)))

  -- `Create` once the path is known to be free
  unfoldable pub creating : Bytes → Flags → M O.World ℕ
  creating path flags = do
    fd ← ask (O.open_file path (record flags { truncate = false; create = true; exclusive = true }))
    c ← attempt (check_created fd)
    i ← poison_and_close fd c
    s ← get_store
    put_store (record s {
      entries = put path (record { info = i; size = pos_part i.size }) s.entries;
      entry_count = s.entry_count + 1;
      total_bytes = s.total_bytes + pos_part i.size;
    })
    register fd path flags

  -- `Create` of a path that is resolved
  unfoldable pub create_resolved : Resolved → Flags → M O.World ℕ
  create_resolved p flags = do
    r ← attempt (checked_stat O p.path)
    present ← is_present O r
    guard (not present) exist
    guard (not (is_root_name p)) invalid
    path ← destination O p
    s ← get_store
    guard (not (is_some (lookup path s.entries))) conflict
    reserve_entry O
    creating path flags

  unfoldable pub create : Location → Flags → M O.World ℕ
  create l flags = do
    check_locked O
    guard (valid_flags flags true) invalid
    p ← of_result (resolve l false)
    create_resolved p flags

  -- the entry of a file
  unfoldable pub entry_of : File → M O.World Node
  entry_of f = do s ← get_store; found (lookup f.path s.entries) conflict

  unfoldable pub read_at : ℕ → ℕ → ℤ → M O.World (Bytes × List Error)
  read_at id n offset = do
    f ← check_file id
    guard (not (is_neg offset) && leb n (max_int64 - pos_part offset)) invalid
    guard f.readable permission
    refresh_locked f.fd f.path
    call (O.read_at f.fd n (pos_part offset))

  -- the write itself
  abbrev pub write_bytes : File → Bytes → ℕ → M O.World (ℕ × List Error)
  write_bytes f p offset =
      if f.append then call (O.write f.fd p) else call (O.write_at f.fd p offset)

  unfoldable pub write_checked : File → Bytes → ℕ → ℕ → M O.World (ℕ × List Error)
  unfolding refresh_or_poison
  write_checked f p old offset = do
    guard (leb (length p) (max_int64 - offset)) invalid
    s ← get_store
    when_ok (errors_of (growth old (pos (max old (offset + length p))) s))
    w ← write_bytes f p offset
    r ← refresh_or_poison f.fd f.path
    pure (w.0, write_errors w.0 (length p) w.1 ++ r)

  unfoldable pub write_at : ℕ → Bytes → ℤ → M O.World (ℕ × List Error)
  unfolding write_checked
  write_at id p offset = do
    f ← check_file id
    guard (not (is_neg offset)) invalid
    guard f.writable read_only
    refresh_locked f.fd f.path
    n ← entry_of f
    (if length p == 0
        then pure (0, [])
        else write_checked f p n.size (write_place f n.size (pos_part offset)))

  unfoldable pub truncate : ℕ → ℤ → M O.World (Unit {0})
  unfolding refresh_or_poison
  truncate id size = do
    f ← check_file id
    guard (not (is_neg size)) invalid
    guard f.writable read_only
    refresh_locked f.fd f.path
    n ← entry_of f
    s ← get_store
    when_ok (errors_of (growth n.size size s))
    e ← call (O.truncate f.fd (pos_part size))
    r ← refresh_or_poison f.fd f.path
    when_ok (e ++ r)

  unfoldable pub flush : ℕ → M O.World (Unit {0})
  flush id = do f ← check_file id; e ← call (O.sync f.fd); when_ok e

  unfoldable pub close : ℕ → M O.World (List Error)
  close id = held id >>= close_locked

  -- `Size`; of a closed file it is the size under the file's path, as long as the entry keeps it
  unfoldable pub size : ℕ → M O.World ℕ
  unfolding refresh_or_poison
  size id = do
    f ← held id
    r ← (if f.closed then pure [] else refresh_or_poison f.fd f.path)
    n ← entry_of f
    pure n.size
