-- ===== src/Overlay/Access.antt =====
-- internal/overlay/store.go: the helpers of a store's operations, under its lock. Each is a function
-- with the source's name; the operating system is a parameter.
use fabric_workspace_fs.Prelude.{
  ℕ, zero, suc, ◌+◌, ◌-◌, ◌^◌, Bool, true, false, not, ◌&&◌, ◌||◌, Option, none, some, List, [],
  ◌∷◌, ◌++◌, ltb, leb, ◌==◌, if◌then◌else◌, take, drop,
}
use fabric_workspace_fs.Prelude.Int.{ℤ, is_neg, pos_part}
use fabric_workspace_fs.Errors.{
  Error, conflict, too_large, not_dir, handle_closed, invalid, permission, closed, no_space,
}
use fabric_workspace_fs.Bytes.{Bytes, same, split}
use fabric_workspace_fs.Tables.{lookup, remove, put}
use fabric_workspace_fs.Names.Labels.{last_index}
use fabric_workspace_fs.Overlay.{
  Info, Node, File, Store, Reply, failed, value, NameRead, name, no_more, broken, Flags, Os, M,
  ◌>>=◌, ◌>>◌, pure, fail, when_ok, guard, call, ask, get_store, put_store, attempt, is_dir,
}
use fabric_workspace_fs.Overlay.Paths.{Resolved, slash, within, check_private}

abbrev pub max_int64 : ℕ
max_int64 = 2 ^ 63 - 1

abbrev pub read_only_flags : Flags
read_only_flags = record {
  write_only = false;
  read_write = false;
  append = false;
  truncate = false;
  sync = false;
  create = false;
  exclusive = false;
  other = false;
}

-- a map's value under a key that should be there
abbrev pub found : {World A : Type 0} → Option A → Error → M World A
found none e = fail (e ∷ [])
found (some a) e = pure a

-- `if info.IsDir()` at the end of a check of a directory
abbrev pub is_directory : Info → Bool
is_directory i = is_dir i.mode

-- the new state of the store that `refresh` finds for an entry
unfoldable pub refreshed : Bytes → Node → Info → Store → Store
refreshed path n i s = record s {
  entries =
      put path (record { info = i; size = if is_directory i then n.size else pos_part i.size })
        s.entries;
  total_bytes = if is_directory i then s.total_bytes else s.total_bytes - n.size + pos_part i.size;
}

-- what `refresh` compares
unfoldable pub same_object : Info → Info → Bool
same_object a b =
    (if is_directory a then is_directory b else not (is_directory b)) && a.identity == b.identity

unfoldable pub fits_accounting : Node → Info → Store → Bool
fits_accounting n i s =
    is_directory i
    || not (is_neg i.size) && leb (pos_part i.size) (max_int64 - (s.total_bytes - n.size))

-- `growth`, as the error that it returns
unfoldable pub growth : ℕ → ℤ → Store → Option Error
growth old next s =
    if is_neg next
    then some invalid
    else if ltb s.options.max_file_size (pos_part next)
    then some too_large
    else if ltb old (pos_part next)
        && (ltb s.options.max_bytes s.total_bytes
            || ltb (s.options.max_bytes - s.total_bytes) (pos_part next - old))
    then some no_space
    else none

abbrev pub errors_of : Option Error → List Error
errors_of none = []
errors_of (some e) = e ∷ []

-- a file that is open and has the property
unfoldable pub any_open : (File → Bool) → List File → Bool
any_open test [] = false
any_open test (f ∷ fs) = not f.closed && test f || any_open test fs

unfoldable pub busy : Bytes → Store → Bool
unfolding any_open
busy path s = any_open (λ f. within f.path path) s.files

unfoldable pub has_writer : Bytes → Store → Bool
unfolding any_open
has_writer path s = any_open (λ f. same f.path path && f.writable) s.files

-- `forget`
unfoldable pub forget : Bytes → Node → Store → Store
forget path n s = record s {
  entries = remove path s.entries;
  entry_count = s.entry_count - 1;
  total_bytes = if is_directory n.info then s.total_bytes else s.total_bytes - n.size;
}

-- the parent and the last component of a path; a path of a store has a separator
unfoldable pub split_last : Bytes → Bytes × Bytes
split_last path = elim (last_index b'/' 0 none path) [
  | none ↦ ([], path)
  | some i ↦ (take i path, drop (i + 1) path)
]

module _ (O : Os) where
  abbrev pub poison_check : Option (List Error) → M O.World (Unit {0})
  poison_check none = pure tt
  poison_check (some es) = fail es

  -- `checkLocked`
  unfoldable pub check_locked : M O.World (Unit {0})
  check_locked = do
    s ← get_store
    if s.closed then fail (closed ∷ handle_closed ∷ []) else pure tt
    e ← call O.context_err
    when_ok e
    poison_check s.poison

  unfoldable pub reserve_entry : M O.World (Unit {0})
  reserve_entry = do s ← get_store; guard (ltb s.entry_count s.options.max_entries) no_space

  unfoldable pub refresh : Bytes → Info → M O.World (Unit {0})
  refresh path i = do
    s ← get_store
    n ← found (lookup path s.entries) conflict
    guard (same_object n.info i) conflict
    guard (fits_accounting n i s) invalid
    put_store (refreshed path n i s)

  -- `checkPrivate` and `checkHandle` for the user that the process runs as
  abbrev pub check_private_at : Info → Bool
  check_private_at i = check_private O.euid i

  -- one `Lstat` of a prefix, with its check
  unfoldable pub stat_checked : Bytes → M O.World Info
  stat_checked prefix = do
    i ← ask (O.lstat prefix)
    guard (check_private O.euid i) permission
    pure i

  -- the loop of `checkedStat`
  unfoldable pub stat_prefixes : Bytes → List Bytes → M O.World Info
  unfolding stat_checked
  stat_prefixes prefix [] = stat_checked prefix
  stat_prefixes prefix (p ∷ ps) =
      stat_checked prefix
      >>= (λ i. guard (is_directory i) not_dir >> stat_prefixes (slash prefix p) ps)

  abbrev pub stat_parts : List Bytes → M O.World Info
  stat_parts [] = fail []
  stat_parts (p ∷ ps) = stat_prefixes p ps

  unfoldable pub checked_stat : Bytes → M O.World Info
  checked_stat path = stat_parts (split b'/' path)

  -- the checks of `openVerified` on the opened file, whose failure closes it
  unfoldable pub verify : ℕ → Info → M O.World Info
  verify fd before = do
    i ← ask (O.fstat fd)
    guard (check_private O.euid i) permission
    guard (before.identity == i.identity) permission
    pure i

  abbrev pub close_failed : {A : Type 0} → ℕ → Reply A → M O.World A
  close_failed fd (value a) = pure a
  close_failed fd (failed e) = call (O.close fd) >>= (λ c. fail (e ++ c))

  unfoldable pub open_verified : Bytes → Flags → M O.World (ℕ × Info)
  open_verified path flags = do
    before ← checked_stat path
    fd ← ask (O.open_file path flags)
    r ← attempt (verify fd before)
    i ← close_failed fd r
    pure (fd, i)

  abbrev pub close_file : ℕ → M O.World (Unit {0})
  close_file fd = call (O.close fd) >>= when_ok

  -- `entryFor`: the entry that the store knows under a path, brought up to date
  unfoldable pub entry_for : Bytes → Info → M O.World Node
  entry_for path i = do
    s ← get_store
    n ← found (lookup path s.entries) conflict
    refresh path i
    t ← get_store
    found (lookup path t.entries) conflict

  unfoldable pub existing : Bytes → M O.World Node
  existing path = do
    opened ← open_verified path read_only_flags
    close_file opened.0
    entry_for path opened.1

  -- `known` for a container, and for an entry
  unfoldable pub known_container : Bytes → Info → M O.World (Unit {0})
  known_container path i = do
    s ← get_store
    before ← found (lookup path s.containers) conflict
    guard (before.identity == i.identity) conflict

  unfoldable pub known : Bytes → Info → Bool → M O.World (Unit {0})
  known path i true = known_container path i
  known path i false = entry_for path i >>= (λ n. pure tt)

  unfoldable pub destination : Resolved → M O.World Bytes
  destination p = do
    let parent = (split_last p.path).0
    let child = slash parent (split_last p.path).1
    i ← checked_stat parent
    guard (is_directory i) not_dir
    known parent i (same parent p.scope)
    pure child

  unfoldable pub add_created : Bytes → M O.World (Unit {0})
  add_created path = do
    opened ← open_verified path read_only_flags
    close_file opened.0
    s ← get_store
    put_store (record s {
      entries = put path (record { info = opened.1; size = pos_part opened.1.size }) s.entries;
      entry_count = s.entry_count + 1;
    })

  -- a name beyond the limit, and one that is visited before the rest
  abbrev pub no_more_names : {A : Type 0} → A → NameRead → M O.World A
  no_more_names a (name c) = fail (no_space ∷ [])
  no_more_names a no_more = pure a
  no_more_names a (broken es) = fail es

  abbrev pub visit_name :
      {A : Type 0} → A → (A → M O.World A) → (A → Bytes → M O.World A) → NameRead → M O.World A
  visit_name a rest visit (name c) = visit a c >>= rest
  visit_name a rest visit no_more = pure a
  visit_name a rest visit (broken es) = fail es

  -- the loop of `readDir`, with the number of names that may still come
  unfoldable pub read_names : {A : Type 0} → ℕ → ℕ → A → (A → Bytes → M O.World A) → M O.World A
  read_names fd zero a visit = do
    e ← call O.context_err
    when_ok e
    r ← call (O.read_name fd)
    no_more_names a r
  read_names fd (suc n) a visit = do
    e ← call O.context_err
    when_ok e
    r ← call (O.read_name fd)
    visit_name a (λ b. read_names fd n b visit) visit r

  -- `defer file.Close()` with its error joined
  abbrev pub close_after : {A : Type 0} → ℕ → Reply A → M O.World A
  close_after fd (failed e) = call (O.close fd) >>= (λ c. fail (e ++ c))
  close_after fd (value a) = close_file fd >> pure a

  unfoldable pub read_dir : {A : Type 0} → Bytes → A → (A → Bytes → M O.World A) → M O.World A
  read_dir path a visit = do
    opened ← open_verified path read_only_flags
    s ← get_store
    r ←
        attempt (
          guard (is_directory opened.1) not_dir
          >> read_names opened.0 s.options.max_entries a visit)
    close_after opened.0 r

  abbrev pub is_last : NameRead → M O.World Bool
  is_last (name n) = pure false
  is_last no_more = pure true
  is_last (broken es) = fail es

  unfoldable pub empty_dir : Bytes → M O.World Bool
  empty_dir path = do
    opened ← open_verified path read_only_flags
    r ← attempt (do
      guard (is_directory opened.1) not_dir
      e ← call O.context_err
      when_ok e
      n ← call (O.read_name opened.0)
      is_last n)
    close_after opened.0 r
