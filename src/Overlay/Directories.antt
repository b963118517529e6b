-- ===== src/Overlay/Directories.antt =====
-- internal/overlay/store.go: the operations on directories and names, and the scan at the start.
use fabric_workspace_fs.Prelude.{
  ◌+◌, ◌-◌, Bool, true, false, not, ◌&&◌, ◌||◌, Option, none, some, List, [], ◌∷◌, ltb, ◌==◌,
  if◌then◌else◌, is_some,
}
use fabric_workspace_fs.Errors.{
  Error, Result, ok, err, conflict, busy as busy_error, not_dir, is_dir as is_dir_error, not_empty,
  unsupported, cross_device, invalid, no_space, exist, external,
}
use fabric_workspace_fs.Bytes.{Bytes, same, contains}
use fabric_workspace_fs.Tables.{put, lookup, remove}
use fabric_workspace_fs.Names.{is_nil}
use fabric_workspace_fs.Overlay.{
  Location, Info, Description, Node, Reply, failed, value, Os, M, ◌>>=◌, ◌>>◌, pure, fail, when_ok,
  guard, call, get_store, put_store, attempt, is_not_exist,
}
use fabric_workspace_fs.Overlay.Paths.{Resolved, resolve, slash, within}
use fabric_workspace_fs.Overlay.Naming.{too_deep, renamed, sorted}
use fabric_workspace_fs.Overlay.Access.{
  is_directory, busy, forget, check_locked, reserve_entry, checked_stat, open_verified, existing,
  known, destination, add_created, read_dir, empty_dir, close_file, read_only_flags,
}

abbrev pub of_result : {World A : Type 0} → Result A → M World A
of_result (err e) = fail (e ∷ [])
of_result (ok a) = pure a

-- `isNotEmpty`: ENOTEMPTY or EEXIST
abbrev pub is_not_empty : List Error → Bool
is_not_empty [] = false
is_not_empty (exist ∷ es) = true
is_not_empty (external n ∷ es) = n == 39 || is_not_empty es
is_not_empty (_ ∷ es) = is_not_empty es

abbrev is_nil_errors : List Error → Bool
is_nil_errors [] = true
is_nil_errors (e ∷ es) = false

-- a path right below its scope
abbrev pub is_root_name : Resolved → Bool
is_root_name p = not (contains b'/' p.relative)

-- Sets the poison of the store where a step fails that must not.
abbrev pub or_poison : {World A : Type 0} → Reply A → M World A
or_poison (value a) = pure a
or_poison (failed e) = get_store >>= (λ s. put_store (record s { poison = some e }) >> fail e)

abbrev pub describe : Bytes → Info → Description
describe path i = record { path = path; info = i }

-- the target of a rename, if the store knows one
abbrev pub optional_node : {World : Type 0} → Reply Node → M World (Option Node)
optional_node (value n) = pure (some n)
optional_node (failed e) = if is_not_exist e then pure none else fail e

module _ (O : Os) where
  -- whether anything is at a path; other errors than its absence are returned
  abbrev pub is_present : Reply Info → M O.World Bool
  is_present (value i) = pure true
  is_present (failed e) = if is_not_exist e then pure false else fail e

  -- the container of a scope or a workspace that `ensureContainers` makes
  unfoldable pub make_container : Bytes → Bool → M O.World (Unit {0})
  make_container path is_scope = do
    s ← get_store
    guard (not (is_some (lookup path s.containers))) conflict
    guard (ltb (if is_scope then s.scopes else s.workspaces) s.options.max_entries) no_space
    e ← call (O.mkdir path)
    when_ok e
    r ←
        attempt
          (do opened ← open_verified O path read_only_flags; close_file O opened.0; pure opened.1)
    i ← or_poison r
    t ← get_store
    put_store (record t {
      containers = put path i t.containers;
      scopes = if is_scope then t.scopes + 1 else t.scopes;
      workspaces = if is_scope then t.workspaces else t.workspaces + 1;
    })

  abbrev pub ensure_one : Bytes → Bool → Reply Info → M O.World (Unit {0})
  ensure_one path is_scope (value i) = guard (is_directory i) not_dir >> known O path i true
  ensure_one path is_scope (failed e) =
      if is_not_exist e then make_container path is_scope else fail e

  -- the container at a path, which is there or is made
  unfoldable pub ensured : Bytes → Bool → M O.World (Unit {0})
  unfolding make_container
  ensured path is_scope = do r ← attempt (checked_stat O path); ensure_one path is_scope r

  unfoldable pub ensure_containers : Resolved → M O.World (Unit {0})
  unfolding ensured
  ensure_containers p = ensured p.workspace false >> ensured p.scope true

  abbrev pub drop_container : Bytes → Bool → M O.World (Unit {0})
  drop_container path is_scope = get_store >>= (λ t. put_store (record t {
    containers = remove path t.containers;
    scopes = if is_scope then t.scopes - 1 else t.scopes;
    workspaces = if is_scope then t.workspaces else t.workspaces - 1;
  }))

  -- after the removal of a container, which may have found it in use
  abbrev pub container_removed :
      Bytes → Bool → M O.World (Unit {0}) → List Error → M O.World (Unit {0})
  container_removed path is_scope rest [] = drop_container path is_scope >> rest
  container_removed path is_scope rest (e ∷ es) =
      if is_not_empty (e ∷ es) then pure tt else fail (e ∷ es)

  -- Ends the pruning at a container that is in use, or removes it and goes on with `rest`.
  unfoldable pub prune_container : Bytes → Bool → M O.World (Unit {0}) → M O.World (Unit {0})
  prune_container path is_scope rest = empty_dir O path >>= (λ empty.
      if empty then call (O.remove path) >>= container_removed path is_scope rest else pure tt)

  unfoldable pub prune_containers : Resolved → M O.World (Unit {0})
  unfolding prune_container
  prune_containers p = prune_container p.scope true (prune_container p.workspace false (pure tt))

  -- `Mkdir` once the parent is known
  unfoldable pub making : Bytes → M O.World (Unit {0})
  making path = do
    s ← get_store
    guard (not (is_some (lookup path s.entries))) conflict
    e ← call (O.mkdir path)
    when_ok e
    c ← attempt (add_created O path)
    or_poison c

  -- `Mkdir` once there is room
  unfoldable pub making_below : Resolved → M O.World (Unit {0})
  making_below p = do
    if is_root_name p then ensure_containers p else pure tt
    path ← destination O p
    making path

  -- `Mkdir` of a path that is resolved
  unfoldable pub mkdir_resolved : Resolved → M O.World (Unit {0})
  mkdir_resolved p = do
    r ← attempt (checked_stat O p.path)
    present ← is_present r
    guard (not present) exist
    reserve_entry O
    making_below p

  unfoldable pub mkdir : Location → M O.World (Unit {0})
  mkdir l = do check_locked O; p ← of_result (resolve l false); mkdir_resolved p

  -- `Remove` once nothing speaks against it but that the directory may not be empty
  unfoldable pub removing : Resolved → Bool → Node → M O.World (Unit {0})
  removing p wanted_directory n = do
    empty ← if wanted_directory then empty_dir O p.path else pure true
    guard empty not_empty
    e ← call (O.remove p.path)
    if is_not_empty e then fail (not_empty ∷ e) else when_ok e
    t ← get_store
    put_store (forget p.path n t)
    if is_root_name p then prune_containers p else pure tt

  unfoldable pub remove_entry : Location → Bool → M O.World (Unit {0})
  remove_entry l wanted_directory = do
    check_locked O
    p ← of_result (resolve l false)
    n ← existing O p.path
    guard (not (wanted_directory && not (is_directory n.info))) not_dir
    guard (wanted_directory || not (is_directory n.info)) is_dir_error
    s ← get_store
    guard (not (busy p.path s)) busy_error
    removing p wanted_directory n

  unfoldable pub apply_rename : Bytes → Bytes → Node → Option Node → M O.World (Unit {0})
  apply_rename source target n old = do
    guard (not (is_directory n.info && within target source)) invalid
    guard (not (elim old [ none ↦ false | some o ↦ is_directory o.info || is_directory n.info ]))
        unsupported
    s ← get_store
    guard (not (too_deep source target s.entries)) invalid
    e ← call (O.rename source target)
    when_ok e
    t ← get_store
    put_store (renamed source target old t)

  -- `Rename` once both entries are known
  unfoldable pub checked_rename : Bytes → Bytes → Node → Option Node → Bool → M O.World (Unit {0})
  checked_rename source target n old no_replace = do
    s ← get_store
    guard (not (busy source s || busy target s)) busy_error
    guard (not (is_some old && no_replace)) exist
    (if is_some old && same target source then pure tt else apply_rename source target n old)

  -- `Rename` once the source is known
  unfoldable pub rename_known : Bytes → Resolved → Node → Bool → M O.World (Unit {0})
  rename_known source q n no_replace = do
    guard (is_directory n.info || not (is_root_name q)) invalid
    target ← destination O q
    r ← attempt (existing O target)
    old ← optional_node r
    checked_rename source target n old no_replace

  unfoldable pub rename : Location → Location → Bool → M O.World (Unit {0})
  rename src dst no_replace = do
    check_locked O
    p ← of_result (resolve src false)
    q ← of_result (resolve dst false)
    guard (same p.scope q.scope) cross_device
    n ← existing O p.path
    rename_known p.path q n no_replace

  -- what `Stat` finds: an entry, or the container
  abbrev pub stat_entry : Resolved → M O.World Description
  stat_entry p = existing O p.path >>= (λ n. pure (describe p.relative n.info))

  abbrev pub stat_container : Resolved → M O.World Description
  stat_container p =
      checked_stat O p.path >>= (λ i. known O p.path i true >> pure (describe p.relative i))

  unfoldable pub stat : Location → M O.World Description
  stat l = do
    check_locked O
    p ← of_result (resolve l true)
    (if is_nil p.relative then stat_container p else stat_entry p)

  -- one name that `List` reads
  unfoldable pub list_child :
      Location → Resolved → List Description → Bytes → M O.World (List Description)
  list_child l p ds name = do
    let relative = if is_nil p.relative then name else slash p.relative name
    child ← of_result (resolve (record l { relative = relative }) false)
    n ← existing O child.path
    pure (describe relative n.info ∷ ds)

  -- the children of a directory that is there
  unfoldable pub list_children : Location → Resolved → Info → M O.World (List Description)
  unfolding list_child
  list_children l p i = do
    guard (is_directory i) not_dir
    known O p.path i (is_nil p.relative)
    ds ← read_dir O p.path [] (list_child l p)
    pure (sorted ds)

  abbrev pub list_found : Location → Resolved → Reply Info → M O.World (List Description)
  list_found l p (value i) = list_children l p i
  list_found l p (failed e) = if is_nil p.relative && is_not_exist e then pure [] else fail e

  unfoldable pub list : Location → M O.World (List Description)
  unfolding list_children
  list l = do
    check_locked O
    p ← of_result (resolve l true)
    r ← attempt (checked_stat O p.path)
    list_found l p r
