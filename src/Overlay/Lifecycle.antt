-- ===== src/Overlay/Lifecycle.antt =====
-- internal/overlay/store.go: the start of a store, with the scan of what its root holds, and its end.
-- Opening the root itself is left to the operating system.
use fabric_workspace_fs.Prelude.{
  ℕ, zero, suc, ◌+◌, ◌*◌, ◌^◌, Bool, true, false, not, ◌&&◌, ◌||◌, none, List, [], ◌∷◌, ◌++◌, map,
  ltb, ◌==◌, if◌then◌else◌, is_some,
}
use fabric_workspace_fs.Prelude.Int.{ℤ, is_neg, pos_part}
use fabric_workspace_fs.Errors.{Error, Result, ok, err, not_dir, invalid, no_space}
use fabric_workspace_fs.Bytes.{Bytes, ascii, same, lower}
use fabric_workspace_fs.Tables.{put, lookup}
use fabric_workspace_fs.Names.{is_nil}
use fabric_workspace_fs.Names.Labels.{valid_id}
use fabric_workspace_fs.Overlay.{
  Info, Options, File, Store, Outcome, done, Reply, failed, value, Os, M, ◌>>=◌, ◌>>◌, pure, fail,
  when_ok, guard, call, get_store, put_store,
}
use fabric_workspace_fs.Overlay.Paths.{Resolved, resolve, slash, max_depth}
use fabric_workspace_fs.Overlay.Access.{
  is_directory, growth, errors_of, reserve_entry, open_verified, read_only_flags, close_file,
  read_dir,
}
use fabric_workspace_fs.Overlay.Directories.{of_result}
use fabric_workspace_fs.Overlay.Files.{close_locked}

-- the limits as the caller gives them, zero standing for the default
pub record Limits : Type 0 where
  pub max_file_size : ℤ
  pub max_bytes : ℤ
  pub max_entries : ℤ

abbrev or_default : ℤ → ℕ → ℕ
or_default given standard = if pos_part given == 0 then standard else pos_part given

unfoldable pub options_of : Limits → Result Options
options_of l =
    if is_neg l.max_file_size || is_neg l.max_bytes || is_neg l.max_entries
    then err invalid
    else ok (record {
      max_file_size = or_default l.max_file_size (2 ^ 30);
      max_bytes = or_default l.max_bytes (4 * 2 ^ 30);
      max_entries = or_default l.max_entries 10000;
    })

abbrev pub empty_store : Options → Store
empty_store o = record {
  options = o;
  total_bytes = 0;
  entry_count = 0;
  entries = [];
  containers = [];
  workspaces = 0;
  scopes = 0;
  files = [];
  next_file = 0;
  closed = false;
  close_err = [];
  poison = none;
}

-- a name of an immutable identity, in lower case
unfoldable pub is_lower_id : Bytes → Bool
is_lower_id name = valid_id name && same name (map lower name)

-- the store with an entry that the scan has found
unfoldable pub with_entry : Bytes → Info → Store → Store
with_entry path i s = record s {
  entries = put path (record { info = i; size = pos_part i.size }) s.entries;
  entry_count = s.entry_count + 1;
  total_bytes = if is_directory i then s.total_bytes else s.total_bytes + pos_part i.size;
}

module _ (O : Os) where
  unfoldable pub scan_container : Bytes → M O.World (Unit {0})
  scan_container path = do
    opened ← open_verified O path read_only_flags
    (if is_directory opened.1
        then close_file O opened.0
        else (call (O.close opened.0) >>= (λ c. fail (not_dir ∷ c))))
    s ← get_store
    put_store (record s { containers = put path opened.1 s.containers })

  -- counts what is found at a path
  unfoldable pub count_found : Bytes → Info → Store → M O.World Info
  count_found path i t = do
    (if is_directory i then pure tt else when_ok (errors_of (growth 0 i.size t)))
    put_store (with_entry path i t)
    pure i

  -- one name that the scan of a directory reads, before it goes into it
  unfoldable pub scan_entry : Resolved → Bool → M O.World Info
  scan_entry p at_root = do
    s ← get_store
    guard (not (is_some (lookup p.path s.entries))) invalid
    opened ← open_verified O p.path read_only_flags
    close_file O opened.0
    guard (is_directory opened.1 || not at_root) invalid
    t ← get_store
    count_found p.path opened.1 t

  -- one name, with its path and what is done in a directory
  unfoldable pub scan_resolved :
      Bool → M O.World (Unit {0}) → Result Resolved → M O.World (Unit {0})
  unfolding scan_entry
  scan_resolved at_root rest r = do
    reserve_entry O
    p ← of_result r
    i ← scan_entry p at_root
    (if is_directory i then rest else pure tt)

  unfoldable pub scan_name :
      Bytes → Bytes → Bool → Bytes → M O.World (Unit {0}) → M O.World (Unit {0})
  unfolding scan_resolved
  scan_name workspace parent at_root child rest =
      scan_resolved at_root rest
        (resolve (record { workspace = workspace; parent = parent; relative = child }) false)

  -- The rounds bound the depth: a path of more than `max_depth` names is refused.
  unfoldable pub scan_entries : ℕ → Bytes → Bytes → Bytes → M O.World (Unit {0})
  unfolding scan_name
  scan_entries zero workspace parent relative = fail (invalid ∷ [])
  scan_entries (suc depth) workspace parent relative =
      let scope = slash workspace parent in
      read_dir O (if is_nil relative then scope else slash scope relative) tt (λ u name.
        (let child = if is_nil relative then name else slash relative name in
          scan_name workspace parent (is_nil relative) child
            (scan_entries depth workspace parent child)))

  unfoldable pub scan_scope : Bytes → Bytes → M O.World (Unit {0})
  scan_scope workspace parent = do
    guard (same parent (ascii "root") || is_lower_id parent) invalid
    s ← get_store
    guard (ltb s.scopes s.options.max_entries) no_space
    scan_container (slash workspace parent)
    t ← get_store
    put_store (record t { scopes = t.scopes + 1 })
    scan_entries (suc max_depth) workspace parent []

  unfoldable pub scan_workspace : Bytes → M O.World (Unit {0})
  unfolding scan_scope
  scan_workspace workspace = do
    guard (is_lower_id workspace) invalid
    s ← get_store
    guard (ltb s.workspaces s.options.max_entries) no_space
    scan_container workspace
    t ← get_store
    put_store (record t { workspaces = t.workspaces + 1 })
    read_dir O workspace tt (λ u parent. scan_scope workspace parent)

  unfoldable pub scan : M O.World (Unit {0})
  unfolding scan_workspace
  scan = read_dir O (ascii ".") tt (λ u workspace. scan_workspace workspace)

  -- what `New` returns after the scan
  abbrev pub started : Outcome O.World (Unit {0}) → Reply Store × O.World
  started (done (value u) w s) = (value s, w)
  started (done (failed e) w s) = (failed (e ++ (O.close_root w).0), (O.close_root w).1)

  -- `New` after the root is opened; a failed scan closes the root
  unfoldable pub start : Limits → O.World → Reply Store × O.World
  start l w = elim (options_of l) [
    | err e ↦ (failed (e ∷ []), w)
    | ok o ↦ started (scan w (empty_store o))
  ]

  -- the loop of `Close`: the errors of the files that are still open
  unfoldable pub close_files : List File → M O.World (List Error)
  close_files [] = pure []
  close_files (f ∷ fs) =
      (if f.closed then pure [] else close_locked O f)
      >>= (λ e. close_files fs >>= (λ es. pure (e ++ es)))

  -- the end of `Close`, with the errors of the files
  abbrev pub closed_root : List Error → M O.World (List Error)
  closed_root e = do
    c ← call O.close_root
    t ← get_store
    put_store (record t { close_err = e ++ c })
    pure (e ++ c)

  -- the first `Close`
  unfoldable pub closing : Store → M O.World (List Error)
  unfolding close_files
  closing s = do put_store (record s { closed = true }); e ← close_files s.files; closed_root e

  -- `Close`, with the errors that it returns
  unfoldable pub close_store : M O.World (List Error)
  unfolding closing
  close_store = do s ← get_store; (if s.closed then pure s.close_err else closing s)
