-- ===== src/Overlay/Scanning.antt =====
-- internal/overlay/store.go: a store that starts counts exactly what its scan has found.
use fabric_workspace_fs.Prelude.{
  ℕ, zero, suc, ◌+◌, ◌≤◌, ◌≡◌, refl, ◌⊎◌, inl, inr, Bool, true, false, not, ◌||◌, none, [], arith,
  if◌then◌else◌, is_some, Bool-cases, ltb,
}
use fabric_workspace_fs.Prelude.Int.{pos_part}
use fabric_workspace_fs.Errors.{ok, invalid, no_space}
use fabric_workspace_fs.Bytes.{Bytes, ascii, same}
use fabric_workspace_fs.Names.{is_nil}
use fabric_workspace_fs.Names.Roundtrip.{Result-cases}
use fabric_workspace_fs.Tables.{total, lookup, put}
use fabric_workspace_fs.Overlay.{Info, Options, Store, Os, Outcome, done, failed, value, M}
use fabric_workspace_fs.Overlay.Paths.{Resolved, resolve, slash, max_depth}
use fabric_workspace_fs.Overlay.Access.{is_directory, growth, errors_of, max_int64, read_only_flags}
use fabric_workspace_fs.Overlay.Lifecycle.{
  Limits, options_of, empty_store, is_lower_id, with_entry, scan_container, count_found,
  scan_resolved, scan_name, scan_entry, scan_entries, scan_scope, scan_workspace, scan, started,
  start,
}
use fabric_workspace_fs.Overlay.Logic.{
  Post, Keeps, step, weaken, if-Post, guard_step, ok_step, result_step,
}
use fabric_workspace_fs.Overlay.Neutral.{
  open_verified-Keeps, close_file-Keeps, reserve_entry-Ensures, read_dir-Keeps,
}
use fabric_workspace_fs.Overlay.Quota.{
  HasRoom, IsSound, added-IsSound, added_directory-IsSound, containers-IsSound,
}
use fabric_workspace_fs.Overlay.Creating.{created_small, no_growth_error}

module _ (O : Os) (le lb : ℕ) where
  abbrev K : Store → Type 0
  K = IsSound le lb

  abbrev N : Bytes → Store → Type 0
  N path s = K s × (lookup path s.entries ≡ none) × HasRoom s

  -- an object whose size may be counted
  abbrev Fits : Info → Store → Type 0
  Fits i s = (is_directory i ≡ true) ⊎ ((is_directory i ≡ false) × (growth 0 i.size s ≡ none))

  with_entry-IsSound :
      (path : Bytes) (i : Info) (s : Store) → N path s → Fits i s → K (with_entry path i s)
  unfolding with_entry
  with_entry-IsSound path i s p (inl d) = rw d (
      added_directory-IsSound le lb path (record { info = i; size = pos_part i.size }) s p.0 p.2 p.1
        d)
  with_entry-IsSound path i s p (inr (d, g)) =
      let m = created_small i s d p.0.small p.0.limited g in
      let added =
        added-IsSound le lb path (record { info = i; size = pos_part i.size }) s p.0 p.2 p.1
          (rw d m) in
      rw d (rw d at added)

  scan_container-Keeps : (path : Bytes) → Keeps K (scan_container O path)
  unfolding scan_container
  scan_container-Keeps path w s v =
      step K (λ a. K) (λ u. K) _ _ (open_verified-Keeps O K path read_only_flags w s v)
        (λ opened w s v.
          step K (λ u. K) (λ u. K) _ _
            (if-Post K (λ u. K) w s (is_directory opened.1) _ _
              (λ h. close_file-Keeps O K opened.0 w s v) (λ h. v))
            (λ u w s v.
              containers-IsSound le lb (put path opened.1 s.containers) s.scopes s.workspaces s v))

  count_found-Keeps :
      (path : Bytes) (i : Info) (w : O.World) (s : Store)
      → N path s
      → Post K (λ i. K) (count_found O path i s w s)
  unfolding count_found
  count_found-Keeps path i w s p = elim (Bool-cases (is_directory i)) [
    | inl d ↦ rw d (with_entry-IsSound path i s p (inl d))
    | inr d ↦ rw d (
        ok_step K (λ i. K) (errors_of (growth 0 i.size s)) _ w s p.0
          (λ e. with_entry-IsSound path i s p (inr (d, no_growth_error i s e))))
  ]

  scan_entry-Keeps :
      (p : Resolved) (at_root : Bool) (w : O.World) (s : Store)
      → K s
      → HasRoom s
      → Post K (λ i. K) (scan_entry O p at_root w s)
  unfolding scan_entry
  scan_entry-Keeps p at_root w s v room =
      let P = N p.path in
      guard_step K (λ i. K) (not (is_some (lookup p.path s.entries))) invalid _ w s v
        (λ free.
          step K (λ a. P) (λ i. K) _ _
            (weaken P K (λ a. P) (λ a. P) _ (λ t q. q.0) (λ a t q. q)
              (open_verified-Keeps O P p.path read_only_flags w s (v, ground (arith, free), room)))
            (λ opened w s q.
              step K (λ u. P) (λ i. K) _ _
                (weaken P K (λ u. P) (λ u. P) _ (λ t q. q.0) (λ u t q. q)
                  (close_file-Keeps O P opened.0 w s q))
                (λ u w s q.
                  guard_step K (λ i. K) (is_directory opened.1 || not at_root) invalid _ w s q.0
                    (λ h. count_found-Keeps p.path opened.1 w s q))))

  scan_name-Keeps :
      (workspace parent : Bytes) (at_root : Bool) (child : Bytes) (rest : M O.World (Unit {0}))
      → Keeps K rest
      → Keeps K (scan_name O workspace parent at_root child rest)
  unfolding scan_name scan_resolved
  scan_name-Keeps workspace parent at_root child rest k w s v =
      step K (λ u t. K t × HasRoom t) (λ u. K) _ _ (reserve_entry-Ensures O K w s v)
        (λ u w s v.
          result_step K (λ u. K)
            (resolve (record { workspace = workspace; parent = parent; relative = child }) false) _
            w s v.0
            (λ p e.
              step K (λ i. K) (λ u. K) _ _ (scan_entry-Keeps p at_root w s v.0 v.1)
                (λ i w s v. if-Post K (λ u. K) w s (is_directory i) _ _ (λ h. k w s v) (λ h. v))))

  scan_entries-Keeps :
      (depth : ℕ) (workspace parent relative : Bytes)
      → Keeps K (scan_entries O depth workspace parent relative)
  unfolding scan_entries
  scan_entries-Keeps zero workspace parent relative = λ w s v. v
  scan_entries-Keeps (suc depth) workspace parent relative = read_dir-Keeps O K _ tt _ (λ u name.
      (let child = if is_nil relative then name else slash relative name in
        scan_name-Keeps workspace parent (is_nil relative) child
          (scan_entries O depth workspace parent child)
          (scan_entries-Keeps depth workspace parent child)))

  scan_scope-Keeps : (workspace parent : Bytes) → Keeps K (scan_scope O workspace parent)
  unfolding scan_scope
  scan_scope-Keeps workspace parent w s v =
      guard_step K (λ u. K) (same parent (ascii "root") || is_lower_id parent) invalid _ w s v
        (λ h.
          guard_step K (λ u. K) (ltb s.scopes s.options.max_entries) no_space _ w s v
            (λ h.
              step K (λ u. K) (λ u. K) _ _ (scan_container-Keeps (slash workspace parent) w s v)
                (λ u w t v.
                  scan_entries-Keeps (suc max_depth) workspace parent [] w
                    (record t { scopes = t.scopes + 1 })
                    (containers-IsSound le lb t.containers (t.scopes + 1) t.workspaces t v))))

  scan_workspace-Keeps : (workspace : Bytes) → Keeps K (scan_workspace O workspace)
  unfolding scan_workspace
  scan_workspace-Keeps workspace w s v =
      guard_step K (λ u. K) (is_lower_id workspace) invalid _ w s v
        (λ h.
          guard_step K (λ u. K) (ltb s.workspaces s.options.max_entries) no_space _ w s v
            (λ h.
              step K (λ u. K) (λ u. K) _ _ (scan_container-Keeps workspace w s v)
                (λ u w t v.
                  read_dir-Keeps O K workspace tt (λ u parent. scan_scope O workspace parent)
                    (λ u parent. scan_scope-Keeps workspace parent) w
                    (record t { workspaces = t.workspaces + 1 })
                    (containers-IsSound le lb t.containers t.scopes (t.workspaces + 1) t v))))

  scan-Keeps : Keeps K (scan O)
  unfolding scan
  scan-Keeps =
      read_dir-Keeps O K (ascii ".") tt (λ u workspace. scan_workspace O workspace)
        (λ u workspace. scan_workspace-Keeps workspace)

empty-IsSound : (o : Options) → o.max_bytes ≤ max_int64 → IsSound 0 0 (empty_store o)
unfolding total
empty-IsSound o h = record {
  counted = refl;
  summed = refl;
  small = omega arith;
  limited = h;
  room = omega arith;
  distinct = tt;
  live = tt;
  single = tt;
}

options-small :
    (l : Limits) (o : Options)
    → pos_part l.max_bytes ≤ max_int64
    → options_of l ≡ ok o
    → o.max_bytes ≤ max_int64
unfolding options_of
options-small l o h e = ground (arith, e)

reply_injective : (a b : Store) → value a ≡ value b → a ≡ b
reply_injective a b h = cc h

started-IsSound :
    (O : Os) (r : Outcome O.World (Unit {0})) (s : Store)
    → Post (IsSound 0 0) (λ u. IsSound 0 0) r
    → (started O r).0 ≡ value s
    → IsSound 0 0 s
started-IsSound O (done (failed e) w t) s p h = absurd (ground arith)
started-IsSound O (done (value u) w t) s p h = rw (reply_injective t s h) at p

-- A store that `New` returns.
pub start-IsSound :
    (O : Os) (l : Limits) (w : O.World) (s : Store)
    → pos_part l.max_bytes ≤ max_int64
    → (start O l w).0 ≡ value s
    → IsSound 0 0 s
unfolding start
start-IsSound O l w s h e = elim (Result-cases (options_of l)) [
  | inr (o, k) ↦
      started-IsSound O (scan O w (empty_store o)) s
        (scan-Keeps O 0 0 w (empty_store o) (empty-IsSound o (options-small l o h k)))
        (rw (start, k) at e)
  | inl (x, k) ↦ absurd (ground arith)
]
