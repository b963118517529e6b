-- ===== src/Overlay/Making.antt =====
-- internal/overlay/store.go: making a directory, and the containers that it needs, keeps the accounting.
use fabric_workspace_fs.Prelude.{
  is_some, ℕ, ◌+◌, ◌≡◌, Bool, true, false, not, none, [], arith, if◌then◌else◌, ltb,
}
use fabric_workspace_fs.Prelude.Int.{pos_part}
use fabric_workspace_fs.Errors.{conflict, no_space, exist, not_dir}
use fabric_workspace_fs.Bytes.{Bytes}
use fabric_workspace_fs.Tables.{lookup, put}
use fabric_workspace_fs.Overlay.{
  pure, Info, Store, Os, Reply, failed, value, Location, is_not_exist,
}
use fabric_workspace_fs.Overlay.Paths.{Resolved, resolve}
use fabric_workspace_fs.Overlay.Access.{
  known, is_directory, add_created, open_verified, read_only_flags,
}
use fabric_workspace_fs.Overlay.Directories.{
  making_below, is_root_name, or_poison, make_container, ensure_one, ensured, ensure_containers,
  making, mkdir_resolved, mkdir,
}
use fabric_workspace_fs.Overlay.Logic.{
  Ensures, Post, Keeps, step, weaken, both, attempt-Post, Attempted, attempted, if-Post, guard_step,
  ok_step, result_step,
}
use fabric_workspace_fs.Overlay.Neutral.{
  check_locked-Keeps, checked_stat-Keeps, open_verified-Keeps, close_file-Keeps,
  known_container-Keeps, reserve_entry-Ensures, is_present-Keeps,
}
use fabric_workspace_fs.Overlay.Quota.{
  HasRoom, IsSound, containers-IsSound, poisoned-IsSound, added_directory-IsSound,
}
use fabric_workspace_fs.Overlay.Entries.{HasRoom-stable, Kept, destination-Keeps}

-- What the system promises of `Mkdir`: what is opened at the path right after it is a directory.
abbrev pub MakesDirectories : Os → Type 0
MakesDirectories O =
    (path : Bytes) (w : O.World) (s : Store)
    → (O.mkdir path w).0 ≡ []
    → Post (λ t. Unit {0}) (λ opened t. is_directory opened.1 ≡ true)
        (open_verified O path read_only_flags (O.mkdir path w).1 s)

module _ (O : Os) (le lb : ℕ) where
  -- where `reserveEntry` has found room for the new entry
  abbrev K : Store → Type 0
  K = Kept O le lb HasRoom HasRoom-stable

  abbrev S : Store → Type 0
  S = IsSound le lb

  or_poison-Ensures :
      {Value : Type 0} (Q : Value → Store → Type 0) (r : Reply Value) (w : O.World) (s : Store)
      → Attempted K Q r s
      → Post K Q (or_poison r w s)
  or_poison-Ensures Q (value a) w s p = p
  or_poison-Ensures Q (failed e) w s p = (poisoned-IsSound le lb s e p.0, p.1)

  make_container-Keeps : (path : Bytes) (is_scope : Bool) → Keeps K (make_container O path is_scope)
  unfolding make_container
  make_container-Keeps path is_scope w s v =
      let R : Unit {0} → Store → Type 0 = λ u. K in
      guard_step K R (not (is_some (lookup path s.containers))) conflict _ w s v (λ h.
        guard_step K R (ltb (if is_scope then s.scopes else s.workspaces) s.options.max_entries)
          no_space _ w s v
          (λ h. ok_step K R (O.mkdir path w).0 _ (O.mkdir path w).1 s v (λ e.
            step K (Attempted K (λ i. K)) R _ _
              (attempt-Post K (λ i. K) _
                (step K (λ a. K) (λ i. K) _ _
                  (open_verified-Keeps O K path read_only_flags (O.mkdir path w).1 s v)
                  (λ opened w s v.
                    step K (λ a. K) (λ i. K) _ _ (close_file-Keeps O K opened.0 w s v)
                      (λ u w s v. v))))
              (λ r w s q.
                step K (λ i. K) R _ _ (or_poison-Ensures (λ i. K) r w s q)
                  (λ i w t v. (
                    containers-IsSound le lb (put path i t.containers)
                        (if is_scope then t.scopes + 1 else t.scopes)
                        (if is_scope then t.workspaces else t.workspaces + 1) t v.0,
                    v.1,
                  ))))))

  ensure_one-Keeps :
      (path : Bytes) (is_scope : Bool) (r : Reply Info) → Keeps K (ensure_one O path is_scope r)
  unfolding known
  ensure_one-Keeps path is_scope (value i) w s v =
      guard_step K (λ u. K) (is_directory i) not_dir _ w s v
        (λ h. known_container-Keeps O K path i w s v)
  ensure_one-Keeps path is_scope (failed e) w s v =
      if-Post K (λ u. K) w s (is_not_exist e) _ _ (λ h. make_container-Keeps path is_scope w s v)
        (λ h. v)

  ensured-Keeps :
      (path : Bytes) (is_scope : Bool) (w : O.World) (s : Store)
      → K s
      → Post K (λ u. K) (ensured O path is_scope w s)
  unfolding ensured
  ensured-Keeps path is_scope w s v =
      step K (Attempted K (λ i. K)) (λ u. K) _ _
        (attempt-Post K (λ i. K) _ (checked_stat-Keeps O K path w s v))
        (λ r w s v. ensure_one-Keeps path is_scope r w s (attempted K r s v))

  ensure_containers-Keeps : (p : Resolved) → Keeps K (ensure_containers O p)
  unfolding ensure_containers
  ensure_containers-Keeps p w s v =
      step K (λ u. K) (λ u. K) _ _ (ensured-Keeps p.workspace false w s v)
        (λ u w s v. ensured-Keeps p.scope true w s v)

  abbrev N : Bytes → Store → Type 0
  N path s = K s × (lookup path s.entries ≡ none)

  added-Keeps :
      (path : Bytes) (w : O.World) (s : Store)
      → Post
          (λ t. Unit {0})
          (λ opened t. is_directory opened.1 ≡ true)
          (open_verified O path read_only_flags w s)
      → N path s
      → Post K (λ u. S) (add_created O path w s)
  unfolding add_created
  added-Keeps path w s d p =
      let D : ℕ × Info → Store → Type 0 = λ opened t. N path t × (is_directory opened.1 ≡ true) in
      step K D (λ u. S) _ _
        (weaken (N path) K D D _ (λ t q. q.0) (λ a t q. q)
          (both (N path) (λ a. N path) (λ opened t. is_directory opened.1 ≡ true) _
            (open_verified-Keeps O (N path) path read_only_flags w s p) d))
        (λ opened w s q.
          step K (λ u t. D opened t) (λ u. S) _ _
            (weaken (D opened) K (λ u. D opened) (λ u. D opened) _ (λ t q. q.0.0) (λ a t q. q)
              (close_file-Keeps O (D opened) opened.0 w s q))
            (λ u w t q.
              added_directory-IsSound le lb path
                (record { info = opened.1; size = pos_part opened.1.size }) t q.0.0.0 q.0.0.1 q.0.1
                q.1))

  making-Keeps : MakesDirectories O → (path : Bytes) → Ensures K (making O path) (λ u. S)
  unfolding making
  making-Keeps makes path w s v =
      guard_step K (λ u. S) (not (is_some (lookup path s.entries))) conflict _ w s v
        (λ free.
          ok_step K (λ u. S) (O.mkdir path w).0 _ (O.mkdir path w).1 s v
            (λ e.
              step K (Attempted K (λ u. S)) (λ u. S) _ _
                (attempt-Post K (λ u. S) _
                  (added-Keeps path (O.mkdir path w).1 s (makes path w s e)
                    (v, ground (arith, free))))
                (λ r w s q. or_poison-Ensures (λ u. S) r w s q)))

  ensured_if-Keeps :
      (p : Resolved) (b : Bool) → Keeps K (if b then ensure_containers O p else pure tt)
  ensured_if-Keeps p true w s v = ensure_containers-Keeps p w s v
  ensured_if-Keeps p false w s v = v

  -- from the point where there is room
  made_with_room-Keeps :
      MakesDirectories O
      → (p : Resolved) (w : O.World) (s : Store) → K s
      → Post S (λ u. S) (making_below O p w s)
  unfolding making_below
  made_with_room-Keeps makes p w s v =
      let R : Unit {0} → Store → Type 0 = λ u. S in
      weaken K S R R _ (λ t q. q.0) (λ a t q. q)
        (step K (λ u. K) R _ _ (ensured_if-Keeps p (is_root_name p) w s v)
          (λ u w s v.
            step K (λ a. K) R _ _ (destination-Keeps O le lb HasRoom HasRoom-stable p w s v)
              (λ path w s v. making-Keeps makes path w s v)))

  mkdir_resolved-Keeps : MakesDirectories O → (p : Resolved) → Keeps S (mkdir_resolved O p)
  unfolding mkdir_resolved
  mkdir_resolved-Keeps makes p w s v =
      let R : Unit {0} → Store → Type 0 = λ u. S in
      step S (Attempted S (λ a. S)) R _ _
        (attempt-Post S (λ a. S) _ (checked_stat-Keeps O S p.path w s v))
        (λ reply w s q.
          step S (λ a. S) R _ _ (is_present-Keeps O S reply w s (attempted S reply s q))
            (λ present w s v. guard_step S R (not present) exist _ w s v (λ h.
              step S (λ u. K) R _ _ (reserve_entry-Ensures O S w s v)
                (λ u w s v. made_with_room-Keeps makes p w s v))))

  pub mkdir-Keeps : MakesDirectories O → (l : Location) → Keeps S (mkdir O l)
  unfolding mkdir
  mkdir-Keeps makes l w s v =
      step S (λ a. S) (λ u. S) _ _ (check_locked-Keeps O S w s v)
        (λ u w s v.
          result_step S (λ u. S) (resolve l false) _ w s v
            (λ p e. mkdir_resolved-Keeps makes p w s v))
