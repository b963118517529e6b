-- ===== src/Overlay/Removal.antt =====
-- internal/overlay/store.go: removing an entry, and with it the containers that it leaves empty, keeps
-- the accounting.
use fabric_workspace_fs.Prelude.{
  ℕ, ◌-◌, ◌≡◌, Bool, true, false, not, ◌&&◌, ◌||◌, some, List, [], ◌∷◌, arith, if◌then◌else◌,
}
use fabric_workspace_fs.Errors.{
  Error, busy as busy_error, not_dir, is_dir as is_dir_error, not_empty,
}
use fabric_workspace_fs.Bytes.{Bytes}
use fabric_workspace_fs.Tables.{lookup, remove}
use fabric_workspace_fs.Overlay.{when_ok, fail, Node, Store, Os, Location, M, pure}
use fabric_workspace_fs.Overlay.Paths.{Resolved, resolve}
use fabric_workspace_fs.Overlay.Access.{forget, is_directory, busy, empty_dir}
use fabric_workspace_fs.Overlay.Directories.{
  removing, is_not_empty, is_root_name, prune_container, prune_containers, remove_entry,
  container_removed,
}
use fabric_workspace_fs.Overlay.Logic.{
  Post, Keeps, step, weaken, if-Post, guard_step, result_step, when_ok-Keeps,
}
use fabric_workspace_fs.Overlay.Neutral.{check_locked-Keeps, empty_dir-Keeps}
use fabric_workspace_fs.Overlay.Quota.{IsSound, containers-IsSound, forget-IsSound}
use fabric_workspace_fs.Overlay.Entries.{Kept, KeptWith, existing-Ensures}
use fabric_workspace_fs.Overlay.Opening.{Always, Always-stable}

module _ (O : Os) (le lb : ℕ) where
  abbrev K : Store → Type 0
  K = IsSound le lb

  container_removed-Keeps :
      (path : Bytes) (is_scope : Bool) (rest : M O.World (Unit {0})) (es : List Error)
      → Keeps K rest
      → Keeps K (container_removed O path is_scope rest es)
  container_removed-Keeps path is_scope rest [] k w s v =
      k w
        (record s {
          containers = remove path s.containers;
          scopes = if is_scope then s.scopes - 1 else s.scopes;
          workspaces = if is_scope then s.workspaces else s.workspaces - 1;
        })
        (containers-IsSound le lb (remove path s.containers)
          (if is_scope then s.scopes - 1 else s.scopes)
          (if is_scope then s.workspaces else s.workspaces - 1) s v)
  container_removed-Keeps path is_scope rest (e ∷ es) k w s v =
      if-Post K (λ u. K) w s (is_not_empty (e ∷ es)) _ _ (λ h. v) (λ h. v)

  prune_container-Keeps :
      (path : Bytes) (is_scope : Bool) (rest : M O.World (Unit {0}))
      → Keeps K rest
      → Keeps K (prune_container O path is_scope rest)
  unfolding prune_container
  prune_container-Keeps path is_scope rest k w s v =
      step K (λ b. K) (λ u. K) _ _ (empty_dir-Keeps O K path w s v)
        (λ empty w s v.
          if-Post K (λ u. K) w s empty _ _
            (λ h.
              container_removed-Keeps path is_scope rest (O.remove path w).0 k (O.remove path w).1 s
                v)
            (λ h. v))

  prune_containers-Keeps : (p : Resolved) → Keeps K (prune_containers O p)
  unfolding prune_containers
  prune_containers-Keeps p =
      prune_container-Keeps p.scope true (prune_container O p.workspace false (pure tt))
        (prune_container-Keeps p.workspace false (pure tt) (λ w s v. v))

  -- what the removal needs of the store: the entry is there and no file is open below it
  abbrev Free : Bytes → Node → Store → Type 0
  Free path n s = K s × (lookup path s.entries ≡ some n) × (busy path s ≡ false)

  checked_empty-Keeps :
      (path : Bytes) (n : Node) (b : Bool)
      → Keeps (Free path n) (if b then empty_dir O path else pure true)
  checked_empty-Keeps path n true w s p = empty_dir-Keeps O (Free path n) path w s p
  checked_empty-Keeps path n false w s p = p

  removed-Keeps :
      (path : Bytes) (n : Node) (es : List Error)
      → Keeps {World = O.World}
          (Free path n)
          (if is_not_empty es then fail (not_empty ∷ es) else when_ok es)
  removed-Keeps path n es w s p =
      if-Post (Free path n) (λ u. Free path n) w s (is_not_empty es) _ _ (λ h. p)
        (λ h. when_ok-Keeps (Free path n) es w s p)

  removing-Keeps :
      (p : Resolved) (wanted : Bool) (n : Node) (w : O.World) (s : Store)
      → Free p.path n s
      → Post K (λ u. K) (removing O p wanted n w s)
  unfolding removing
  removing-Keeps p wanted n w s q =
      let F = Free p.path n in
      step K (λ b. F) (λ u. K) _ _
        (weaken F K (λ b. F) (λ b. F) _ (λ t q. q.0) (λ a t q. q)
          (checked_empty-Keeps p.path n wanted w s q))
        (λ empty w s q.
          guard_step K (λ u. K) empty not_empty _ w s q.0
            (λ h.
              step K (λ b. F) (λ u. K) _ _
                (weaken F K (λ b. F) (λ b. F) _ (λ t q. q.0) (λ a t q. q)
                  (removed-Keeps p.path n (O.remove p.path w).0 (O.remove p.path w).1 s q))
                (λ u w s q.
                  if-Post K (λ u. K) w (forget p.path n s) (is_root_name p) _ _
                    (λ h.
                      prune_containers-Keeps p w (forget p.path n s)
                        (forget-IsSound le lb p.path n s q.0 q.1 q.2))
                    (λ h. forget-IsSound le lb p.path n s q.0 q.1 q.2))))

  pub remove_entry-Keeps : (l : Location) (wanted : Bool) → Keeps K (remove_entry O l wanted)
  unfolding remove_entry
  remove_entry-Keeps l wanted w s v =
      let A = Kept O le lb Always Always-stable in
      let R : Unit {0} → Store → Type 0 = λ u. K in
      weaken A K R R _ (λ t q. q.0) (λ a t q. q)
        (step A (λ a. A) R _ _ (check_locked-Keeps O A w s (v, tt))
          (λ u w s p. result_step A R (resolve l false) _ w s p (λ r e.
            step A (λ n. KeptWith O le lb Always Always-stable r.path n) R _ _
              (existing-Ensures O le lb Always Always-stable r.path w s p)
              (λ n w s q.
                guard_step A R (not (wanted && not (is_directory n.info))) not_dir _ w s q.0 (λ h.
                  guard_step A R (wanted || not (is_directory n.info)) is_dir_error _ w s q.0 (λ h.
                    guard_step A R (not (busy r.path s)) busy_error _ w s q.0 (λ k.
                      weaken K A R R _ (λ t z. (z, tt)) (λ a t z. z)
                        (removing-Keeps r wanted n w s (q.0.0, q.1, ground (arith, k))))))))))
