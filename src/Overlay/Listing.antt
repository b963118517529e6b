-- ===== src/Overlay/Listing.antt =====
-- internal/overlay/store.go: describing entries, and listing the children of a directory, keeps the
-- accounting.
use fabric_workspace_fs.Prelude.{ℕ, true, false, ◌&&◌, List, [], if◌then◌else◌}
use fabric_workspace_fs.Errors.{not_dir}
use fabric_workspace_fs.Bytes.{Bytes}
use fabric_workspace_fs.Names.{is_nil}
use fabric_workspace_fs.Overlay.{
  Info, Description, Store, Os, Reply, failed, value, Location, is_not_exist,
}
use fabric_workspace_fs.Overlay.Paths.{Resolved, resolve, slash}
use fabric_workspace_fs.Overlay.Access.{is_directory}
use fabric_workspace_fs.Overlay.Directories.{
  stat, stat_entry, stat_container, list_child, list_children, list_found, list,
}
use fabric_workspace_fs.Overlay.Logic.{
  Keeps, step, attempt-Post, Attempted, attempted, if-Post, guard_step, result_step,
}
use fabric_workspace_fs.Overlay.Neutral.{check_locked-Keeps, checked_stat-Keeps, read_dir-Keeps}
use fabric_workspace_fs.Overlay.Entries.{IsStable, Kept, KeptWith, existing-Ensures, known-Keeps}

module _ (O : Os) (le lb : ℕ) (X : Store → Type 0) (stable : IsStable X) where
  abbrev K : Store → Type 0
  K = Kept O le lb X stable

  stat_container-Keeps : (p : Resolved) → Keeps K (stat_container O p)
  stat_container-Keeps p w s q =
      step K (λ i. K) (λ d. K) _ _ (checked_stat-Keeps O K p.path w s q)
        (λ i w s q.
          step K (λ u. K) (λ d. K) _ _ (known-Keeps O le lb X stable p.path i true w s q)
            (λ u w s q. q))

  stat_entry-Keeps : (p : Resolved) → Keeps K (stat_entry O p)
  stat_entry-Keeps p w s q =
      step K (λ n. KeptWith O le lb X stable p.path n) (λ d. K) _ _
        (existing-Ensures O le lb X stable p.path w s q) (λ n w s q. q.0)

  pub stat-Keeps : (l : Location) → Keeps K (stat O l)
  unfolding stat
  stat-Keeps l w s q =
      step K (λ u. K) (λ d. K) _ _ (check_locked-Keeps O K w s q)
        (λ u w s q.
          result_step K (λ d. K) (resolve l true) _ w s q
            (λ p e.
              if-Post K (λ d. K) w s (is_nil p.relative) _ _ (λ h. stat_container-Keeps p w s q)
                (λ h. stat_entry-Keeps p w s q)))

  list_child-Keeps :
      (l : Location) (p : Resolved) (ds : List Description) (name : Bytes)
      → Keeps K (list_child O l p ds name)
  unfolding list_child
  list_child-Keeps l p ds name w s q =
      result_step K (λ ds. K)
        (resolve (record l { relative = if is_nil p.relative then name else slash p.relative name })
          false)
        _ w s q
        (λ child e.
          step K (λ n. KeptWith O le lb X stable child.path n) (λ ds. K) _ _
            (existing-Ensures O le lb X stable child.path w s q) (λ n w s q. q.0))

  list_children-Keeps : (l : Location) (p : Resolved) (i : Info) → Keeps K (list_children O l p i)
  unfolding list_children
  list_children-Keeps l p i w s q =
      guard_step K (λ ds. K) (is_directory i) not_dir _ w s q
        (λ h.
          step K (λ u. K) (λ ds. K) _ _
            (known-Keeps O le lb X stable p.path i (is_nil p.relative) w s q)
            (λ u w s q.
              step K (λ ds. K) (λ ds. K) _ _
                (read_dir-Keeps O K p.path [] (list_child O l p) (list_child-Keeps l p) w s q)
                (λ ds w s q. q)))

  list_found-Keeps : (l : Location) (p : Resolved) (r : Reply Info) → Keeps K (list_found O l p r)
  list_found-Keeps l p (value i) w s q = list_children-Keeps l p i w s q
  list_found-Keeps l p (failed e) w s q =
      if-Post K (λ ds. K) w s (is_nil p.relative && is_not_exist e) _ _ (λ h. q) (λ h. q)

  pub list-Keeps : (l : Location) → Keeps K (list O l)
  unfolding list
  list-Keeps l w s q =
      step K (λ u. K) (λ d. K) _ _ (check_locked-Keeps O K w s q)
        (λ u w s q.
          result_step K (λ d. K) (resolve l true) _ w s q
            (λ p e.
              step K (Attempted K (λ i. K)) (λ d. K) _ _
                (attempt-Post K (λ i. K) _ (checked_stat-Keeps O K p.path w s q))
                (λ r w s q. list_found-Keeps l p r w s (attempted K r s q))))
