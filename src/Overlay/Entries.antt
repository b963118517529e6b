-- ===== src/Overlay/Entries.antt =====
-- internal/overlay/store.go: the helpers that bring entries up to date keep the accounting, and what
-- else is stable under them.
use fabric_workspace_fs.Prelude.{
  Option-cases, ℕ, ◌≡◌, inl, inr, Bool, true, false, some, List, arith, is_some,
}
use fabric_workspace_fs.Errors.{Error, conflict, invalid, not_dir}
use fabric_workspace_fs.Bytes.{same_refl, Bytes, same}
use fabric_workspace_fs.Tables.{lookup}
use fabric_workspace_fs.Overlay.{Info, Node, Store, Os}
use fabric_workspace_fs.Overlay.Paths.{Resolved}
use fabric_workspace_fs.Overlay.Access.{
  found, is_directory, same_object, fits_accounting, refreshed, refresh, entry_for, existing, known,
  destination, split_last, read_only_flags,
}
use fabric_workspace_fs.Overlay.Logic.{Post, Ensures, Keeps, step, guard_step, found_step}
use fabric_workspace_fs.Overlay.Neutral.{
  checked_stat-Keeps, open_verified-Keeps, close_file-Keeps, known_container-Keeps,
}
use fabric_workspace_fs.Overlay.Quota.{HasRoom, IsSound, refreshed-IsSound}

-- what a look at an entry does not change
pub record IsStable (X : Store → Type 0) : Type 0 where
  pub refreshed :
      (path : Bytes) (n : Node) (i : Info) (s : Store)
      → lookup path s.entries ≡ some n
      → X s
      → X (refreshed path n i s)
  pub poisoned : (es : List Error) (s : Store) → X s → X (record s { poison = some es })

-- room for an entry does not depend on what is known of the others
pub HasRoom-stable : IsStable HasRoom
unfolding refreshed
HasRoom-stable = record { refreshed = λ p n i s h r. r; poisoned = λ es s r. r }

module _ (O : Os) (le lb : ℕ) (X : Store → Type 0) (stable : IsStable X) where
  abbrev pub Kept : Store → Type 0
  Kept s = IsSound le lb s × X s

  -- a store that knows an entry
  abbrev pub KeptWith : Bytes → Node → Store → Type 0
  KeptWith path n s = Kept s × (lookup path s.entries ≡ some n)

  refreshed_known :
      (path : Bytes) (n : Node) (i : Info) (s : Store)
      → is_some (lookup path (refreshed path n i s).entries) ≡ true
  unfolding refreshed lookup
  refreshed_known path n i s = ground (arith, same_refl path)

  found_Ensures :
      (path : Bytes)
      → (w : O.World) (s : Store) → Kept s
      → Post Kept (λ n. KeptWith path n) (found (lookup path s.entries) conflict w s)
  found_Ensures path w s p = elim (Option-cases (lookup path s.entries)) [
    | inl e ↦ rw e p
    | inr (n, e) ↦ rw e (p, e)
  ]

  pub refresh-Keeps :
      (path : Bytes) (i : Info)
      → Ensures Kept (refresh O path i) (λ u s. Kept s × (is_some (lookup path s.entries) ≡ true))
  unfolding refresh
  refresh-Keeps path i w s p =
      found_step Kept (λ u s. Kept s × (is_some (lookup path s.entries) ≡ true))
        (lookup path s.entries) conflict _ w s p
        (λ n e.
          guard_step Kept (λ u s. Kept s × (is_some (lookup path s.entries) ≡ true))
            (same_object n.info i) conflict _ w s p
            (λ h.
              guard_step Kept (λ u s. Kept s × (is_some (lookup path s.entries) ≡ true))
                (fits_accounting n i s) invalid _ w s p
                (λ k. (
                  (refreshed-IsSound le lb path n i s p.0 e h k, stable.refreshed path n i s e p.1),
                  refreshed_known path n i s,
                ))))

  entry_for-Ensures :
      (path : Bytes) (i : Info) → Ensures Kept (entry_for O path i) (λ n. KeptWith path n)
  unfolding entry_for
  entry_for-Ensures path i w s p =
      found_step Kept (λ n. KeptWith path n) (lookup path s.entries) conflict _ w s p
        (λ n e.
          step Kept _ (λ n. KeptWith path n) _ _ (refresh-Keeps path i w s p)
            (λ u v t q. found_Ensures path v t q.0))

  pub existing-Ensures : (path : Bytes) → Ensures Kept (existing O path) (λ n. KeptWith path n)
  unfolding existing
  existing-Ensures path w s p =
      step Kept (λ a. Kept) (λ n. KeptWith path n) _ _
        (open_verified-Keeps O Kept path read_only_flags w s p)
        (λ opened v t q.
          step Kept (λ a. Kept) (λ n. KeptWith path n) _ _ (close_file-Keeps O Kept opened.0 v t q)
            (λ u v t q. entry_for-Ensures path opened.1 v t q))

  pub known-Keeps : (path : Bytes) (i : Info) (b : Bool) → Keeps Kept (known O path i b)
  unfolding known
  known-Keeps path i true w s p = known_container-Keeps O Kept path i w s p
  known-Keeps path i false w s p =
      step Kept (λ n. KeptWith path n) (λ u. Kept) _ _ (entry_for-Ensures path i w s p)
        (λ n v t q. q.0)

  pub destination-Keeps : (p : Resolved) → Keeps Kept (destination O p)
  unfolding destination
  destination-Keeps p w s q =
      let parent = (split_last p.path).0 in
      step Kept (λ a. Kept) (λ a. Kept) _ _ (checked_stat-Keeps O Kept parent w s q)
        (λ i v t q.
          guard_step Kept (λ a. Kept) (is_directory i) not_dir _ v t q
            (λ h.
              step Kept (λ a. Kept) (λ a. Kept) _ _
                (known-Keeps parent i (same parent p.scope) v t q) (λ u v t q. q)))
