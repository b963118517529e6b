-- ===== src/Overlay/Neutral.antt =====
-- internal/overlay/store.go: the helpers that look at the disk change nothing of the store.
use fabric_workspace_fs.Prelude.{arith, ℕ, zero, suc, Option, none, some, List, [], ◌∷◌, ltb, ◌==◌}
use fabric_workspace_fs.Errors.{Error, permission, not_dir, no_space, conflict}
use fabric_workspace_fs.Bytes.{Bytes, split}
use fabric_workspace_fs.Tables.{lookup}
use fabric_workspace_fs.Overlay.{
  is_not_exist, Info, Store, Reply, failed, value, NameRead, name, no_more, broken, Flags, Os, M,
}
use fabric_workspace_fs.Overlay.Paths.{slash, check_private}
use fabric_workspace_fs.Overlay.Access.{
  visit_name, poison_check, no_more_names, is_directory, check_locked, reserve_entry, stat_checked,
  stat_prefixes, stat_parts, checked_stat, verify, close_failed, open_verified, close_file,
  known_container, read_names, close_after, read_dir, is_last, empty_dir, read_only_flags,
}
use fabric_workspace_fs.Overlay.Directories.{is_present}
use fabric_workspace_fs.Overlay.Quota.{HasRoom}
use fabric_workspace_fs.Overlay.Logic.{
  Ensures, guard-Ensures, when_ok-Keeps, guard-Keeps, attempted, Post, Keeps, step, attempt-Post,
  Attempted, if-Post, guard_step, ok_step, ask_step, found_step,
}

module _ (O : Os) (P : Store → Type 0) where
  poison_check-Keeps : (o : Option (List Error)) → Keeps P (poison_check O o)
  poison_check-Keeps none w s p = p
  poison_check-Keeps (some es) w s p = p

  pub check_locked-Keeps : Keeps P (check_locked O)
  unfolding check_locked
  check_locked-Keeps w s p =
      step P (λ a. P) (λ a. P) _ _ (if-Post P (λ a. P) w s s.closed _ _ (λ e. p) (λ e. p))
        (λ u w t q.
          ok_step P (λ a. P) (O.context_err w).0 _ _ t q
            (λ e. poison_check-Keeps s.poison (O.context_err w).1 t q))

  stat_checked-Keeps : (prefix : Bytes) → Keeps P (stat_checked O prefix)
  unfolding stat_checked
  stat_checked-Keeps prefix w s p =
      ask_step P (λ a. P) (O.lstat prefix w).0 _ _ s p
        (λ i e. guard_step P (λ a. P) (check_private O.euid i) permission _ _ s p (λ h. p))

  stat_prefixes-Keeps : (prefix : Bytes) (ps : List Bytes) → Keeps P (stat_prefixes O prefix ps)
  unfolding stat_prefixes
  stat_prefixes-Keeps prefix [] w s p = stat_checked-Keeps prefix w s p
  stat_prefixes-Keeps prefix (q ∷ ps) w s p =
      step P (λ a. P) (λ a. P) _ _ (stat_checked-Keeps prefix w s p)
        (λ i w t r.
          guard_step P (λ a. P) (is_directory i) not_dir _ w t r
            (λ h. stat_prefixes-Keeps (slash prefix q) ps w t r))

  stat_parts-Keeps : (ps : List Bytes) → Keeps P (stat_parts O ps)
  stat_parts-Keeps [] w s p = p
  stat_parts-Keeps (q ∷ ps) w s p = stat_prefixes-Keeps q ps w s p

  pub checked_stat-Keeps : (path : Bytes) → Keeps P (checked_stat O path)
  unfolding checked_stat
  checked_stat-Keeps path w s p = stat_parts-Keeps (split b'/' path) w s p

  verify-Keeps : (fd : ℕ) (before : Info) → Keeps P (verify O fd before)
  unfolding verify
  verify-Keeps fd before w s p =
      ask_step P (λ a. P) (O.fstat fd w).0 _ _ s p
        (λ i e.
          guard_step P (λ a. P) (check_private O.euid i) permission _ _ s p
            (λ h.
              guard_step P (λ a. P) (before.identity == i.identity) permission _ _ s p (λ k. p)))

  pub close_failed-Keeps :
      {A : Type 0} (fd : ℕ) (r : Reply A) (w : O.World) (s : Store)
      → P s
      → Post P (λ a. P) (close_failed O fd r w s)
  close_failed-Keeps fd (value a) w s p = p
  close_failed-Keeps fd (failed e) w s p = p

  pub open_verified-Keeps : (path : Bytes) (f : Flags) → Keeps P (open_verified O path f)
  unfolding open_verified
  open_verified-Keeps path f w s p =
      step P (λ a. P) (λ a. P) _ _ (checked_stat-Keeps path w s p)
        (λ before w t q.
          ask_step P (λ a. P) (O.open_file path f w).0 _ (O.open_file path f w).1 t q
            (λ fd e.
              step P (Attempted P (λ a. P)) (λ a. P) _ _
                (attempt-Post P (λ a. P) _ (verify-Keeps fd before (O.open_file path f w).1 t q))
                (λ r w t q.
                  step P (λ a. P) (λ a. P) _ _ (close_failed-Keeps fd r w t (attempted P r t q))
                    (λ i w t q. q))))

  pub close_file-Keeps : (fd : ℕ) → Keeps P (close_file O fd)
  close_file-Keeps fd w s p = when_ok-Keeps P (O.close fd w).0 (O.close fd w).1 s p

  pub known_container-Keeps : (path : Bytes) (i : Info) → Keeps P (known_container O path i)
  unfolding known_container
  known_container-Keeps path i w s p =
      found_step P (λ a. P) (lookup path s.containers) conflict _ w s p
        (λ before e. guard-Keeps P (before.identity == i.identity) conflict w s p)

  full-Keeps :
      {A : Type 0} (a : A) (r : NameRead) (w : O.World) (s : Store)
      → P s
      → Post P (λ b. P) (no_more_names O a r w s)
  full-Keeps a (name c) w s p = p
  full-Keeps a no_more w s p = p
  full-Keeps a (broken es) w s p = p

  visited-Keeps :
      {A : Type 0} (a : A) (rest : A → M O.World A) (visit : A → Bytes → M O.World A)
      → ((b : A) → Keeps P (rest b))
      → ((b : A) (c : Bytes) → Keeps P (visit b c))
      → (r : NameRead) (w : O.World) (s : Store) → P s
      → Post P (λ b. P) (visit_name O a rest visit r w s)
  visited-Keeps a rest visit h k (name c) w s p =
      step P (λ a. P) (λ a. P) _ _ (k a c w s p) (λ b w t q. h b w t q)
  visited-Keeps a rest visit h k no_more w s p = p
  visited-Keeps a rest visit h k (broken es) w s p = p

  -- a loop over the names of a directory keeps what its visits keep
  read_names-Keeps :
      {A : Type 0} (fd n : ℕ) (a : A) (visit : A → Bytes → M O.World A)
      → ((b : A) (c : Bytes) → Keeps P (visit b c))
      → Keeps P (read_names O fd n a visit)
  unfolding read_names
  read_names-Keeps fd zero a visit k w s p =
      ok_step P (λ a. P) (O.context_err w).0 _ (O.context_err w).1 s p
        (λ e.
          full-Keeps a (O.read_name fd (O.context_err w).1).0 (O.read_name fd (O.context_err w).1).1
            s p)
  read_names-Keeps fd (suc n) a visit k w s p =
      ok_step P (λ a. P) (O.context_err w).0 _ (O.context_err w).1 s p
        (λ e.
          visited-Keeps a (λ b. read_names O fd n b visit) visit
            (λ b. read_names-Keeps fd n b visit k) k (O.read_name fd (O.context_err w).1).0
            (O.read_name fd (O.context_err w).1).1 s p)

  close_after-Keeps :
      {A : Type 0} (fd : ℕ) (r : Reply A) (w : O.World) (s : Store)
      → P s
      → Post P (λ a. P) (close_after O fd r w s)
  close_after-Keeps fd (failed e) w s p = p
  close_after-Keeps fd (value a) w s p =
      step P (λ a. P) (λ a. P) _ _ (close_file-Keeps fd w s p) (λ u w t q. q)

  pub read_dir-Keeps :
      {A : Type 0} (path : Bytes) (a : A) (visit : A → Bytes → M O.World A)
      → ((b : A) (c : Bytes) → Keeps P (visit b c))
      → Keeps P (read_dir O path a visit)
  unfolding read_dir
  read_dir-Keeps path a visit k w s p =
      step P (λ a. P) (λ a. P) _ _ (open_verified-Keeps path read_only_flags w s p)
        (λ opened w t q.
          step P (Attempted P (λ a. P)) (λ a. P) _ _
            (attempt-Post P (λ a. P) _
              (guard_step P (λ a. P) (is_directory opened.1) not_dir _ w t q
                (λ h. read_names-Keeps opened.0 t.options.max_entries a visit k w t q)))
            (λ r w v q. close_after-Keeps opened.0 r w v (attempted P r v q)))

  is_last-Keeps : (n : NameRead) → Keeps P (is_last O n)
  is_last-Keeps (name c) w s p = p
  is_last-Keeps no_more w s p = p
  is_last-Keeps (broken es) w s p = p

  pub empty_dir-Keeps : (path : Bytes) → Keeps P (empty_dir O path)
  unfolding empty_dir
  empty_dir-Keeps path w s p =
      step P (λ a. P) (λ a. P) _ _ (open_verified-Keeps path read_only_flags w s p)
        (λ opened w t q.
          step P (Attempted P (λ a. P)) (λ a. P) _ _
            (attempt-Post P (λ a. P) _
              (guard_step P (λ a. P) (is_directory opened.1) not_dir _ w t q
                (λ h.
                  ok_step P (λ a. P) (O.context_err w).0 _ (O.context_err w).1 t q
                    (λ e.
                      is_last-Keeps (O.read_name opened.0 (O.context_err w).1).0
                        (O.read_name opened.0 (O.context_err w).1).1 t q))))
            (λ r w v q. close_after-Keeps opened.0 r w v (attempted P r v q)))

  pub is_present-Keeps :
      (r : Reply Info) (w : O.World) (s : Store) → P s → Post P (λ b. P) (is_present O r w s)
  is_present-Keeps (value i) w s p = p
  is_present-Keeps (failed e) w s p = if-Post P (λ b. P) w s (is_not_exist e) _ _ (λ h. p) (λ h. p)

  pub reserve_entry-Ensures : Ensures P (reserve_entry O) (λ u s. P s × HasRoom s)
  unfolding reserve_entry
  reserve_entry-Ensures w s p =
      guard-Ensures P (λ u s. P s × HasRoom s) (ltb s.entry_count s.options.max_entries) no_space w
        s p (λ h. (p, ground arith))
