-- ===== src/Overlay/Sound.antt =====
-- internal/overlay/file.go: the operations on files keep the accounting of the store.
use fabric_workspace_fs.Prelude.{
  ℕ, ◌+◌, ◌-◌, ◌≡◌, refl, false, not, ◌&&◌, max, List, [], ◌∷◌, ◌++◌, arith, leb, ◌==◌, length, All,
}
use fabric_workspace_fs.Prelude.Int.{ℤ, pos, is_neg, pos_part}
use fabric_workspace_fs.Errors.{conflict, handle_closed, read_only, permission, invalid, Error}
use fabric_workspace_fs.Bytes.{Bytes, same}
use fabric_workspace_fs.Tables.{lookup}
use fabric_workspace_fs.Overlay.{Table, Node, File, Store, Reply, failed, value, Os}
use fabric_workspace_fs.Overlay.Access.{max_int64, growth, errors_of, any_open, check_private_at}
use fabric_workspace_fs.Overlay.Files.{
  find_file, set_closed, held, check_file, refresh_locked, poisoned_by, refresh_or_poison,
  close_locked, entry_of, read_at, write_bytes, write_checked, write_place, write_at, truncate,
  flush, close, size,
}
use fabric_workspace_fs.Overlay.Logic.{
  found-Keeps, attempted, when_ok-Keeps, Post, Keeps, step, weaken, attempt-Post, Attempted,
  if-Post, guard_step, ok_step, ask_step,
}
use fabric_workspace_fs.Overlay.Neutral.{check_locked-Keeps}
use fabric_workspace_fs.Overlay.Quota.{poisoned-IsSound, IsSound, IsLive, IsSingle}
use fabric_workspace_fs.Overlay.Entries.{IsStable, Kept, refresh-Keeps}

module _ (O : Os) (P : Store → Type 0) where
  held-Keeps : (id : ℕ) → Keeps P (held O id)
  unfolding held
  held-Keeps id w s p = found-Keeps P (find_file id s.files) handle_closed w s p

  check_file-Keeps : (id : ℕ) → Keeps P (check_file O id)
  unfolding check_file
  check_file-Keeps id w s p =
      step P (λ a. P) (λ a. P) _ _ (held-Keeps id w s p)
        (λ f v t q.
          step P (λ a. P) (λ a. P) _ _ (if-Post P (λ a. P) v t f.closed _ _ (λ e. q) (λ e. q))
            (λ u v t q. step P (λ a. P) (λ a. P) _ _ (check_locked-Keeps O P v t q) (λ u v t q. q)))

  entry_of-Keeps : (f : File) → Keeps P (entry_of O f)
  unfolding entry_of
  entry_of-Keeps f w s p = found-Keeps P (lookup f.path s.entries) conflict w s p

module _ (O : Os) (le lb : ℕ) (X : Store → Type 0) (stable : IsStable X) where
  abbrev K : Store → Type 0
  K = Kept O le lb X stable

  refresh_locked-Keeps : (fd : ℕ) (path : Bytes) → Keeps K (refresh_locked O fd path)
  unfolding refresh_locked
  refresh_locked-Keeps fd path w s p =
      ask_step K (λ u. K) (O.fstat fd w).0 _ (O.fstat fd w).1 s p
        (λ i e.
          guard_step K (λ u. K) (check_private_at O i) permission _ (O.fstat fd w).1 s p
            (λ h.
              weaken K K _ (λ u. K) _ (λ t q. q) (λ u t q. q.0)
                (refresh-Keeps O le lb X stable path i (O.fstat fd w).1 s p)))

  poisoned_by-Keeps :
      (r : Reply (Unit {0})) (w : O.World) (s : Store) → K s → Post K (λ a. K) (poisoned_by O r w s)
  poisoned_by-Keeps (value u) w s p = p
  poisoned_by-Keeps (failed e) w s p = (poisoned-IsSound le lb s e p.0, stable.poisoned e s p.1)

  pub refresh_or_poison-Keeps : (fd : ℕ) (path : Bytes) → Keeps K (refresh_or_poison O fd path)
  unfolding refresh_or_poison
  refresh_or_poison-Keeps fd path w s p =
      step K (Attempted K (λ u. K)) (λ a. K) _ _
        (attempt-Post K (λ u. K) _ (refresh_locked-Keeps fd path w s p))
        (λ r v t q. poisoned_by-Keeps r v t (attempted K r t q))

  write_bytes-Keeps : (f : File) (p : Bytes) (offset : ℕ) → Keeps K (write_bytes O f p offset)
  write_bytes-Keeps f p offset w s k = if-Post K (λ a. K) w s f.append _ _ (λ e. k) (λ e. k)

  write_checked-Keeps :
      (f : File) (p : Bytes) (old offset : ℕ) → Keeps K (write_checked O f p old offset)
  unfolding write_checked
  write_checked-Keeps f p old offset w s k =
      guard_step K (λ a. K) (leb (length p) (max_int64 - offset)) invalid _ w s k
        (λ h.
          ok_step K (λ a. K) (errors_of (growth old (pos (max old (offset + length p))) s)) _ w s k
            (λ e.
              step K (λ a. K) (λ a. K) _ _ (write_bytes-Keeps f p offset w s k)
                (λ n v t q.
                  step K (λ a. K) (λ a. K) _ _ (refresh_or_poison-Keeps f.fd f.path v t q)
                    (λ r v t q. q))))

  pub write_at-Keeps : (id : ℕ) (p : Bytes) (offset : ℤ) → Keeps K (write_at O id p offset)
  unfolding write_at
  write_at-Keeps id p offset w s k =
      step K (λ a. K) (λ a. K) _ _ (check_file-Keeps O K id w s k)
        (λ f v t q.
          guard_step K (λ a. K) (not (is_neg offset)) invalid _ v t q
            (λ h.
              guard_step K (λ a. K) f.writable read_only _ v t q
                (λ h.
                  step K (λ a. K) (λ a. K) _ _ (refresh_locked-Keeps f.fd f.path v t q)
                    (λ u v t q.
                      step K (λ a. K) (λ a. K) _ _ (entry_of-Keeps O K f v t q)
                        (λ n v t q.
                          if-Post K (λ a. K) v t (length p == 0) _ _ (λ e. q)
                            (λ e.
                              write_checked-Keeps f p n.size
                                (write_place f n.size (pos_part offset)) v t q))))))

  pub truncate-Keeps : (id : ℕ) (n : ℤ) → Keeps K (truncate O id n)
  unfolding truncate
  truncate-Keeps id n w s k =
      step K (λ a. K) (λ a. K) _ _ (check_file-Keeps O K id w s k)
        (λ f v t q.
          guard_step K (λ a. K) (not (is_neg n)) invalid _ v t q
            (λ h.
              guard_step K (λ a. K) f.writable read_only _ v t q
                (λ h.
                  step K (λ a. K) (λ a. K) _ _ (refresh_locked-Keeps f.fd f.path v t q)
                    (λ u v t q.
                      step K (λ a. K) (λ a. K) _ _ (entry_of-Keeps O K f v t q)
                        (λ old v t q.
                          ok_step K (λ a. K) (errors_of (growth old.size n t)) _ v t q
                            (λ e.
                              step K (λ a. K) (λ a. K) _ _
                                (refresh_or_poison-Keeps f.fd f.path
                                  (O.truncate f.fd (pos_part n) v).1 t q)
                                (λ r x y z.
                                  when_ok-Keeps K ((O.truncate f.fd (pos_part n) v).0 ++ r) x y
                                    z)))))))

  pub read_at-Keeps : (id n : ℕ) (offset : ℤ) → Keeps K (read_at O id n offset)
  unfolding read_at
  read_at-Keeps id n offset w s k =
      step K (λ a. K) (λ a. K) _ _ (check_file-Keeps O K id w s k)
        (λ f v t q.
          guard_step K (λ a. K) (not (is_neg offset) && leb n (max_int64 - pos_part offset)) invalid
            _ v t q
            (λ h.
              guard_step K (λ a. K) f.readable permission _ v t q
                (λ h.
                  step K (λ a. K) (λ a. K) _ _ (refresh_locked-Keeps f.fd f.path v t q)
                    (λ u v t q. q))))

  pub flush-Keeps : (id : ℕ) → Keeps K (flush O id)
  unfolding flush
  flush-Keeps id w s k =
      step K (λ a. K) (λ a. K) _ _ (check_file-Keeps O K id w s k)
        (λ f v t q. when_ok-Keeps K (O.sync f.fd v).0 (O.sync f.fd v).1 t q)

  pub size-Keeps : (id : ℕ) → Keeps K (size O id)
  unfolding size
  size-Keeps id w s k =
      step K (λ a. K) (λ a. K) _ _ (held-Keeps O K id w s k)
        (λ f v t q.
          step K (λ a. K) (λ a. K) _ _
            (if-Post K (λ a. K) v t f.closed _ _ (λ h. q)
              (λ h. refresh_or_poison-Keeps f.fd f.path v t q))
            (λ r v t q. step K (λ a. K) (λ a. K) _ _ (entry_of-Keeps O K f v t q) (λ n v t q. q)))

-- closing a file
closed_live :
    (id : ℕ) (es : List Error) (entries : Table Node) (fs : List File)
    → All (IsLive entries) fs
    → All (IsLive entries) (set_closed id es fs)
unfolding set_closed
closed_live id es entries [] a = tt
closed_live id es entries (f ∷ fs) a = (ground (arith, a.0), closed_live id es entries fs a.1)

any_open-set_closed :
    (id : ℕ) (es : List Error) (path : Bytes) (fs : List File)
    → any_open (λ g. same g.path path && g.writable) fs ≡ false
    → any_open (λ g. same g.path path && g.writable) (set_closed id es fs) ≡ false
unfolding set_closed any_open
any_open-set_closed id es path [] h = refl
any_open-set_closed id es path (f ∷ fs) h = ground (arith, any_open-set_closed id es path fs)

closed_single :
    (id : ℕ) (es : List Error) (fs : List File) → IsSingle fs → IsSingle (set_closed id es fs)
unfolding set_closed
closed_single id es [] a = tt
closed_single id es (f ∷ fs) a =
    (ground (arith, a.0, any_open-set_closed id es f.path fs), closed_single id es fs a.1)

module _ (O : Os) (le lb : ℕ) where
  pub close_locked-Keeps : (f : File) → Keeps (IsSound le lb) (close_locked O f)
  unfolding close_locked
  close_locked-Keeps f w s v =
      if-Post (IsSound le lb) (λ a. IsSound le lb) w s f.closed _ _ (λ e. v)
        (λ e. record {
          counted = v.counted;
          summed = v.summed;
          small = v.small;
          limited = v.limited;
          room = v.room;
          distinct = v.distinct;
          live = closed_live f.id (O.close f.fd w).0 s.entries s.files v.live;
          single = closed_single f.id (O.close f.fd w).0 s.files v.single;
        })

  pub close-Keeps : (id : ℕ) → Keeps (IsSound le lb) (close O id)
  unfolding close
  close-Keeps id w s v =
      step (IsSound le lb) (λ a. IsSound le lb) (λ a. IsSound le lb) _ _
        (held-Keeps O (IsSound le lb) id w s v) (λ f x t q. close_locked-Keeps f x t q)
