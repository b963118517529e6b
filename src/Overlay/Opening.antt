-- ===== src/Overlay/Opening.antt =====
-- internal/overlay/file.go: opening files keeps the accounting, and one writer to a file.
use fabric_workspace_fs.Prelude.{
  ℕ, ◌≡◌, Bool, true, false, not, ◌&&◌, some, List, [], ◌∷◌, ◌++◌, arith, if◌then◌else◌, is_some,
}
use fabric_workspace_fs.Prelude.Int.{pos_part}
use fabric_workspace_fs.Errors.{is_dir as is_dir_error, busy as busy_error, invalid, Error}
use fabric_workspace_fs.Bytes.{Bytes}
use fabric_workspace_fs.Tables.{lookup, lookup-put}
use fabric_workspace_fs.Overlay.{Info, Node, Store, Flags, Os, Location}
use fabric_workspace_fs.Overlay.Paths.{resolve}
use fabric_workspace_fs.Overlay.Access.{is_directory, has_writer, refreshed}
use fabric_workspace_fs.Overlay.Files.{
  is_writable, valid_flags, make_handle, with_file, closes_failed, open_truncate, opening,
  open_entry,
}
use fabric_workspace_fs.Overlay.Logic.{
  attempted, Ensures, Keeps, step, weaken, attempt-Post, Attempted, if-Post, guard_step,
  result_step,
}
use fabric_workspace_fs.Overlay.Neutral.{
  open_verified-Keeps, close_failed-Keeps, check_locked-Keeps,
}
use fabric_workspace_fs.Overlay.Sound.{refresh_or_poison-Keeps}
use fabric_workspace_fs.Overlay.Quota.{IsSound}
use fabric_workspace_fs.Overlay.Entries.{IsStable, Kept, KeptWith, refresh-Keeps, existing-Ensures}

-- a path that a new file may be opened on
pub record IsFree (path : Bytes) (writable : Bool) (s : Store) : Type 0 where
  pub there : is_some (lookup path s.entries) ≡ true
  pub alone : (writable && has_writer path s) ≡ false

lookup_refreshed :
    (path p : Bytes) (n : Node) (i : Info) (s : Store)
    → is_some (lookup path s.entries) ≡ true
    → is_some (lookup path (refreshed p n i s).entries) ≡ true
unfolding refreshed
lookup_refreshed path p n i s h =
    let new : Node = record {
      info = i;
      size = if is_directory i then n.size else pos_part i.size;
    } in
    ground (arith, lookup-put p path new s.entries)

IsFree-stable : (path : Bytes) (writable : Bool) → IsStable (IsFree path writable)
unfolding refreshed has_writer
IsFree-stable path writable = record {
  refreshed = λ p n i s h f. record {
    there = ground (arith, f.there, lookup_refreshed path p n i s);
    alone = f.alone;
  };
  poisoned = λ es s f. record { there = f.there; alone = f.alone };
}

abbrev pub Always : Store → Type 0
Always s = Unit

pub Always-stable : IsStable Always
Always-stable = record { refreshed = λ p n i s h u. tt; poisoned = λ es s u. tt }

unwritten-IsFree :
    (path : Bytes) (f : Flags) (n : Node) (s : Store)
    → lookup path s.entries ≡ some n
    → not (is_writable f && has_writer path s) ≡ true
    → IsFree path (is_writable f) s
unwritten-IsFree path f n s h k = record { there = ground (arith, h); alone = ground (arith, k) }

module _ (O : Os) (le lb : ℕ) where
  pub registered-IsSound :
      (fd : ℕ) (path : Bytes) (f : Flags) (s : Store)
      → IsSound le lb s
      → IsFree path (is_writable f) s
      → IsSound le lb (with_file (make_handle s.next_file fd path f) s)
  unfolding make_handle has_writer
  registered-IsSound fd path f s v free = record {
    counted = v.counted;
    summed = v.summed;
    small = v.small;
    limited = v.limited;
    room = v.room;
    distinct = v.distinct;
    live = (free.there, v.live);
    single = (ground (arith, free.alone), v.single);
  }

  abbrev F : Bytes → Flags → Store → Type 0
  F path f = Kept O le lb (IsFree path (is_writable f)) (IsFree-stable path (is_writable f))

  closes_failed-Keeps :
      (path : Bytes) (f : Flags) (fd : ℕ) (es : List Error)
      → Keeps (F path f) (closes_failed O fd es)
  closes_failed-Keeps path f fd [] w s p = p
  closes_failed-Keeps path f fd (e ∷ es) w s p = p

  open_truncate-Keeps :
      (path : Bytes) (f : Flags) (fd : ℕ) → Keeps (F path f) (open_truncate O fd path)
  unfolding open_truncate
  open_truncate-Keeps path f fd w s p =
      step (F path f) (λ a. F path f) (λ a. F path f) _ _
        (refresh_or_poison-Keeps O le lb (IsFree path (is_writable f))
          (IsFree-stable path (is_writable f)) fd path (O.truncate fd 0 w).1 s p)
        (λ r v t q. closes_failed-Keeps path f fd ((O.truncate fd 0 w).0 ++ r) v t q)

  -- from the point where the entry is known and the file may be opened
  opening-Keeps :
      (path : Bytes) (f : Flags) → Ensures (F path f) (opening O path f) (λ a s. IsSound le lb s)
  unfolding opening
  opening-Keeps path f w s p =
      let X = IsFree path (is_writable f) in
      let stable = IsFree-stable path (is_writable f) in
      step (F path f) (λ a. F path f) (λ a s. IsSound le lb s) _ _
        (open_verified-Keeps O (F path f) path (record f { truncate = false }) w s p)
        (λ opened v t q.
          step (F path f) (Attempted (F path f) (λ a. F path f)) (λ a s. IsSound le lb s) _ _
            (attempt-Post (F path f) (λ a. F path f) _
              (weaken (F path f) (F path f)
                (λ u t. F path f t × (is_some (lookup path t.entries) ≡ true)) (λ a. F path f) _
                (λ t q. q) (λ u t q. q.0) (refresh-Keeps O le lb X stable path opened.1 v t q)))
            (λ r v t q.
              step (F path f) (λ a. F path f) (λ a s. IsSound le lb s) _ _
                (close_failed-Keeps O (F path f) opened.0 r v t (attempted (F path f) r t q))
                (λ u v t q.
                  step (F path f) (λ a. F path f) (λ a s. IsSound le lb s) _ _
                    (if-Post (F path f) (λ a. F path f) v t f.truncate _ _
                      (λ e. open_truncate-Keeps path f opened.0 v t q) (λ e. q))
                    (λ u v t q. registered-IsSound opened.0 path f t q.0 q.1))))

  pub open_entry-Keeps : (l : Location) (f : Flags) → Keeps (IsSound le lb) (open_entry O l f)
  unfolding open_entry
  open_entry-Keeps l f w s v =
      let A = Kept O le lb Always Always-stable in
      weaken A (IsSound le lb) (λ a. IsSound le lb) (λ a. IsSound le lb) _ (λ t q. q.0) (λ a t q. q)
        (step A (λ a. A) (λ a. IsSound le lb) _ _ (check_locked-Keeps O A w s (v, tt))
          (λ u w s p.
            guard_step A (λ a. IsSound le lb) (valid_flags f false) invalid _ w s p
              (λ h.
                result_step A (λ a. IsSound le lb) (resolve l false) _ w s p
                  (λ r e.
                    step A (λ n. KeptWith O le lb Always Always-stable r.path n)
                      (λ a. IsSound le lb) _ _
                      (existing-Ensures O le lb Always Always-stable r.path w s p)
                      (λ n w s q.
                        guard_step A (λ a. IsSound le lb) (not (is_directory n.info)) is_dir_error _
                          w s q.0
                          (λ h.
                            guard_step A (λ a. IsSound le lb)
                              (not (is_writable f && has_writer r.path s)) busy_error _ w s q.0
                              (λ k.
                                weaken (F r.path f) A (λ a. IsSound le lb) (λ a. IsSound le lb) _
                                  (λ t z. (z.0, tt)) (λ a t z. z)
                                  (opening-Keeps r.path f w s
                                    (q.0.0, unwritten-IsFree r.path f n s q.1 k)))))))))
