-- ===== src/Overlay/Creating.antt =====
-- internal/overlay/file.go: creating files keeps the accounting, and one writer to a file.
use fabric_workspace_fs.Prelude.{
  Option-cases, ℕ, ◌+◌, ◌≤◌, ◌≡◌, refl, inl, inr, Bool, true, false, not, ◌&&◌, none, List, [], ◌∷◌,
  arith, is_some, All, Bool-cases,
}
use fabric_workspace_fs.Prelude.Int.{pos_part}
use fabric_workspace_fs.Errors.{conflict, exist, invalid, permission}
use fabric_workspace_fs.Bytes.{Bytes, same, same→≡, same_refl}
use fabric_workspace_fs.Tables.{lookup, lookup-put, put}
use fabric_workspace_fs.Overlay.{
  Table, Info, Node, File, Store, Reply, failed, value, Flags, Os, Location,
}
use fabric_workspace_fs.Overlay.Paths.{Resolved, resolve}
use fabric_workspace_fs.Overlay.Access.{
  max_int64, is_directory, growth, errors_of, has_writer, any_open, check_private_at,
}
use fabric_workspace_fs.Overlay.Directories.{is_root_name}
use fabric_workspace_fs.Overlay.Files.{
  create_resolved, creating, is_writable, valid_flags, make_handle, with_file, check_created,
  poison_and_close, create, create_resolved, creating,
}
use fabric_workspace_fs.Overlay.Logic.{
  attempted, Post, Ensures, Keeps, step, weaken, attempt-Post, Attempted, guard_step, ok_step,
  ask_step, result_step,
}
use fabric_workspace_fs.Overlay.Neutral.{
  is_present-Keeps, check_locked-Keeps, checked_stat-Keeps, reserve_entry-Ensures,
}
use fabric_workspace_fs.Overlay.Opening.{Always, Always-stable, IsFree, registered-IsSound}
use fabric_workspace_fs.Overlay.Quota.{HasRoom, added-IsSound, poisoned-IsSound, IsSound, IsLive}
use fabric_workspace_fs.Overlay.Entries.{destination-Keeps, Kept}

-- What the system promises of `O_CREATE|O_EXCL`: the object that it opens is no directory.
abbrev pub MakesFiles : Os → Type 0
MakesFiles O =
    (path : Bytes) (f : Flags) (w : O.World) (fd : ℕ) (i : Info)
    → (O.open_file path (record f { truncate = false; create = true; exclusive = true }) w).0
      ≡ value fd
    → (O.fstat fd
        (O.open_file path (record f { truncate = false; create = true; exclusive = true }) w).1).0
      ≡ value i
    → is_directory i ≡ false

pub no_growth_error :
    (i : Info) (s : Store) → errors_of (growth 0 i.size s) ≡ [] → growth 0 i.size s ≡ none
no_growth_error i s h = elim (Option-cases (growth 0 i.size s)) [
  | inl e ↦ e
  | inr (e, k) ↦ absurd (ground arith)
]

pub created_small :
    (i : Info) (s : Store)
    → is_directory i ≡ false
    → s.total_bytes ≤ max_int64
    → s.options.max_bytes ≤ max_int64
    → growth 0 i.size s ≡ none
    → s.total_bytes + pos_part i.size ≤ max_int64
unfolding growth
created_small i s d small limited g = ground arith

no_writer :
    (path : Bytes) (entries : Table Node) (fs : List File)
    → lookup path entries ≡ none
    → All (IsLive entries) fs
    → any_open (λ g. same g.path path && g.writable) fs ≡ false
unfolding any_open
no_writer path entries [] h a = refl
no_writer path entries (f ∷ fs) h a = elim (Bool-cases (same f.path path)) [
  | inl e ↦ ground (arith, a.0, same→≡ f.path path e, no_writer path entries fs h a.1)
  | inr e ↦ ground (arith, no_writer path entries fs h a.1)
]

-- no file is open on a path without an entry
put-IsFree :
    (path : Bytes) (n : Node) (s : Store) (writable : Bool)
    → All (IsLive s.entries) s.files
    → lookup path s.entries ≡ none
    → IsFree path writable (record s {
      entries = put path n s.entries;
      entry_count = s.entry_count + 1;
      total_bytes = s.total_bytes + n.size;
    })
unfolding has_writer
put-IsFree path n s writable a h = record {
  there = ground (arith, lookup-put path path n s.entries, same_refl path);
  alone = ground (arith, no_writer path s.entries s.files h a);
}

module _ (O : Os) (le lb : ℕ) where
  -- what `Create` needs of a path, and has of the file that it makes
  abbrev N : Bytes → Store → Type 0
  N path s = IsSound le lb s × (lookup path s.entries ≡ none) × HasRoom s

  abbrev F : Bytes → Store → Type 0
  F path s = IsSound le lb s × (lookup path s.entries ≡ none)

  abbrev Made : Bytes → Info → Store → Type 0
  Made path i s = N path s × (growth 0 i.size s ≡ none) × (is_directory i ≡ false)

  check_created-Ensures :
      (path : Bytes) (fd : ℕ) (w : O.World) (s : Store)
      → ((i : Info) → (O.fstat fd w).0 ≡ value i → is_directory i ≡ false)
      → N path s
      → Post (N path) (Made path) (check_created O fd w s)
  unfolding check_created
  check_created-Ensures path fd w s regular p =
      ask_step (N path) (Made path) (O.fstat fd w).0 _ (O.fstat fd w).1 s p (λ i e.
        guard_step (N path) (Made path) (check_private_at O i) permission _ (O.fstat fd w).1 s p
          (λ h.
            ok_step (N path) (Made path) (errors_of (growth 0 i.size s)) _ (O.fstat fd w).1 s p
              (λ k. (p, no_growth_error i s k, regular i e))))

  poison_and_close-Ensures :
      (path : Bytes) (fd : ℕ) (r : Reply Info) (w : O.World) (s : Store)
      → Attempted (N path) (Made path) r s
      → Post (IsSound le lb) (Made path) (poison_and_close O fd r w s)
  poison_and_close-Ensures path fd (value i) w s p = p
  poison_and_close-Ensures path fd (failed e) w s p = poisoned-IsSound le lb s e p.0

  created-IsSound :
      (path : Bytes) (f : Flags) (fd : ℕ) (i : Info) (s : Store)
      → Made path i s
      → IsSound le lb (
          with_file (make_handle s.next_file fd path f) (record s {
            entries = put path (record { info = i; size = pos_part i.size }) s.entries;
            entry_count = s.entry_count + 1;
            total_bytes = s.total_bytes + pos_part i.size;
          }))
  created-IsSound path f fd i s (p, g, d) =
      let n : Node = record { info = i; size = pos_part i.size } in
      let m = created_small i s d p.0.small p.0.limited g in
      let added = added-IsSound le lb path n s p.0 p.2 p.1 (rw d m) in
      registered-IsSound O le lb fd path f
        (record s {
          entries = put path n s.entries;
          entry_count = s.entry_count + 1;
          total_bytes = s.total_bytes + pos_part i.size;
        })
        (rw d at added) (put-IsFree path n s (is_writable f) p.0.live p.1)

  creating-Keeps :
      MakesFiles O
      → (path : Bytes) (f : Flags) → (w : O.World) (s : Store) → N path s
      → Post (IsSound le lb) (λ a. IsSound le lb) (creating O path f w s)
  unfolding creating
  creating-Keeps makes path f w s p =
      let E = IsSound le lb in
      let R : ℕ → Store → Type 0 = λ a. E in
      let opened =
        O.open_file path (record f { truncate = false; create = true; exclusive = true }) w in
      ask_step E R opened.0 _ opened.1 s p.0 (λ fd e.
        step E (Attempted (N path) (Made path)) R _ _
          (weaken (N path) E (Attempted (N path) (Made path)) (Attempted (N path) (Made path)) _
            (λ t q. q.0) (λ r t q. q)
            (attempt-Post (N path) (Made path) _
              (check_created-Ensures path fd opened.1 s (λ i k. makes path f w fd i e k) p)))
          (λ r w s q.
            step E (Made path) R _ _ (poison_and_close-Ensures path fd r w s q)
              (λ i w s q. created-IsSound path f fd i s q)))

  create_resolved-Keeps :
      MakesFiles O
      → (r : Resolved) (f : Flags)
      → Ensures (Kept O le lb Always Always-stable) (create_resolved O r f) (λ a. IsSound le lb)
  unfolding create_resolved
  create_resolved-Keeps makes r f w s p =
      let A = Kept O le lb Always Always-stable in
      let R : ℕ → Store → Type 0 = λ a. IsSound le lb in
      step A (Attempted A (λ a. A)) R _ _
        (attempt-Post A (λ a. A) _ (checked_stat-Keeps O A r.path w s p))
        (λ reply w s p.
          step A (λ a. A) R _ _ (is_present-Keeps O A reply w s (attempted A reply s p))
            (λ present w s p. guard_step A R (not present) exist _ w s p (λ h.
              guard_step A R (not (is_root_name r)) invalid _ w s p (λ h.
                step A (λ a. A) R _ _ (destination-Keeps O le lb Always Always-stable r w s p)
                  (λ path w s p.
                    guard_step A R (not (is_some (lookup path s.entries))) conflict _ w s p (λ free.
                      weaken (IsSound le lb) A R R _ (λ t q. (q, tt)) (λ a t q. q)
                        (step (IsSound le lb) (λ u. N path) R _ _
                          (weaken (F path) (IsSound le lb) (λ u t. F path t × HasRoom t)
                            (λ u. N path) _ (λ t q. q.0) (λ a t q. (q.0.0, q.0.1, q.1))
                            (reserve_entry-Ensures O (F path) w s (p.0, ground (arith, free))))
                          (λ u w s q. creating-Keeps makes path f w s q))))))))

  pub create-Keeps :
      MakesFiles O → (l : Location) (f : Flags) → Keeps (IsSound le lb) (create O l f)
  unfolding create
  create-Keeps makes l f w s v =
      let A = Kept O le lb Always Always-stable in
      let R : ℕ → Store → Type 0 = λ a. IsSound le lb in
      weaken A (IsSound le lb) R R _ (λ t q. q.0) (λ a t q. q)
        (step A (λ a. A) R _ _ (check_locked-Keeps O A w s (v, tt))
          (λ u w s p. guard_step A R (valid_flags f true) invalid _ w s p (λ h.
            result_step A R (resolve l false) _ w s p
              (λ r e. create_resolved-Keeps makes r f w s p))))
