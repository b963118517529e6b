-- ===== src/Overlay/Accounting.antt =====
-- internal/overlay/store.go and internal/overlay/file.go: runs of a store. Every operation holds the
-- mutex of the store from its begin to its end, so a run is a list of operations.
use fabric_workspace_fs.Prelude.{◌⊎◌, inl, inr, ℕ, ◌≤◌, refl, ◌≡◌, Bool, List, [], ◌∷◌}
use fabric_workspace_fs.Prelude.Int.{ℤ, pos_part}
use fabric_workspace_fs.Bytes.{Bytes}
use fabric_workspace_fs.Overlay.{Location, Store, failed, value, Flags, Os, Outcome, done}
use fabric_workspace_fs.Overlay.Access.{max_int64}
use fabric_workspace_fs.Overlay.Directories.{mkdir, remove_entry, rename, stat, list}
use fabric_workspace_fs.Overlay.Files.{
  open_entry, create, read_at, write_at, truncate, flush, close, size,
}
use fabric_workspace_fs.Overlay.Lifecycle.{Limits, start, close_store}
use fabric_workspace_fs.Overlay.Logic.{Post, weaken}
use fabric_workspace_fs.Overlay.Quota.{IsSound}
use fabric_workspace_fs.Overlay.Sound.{
  write_at-Keeps, truncate-Keeps, read_at-Keeps, flush-Keeps, size-Keeps, close-Keeps,
}
use fabric_workspace_fs.Overlay.Opening.{Always, Always-stable, open_entry-Keeps}
use fabric_workspace_fs.Overlay.Creating.{MakesFiles, create-Keeps}
use fabric_workspace_fs.Overlay.Removal.{remove_entry-Keeps}
use fabric_workspace_fs.Overlay.Making.{MakesDirectories, mkdir-Keeps}
use fabric_workspace_fs.Overlay.Listing.{stat-Keeps, list-Keeps}
use fabric_workspace_fs.Overlay.Moving.{IsBounded}
use fabric_workspace_fs.Overlay.Renaming.{rename-Keeps}
use fabric_workspace_fs.Overlay.Closing.{close_store-Keeps}
use fabric_workspace_fs.Overlay.Scanning.{start-IsSound}

-- the operations of a store and of its files, with their arguments
pub data Operation : Type 0 where
  listing : Location → Operation
  describing : Location → Operation
  making_directory : Location → Operation
  removal : Location → Bool → Operation
  renaming : Location → Location → Bool → Operation
  opening_file : Location → Flags → Operation
  creation : Location → Flags → Operation
  reading : ℕ → ℕ → ℤ → Operation
  writing : ℕ → Bytes → ℤ → Operation
  truncation : ℕ → ℤ → Operation
  flushing : ℕ → Operation
  measuring : ℕ → Operation
  closing_file : ℕ → Operation
  closing_store : Operation

-- an operation that does not move entries
abbrev pub IsInPlace : Operation → Type 0
IsInPlace (renaming src dst no_replace) = ⊥
IsInPlace _ = Unit

abbrev pub AllInPlace : List Operation → Type 0
AllInPlace [] = Unit
AllInPlace (o ∷ os) = IsInPlace o × AllInPlace os

abbrev IsRenaming : Operation → Type 0
IsRenaming o = (src : Location) × ((dst : Location) × ((n : Bool) × (o ≡ renaming src dst n)))

operation_cases : (o : Operation) → IsInPlace o ⊎ IsRenaming o
operation_cases (renaming src dst n) = inr (src, (dst, (n, refl)))
operation_cases (listing l) = inl tt
operation_cases (describing l) = inl tt
operation_cases (making_directory l) = inl tt
operation_cases (removal l wanted) = inl tt
operation_cases (opening_file l f) = inl tt
operation_cases (creation l f) = inl tt
operation_cases (reading id n offset) = inl tt
operation_cases (writing id p offset) = inl tt
operation_cases (truncation id n) = inl tt
operation_cases (flushing id) = inl tt
operation_cases (measuring id) = inl tt
operation_cases (closing_file id) = inl tt
operation_cases closing_store = inl tt

-- what the operating system promises of the objects that it makes
pub record IsMaker (O : Os) : Type 0 where
  pub files : MakesFiles O
  pub directories : MakesDirectories O

module _ (O : Os) where
  -- the store and the world after an operation, whatever it returns
  abbrev left : {Value : Type 0} → Outcome O.World Value → O.World × Store
  left (done r w s) = (w, s)

  unfoldable pub perform : Operation → O.World → Store → O.World × Store
  perform (listing l) w s = left (list O l w s)
  perform (describing l) w s = left (stat O l w s)
  perform (making_directory l) w s = left (mkdir O l w s)
  perform (removal l wanted) w s = left (remove_entry O l wanted w s)
  perform (renaming src dst no_replace) w s = left (rename O src dst no_replace w s)
  perform (opening_file l f) w s = left (open_entry O l f w s)
  perform (creation l f) w s = left (create O l f w s)
  perform (reading id n offset) w s = left (read_at O id n offset w s)
  perform (writing id p offset) w s = left (write_at O id p offset w s)
  perform (truncation id n) w s = left (truncate O id n w s)
  perform (flushing id) w s = left (flush O id w s)
  perform (measuring id) w s = left (size O id w s)
  perform (closing_file id) w s = left (close O id w s)
  perform closing_store w s = left (close_store O w s)

  unfoldable pub run : List Operation → O.World → Store → O.World × Store
  unfolding perform
  run [] w s = (w, s)
  run (o ∷ os) w s = let after = perform o w s in run os after.0 after.1

  left-Post :
      {Value : Type 0} (P : Store → Type 0) (o : Outcome O.World Value)
      → Post P (λ a. P) o
      → P (left o).1
  left-Post P (done (failed e) w s) p = p
  left-Post P (done (value a) w s) p = p

  module _ (le lb : ℕ) where
    abbrev K : Store → Type 0
    K = IsSound le lb

    -- an operation whose lemma carries a further property that is not wanted
    plain :
        {Value : Type 0} (o : Outcome O.World Value)
        → Post (λ t. K t × Unit {0}) (λ a t. K t × Unit {0}) o
        → K (left o).1
    plain o p = left-Post K o (
        weaken (λ t. K t × Unit {0}) K (λ a t. K t × Unit {0}) (λ a. K) o (λ t q. q.0)
          (λ a t q. q.0) p)

    perform-IsSound :
        IsMaker O
        → (o : Operation) (w : O.World) (s : Store) → IsInPlace o
        → K s
        → K (perform o w s).1
    unfolding perform
    perform-IsSound maker (listing l) w s i v =
        plain _ (list-Keeps O le lb Always Always-stable l w s (v, tt))
    perform-IsSound maker (describing l) w s i v =
        plain _ (stat-Keeps O le lb Always Always-stable l w s (v, tt))
    perform-IsSound maker (making_directory l) w s i v =
        left-Post K _ (mkdir-Keeps O le lb maker.directories l w s v)
    perform-IsSound maker (removal l wanted) w s i v =
        left-Post K _ (remove_entry-Keeps O le lb l wanted w s v)
    perform-IsSound maker (renaming src dst no_replace) w s i v = absurd i
    perform-IsSound maker (opening_file l f) w s i v =
        left-Post K _ (open_entry-Keeps O le lb l f w s v)
    perform-IsSound maker (creation l f) w s i v =
        left-Post K _ (create-Keeps O le lb maker.files l f w s v)
    perform-IsSound maker (reading id n offset) w s i v =
        plain _ (read_at-Keeps O le lb Always Always-stable id n offset w s (v, tt))
    perform-IsSound maker (writing id p offset) w s i v =
        plain _ (write_at-Keeps O le lb Always Always-stable id p offset w s (v, tt))
    perform-IsSound maker (truncation id n) w s i v =
        plain _ (truncate-Keeps O le lb Always Always-stable id n w s (v, tt))
    perform-IsSound maker (flushing id) w s i v =
        plain _ (flush-Keeps O le lb Always Always-stable id w s (v, tt))
    perform-IsSound maker (measuring id) w s i v =
        plain _ (size-Keeps O le lb Always Always-stable id w s (v, tt))
    perform-IsSound maker (closing_file id) w s i v = left-Post K _ (close-Keeps O le lb id w s v)
    perform-IsSound maker closing_store w s i v = left-Post K _ (close_store-Keeps O le lb w s v)

    run-IsSound :
        IsMaker O
        → (os : List Operation) (w : O.World) (s : Store) → AllInPlace os
        → K s
        → K (run os w s).1
    unfolding run
    run-IsSound maker [] w s i v = v
    run-IsSound maker (o ∷ os) w s i v =
        run-IsSound maker os (perform o w s).0 (perform o w s).1 i.1
          (perform-IsSound maker o w s i.0 v)

  renamed-run :
      (src dst : Location) (no_replace : Bool) (w : O.World) (s : Store)
      → IsBounded s
      → IsBounded (perform (renaming src dst no_replace) w s).1
  unfolding perform
  renamed-run src dst no_replace w s b =
      left-Post IsBounded (rename O src dst no_replace w s)
        (rename-Keeps O b.lost_entries b.lost_bytes src dst no_replace w s b.sound)

  perform-IsBounded :
      IsMaker O
      → (o : Operation) (w : O.World) (s : Store) → IsInPlace o ⊎ IsRenaming o
      → IsBounded s
      → IsBounded (perform o w s).1
  perform-IsBounded maker o w s (inl i) b = record {
    lost_entries = b.lost_entries;
    lost_bytes = b.lost_bytes;
    sound = perform-IsSound b.lost_entries b.lost_bytes maker o w s i b.sound;
  }
  perform-IsBounded maker o w s (inr (src, (dst, (n, e)))) b = rw e (renamed-run src dst n w s b)

  -- Suppose that the system makes files where a file is created exclusively and directories where
  -- a directory is made, and that the byte limit is a 64-bit number. If New returns a store, then
  -- after every sequence of operations other than renames, with any arguments and whatever the
  -- system answers, the entry counter is the number of entries and at most the entry limit, the
  -- byte counter is the sum of the sizes of the files among them and at most the largest 64-bit
  -- integer, no path has two entries, every open file has its entry, and no two open files write
  -- to one entry.
  pub run-started :
      (l : Limits) (w : O.World) (s : Store) (os : List Operation) (v : O.World)
      → IsMaker O
      → pos_part l.max_bytes ≤ max_int64
      → (start O l w).0 ≡ value s
      → AllInPlace os
      → IsSound 0 0 (run os v s).1
  run-started l w s os v maker small h i =
      run-IsSound 0 0 maker os v s i (start-IsSound O l w s small h)

  -- With the same promises of the system, after every sequence of operations, renames included,
  -- on a store that has these properties but whose counters may be larger than those of its
  -- entries, the counters are still at least those of the entries, the entry counter is at most
  -- the entry limit, no path has two entries, every open file has its entry, and no two open
  -- files write to one entry.
  pub run-IsBounded :
      (os : List Operation) (w : O.World) (s : Store)
      → IsMaker O
      → IsBounded s
      → IsBounded (run os w s).1
  unfolding run
  run-IsBounded [] w s maker b = b
  run-IsBounded (o ∷ os) w s maker b =
      run-IsBounded os (perform o w s).0 (perform o w s).1 maker
        (perform-IsBounded maker o w s (operation_cases o) b)
