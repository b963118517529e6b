-- ===== src/Writeback/Handles.antt =====
-- internal/writeback/file.go: the effect of each operation of a handle, on all its branches.
use fabric_workspace_fs.Prelude.{
  ◌&&◌, ◌||◌, ℕ, ◌+◌, ◌≤◌, ◌<◌, ◌≡◌, refl, ◌∙◌, ap, sym, inl, inr, true, false, not, Option, none,
  some, List, [], ◌∷◌, arith, ◌==◌, if◌then◌else◌, length, take, min, Bool-cases, Option-cases,
  take_all,
}
use fabric_workspace_fs.Prelude.Int.{pos, pos_part, ltb_ℤ}
use fabric_workspace_fs.Errors.{invalid, Error, Result, ok, err, ◌>>=◌}
use fabric_workspace_fs.Writeback.{
  Bytes, Options, File, bounded_write, checked_size, fill, open_file, os_read, os_write, read_at,
  write_offset, store_bytes, write_at, flush,
}
use fabric_workspace_fs.Writeback.Spool.{os_read-os_write}
use fabric_workspace_fs.Writeback.Safety.{IsValid, Operation, run, run-IsValid_lem}

ok-injective {ℓ} : {A : Type ℓ} {a b : A} → ok a ≡ ok b → a ≡ b
ok-injective h = cc h

-- the loader, if there is one and it succeeds, has written what the remote holds
abbrev pub Faithful : Options → Bytes → Type 0
Faithful o remote = (p : Bytes) → o.load ≡ some (ok p) → p ≡ remote

abbrev loaded : Options → Option Error → Option (Result Bytes) → Result Bytes
loaded o stat r = elim r [
  | none ↦ err invalid
  | some r ↦ r >>= (λ p.
      bounded_write (pos_part o.max_size) p
      >>= (λ w. checked_size (pos_part o.initial_size) stat w))
]

loaded_lem :
    (o : Options) (stat : Option Error) (r : Option (Result Bytes)) (w : Bytes)
    → loaded o stat r ≡ ok w
    → (r ≡ some (ok w)) × (length w ≡ pos_part o.initial_size)
unfolding bounded_write
loaded_lem o stat none w h = absurd (ground arith)
loaded_lem o stat (some (err e)) w h = absurd (ground arith)
loaded_lem o none (some (ok p)) w h = ground arith
loaded_lem o (some e) (some (ok p)) w h = absurd (ground arith)

nil_of_length : (xs ys : Bytes) → length xs ≡ 0 → length ys ≡ 0 → xs ≡ ys
nil_of_length [] [] h k = refl
nil_of_length [] (y ∷ ys) h k = absurd (omega arith)
nil_of_length (x ∷ xs) ys h k = absurd (omega arith)

-- what a filled spool holds: the remote bytes, or nothing
fill_lem :
    (o : Options) (stat : Option Error) (remote w : Bytes)
    → Faithful o remote
    → length remote ≡ pos_part o.initial_size
    → fill o stat ≡ ok w
    → (length w ≡ (if o.truncate then 0 else pos_part o.initial_size))
      × ((o.truncate && not (pos_part o.initial_size == 0)) ≡ false → w ≡ remote)
unfolding fill
fill_lem o stat remote w faithful sized h =
    elim (Bool-cases (o.truncate || not (ltb_ℤ (pos 0) o.initial_size))) [
      | inl nothing ↦
          let e : [] ≡ w = ok-injective (rw nothing at h) in
          rw (← e) (ground arith, λ n. nil_of_length [] remote refl (ground arith))
      | inr load ↦
          let (r, l) = loaded_lem o stat o.load w (rw load at h) in
          (ground arith, λ n. faithful w r)
    ]

-- a file that `Open` returns
opened_file : Options → Bytes → Bytes → File
opened_file o remote w = record {
  content = w;
  on_disk = true;
  size = if o.truncate then 0 else pos_part o.initial_size;
  max_size = pos_part o.max_size;
  append = o.append;
  dirty = o.truncate && not (pos_part o.initial_size == 0);
  closed = false;
  last_save = none;
  close_err = none;
  attached = true;
  remote = remote;
}

filled_file :
    (o : Options) (remote : Bytes) (f : File) (r : Result Bytes)
    → (r >>= (λ w. ok (opened_file o remote w))) ≡ ok f
    → (w : Bytes) × (r ≡ ok w) × (f ≡ opened_file o remote w)
filled_file o remote f (err e) h = absurd (ground arith)
filled_file o remote f (ok w) h = (w, refl, ground arith)

open_file_checks :
    (o : Options) (stat : Option Error) (remote : Bytes) (f : File)
    → open_file o none stat remote ≡ ok f
    → ((fill o stat >>= (λ w. ok (opened_file o remote w))) ≡ ok f)
      × (pos_part o.initial_size ≤ pos_part o.max_size)
unfolding open_file opened_file
open_file_checks o stat remote f h = ground arith

open_file_lem :
    (o : Options) (create stat : Option Error) (remote : Bytes) (f : File)
    → open_file o create stat remote ≡ ok f
    → ((w : Bytes) × (fill o stat ≡ ok w) × (f ≡ opened_file o remote w))
      × (pos_part o.initial_size ≤ pos_part o.max_size)
unfolding open_file opened_file
open_file_lem o none stat remote f h =
    let (filled, within) = open_file_checks o stat remote f h in
    (filled_file o remote f (fill o stat) filled, within)
open_file_lem o (some e) stat remote f h = absurd (ground arith)

open_file-IsValid :
    (o : Options) (create stat : Option Error) (remote : Bytes) (f : File)
    → Faithful o remote
    → length remote ≡ pos_part o.initial_size
    → open_file o create stat remote ≡ ok f
    → IsValid f
open_file-IsValid o create stat remote f faithful sized h =
    let ((w, filled, e), within) = open_file_lem o create stat remote f h in
    let (l, c) = fill_lem o stat remote w faithful sized filled in
    rw e (
      unfold opened_file in
      record {
        sized = sym l;
        limited = ground arith;
        clean = c;
        kept = λ n. cc n;
        ended = λ n. cc n;
      })

-- A handle that Open returns, with a loader that writes the remote bytes (whose number is the
-- initial size), satisfies after any sequence of writes, truncations, flushes and closes,
-- whatever the operating system and the commit answer: the published size is the length of the
-- spool and within the limit, a clean spool holds what the remote holds, the spool is missing on
-- disk only after a close of a clean handle, and a closed handle has recorded how it ended.
pub run-open_file-IsValid :
    (o : Options) (create stat : Option Error) (remote : Bytes) (f : File) (os : List Operation)
    → Faithful o remote
    → length remote ≡ pos_part o.initial_size
    → open_file o create stat remote ≡ ok f
    → IsValid (run os f)
run-open_file-IsValid o create stat remote f os faithful sized h =
    run-IsValid_lem os f (open_file-IsValid o create stat remote f faithful sized h)

read_at_open :
    (f : File) (offset n : ℕ)
    → f.closed ≡ false
    → read_at f (pos offset) n ≡ ok (os_read f.content offset n)
unfolding read_at
read_at_open f offset n h = ground arith

-- A write of at least one byte at a position within the limit of an open handle that does not
-- append, which the operating system completes, returns the number of bytes, and a read at that
-- position returns exactly these bytes without reaching the end.
pub read_at-write_at :
    (p : Bytes) (offset : ℕ) (f : File) (stored : ℕ)
    → f.closed ≡ false
    → f.append ≡ false
    → 0 < length p
    → offset + length p ≤ f.max_size
    → length p ≤ stored
    → ((write_at p (pos offset) stored none f).1 ≡ (length p, none))
      × (read_at (write_at p (pos offset) stored none f).0 (pos offset) (length p) ≡ ok (p, false))
unfolding write_at
read_at-write_at p offset f stored opened positional some_bytes room all =
    let e : min stored (length p) ≡ length p = omega arith in
    let t : take (length p) p ≡ p = take_all (length p) p (omega arith) in
    let o : write_offset f (pos offset) p ≡ ok (some offset) =
      unfold write_offset in ground arith in
    let written : (store_bytes offset p (length p) f).content ≡ os_write f.content offset p =
      unfold store_bytes in ground (arith, t) in
    rw (o, write_at, e)
      (
        refl,
        read_at_open (store_bytes offset p (length p) f) offset (length p)
              (unfold store_bytes in ground arith)
            ∙ ap ok (
                ap (λ c. os_read c offset (length p)) written
                ∙ os_read-os_write f.content offset p),
      )

-- what a flush of unsaved data promises, for the error that it returns
abbrev pub Flushed : (Bytes → ℕ → Option Error) → File → File → Option Error → Type 0
Flushed commit f g none =
    (commit f.content f.size ≡ none)
    × (g ≡ record f { dirty = false; last_save = none; remote = f.content })
Flushed commit f g (some e) = g ≡ record f { last_save = some e }

-- Flush of an open dirty handle either returns no error, and then the commit of the whole spool
-- succeeded, the handle is clean and the remote holds the content; or it returns an error, and
-- then it changes nothing but the recorded error of the last save.
pub flush_lem :
    (ctx sync : Option Error) (commit : Bytes → ℕ → Option Error) (f : File)
    → f.closed ≡ false
    → f.dirty ≡ true
    → Flushed commit f (flush ctx sync commit f).0 (flush ctx sync commit f).1
unfolding flush
flush_lem (some e) sync commit f opened dirty =
    let r : flush (some e) sync commit f ≡ (record f { last_save = some e }, some e) =
      ground arith in
    rw r
flush_lem none (some e) commit f opened dirty =
    let r : flush none (some e) commit f ≡ (record f { last_save = some e }, some e) =
      ground arith in
    rw r
flush_lem none none commit f opened dirty = elim (Option-cases (commit f.content f.size)) [
  | inl done ↦
      let r : flush none none commit f
          ≡ (record f { dirty = false; last_save = none; remote = f.content }, none) =
        ground (arith, done) in
      rw r (done, refl)
  | inr (e, s) ↦
      let r : flush none none commit f ≡ (record f { last_save = some e }, some e) =
        ground (arith, s) in
      rw r
]
