-- ===== src/Writeback.antt =====
-- internal/writeback/file.go: the spool file behind a writable handle. The operating system's
-- answers (an error, or how many bytes a write stored), the context and the remote commit are
-- arguments of each operation; the observer is left out, since it only receives timings.
pub mod Spool
pub mod Safety
pub mod Handles
pub mod Unsaved
pub mod Final
pub mod Content
mod Examples
use fabric_workspace_fs.Prelude.{
  ℕ, ◌+◌, ◌-◌, Bool, true, false, not, ◌&&◌, ◌||◌, Option, none, some, List, [], ◌∷◌, ◌++◌, ltb,
  leb, ◌==◌, if◌then◌else◌, length, take, drop, replicate, is_some, max, min,
}
use fabric_workspace_fs.Prelude.Int.{ℤ, pos, pos_part, is_neg, ltb_ℤ, leb_ℤ}
use fabric_workspace_fs.Errors.{
  Error, Result, ok, err, join, handle_closed, invalid, too_large, conflict, external, ◌>>=◌,
}

abbrev pub Bytes : Type 0
Bytes = List ℕ

-- the options that the operations read; `load` writes these bytes or fails, and is absent if nil
pub record Options : Type 0 where
  pub has_directory : Bool
  pub has_commit : Bool
  pub max_size : ℤ
  pub initial_size : ℤ
  pub truncate : Bool
  pub append : Bool
  pub load : Option (Result Bytes)

-- How a close of the spool ended: `RecoveryError` keeps the path, with the causes.
pub data Closing : Type 0 where
  removed : List Error → Closing
  recovery : List Error → Closing

-- `content` is what the spool file on disk holds, `on_disk` whether the file is still there,
-- `attached` whether the callbacks are still referenced, and `remote` what the last successful
-- commit has stored, or what was there at `Open`.
pub record File : Type 0 where
  pub content : Bytes
  pub on_disk : Bool
  pub size : ℕ
  pub max_size : ℕ
  pub append : Bool
  pub dirty : Bool
  pub closed : Bool
  pub last_save : Option Error
  pub close_err : Option Closing
  pub attached : Bool
  pub remote : Bytes

-- `boundedWriter`: a loader cannot write more than `remaining` bytes
unfoldable pub bounded_write : ℕ → Bytes → Result Bytes
bounded_write remaining p = if ltb remaining (length p) then err too_large else ok p

-- the check of the size of a filled spool, with the error of `Stat`
abbrev pub checked_size : ℕ → Option Error → Bytes → Result Bytes
checked_size wanted (some e) w = err e
checked_size wanted none w = if length w == wanted then ok w else err conflict

-- The part of `Open` that fills a fresh spool: its bytes, or the error that removes it again. `stat` is
-- the error of `Stat`.
unfoldable pub fill : Options → Option Error → Result Bytes
unfolding bounded_write
fill o stat = if o.truncate || not (ltb_ℤ (pos 0) o.initial_size) then ok [] else elim o.load [
  | none ↦ err invalid
  | some r ↦ r >>= (λ p.
      bounded_write (pos_part o.max_size) p
      >>= (λ w. checked_size (pos_part o.initial_size) stat w))
]

-- `Open`; `create` is the error of making the directory and the temporary file, `stat` that of `Stat`,
-- and `remote` the remote bytes at this moment.
unfoldable pub open_file : Options → Option Error → Option Error → Bytes → Result File
open_file o create stat remote =
    if leb_ℤ o.max_size (pos 0)
      || is_neg o.initial_size
      || ltb_ℤ o.max_size o.initial_size
      || not o.has_commit
    then err invalid
    else if not o.has_directory
    then err invalid
    else elim create [
      | some e ↦ err e
      | none ↦ fill o stat >>= (λ w. ok (record {
        content = w;
        on_disk = true;
        size = if o.truncate then 0 else pos_part o.initial_size;
        max_size = pos_part o.max_size;
        append = o.append;
        dirty = o.truncate && not (pos_part o.initial_size == 0);
        closed = false;
        last_save = none;
        close_err = none;
        attached = true;
        remote = remote;
      }))
    ]

-- `os.File.ReadAt`: the bytes that are there, and whether they are fewer than asked for
unfoldable pub os_read : Bytes → ℕ → ℕ → Bytes × Bool
os_read content offset n = let got = take n (drop offset content) in (got, ltb (length got) n)

-- `os.File.WriteAt`: a gap before the offset is filled with zeros
unfoldable pub os_write : Bytes → ℕ → Bytes → Bytes
os_write content offset p =
    take offset (content ++ replicate (offset - length content) 0)
    ++ (p ++ drop (offset + length p) content)

-- `os.File.Truncate`
unfoldable pub os_truncate : Bytes → ℕ → Bytes
os_truncate content n = take n (content ++ replicate (n - length content) 0)

unfoldable pub read_at : File → ℤ → ℕ → Result (Bytes × Bool)
read_at f offset n =
    if f.closed
    then err handle_closed
    else if is_neg offset
    then err invalid
    else ok (os_read f.content (pos_part offset) n)

-- the checks of `WriteAt` before the write: its offset, or none where there is nothing to write
unfoldable pub write_offset : File → ℤ → Bytes → Result (Option ℕ)
write_offset f offset p =
    if f.closed
    then err handle_closed
    else if is_neg offset
    then err invalid
    else (let at = if f.append then f.size else pos_part offset in
        if length p == 0
        then ok none
        else if ltb f.max_size at || ltb (f.max_size - at) (length p)
        then err too_large
        else ok (some at))

-- The write of the first `n` bytes of `p`, as many as the operating system stored.
unfoldable pub store_bytes : ℕ → Bytes → ℕ → File → File
store_bytes at p n f = if n == 0 then f else record f {
  content = os_write f.content at (take n p);
  dirty = true;
  size = max f.size (at + n);
}

-- `WriteAt`: `stored` is how many bytes the operating system wrote, and its error; the result is the
-- number of bytes with the error.
unfoldable pub write_at : Bytes → ℤ → ℕ → Option Error → File → File × (ℕ × Option Error)
write_at p offset stored os_err f = elim (write_offset f offset p) [
  | err e ↦ (f, (0, some e))
  | ok none ↦ (f, (0, none))
  | ok (some at) ↦ let n = min stored (length p) in (store_bytes at p n f, (n, os_err))
]

-- `Truncate`; `os_err` is the error of the operating system
unfoldable pub truncate : ℤ → Option Error → File → File × Option Error
truncate size os_err f =
    if f.closed
    then (f, some handle_closed)
    else if is_neg size
    then (f, some invalid)
    else if ltb f.max_size (pos_part size)
    then (f, some too_large)
    else if f.size == pos_part size
    then (f, none)
    else elim os_err [
      | some e ↦ (f, some e)
      | none ↦ (
        record f {
          content = os_truncate f.content (pos_part size);
          size = pos_part size;
          dirty = true;
        },
        none,
      )
    ]

-- `Flush`: the errors of the context, of `Sync` and of the commit, which gets the content
unfoldable pub flush :
    Option Error → Option Error → (Bytes → ℕ → Option Error) → File → File × Option Error
flush ctx sync commit f =
    if f.closed then (f, some handle_closed) else if not f.dirty then (f, none) else elim ctx [
      | some e ↦ (record f { last_save = some e }, some e)
      | none ↦ elim sync [
        | some e ↦ (record f { last_save = some e }, some e)
        | none ↦ elim (commit f.content f.size) [
          | some e ↦ (record f { last_save = some e }, some e)
          | none ↦ (record f { dirty = false; last_save = none; remote = f.content }, none)
        ]
      ]
    ]

-- `Close`; `os_close` and `os_remove` are the operating system's errors. A file that could not be
-- removed is still there.
unfoldable pub close : Option Error → Option Error → File → File × Closing
close os_close os_remove f =
    if f.closed
    then (f, elim f.close_err [ none ↦ removed [] | some c ↦ c ])
    else (let ending =
          if f.dirty
          then recovery (
              join (elim f.last_save [ none ↦ some (external 0) | some e ↦ some e ])
                (join os_close []))
          else removed (join os_close (join os_remove [])) in
        (
          record f {
            closed = true;
            close_err = some ending;
            on_disk = f.dirty || is_some os_remove;
            attached = false;
          },
          ending,
        ))
