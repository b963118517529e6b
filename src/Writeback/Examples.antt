-- ===== src/Writeback/Examples.antt =====
-- The theorems on spool files of internal/writeback/file.go at concrete inputs, and small runs.
use fabric_workspace_fs.Writeback.Content.{place, byte_after, get_elem?-write_at}
use fabric_workspace_fs.Writeback.Final.{IsFinal, run-close}
use fabric_workspace_fs.Writeback.Unsaved.{close-unsaved}
use fabric_workspace_fs.Prelude.{
  max, ◌<◌, ◌≤◌, get_elem?, ◌+◌, ℕ, ◌≡◌, refl, Option, none, some, List, [], ◌∷◌, arith, true,
  false,
}
use fabric_workspace_fs.Prelude.Int.{pos}
use fabric_workspace_fs.Errors.{no_space, Error, ok}
use fabric_workspace_fs.Writeback.{
  recovery, Bytes, Options, File, open_file, fill, bounded_write, os_read, os_write, os_truncate,
  read_at, write_offset, store_bytes, write_at, truncate, flush, close,
}
use fabric_workspace_fs.Writeback.Safety.{IsValid, Operation, write, resize, save, step, run}
use fabric_workspace_fs.Writeback.Handles.{
  run-open_file-IsValid, read_at-write_at, Flushed, flush_lem,
}

program : Unit {0}
unfolding open_file fill bounded_write os_read os_write os_truncate read_at write_offset store_bytes
    write_at truncate flush close step run
program = tt

abbrev options : Options
options = record {
  has_directory = true;
  has_commit = true;
  max_size = pos 8;
  initial_size = pos 3;
  truncate = false;
  append = false;
  load = some (ok (1 ∷ 2 ∷ 3 ∷ []));
}

abbrev opened : File
opened = record {
  content = 1 ∷ 2 ∷ 3 ∷ [];
  on_disk = true;
  size = 3;
  max_size = 8;
  append = false;
  dirty = false;
  closed = false;
  last_save = none;
  close_err = none;
  attached = true;
  remote = 1 ∷ 2 ∷ 3 ∷ [];
}

opens : open_file options none none (1 ∷ 2 ∷ 3 ∷ []) ≡ ok opened
unfolding program
opens = refl

accept : Bytes → ℕ → Option Error
accept content n = none

abbrev edits : List Operation
edits = write (7 ∷ 8 ∷ []) (pos 5) 2 none ∷ save none none accept ∷ resize (pos 2) none ∷ []

edited : (run edits opened).content ≡ 1 ∷ 2 ∷ []
unfolding program accept
edited = refl

saved : (run edits opened).remote ≡ 1 ∷ 2 ∷ 3 ∷ 0 ∷ 0 ∷ 7 ∷ 8 ∷ []
unfolding program accept
saved = refl

run-open_file-IsValid_example : IsValid (run edits opened)
run-open_file-IsValid_example =
    run-open_file-IsValid options none none (1 ∷ 2 ∷ 3 ∷ []) opened edits (λ p h. cc h) refl opens

read_at-write_at_example :
    ((write_at (7 ∷ 8 ∷ []) (pos 5) 2 none opened).1 ≡ (2, none))
    × (read_at (write_at (7 ∷ 8 ∷ []) (pos 5) 2 none opened).0 (pos 5) 2 ≡ ok (7 ∷ 8 ∷ [], false))
read_at-write_at_example =
    read_at-write_at (7 ∷ 8 ∷ []) 5 opened 2 refl refl (omega arith) (omega arith) (omega arith)

abbrev unsaved : File
unsaved = record opened { dirty = true }

flush_example :
    Flushed accept unsaved (flush none none accept unsaved).0 (flush none none accept unsaved).1
flush_example = flush_lem none none accept unsaved refl refl

-- two more operations, of which the flush fails
abbrev failing_saves : List Operation
failing_saves = save none none (λ content n. some no_space) ∷ resize (pos 6) none ∷ []

one_byte : 0 < (write_at (7 ∷ 8 ∷ []) (pos 5) 1 (some no_space) opened).1.0
unfolding program
one_byte = omega arith

close-unsaved_example :
    (let g = run failing_saves (write_at (7 ∷ 8 ∷ []) (pos 5) 1 (some no_space) opened).0 in
      ((close none none g).0.on_disk ≡ true)
      × ((close none none g).0.content ≡ g.content)
      × ((e : Error) × (es : List Error) × ((close none none g).1 ≡ recovery (e ∷ es))))
close-unsaved_example =
    close-unsaved (7 ∷ 8 ∷ []) (pos 5) 1 (some no_space) failing_saves none none opened one_byte
      ((λ content n. (no_space, refl)), (tt, tt))

run-close_example :
    (let g = run edits (close none none unsaved).0 in
      (g ≡ (close none none unsaved).0)
      × IsFinal g
      × ((close (some no_space) none g).1 ≡ (close none none unsaved).1))
run-close_example = run-close edits none none (some no_space) none unsaved

-- an appending write of which one byte is stored
abbrev appending : File
appending = record opened { append = true }

appended_byte : 0 < (write_at (7 ∷ 8 ∷ []) (pos 0) 1 (some no_space) appending).1.0
unfolding program
appended_byte = omega arith

get_elem?-write_at_example :
    (let r = write_at (7 ∷ 8 ∷ []) (pos 0) 1 (some no_space) appending in
      (get_elem? r.0.content 3
        ≡ byte_after appending.content (place appending (pos 0)) (7 ∷ 8 ∷ []) r.1.0 3)
      × (r.0.size ≡ max appending.size (place appending (pos 0) + r.1.0))
      × (place appending (pos 0) + r.1.0 ≤ appending.max_size))
get_elem?-write_at_example =
    get_elem?-write_at (7 ∷ 8 ∷ []) (pos 0) 1 (some no_space) appending 3 appended_byte

appended :
    (write_at (7 ∷ 8 ∷ []) (pos 0) 1 (some no_space) appending).0.content ≡ 1 ∷ 2 ∷ 3 ∷ 7 ∷ []
unfolding program
appended = refl
