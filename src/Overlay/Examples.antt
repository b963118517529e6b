-- ===== src/Overlay/Examples.antt =====
-- The theorems on the stores of internal/overlay at concrete inputs, over a small file system.
use fabric_workspace_fs.Prelude.{◌^◌, ◌≡◌, refl, true, false, List, [], ◌∷◌, arith, is_some}
use fabric_workspace_fs.Prelude.Int.{pos}
use fabric_workspace_fs.Errors.{ok}
use fabric_workspace_fs.Names.Labels.{is_hex, valid_id_from, valid_id, last_index}
use fabric_workspace_fs.Bytes.{
  same, contains, has_prefix, before_byte, cons_first, split, upper, lower, lead, decode_byte,
  decode_from, valid_utf8, Bytes, ascii,
}
use fabric_workspace_fs.Tables.{lookup, remove}
use fabric_workspace_fs.Onelake.{last_byte}
use fabric_workspace_fs.Overlay.{Location, Store, value, Flags}
use fabric_workspace_fs.Overlay.Paths.{check_private}
use fabric_workspace_fs.Overlay.Access.{open_verified, verify, read_only_flags}
use fabric_workspace_fs.Overlay.Lifecycle.{empty_store, Limits, start}
use fabric_workspace_fs.Overlay.Logic.{Post}
use fabric_workspace_fs.Overlay.Paths.{
  to_upper, is_reserved_base, is_port, bad_character, any_bad, validate_component, validate_parts,
  valid_location, resolve, within,
}
use fabric_workspace_fs.Overlay.Access.{
  refreshed, same_object, fits_accounting, growth, any_open, busy, has_writer, forget, split_last,
  check_locked, reserve_entry, refresh, stat_checked, stat_prefixes, checked_stat, entry_for,
  existing, known_container, known, destination, add_created, read_names, read_dir, empty_dir,
}
use fabric_workspace_fs.Overlay.Directories.{
  making_below, make_container, ensured, ensure_containers, prune_container, prune_containers,
  making, mkdir_resolved, mkdir, removing, remove_entry, apply_rename, checked_rename, rename_known,
  rename, stat, list_child, list_children, list,
}
use fabric_workspace_fs.Overlay.Naming.{
  move_entries, staying, count_byte, too_deep, renamed, byte_less, insert_sorted, sorted,
}
use fabric_workspace_fs.Overlay.Files.{
  valid_flags, find_file, set_closed, make_handle, held, check_file, refresh_locked,
  refresh_or_poison, close_locked, open_truncate, opening, open_entry, check_created, creating,
  create_resolved, create, entry_of, read_at, write_checked, write_at, truncate, flush, close, size,
}
use fabric_workspace_fs.Overlay.Lifecycle.{
  options_of, is_lower_id, with_entry, scan_container, count_found, scan_entry, scan_name,
  scan_entries, scan_scope, scan_workspace, scan, close_files, closing, close_store,
}
use fabric_workspace_fs.Overlay.Scanning.{start-IsSound}
use fabric_workspace_fs.Overlay.Quota.{IsSound}
use fabric_workspace_fs.Overlay.Moving.{IsBounded}
use fabric_workspace_fs.Overlay.Disk.{Disk, disk_os, path_of, disk_os-IsMaker, Nothing}
use fabric_workspace_fs.Overlay.Closing.{IsFinal, close_store-IsFinal}
use fabric_workspace_fs.Overlay.Places.{IsPlace, place_of, resolve-IsPlace}
use fabric_workspace_fs.Overlay.Privacy.{IsPrivate, open_verified-IsPrivate}
use fabric_workspace_fs.Overlay.Depth.{scan_entries-enough}
use fabric_workspace_fs.Overlay.Accounting.{
  Operation, making_directory, creation, writing, renaming, removal, closing_file, truncation, run,
  perform, run-started, run-IsBounded,
}

run_of_disk : Unit {0}
unfolding path_of perform run lookup remove last_byte same contains has_prefix before_byte
    cons_first split upper lower lead decode_byte decode_from valid_utf8 is_hex valid_id_from
    valid_id last_index to_upper is_reserved_base is_port bad_character any_bad validate_component
    validate_parts valid_location resolve within check_private refreshed same_object fits_accounting
    growth any_open busy has_writer forget split_last check_locked reserve_entry refresh
    stat_checked stat_prefixes checked_stat verify open_verified entry_for existing known_container
    known destination add_created read_names read_dir empty_dir move_entries staying count_byte
    too_deep renamed byte_less insert_sorted sorted make_container ensured ensure_containers
    prune_container prune_containers making making_below mkdir_resolved mkdir removing remove_entry
    apply_rename checked_rename rename_known rename stat list_child list_children list valid_flags
    find_file set_closed make_handle held check_file refresh_locked refresh_or_poison close_locked
    open_truncate opening open_entry check_created creating create_resolved create entry_of read_at
    write_checked write_at truncate flush close size options_of is_lower_id with_entry
    scan_container count_found scan_entry scan_name scan_entries scan_scope scan_workspace scan
    start close_files closing close_store
run_of_disk = tt

abbrev start_disk : Disk
start_disk = record { objects = (ascii ".", 0) ∷ []; opened = [] }

abbrev limits : Limits
limits = record { max_file_size = pos 0; max_bytes = pos 100; max_entries = pos 10 }

abbrev started_store : Store
started_store = empty_store (record { max_file_size = 2 ^ 30; max_bytes = 100; max_entries = 10 })

starts : (start disk_os limits start_disk).0 ≡ value started_store
unfolding run_of_disk
starts = refl

abbrev place : Bytes → Location
place relative = record {
  workspace = ascii "0A000000-0000-0000-0000-000000000001";
  parent = ascii "root";
  relative = relative;
}

abbrev writer : Flags
writer = record {
  write_only = false;
  read_write = true;
  append = false;
  truncate = false;
  sync = false;
  create = true;
  exclusive = true;
  other = false;
}

abbrev edits : List Operation
edits =
    making_directory (place (ascii ".d"))
    ∷ creation (place (ascii ".d/ax")) writer
    ∷ writing 0 (ascii "hello") (pos 2)
    ∷ creation (place (ascii ".d/bx")) writer
    ∷ truncation 0 (pos 4)
    ∷ closing_file 1
    ∷ removal (place (ascii ".d/bx")) false
    ∷ []

edited : Disk × Store
edited = run disk_os edits start_disk started_store

counts : (edited.1.entry_count ≡ 2) × (edited.1.total_bytes ≡ 4)
unfolding run_of_disk edited
counts = (refl, refl)

run-started_example : IsSound 0 0 (run disk_os edits start_disk started_store).1
run-started_example =
    run-started disk_os limits start_disk started_store edits start_disk disk_os-IsMaker
      (omega arith) starts (tt, (tt, (tt, (tt, (tt, (tt, (tt, tt)))))))

abbrev moves : List Operation
moves =
    making_directory (place (ascii ".d"))
    ∷ creation (place (ascii ".d/ax")) writer
    ∷ closing_file 0
    ∷ renaming (place (ascii ".d")) (place (ascii ".e")) false
    ∷ []

run-IsBounded_example : IsBounded (run disk_os moves start_disk started_store).1
run-IsBounded_example =
    run-IsBounded disk_os moves start_disk started_store disk_os-IsMaker (record {
      lost_entries = 0;
      lost_bytes = 0;
      sound = start-IsSound disk_os limits start_disk started_store (omega arith) starts;
    })

moved : Disk × Store
moved = run disk_os moves start_disk started_store

moves_found :
    (is_some (lookup (ascii "0a000000-0000-0000-0000-000000000001/root/.e/ax") moved.1.entries)
      ≡ true)
    × (moved.1.entry_count ≡ 2)
unfolding run_of_disk moved
moves_found = (refl, refl)

close_store-IsFinal_example : IsFinal disk_os (close_store disk_os edited.0 edited.1)
close_store-IsFinal_example = close_store-IsFinal disk_os edited.0 edited.1

resolves : resolve (place (ascii ".d/ax")) false ≡ ok (place_of (place (ascii ".d/ax")))
unfolding run_of_disk
resolves = refl

resolve-IsPlace_example : IsPlace false (place (ascii ".d/ax")) (place_of (place (ascii ".d/ax")))
resolve-IsPlace_example =
    resolve-IsPlace (place (ascii ".d/ax")) false (place_of (place (ascii ".d/ax"))) resolves

open_verified_example :
    Post Nothing
      (λ opened t. IsPrivate 0 opened.1)
      (open_verified disk_os (ascii ".") read_only_flags start_disk started_store)
open_verified_example =
    open_verified-IsPrivate disk_os (ascii ".") read_only_flags start_disk started_store

scan_entries_example :
    scan_entries disk_os 41 (ascii "w") (ascii "root") []
    ≡ scan_entries disk_os 33 (ascii "w") (ascii "root") []
scan_entries_example = scan_entries-enough disk_os 40 (ascii "w") (ascii "root") (omega arith)
