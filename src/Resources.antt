-- ===== src/Resources.antt =====
-- internal/resources/backend.go and internal/resources/snapshot.go: targets and roots of item
-- resources, and the snapshot of a download that a handle pins.
pub mod Roots
pub mod Binding
mod Examples
use fabric_workspace_fs.Prelude.{
  ℕ, Bool, true, false, not, ◌&&◌, ◌||◌, Option, none, some, List, [], ◌∷◌, length, if◌then◌else◌,
  ◌==◌,
}
use fabric_workspace_fs.Prelude.Int.{ℤ, is_neg, pos_part}
use fabric_workspace_fs.Errors.{
  Error, Result, ok, err, invalid, unsupported, read_only, handle_closed,
}
use fabric_workspace_fs.Bytes.{Bytes, ascii, same, split}
use fabric_workspace_fs.Names.{is_nil, component}
use fabric_workspace_fs.Names.Labels.{valid_id}
use fabric_workspace_fs.Writeback.{os_read}

pub record Target : Type 0 where
  pub workspace_id : Bytes
  pub item_id : Bytes
  pub kind : Bytes

pub record ResourcePath : Type 0 where
  pub target : Target
  pub relative : Bytes

pub record Root : Type 0 where
  pub name : Bytes
  pub target : Target

abbrev pub notebook : Bytes
notebook = ascii "Notebook"

abbrev pub environment : Bytes
environment = ascii "Environment"

unfoldable pub validate_target : Target → Option Error
validate_target t =
    if not (valid_id t.workspace_id) || not (valid_id t.item_id)
    then some invalid
    else if not (same t.kind notebook) && not (same t.kind environment)
    then some unsupported
    else none

unfoldable pub validate_components : List Bytes → Option Error
validate_components [] = none
validate_components (p ∷ ps) = elim (component p) [
  | some e ↦ some e
  | none ↦ validate_components ps
]

unfoldable pub validate_resource_path : ResourcePath → Bool → Option Error
validate_resource_path p write = elim (validate_target p.target) [
  | some e ↦ some e
  | none ↦
      if write && not (same p.target.kind notebook)
      then some read_only
      else if is_nil p.relative
      then (if write then some read_only else none)
      else validate_components (split b'/' p.relative)
]

-- `a == b` on targets
unfoldable pub same_target : Target → Target → Bool
same_target a b =
    same a.workspace_id b.workspace_id && same a.item_id b.item_id && same a.kind b.kind

-- the switch in `ValidateRoots`
unfoldable pub allowed_root : Target → Root → Bool
allowed_root owner r =
    if same r.name (ascii "builtin")
    then same owner.kind notebook && same_target r.target owner
    else if same r.name (ascii "env")
    then same owner.kind notebook && same r.target.kind environment
    else if same r.name (ascii "resources")
    then same owner.kind environment && same_target r.target owner
    else false

unfoldable pub seen : Bytes → List Bytes → Bool
seen name [] = false
seen name (n ∷ ns) = same n name || seen name ns

-- the loop of `ValidateRoots`, with the names of the roots before
unfoldable pub validate_roots_loop : Target → List Bytes → List Root → Option Error
validate_roots_loop owner names [] = none
validate_roots_loop owner names (r ∷ rs) = elim (validate_target r.target) [
  | some e ↦ some e
  | none ↦
      if seen r.name names || not (allowed_root owner r)
      then some invalid
      else validate_roots_loop owner (r.name ∷ names) rs
]

unfoldable pub validate_roots : Target → List Root → Option Error
validate_roots owner roots = elim (validate_target owner) [
  | some e ↦ some e
  | none ↦ validate_roots_loop owner [] roots
]

pub record Snapshot : Type 0 where
  pub content : Bytes
  pub size : ℕ
  pub version : Bytes
  pub closed : Bool

abbrev pub new_snapshot : Bytes → Bytes → Snapshot
new_snapshot data_bytes version = record {
  content = data_bytes;
  size = length data_bytes;
  version = version;
  closed = false;
}

-- `ReadAt`: the bytes, and whether the end was reached
unfoldable pub snapshot_read_at : Snapshot → ℕ → ℤ → Result (Bytes × Bool)
snapshot_read_at s n offset =
    if s.closed
    then err handle_closed
    else if is_neg offset
    then err invalid
    else if n == 0
    then ok ([], false)
    else ok (os_read s.content (pos_part offset) n)

abbrev pub close_snapshot : Snapshot → Snapshot
close_snapshot s = record s { closed = true; content = [] }
