-- ===== src/Overlay/Places.antt =====
-- internal/overlay/path.go: what an accepted location is.
use fabric_workspace_fs.Prelude.{
  ◌≤◌, ◌≡◌, refl, ◌⊎◌, inl, inr, Bool, true, false, ◌||◌, List, [], ◌∷◌, ◌++◌, arith, ◌==◌,
  if◌then◌else◌, length, map, All, Bool-cases,
}
use fabric_workspace_fs.Errors.{ok_injective, ok}
use fabric_workspace_fs.Bytes.{
  Bytes, ascii, same, same→≡, same_refl, contains, has_prefix, lower, split, valid_utf8,
}
use fabric_workspace_fs.Names.{is_nil}
use fabric_workspace_fs.Names.Labels.{valid_id}
use fabric_workspace_fs.Onelake.{last_byte}
use fabric_workspace_fs.Overlay.Depth.{split_some}
use fabric_workspace_fs.Overlay.{ℕ, Location}
use fabric_workspace_fs.Overlay.Paths.{
  Resolved, resolve, valid_location, validate_parts, validate_component, bad_character, any_bad,
  slash, within, max_depth,
}

-- a byte that is no ASCII control character and not reserved by a host system
abbrev pub IsPlain : ℕ → Type 0
IsPlain b = (32 ≤ b) × ((b == 127) ≡ false) × (contains b (ascii "/\\:<>\"|?*") ≡ false)

-- a component that names an entry of its directory and nothing else, on any platform
pub record IsComponent (name : Bytes) : Type 0 where
  pub present : is_nil name ≡ false
  pub not_here : same name (ascii ".") ≡ false
  pub not_above : same name (ascii "..") ≡ false
  pub short : length name ≤ 255
  pub text : valid_utf8 name ≡ true
  pub clean : All IsPlain name
  pub ending : (last_byte name == b'.' || last_byte name == b' ') ≡ false

any_bad-All : (name : Bytes) → any_bad name ≡ false → All IsPlain name
unfolding any_bad bad_character
any_bad-All [] h = tt
any_bad-All (b ∷ name) h =
    ((ground arith, ground arith, ground arith), any_bad-All name (ground arith))

validate_component-IsComponent :
    (name : Bytes) (dot_root : Bool) → validate_component name dot_root ≡ true → IsComponent name
unfolding validate_component
validate_component-IsComponent name dot_root h = record {
  present = ground arith;
  not_here = ground arith;
  not_above = ground arith;
  short = ground arith;
  text = ground arith;
  clean = any_bad-All name (ground arith);
  ending = ground arith;
}

validate_parts-All :
    (dot_root : Bool) (ps : List Bytes) → validate_parts dot_root ps ≡ true → All IsComponent ps
unfolding validate_parts
validate_parts-All dot_root [] h = tt
validate_parts-All dot_root (p ∷ ps) h = (
  validate_component-IsComponent p dot_root (ground arith),
  validate_parts-All false ps (ground arith),
)

-- the first component of a dot-directory starts with a dot
abbrev pub StartsWithDot : List Bytes → Type 0
StartsWithDot [] = ⊥
StartsWithDot (p ∷ ps) = has_prefix p (ascii ".") ≡ true

dotted : (ps : List Bytes) → 1 ≤ length ps → validate_parts true ps ≡ true → StartsWithDot ps
unfolding validate_parts validate_component
dotted [] h k = absurd (omega (arith, h))
dotted (p ∷ ps) h k = ground arith

-- A place below its scope: the container itself, or an entry that its components name.
pub record IsPlace (allow_container : Bool) (l : Location) (r : Resolved) : Type 0 where
  pub workspace : valid_id l.workspace ≡ true
  pub parent : (l.parent ≡ ascii "root") ⊎ (valid_id l.parent ≡ true)
  pub scope : r.scope ≡ slash (map lower l.workspace) (map lower l.parent)
  pub inside : within r.path r.scope ≡ true
  pub components :
      (allow_container ≡ true) × (l.relative ≡ []) × (r.path ≡ r.scope)
      ⊎ (All IsComponent (split b'/' l.relative)
          × StartsWithDot (split b'/' l.relative)
          × (length (split b'/' l.relative) ≤ max_depth)
          × (r.path ≡ slash r.scope l.relative))

slash_inside :
    (scope relative : Bytes) → has_prefix (slash scope relative) (scope ++ (b'/' ∷ [])) ≡ true
unfolding has_prefix
slash_inside [] relative = refl
slash_inside (b ∷ scope) relative = ground (arith, slash_inside scope relative)

nil_lem : (s : Bytes) → is_nil s ≡ true → s ≡ []
nil_lem [] h = refl
nil_lem (b ∷ s) h = absurd (ground arith)

-- the value that `resolve` makes
abbrev pub place_of : Location → Resolved
place_of l =
    let workspace = map lower l.workspace in
    let scope = slash workspace (map lower l.parent) in
    record {
      workspace = workspace;
      scope = scope;
      relative = l.relative;
      path = if is_nil l.relative then scope else slash scope l.relative;
    }

valid_location-IsPlace :
    (l : Location) (allow_container : Bool)
    → valid_location l allow_container ≡ true
    → IsPlace allow_container l (place_of l)
unfolding valid_location within
valid_location-IsPlace l allow_container h =
    let ps = split b'/' l.relative in
    record {
      workspace = ground arith;
      parent = elim (Bool-cases (same l.parent (ascii "root"))) [
        | inl e ↦ inl (same→≡ l.parent (ascii "root") e)
        | inr e ↦ inr (ground arith)
      ];
      scope = refl;
      inside = elim (Bool-cases (is_nil l.relative)) [
        | inl e ↦ ground (arith, e, same_refl (place_of l).scope)
        | inr e ↦ ground (arith, e, slash_inside (place_of l).scope l.relative)
      ];
      components = elim (Bool-cases (is_nil l.relative)) [
        | inl e ↦ inl (ground arith, nil_lem l.relative e, rw e refl)
        | inr e ↦ inr (
          validate_parts-All true ps (ground arith),
          dotted ps (split_some b'/' l.relative) (ground arith),
          ground arith,
          rw e refl,
        )
      ];
    }

-- If resolve accepts a location, its workspace is a UUID, its parent is a UUID or root, the scope
-- is both in lower case joined by a slash, the path lies in the scope, and either the relative
-- path is empty, which must be allowed, or it has at most 32 components of which the first starts
-- with a dot and none is empty, ".", "..", longer than 255 bytes, not UTF-8, ending in a dot or a
-- space, or has a byte below 32, the byte 127, a slash, a backslash or one of : < > " | ? *.
pub resolve-IsPlace :
    (l : Location) (allow_container : Bool) (r : Resolved)
    → resolve l allow_container ≡ ok r
    → IsPlace allow_container l r
unfolding resolve
resolve-IsPlace l allow_container r h = elim (Bool-cases (valid_location l allow_container)) [
  | inl e ↦ rw (← ok_injective (rw e at h)) (valid_location-IsPlace l allow_container e)
  | inr e ↦ absurd (ground arith)
]
