-- ===== src/Overlay/Paths.antt =====
-- internal/overlay/path.go: the paths of a store, and the checks of what is found there. The build is
-- the one for Unix, with internal/overlay/security_unix.go.
use fabric_workspace_fs.Prelude.{
  ℕ, Bool, true, false, not, ◌&&◌, ◌||◌, List, [], ◌∷◌, ◌++◌, map, ltb, leb, ◌==◌, if◌then◌else◌,
  length, drop,
}
use fabric_workspace_fs.Errors.{Result, ok, err, invalid}
use fabric_workspace_fs.Bytes.{
  Bytes, ascii, same, contains, has_prefix, before_byte, lower, upper, valid_utf8, split,
}
use fabric_workspace_fs.Names.{is_nil}
use fabric_workspace_fs.Names.Labels.{valid_id}
use fabric_workspace_fs.Onelake.{last_byte}
use fabric_workspace_fs.Overlay.{Location, Info, Mode, directory, regular, link, special, is_dir}

abbrev pub max_depth : ℕ
max_depth = 32

pub record Resolved : Type 0 where
  pub workspace : Bytes
  pub scope : Bytes
  pub relative : Bytes
  pub path : Bytes

-- `strings.ToUpper`, as far as it is compared with ASCII texts: of the other runes only the dotless i
-- and the long s have ASCII letters as capitals
unfoldable pub to_upper : Bytes → Bytes
to_upper [] = []
to_upper (b ∷ []) = upper b ∷ []
to_upper (b ∷ c ∷ s) =
    let two = to_upper s in
    let one = to_upper (c ∷ s) in
    if b == 0xc4 && c == 0xb1
    then b'I' ∷ two
    else if b == 0xc5 && c == 0xbf
    then b'S' ∷ two
    else upper b ∷ one

unfoldable pub is_reserved_base : Bytes → Bool
is_reserved_base base =
    same base (ascii "CON")
    || same base (ascii "PRN")
    || same base (ascii "AUX")
    || same base (ascii "NUL")
    || same base (ascii "CONIN$")
    || same base (ascii "CONOUT$")

abbrev pub is_port_digit : Bytes → Bool
is_port_digit (d ∷ []) = leb b'1' d && leb d b'9'
is_port_digit (c ∷ d ∷ []) = c == 0xc2 && (d == 0xb9 || d == 0xb2 || d == 0xb3)
is_port_digit _ = false

unfoldable pub is_port : Bytes → Bool
is_port base =
    (has_prefix base (ascii "COM") || has_prefix base (ascii "LPT")) && is_port_digit (drop 3 base)

unfoldable pub bad_character : ℕ → Bool
unfolding contains
bad_character c = ltb c 32 || c == 127 || contains c (ascii "/\\:<>\"|?*")

unfoldable pub any_bad : Bytes → Bool
any_bad [] = false
any_bad (c ∷ s) = bad_character c || any_bad s

-- true if the name is valid
unfoldable pub validate_component : Bytes → Bool → Bool
validate_component name dot_root =
    not (is_nil name || same name (ascii ".") || same name (ascii "..") || ltb 255 (length name))
    && valid_utf8 name
    && not (dot_root && not (has_prefix name (ascii ".")))
    && not (same (to_upper name) (ascii ".FABRIC.JSON") || same (to_upper name) (ascii ".PLATFORM"))
    && not (last_byte name == b'.' || last_byte name == b' ')
    && not (any_bad name)
    && not (is_reserved_base (before_byte b'.' (to_upper name)))
    && not (is_port (before_byte b'.' (to_upper name)))

unfoldable pub validate_parts : Bool → List Bytes → Bool
validate_parts dot_root [] = true
validate_parts dot_root (p ∷ ps) = validate_component p dot_root && validate_parts false ps

unfoldable pub valid_location : Location → Bool → Bool
valid_location l allow_container =
    valid_id l.workspace
    && (same l.parent (ascii "root") || valid_id l.parent)
    && (if is_nil l.relative
        then allow_container
        else not (ltb max_depth (length (split b'/' l.relative)))
          && validate_parts true (split b'/' l.relative))

abbrev pub slash : Bytes → Bytes → Bytes
slash a b = a ++ (b'/' ∷ b)

unfoldable pub resolve : Location → Bool → Result Resolved
resolve l allow_container =
    let workspace = map lower l.workspace in
    let scope = slash workspace (map lower l.parent) in
    if valid_location l allow_container
    then ok (record {
      workspace = workspace;
      scope = scope;
      relative = l.relative;
      path = if is_nil l.relative then scope else slash scope l.relative;
    })
    else err invalid

unfoldable pub within : Bytes → Bytes → Bool
within path parent = same path parent || has_prefix path (parent ++ (b'/' ∷ []))

-- `checkType`: neither a link nor a special file
abbrev pub checked_type : Mode → Bool
checked_type directory = true
checked_type regular = true
checked_type link = false
checked_type special = false

abbrev pub is_regular : Mode → Bool
is_regular directory = false
is_regular regular = true
is_regular link = false
is_regular special = false

-- `checkPrivate` and `checkHandle`, true if the entry is private
unfoldable pub check_private : ℕ → Info → Bool
check_private euid i =
    checked_type i.mode
    && i.uid == euid
    && i.permissions == (if is_dir i.mode then 448 else 384)
    && not (is_regular i.mode && not (i.links == 1))
