-- ===== src/Names.antt =====
-- internal/namespace/names.go: the local names of remote names. Names are byte strings; the hash
-- of long names is a parameter.
pub mod Roundtrip
pub mod Safety
pub mod Labels
pub mod Bounds
mod Examples
use fabric_workspace_fs.Prelude.{
  ℕ, ◌+◌, ◌-◌, Bool, true, false, not, ◌&&◌, ◌||◌, Option, none, some, List, [], ◌∷◌, ◌++◌, map,
  ltb, leb, ◌==◌, if◌then◌else◌, length, take, drop,
}
use fabric_workspace_fs.Errors.{Error, Result, ok, err, invalid, too_large, ◌>>=◌}
use fabric_workspace_fs.Bytes.{
  Bytes, ascii, same, contains, has_prefix, before_byte, upper, valid_utf8, percent, path_unescape,
}

abbrev pub max_name_bytes : ℕ
max_name_bytes = 255

-- the ASCII characters that `Encode` escapes wherever they stand
unfoldable pub is_reserved : ℕ → Bool
unfolding contains
is_reserved b = ltb b 32 || b == 127 || contains b (ascii "/\\%<>:\"|?*")

-- `escape` for an ASCII character: `last` if nothing follows, `dots` if the name is "." or ".."
unfoldable pub escapes : Bool → Bool → ℕ → Bool
escapes dots last b = is_reserved b || (b == b'.' || b == b' ') && last || dots && b == b'.'

abbrev pub is_nil : Bytes → Bool
is_nil [] = true
is_nil (_ ∷ _) = false

unfoldable pub put_ascii : Bool → Bool → ℕ → Bytes
unfolding escapes percent
put_ascii dots last b = if escapes dots last b then percent b else b ∷ []

-- The loop of `Encode` over the runes of a valid text, by bytes: of the runes that are not ASCII
-- only the controls U+0080 to U+009F are escaped, whose bytes are 0xC2 and 0x80 to 0x9F, and in a
-- valid text 0xC2 starts a rune of two bytes.
unfoldable pub encode_loop : Bool → Bytes → Bytes
unfolding put_ascii
encode_loop dots [] = []
encode_loop dots (b ∷ []) = put_ascii dots true b
encode_loop dots (b ∷ c ∷ s) =
    let control = percent b ++ (percent c ++ encode_loop dots s) in
    let other = put_ascii dots false b ++ encode_loop dots (c ∷ s) in
    if b == 0xc2 && (leb 0x80 c && leb c 0x9f) then control else other

unfoldable pub is_com_or_lpt : Bytes → Bool
unfolding same
is_com_or_lpt (a ∷ b ∷ c ∷ d ∷ []) =
    leb b'1' d
    && leb d b'9'
    && (same (a ∷ b ∷ c ∷ []) (ascii "COM") || same (a ∷ b ∷ c ∷ []) (ascii "LPT"))
is_com_or_lpt _ = false

-- The tests of `windowsDeviceName` on the stem of the name in upper case. Of the runes that `ToUpper` takes to ASCII only I and S are not ASCII themselves, and no device
-- name has these letters.
unfoldable pub is_device_stem : Bytes → Bool
unfolding same is_com_or_lpt
is_device_stem stem =
    same stem (ascii "CON")
    || same stem (ascii "PRN")
    || same stem (ascii "AUX")
    || same stem (ascii "NUL")
    || same stem (ascii "CLOCK$")
    || is_com_or_lpt stem

unfoldable pub windows_device_name : Bytes → Bool
windows_device_name name = is_device_stem (map upper (before_byte b'.' name))

unfoldable pub escape_first : Bytes → Bytes
unfolding percent
escape_first [] = []
escape_first (b ∷ s) = percent b ++ s

unfoldable pub encode : Bytes → Result Bytes
encode name =
    if is_nil name || not (valid_utf8 name) || contains 0 name
    then err invalid
    else (let encoded = encode_loop (same name (ascii ".") || same name (ascii "..")) name in
        ok (if windows_device_name name then escape_first encoded else encoded))

-- `Component`: none if the name may be a component of a path
unfoldable pub component : Bytes → Option Error
unfolding contains valid_utf8 same
component name =
    if is_nil name
      || same name (ascii ".")
      || same name (ascii "..")
      || not (valid_utf8 name)
      || contains b'/' name
      || contains b'\\' name
      || contains 0 name
    then some invalid
    else none

unfoldable pub file_name : Bytes → Result Bytes
file_name remote = elim (component remote) [
  | some e ↦ err e
  | none ↦
      encode remote
      >>= (λ name. if ltb max_name_bytes (length name) then err too_large else ok name)
]

-- the last test of `ParseFileName`
unfoldable pub check_canonical : Bytes → Bytes → Bytes → Result Bytes
unfolding same
check_canonical canonical local remote = if same canonical local then ok remote else err invalid

unfoldable pub parse_file_name : Bytes → Result Bytes
parse_file_name local =
    if is_nil local || ltb max_name_bytes (length local)
    then err invalid
    else elim (path_unescape local) [
      | none ↦ err invalid
      | some remote ↦ file_name remote >>= (λ canonical. check_canonical canonical local remote)
    ]
