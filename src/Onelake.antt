-- ===== src/Onelake.antt =====
-- internal/onelake/path.go: addresses of OneLake objects and entity tags. Texts are byte strings.
pub mod Addresses
pub mod Tags
mod Examples
use fabric_workspace_fs.Prelude.{
  ℕ, ◌+◌, ◌-◌, ◌*◌, ◌%◌, Bool, true, false, not, ◌&&◌, ◌||◌, Option, none, some, List, [], ◌∷◌,
  ◌++◌, map, ltb, leb, ◌==◌, if◌then◌else◌, length, take, drop, get_elem?,
}
use fabric_workspace_fs.Errors.{Error, Result, ok, err, invalid, read_only}
use fabric_workspace_fs.Bytes.{
  Bytes, ascii, same, contains, has_prefix, valid_utf8, percent, lower, split,
}
use fabric_workspace_fs.Names.{is_nil}
use fabric_workspace_fs.Names.Labels.{valid_id}

pub record Address : Type 0 where
  pub workspace : Bytes
  pub item : Bytes
  pub relative : Bytes

-- one byte of the loop over the runes of a valid text: how many bytes of the rune are missing, its
-- value so far, and the rune if it is complete
abbrev pub Reading : Type 0
Reading = ℕ × (ℕ × Option ℕ)

unfoldable pub read_rune : ℕ → ℕ → ℕ → Reading
read_rune missing value b =
    if missing == 0
    then (if ltb b 0x80
        then (0, (0, some b))
        else if ltb b 0xe0
        then (1, (b - 0xc0, none))
        else if ltb b 0xf0
        then (2, (b - 0xe0, none))
        else (3, (b - 0xf0, none)))
    else (let next = value * 64 + (b - 0x80) in
        if missing == 1 then (0, (0, some next)) else (missing - 1, (next, none)))

-- the runes that `safeText` refuses
unfoldable pub is_unsafe : ℕ → Bool
is_unsafe r =
    ltb r 0x20
    || leb 0x7f r && leb r 0x9f
    || r == 0xfffd
    || leb 0xfdd0 r && leb r 0xfdef
    || leb 0xfffe (r % 0x10000)

unfoldable pub safe_from : ℕ → ℕ → Bytes → Bool
unfolding read_rune is_unsafe
safe_from missing value [] = true
safe_from missing value (b ∷ s) =
    let r = read_rune missing value b in
    let rest = safe_from r.0 r.1.0 s in
    elim r.1.1 [ none ↦ rest | some rune ↦ not (is_unsafe rune) && rest ]

unfoldable pub safe_text : Bytes → Bool
safe_text s = valid_utf8 s && safe_from 0 0 s

unfoldable pub is_part : Bytes → Bool
is_part part = not (is_nil part || same part (ascii ".") || same part (ascii ".."))

unfoldable pub all_parts : List Bytes → Bool
all_parts [] = true
all_parts (p ∷ ps) = is_part p && all_parts ps

abbrev pub first_part : List Bytes → Bytes
first_part [] = []
first_part (p ∷ ps) = p

-- the tests of `ValidatePath` on the components
unfoldable pub validate_parts : List Bytes → Bool → Option Error
validate_parts parts write =
    if not (all_parts parts)
    then some invalid
    else if write && (not (same (first_part parts) (ascii "Files")) || length parts == 1)
    then some read_only
    else if not (same (first_part parts) (ascii "Files"))
        && not (same (first_part parts) (ascii "Tables"))
    then some invalid
    else none

unfoldable pub validate_path : Address → Bool → Option Error
validate_path p write =
    if not (valid_id p.workspace) || not (valid_id p.item)
    then some invalid
    else if is_nil p.relative
    then (if write then some read_only else some invalid)
    else if not (safe_text p.relative) || contains b'\\' p.relative
    then some invalid
    else validate_parts (split b'/' p.relative) write

-- the bytes that `url.PathEscape` keeps
unfoldable pub kept_in_path : ℕ → Bool
unfolding contains
kept_in_path b =
    leb b'a' b && leb b b'z'
    || leb b'A' b && leb b b'Z'
    || leb b'0' b && leb b b'9'
    || contains b (ascii "-_.~$&+:=@")

unfoldable pub path_escape : Bytes → Bytes
path_escape [] = []
path_escape (b ∷ s) =
    let rest = path_escape s in if kept_in_path b then b ∷ rest else percent b ++ rest

-- `strings.Join(parts, "/")` behind a slash
unfoldable pub join_parts : List Bytes → Bytes
join_parts [] = []
join_parts (p ∷ ps) = b'/' ∷ (p ++ join_parts ps)

unfoldable pub escaped_path : Address → Bytes
escaped_path p =
    join_parts
      (map path_escape (split b'/' (p.workspace ++ (b'/' ∷ (p.item ++ (b'/' ∷ p.relative))))))

-- `strings.EqualFold` on identities, whose letters are ASCII
unfoldable pub same_item : Address → Address → Bool
same_item a b =
    same (map lower a.workspace) (map lower b.workspace)
    && same (map lower a.item) (map lower b.item)

abbrev pub quote : ℕ
quote = 34

unfoldable pub last_byte : Bytes → ℕ
last_byte [] = 0
last_byte (b ∷ []) = b
last_byte (b ∷ c ∷ s) = last_byte (c ∷ s)

-- the text between the first and the last byte
unfoldable pub inner : Bytes → Bytes
inner s = take (length s - 2) (drop 1 s)

unfoldable pub is_tag_byte : Bool → ℕ → Bool
is_tag_byte quoted b =
    not (ltb b 0x21 || ltb 0x7e b || b == quote || not quoted && (b == b',' || b == b'*'))

unfoldable pub all_tag_bytes : Bool → Bytes → Bool
all_tag_bytes quoted [] = true
all_tag_bytes quoted (b ∷ s) = is_tag_byte quoted b && all_tag_bytes quoted s

abbrev pub add_quotes : Bytes → Bytes
add_quotes s = quote ∷ (s ++ (quote ∷ []))

-- the end of `entityTag`, on the text without quotes
unfoldable pub quoted_tag : Bool → Bytes → Result Bytes
quoted_tag quoted s = if all_tag_bytes quoted s then ok (add_quotes s) else err invalid

unfoldable pub entity_tag : Bytes → Bool → Result Bytes
entity_tag s required =
    if is_nil s
    then (if required then err invalid else ok [])
    else if same s (ascii "*") || has_prefix s (ascii "W/")
    then err invalid
    else if has_prefix s (quote ∷ [])
    then (if ltb (length s) 3 || not (last_byte s == quote)
        then err invalid
        else quoted_tag true (inner s))
    else quoted_tag false s
