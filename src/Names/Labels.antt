-- ===== src/Names/Labels.antt =====
-- internal/namespace/names.go and internal/namespace/creation.go: the names of catalog entries, and
-- the entries that a new local name asks for. `digest` is the first 16 hexadecimal digits of SHA-256.
use fabric_workspace_fs.Prelude.{
  ℕ, zero, suc, ◌+◌, ◌-◌, Bool, true, not, ◌&&◌, ◌||◌, Option, none, some, List, [], ◌∷◌, ◌++◌, ltb,
  leb, ◌==◌, if◌then◌else◌, length, take, drop, get_elem?,
}
use fabric_workspace_fs.Errors.{Error, Result, ok, err, invalid, too_large, read_only, ◌>>=◌}
use fabric_workspace_fs.Bytes.{Bytes, ascii, same, path_unescape}
use fabric_workspace_fs.Names.{is_nil, encode, component, max_name_bytes}

-- a digit of an identity
unfoldable pub is_hex : ℕ → Bool
is_hex c = leb b'0' c && leb c b'9' || leb b'a' c && leb c b'f' || leb b'A' c && leb c b'F'

-- the loop of `validID`, from the byte at place `i`
unfoldable pub valid_id_from : ℕ → Bytes → Bool
unfolding is_hex
valid_id_from i [] = true
valid_id_from i (c ∷ s) =
    (if i == 8 || i == 13 || i == 18 || i == 23 then c == b'-' else is_hex c)
    && valid_id_from (i + 1) s

unfoldable pub valid_id : Bytes → Bool
unfolding valid_id_from
valid_id id = length id == 36 && valid_id_from 0 id

-- `utf8.RuneStart`, of the byte at a place
unfoldable pub rune_start_at : Bytes → ℕ → Bool
rune_start_at s i = elim (get_elem? s i) [ none ↦ true | some b ↦ not (leb 0x80 b && ltb b 0xc0) ]

-- `for end > 0 && !utf8.RuneStart(name[end]) { end-- }`
unfoldable pub rune_back : Bytes → ℕ → ℕ
unfolding rune_start_at
rune_back s zero = zero
rune_back s (suc n) = let rest = rune_back s n in if rune_start_at s (suc n) then suc n else rest

-- `strings.LastIndexByte`, from place `i` on, with the last place found before
unfoldable pub last_index : ℕ → ℕ → Option ℕ → Bytes → Option ℕ
last_index c i found [] = found
last_index c i found (b ∷ s) = last_index c (i + 1) (if b == c then some i else found) s

-- the place where `shorten` cuts: not inside a rune and not inside an escape
unfoldable pub cut_at : Bytes → ℕ → ℕ
unfolding rune_back last_index
cut_at name limit =
    let end = rune_back name (limit - 17) in
    elim (last_index b'%' 0 none (take end name)) [
      | none ↦ end
      | some i ↦ if ltb (end - i) 3 then i else end
    ]

-- `strings.CutSuffix`
unfoldable pub cut_suffix : Bytes → Bytes → Option Bytes
unfolding same
cut_suffix name suffix =
    let n = length name - length suffix in
    if leb (length suffix) (length name) && same (drop n name) suffix
    then some (take n name)
    else none

-- `strings.Split(s, "/")`: the part up to the next slash, and the parts behind it
unfoldable pub split_slash : Bytes → Bytes × List Bytes
split_slash [] = ([], [])
split_slash (b ∷ s) =
    let (part, parts) = split_slash s in if b == b'/' then ([], part ∷ parts) else (b ∷ part, parts)

unfoldable pub all_components : List Bytes → Option Error
all_components [] = none
all_components (p ∷ ps) =
    let rest = all_components ps in elim (component p) [ some e ↦ some e | none ↦ rest ]

-- `PartPath`
unfoldable pub part_path : Bytes → Option Error
unfolding split_slash all_components
part_path path = let (part, parts) = split_slash path in all_components (part ∷ parts)

-- the extension of a Notebook's content: ".ipynb" unless it is ".py"
unfoldable pub content_extension : Bytes → Bytes
unfolding same
content_extension extension =
    if same extension (ascii ".ipynb") || same extension (ascii ".py")
    then extension
    else ascii ".ipynb"

module _ (digest : Bytes → Bytes) where
  unfoldable pub shorten : Bytes → ℕ → Bytes
  unfolding cut_at
  shorten name limit =
      if leb (length name) limit then name else take (cut_at name limit) name ++ b'-' ∷ digest name

  -- the hidden files of the mount are not names of entries
  unfoldable pub unhide : Bytes → Bytes
  unfolding same
  unhide encoded =
      if same encoded (ascii ".fabric.json") || same encoded (ascii ".platform")
      then ascii "%2E" ++ drop 1 encoded
      else encoded

  unfoldable pub catalog_name : Bytes → Bytes → Result Bytes
  catalog_name label id =
      if not (valid_id id)
      then err invalid
      else encode (if is_nil label then ascii "unnamed" else label)
        >>= (λ encoded. ok (shorten (unhide encoded) 220))

  -- the local name of a Notebook's content
  unfoldable pub notebook_content_file_name : Bytes → Bytes → Bytes
  notebook_content_file_name display_name extension =
      let kept = content_extension extension in
      let fallback = ascii "content" ++ kept in
      if is_nil display_name then fallback else elim (encode display_name) [
        | err e ↦ fallback
        | ok encoded ↦
            (if ltb (max_name_bytes - length kept) (length encoded)
              then shorten encoded (max_name_bytes - length kept)
              else encoded)
            ++ kept
      ]

-- creation.go

pub data Kind : Type 0 where
  folder notebook lakehouse environment : Kind

pub record Creation : Type 0 where
  pub display_name : Bytes
  pub kind : Kind

abbrev pub suffix : Kind → Bytes
suffix folder = []
suffix notebook = ascii ".Notebook"
suffix lakehouse = ascii ".Lakehouse"
suffix environment = ascii ".Environment"

-- the loop over the suffixes of the types
unfoldable pub split_kind : Bytes → Kind × Bytes
split_kind name = elim (cut_suffix name (suffix notebook)) [
  | some base ↦ (notebook, base)
  | none ↦ elim (cut_suffix name (suffix lakehouse)) [
    | some base ↦ (lakehouse, base)
    | none ↦ elim (cut_suffix name (suffix environment)) [
      | some base ↦ (environment, base)
      | none ↦ (folder, name)
    ]
  ]
]

abbrev pub any_id : Bytes
any_id = ascii "11111111-1111-1111-1111-111111111111"

module _ (digest : Bytes → Bytes) where
  -- `ParseCreation` once the type is known
  unfoldable pub create_base : Kind → Bytes → Result Creation
  unfolding same
  create_base kind base = if is_nil base then err invalid else elim (path_unescape base) [
    | none ↦ err invalid
    | some raw ↦
        if is_nil raw
        then err invalid
        else catalog_name digest raw any_id >>= (λ canonical.
          if same canonical base
          then ok (record { display_name = raw; kind = kind })
          else err invalid)
  ]

  unfoldable pub parse_creation : Bytes → Result Creation
  unfolding same
  parse_creation name = elim (component name) [
    | some e ↦ err e
    | none ↦
        if ltb max_name_bytes (length name)
        then err too_large
        else if same name (ascii ".fabric.json") || same name (ascii ".platform")
        then err read_only
        else (let (kind, base) = split_kind name in create_base kind base)
  ]
