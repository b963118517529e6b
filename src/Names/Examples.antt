-- ===== src/Names/Examples.antt =====
-- The theorems on names of internal/namespace at concrete names, and small runs.
use fabric_workspace_fs.Prelude.{◌≤◌, ◌≡◌, ◌↔◌, refl, some, [], ◌∷◌, ◌++◌, All, length, replicate}
use fabric_workspace_fs.Errors.{ok}
use fabric_workspace_fs.Bytes.{
  Bytes, ascii, same, contains, before_byte, upper, valid_utf8, percent, path_unescape,
}
use fabric_workspace_fs.Names.{
  is_reserved, escapes, put_ascii, encode_loop, is_device_stem, windows_device_name, escape_first,
  encode, component, file_name, check_canonical, parse_file_name,
}
use fabric_workspace_fs.Names.Roundtrip.{path_unescape-encode, parse_file_name_iff}
use fabric_workspace_fs.Names.Safety.{IsPortable, encode-IsPortable}
use fabric_workspace_fs.Names.Labels.{
  valid_id, cut_at, cut_suffix, shorten, unhide, catalog_name, content_extension,
  notebook_content_file_name, Creation, notebook, suffix, split_kind, any_id, create_base,
  parse_creation,
}
use fabric_workspace_fs.Names.Bounds.{
  length-catalog_name-le, length-notebook_content_file_name-le, parse_creation-catalog_name,
}

program : Unit {0}
unfolding same contains before_byte upper valid_utf8 percent path_unescape is_reserved escapes
    put_ascii encode_loop is_device_stem windows_device_name escape_first encode component file_name
    check_canonical parse_file_name valid_id cut_at cut_suffix shorten unhide catalog_name
    content_extension notebook_content_file_name split_kind create_base parse_creation
program = tt

device : file_name (ascii "con.txt") ≡ ok (ascii "%63on.txt")
unfolding program
device = refl

control :
    encode (0x61 ∷ 0xc2 ∷ 0x85 ∷ 0xc3 ∷ 0xa9 ∷ []) ≡ ok (ascii "a%C2%85" ++ (0xc3 ∷ 0xa9 ∷ []))
unfolding program
control = refl

path_unescape-encode_example : path_unescape (ascii "A%2FB%2E") ≡ some (ascii "A/B.")
unfolding program
path_unescape-encode_example = path_unescape-encode (ascii "A/B.") (ascii "A%2FB%2E") refl

parse_file_name_iff_example :
    (parse_file_name (ascii "a%3Ab") ≡ ok (ascii "a:b"))
    ↔ (file_name (ascii "a:b") ≡ ok (ascii "a%3Ab"))
parse_file_name_iff_example = parse_file_name_iff (ascii "a:b") (ascii "a%3Ab")

encode-IsPortable_example : All IsPortable (ascii "a%5Cb")
unfolding program
encode-IsPortable_example = encode-IsPortable (ascii "a\\b") (ascii "a%5Cb") refl

abbrev no_digest : Bytes → Bytes
no_digest s = replicate 16 b'0'

no_digest-length : (s : Bytes) → length (no_digest s) ≡ 16
no_digest-length s = refl

length-catalog_name_example : length (ascii "Data") ≤ 220
unfolding program
length-catalog_name_example =
    length-catalog_name-le no_digest no_digest-length (ascii "Data") any_id (ascii "Data") refl

length-notebook_content_file_name_example :
    length (notebook_content_file_name no_digest (ascii "Demo") (ascii ".py")) ≤ 255
length-notebook_content_file_name_example =
    length-notebook_content_file_name-le no_digest no_digest-length (ascii "Demo") (ascii ".py")

abbrev demo : Creation
demo = record { display_name = ascii "A/B"; kind = notebook }

parse_creation-catalog_name_example :
    (base : Bytes) × (ascii "A%2FB.Notebook" ≡ base ++ suffix notebook)
    × (catalog_name no_digest (ascii "A/B") any_id ≡ ok base)
unfolding program
parse_creation-catalog_name_example =
    parse_creation-catalog_name no_digest (ascii "A%2FB.Notebook") demo refl
