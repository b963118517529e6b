-- ===== src/Onelake/Examples.antt =====
-- A writable address and a tag without quotes.
use fabric_workspace_fs.Prelude.{◌≡◌, refl, true, none, some, ◌∷◌, ◌≤◌, length}
use fabric_workspace_fs.Errors.{ok, read_only}
use fabric_workspace_fs.Bytes.{
  Bytes, ascii, same, split, cons_first, contains, valid_utf8, decode_from, decode_byte, lead,
  has_prefix, percent, hex_digit,
}
use fabric_workspace_fs.Names.Labels.{valid_id, valid_id_from, is_hex}
use fabric_workspace_fs.Onelake.{
  Address, read_rune, is_unsafe, safe_from, safe_text, is_part, all_parts, validate_parts,
  validate_path, kept_in_path, path_escape, join_parts, is_tag_byte, all_tag_bytes, add_quotes,
  quoted_tag, entity_tag,
}
use fabric_workspace_fs.Onelake.Addresses.{IsAddress, validate_path_lem}
use fabric_workspace_fs.Onelake.Tags.{entity_tag-entity_tag}

abbrev workspace_id : Bytes
workspace_id = ascii "0000000a-1111-2222-3333-444444444444"

abbrev address : Address
address = record { workspace = workspace_id; item = workspace_id; relative = ascii "Files/a b" }

abbrev table : Address
table = record { workspace = workspace_id; item = workspace_id; relative = ascii "Tables/t" }

accepted : validate_path address true ≡ none
unfolding validate_path validate_parts valid_id valid_id_from is_hex safe_text safe_from read_rune
    is_unsafe valid_utf8 decode_from decode_byte lead contains split cons_first all_parts is_part
    same
accepted = refl

validate_path_example :
    IsAddress true address × (join_parts (split b'/' address.relative) ≡ b'/' ∷ address.relative)
validate_path_example = validate_path_lem address true accepted

tagged : entity_tag (ascii "0x8D") true ≡ ok (add_quotes (ascii "0x8D"))
unfolding entity_tag quoted_tag all_tag_bytes is_tag_byte same has_prefix
tagged = refl

entity_tag_example :
    (entity_tag (add_quotes (ascii "0x8D")) true ≡ ok (add_quotes (ascii "0x8D")))
    × ((r : Bytes) × (1 ≤ length r)
        × (all_tag_bytes true r ≡ true)
        × (add_quotes (ascii "0x8D") ≡ add_quotes r))
entity_tag_example =
    entity_tag-entity_tag (ascii "0x8D") (add_quotes (ascii "0x8D")) true true refl tagged

-- tables cannot be written, and the escaped path keeps its slashes
refused :
    (validate_path table true ≡ some read_only) × (path_escape (ascii "a b/") ≡ ascii "a%20b%2F")
unfolding validate_path validate_parts valid_id valid_id_from is_hex safe_text safe_from read_rune
    is_unsafe valid_utf8 decode_from decode_byte lead contains split cons_first all_parts is_part
    same path_escape kept_in_path percent hex_digit
refused = (refl, refl)
