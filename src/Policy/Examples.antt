-- ===== src/Policy/Examples.antt =====
-- A configuration for one workspace, and what it gives.
use fabric_workspace_fs.Prelude.{
  ◌==◌, ◌-◌, ◌*◌, false, ◌≡◌, refl, Option, none, some, [], ◌∷◌, if◌then◌else◌,
}
use fabric_workspace_fs.Prelude.Int.{ℤ, pos}
use fabric_workspace_fs.Errors.{ok}
use fabric_workspace_fs.Bytes.{
  Bytes, ascii, same, has_prefix, valid_utf8, decode_from, decode_byte, lead, lower,
}
use fabric_workspace_fs.Tables.{lookup, lookup_or, remove}
use fabric_workspace_fs.Names.Labels.{valid_id, valid_id_from, is_hex}
use fabric_workspace_fs.Policy.{
  all_layers, layer_name, map, WorkspaceOverrides, ItemOverrides, is_neg, Selector, Policy, Layer,
  layer_of, uniform, resolve, resolve_type, apply_type, apply, assign_key, matched_item,
  selected_kind, catalog_ttl,
}
use fabric_workspace_fs.Policy.Config.{
  Json, object_of, text, member, finish, read_members, object, valid_type, valid_surface,
  allowed_value, parse_value, parse_values, parse_surfaces, parse_type_fields, item_kind,
  parse_item, parse_item_table, parse_items, parse_workspace, parse_workspace_table,
  parse_workspaces, parse_section, parse_sections, parse,
}
use fabric_workspace_fs.Policy.Resolution.{get, scopes, most_specific, IsValid}
use fabric_workspace_fs.Policy.Parsing.{parse-IsValid}
use fabric_workspace_fs.Policy.Lifetimes.{resolve-parse, catalog-parse, resolve-uniform}

abbrev workspace_id : Bytes
workspace_id = ascii "0000000A-1111-2222-3333-444444444444"

abbrev workspace_key : Bytes
workspace_key = ascii "0000000a-1111-2222-3333-444444444444"

abbrev item_id : Bytes
item_id = ascii "99999999-1111-2222-3333-444444444444"

-- durations in whole seconds below ten
abbrev seconds : Bytes → Option ℤ
seconds (d ∷ unit ∷ []) = if unit == b's' then some (pos ((d - 48) * 1000000000)) else none
seconds _ = none

-- an object with one member
abbrev single : Bytes → Json → Json
single name value = object_of (member name value finish)

abbrev item_document : Json
item_document = object_of (
    member (ascii "type") (text (ascii "Notebook")) (
      member (ascii "surfaces")
        (single (ascii "builtin") (single (ascii "content") (text (ascii "8s")))) finish))

abbrev workspace_document : Json
workspace_document = object_of (
    member (ascii "catalog") (text (ascii "7s"))
      (member (ascii "items") (single item_id item_document) finish))

abbrev document : Json
document = object_of (
    member (ascii "defaults") (single (ascii "attr") (text (ascii "5s")))
      (member (ascii "workspaces") (single workspace_id workspace_document) finish))

abbrev read : Bytes → Option Json
read input = some document

abbrev seven : ℤ
seven = pos 7000000000

abbrev item_policy : ItemOverrides
item_policy = record {
  kind = ascii "Notebook";
  overrides = record {
    values = [];
    surfaces = (ascii "builtin", (ascii "content", pos 8000000000) ∷ []) ∷ [];
  };
}

abbrev workspace_policy : WorkspaceOverrides
workspace_policy = record {
  values = (ascii "catalog", seven) ∷ [];
  types = [];
  items = (item_id, item_policy) ∷ [];
}

abbrev policy : Policy
policy = record {
  defaults = (ascii "attr", pos 5000000000) ∷ [];
  types = [];
  workspaces = (workspace_key, workspace_policy) ∷ [];
}

abbrev selector : Selector
selector = record { workspace = workspace_id; item = item_id; kind = []; surface = ascii "builtin" }

parsed : parse seconds read (ascii "{}") ≡ ok policy
unfolding parse valid_utf8 decode_from decode_byte lead lower valid_id_from is_hex object
    read_members parse_sections parse_section parse_values allowed_value parse_value
    parse_workspaces parse_workspace_table parse_workspace parse_items parse_item_table parse_item
    item_kind parse_type_fields parse_surfaces valid_surface valid_type valid_id lookup remove same
    has_prefix layer_of
parsed = refl

parse-IsValid_example : IsValid policy
parse-IsValid_example = parse-IsValid seconds read (ascii "{}") policy parsed

resolve-parse_example :
    (get Layer.content (resolve (some policy) selector)
      ≡ most_specific Layer.content (scopes policy selector))
    × (is_neg (get Layer.content (resolve (some policy) selector)) ≡ false)
resolve-parse_example = resolve-parse seconds read (ascii "{}") policy selector Layer.content parsed

catalog-parse_example :
    (resolve (some policy) selector).catalog ≡ catalog_ttl (some policy) workspace_id
catalog-parse_example = catalog-parse seconds read (ascii "{}") policy selector parsed

abbrev all_seven : Policy
all_seven = record {
  defaults = map (λ l. (layer_name l, seven)) all_layers;
  types = [];
  workspaces = [];
}

uniform-seven : uniform seven ≡ ok all_seven
unfolding uniform
uniform-seven = refl

resolve-uniform_example :
    (get Layer.attr (resolve (some all_seven) selector) ≡ seven) × (is_neg seven ≡ false)
resolve-uniform_example = resolve-uniform seven all_seven selector Layer.attr uniform-seven

-- the item's own surface decides its content, and its workspace the catalog
resolved :
    (get Layer.content (resolve (some policy) selector) ≡ pos 8000000000)
    × (catalog_ttl (some policy) workspace_id ≡ seven)
unfolding resolve resolve_type apply_type apply assign_key layer_of same lookup lookup_or
    matched_item selected_kind catalog_ttl lower
resolved = (refl, refl)
