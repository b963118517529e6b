-- ===== src/Policy/Config.antt =====
-- internal/cachepolicy/config.go: the configuration of a policy. The readers of encoding/json and of
-- durations are parameters; a value of a member that is not read further stays as it is.
use fabric_workspace_fs.Prelude.{
  ℕ, ◌^◌, Bool, true, false, ◌&&◌, ◌||◌, not, Option, none, some, [], ◌∷◌, ltb, if◌then◌else◌,
  is_some, length,
}
use fabric_workspace_fs.Prelude.Int.{ℤ, is_neg}
use fabric_workspace_fs.Errors.{Result, ok, err, invalid, ◌>>=◌}
use fabric_workspace_fs.Bytes.{Bytes, ascii, same, has_prefix, valid_utf8}
use fabric_workspace_fs.Tables.{Table, lookup, remove}
use fabric_workspace_fs.Names.Labels.{valid_id}
use fabric_workspace_fs.Policy.{
  Overrides, TypeOverrides, ItemOverrides, WorkspaceOverrides, Policy, default_policy, layer_of,
  all_layers, to_lower,
}

-- A JSON value as the decoder reads it. The members of an object stand in their order, repeated
-- names included; `torn` is where the decoder meets an error in an object.
mutual
  pub data Json : Type 0 where
    null : Json
    text : Bytes → Json
    object_of : Members → Json
    other : Json

  pub data Members : Type 0 where
    finish torn : Members
    member : Bytes → Json → Members → Members

abbrev pub max_config_bytes : ℕ
max_config_bytes = 2 ^ 20

-- the loop of `object`
unfoldable pub read_members : Table Json → Members → Result (Table Json)
read_members result finish = ok result
read_members result torn = err invalid
read_members result (member key value rest) =
    let more = read_members ((key, value) ∷ result) rest in
    if is_some (lookup key result) then err invalid else more

unfoldable pub object : Json → Result (Table Json)
object (object_of m) = read_members [] m
object null = err invalid
object (text s) = err invalid
object other = err invalid

unfoldable pub valid_type : Bytes → Bool
valid_type kind =
    same kind (ascii "Notebook") || same kind (ascii "Lakehouse") || same kind (ascii "Environment")

unfoldable pub valid_surface : Bytes → Bytes → Bool
valid_surface kind name =
    if same kind (ascii "Notebook")
    then same name (ascii "content") || same name (ascii "builtin")
    else if same kind (ascii "Lakehouse")
    then same name (ascii "Files") || same name (ascii "Tables")
    else if same kind (ascii "Environment")
    then same name (ascii "resources") || same name (ascii "definition")
    else false

-- the tests on the name of a value
unfoldable pub allowed_value : Bool → Bytes → Bytes → Bool
allowed_value with_catalog kind name =
    (if same name (ascii "catalog") then with_catalog else is_some (layer_of name all_layers))
    && not (same kind (ascii "Lakehouse") && same name (ascii "content"))

abbrev pub with_value : Bytes → Option ℤ → Overrides → Overrides
with_value name none rest = rest
with_value name (some d) rest = (name, d) ∷ rest

-- the type that an item declares; null leaves the empty string, which is no type
unfoldable pub item_kind : Option Json → Result Bytes
item_kind none = err invalid
item_kind (some null) = err invalid
item_kind (some (text kind)) = if valid_type kind then ok kind else err invalid
item_kind (some (object_of m)) = err invalid
item_kind (some other) = err invalid

-- an optional member that another function reads
abbrev pub optional : {A : Type 0} → A → (Json → Result A) → Option Json → Result A
optional absent read none = ok absent
optional absent read (some j) = read j

module _ (parse_duration : Bytes → Option ℤ) where
  -- one duration; `none` for null
  unfoldable pub parse_value : Json → Result (Option ℤ)
  parse_value null = ok none
  parse_value (text s) = elim (parse_duration s) [
    | none ↦ err invalid
    | some d ↦ if is_neg d || has_prefix s (ascii "-") then err invalid else ok (some d)
  ]
  parse_value (object_of m) = err invalid
  parse_value other = err invalid

  unfoldable pub parse_values : Bool → Bytes → Table Json → Result Overrides
  parse_values with_catalog kind [] = ok []
  parse_values with_catalog kind (x ∷ xs) =
      let rest = parse_values with_catalog kind xs in
      if allowed_value with_catalog kind x.0
      then parse_value x.1 >>= (λ d. rest >>= (λ r. ok (with_value x.0 d r)))
      else err invalid

  unfoldable pub parse_surfaces : Bytes → Table Json → Result (Table Overrides)
  parse_surfaces kind [] = ok []
  parse_surfaces kind (x ∷ xs) =
      let rest = parse_surfaces kind xs in
      if valid_surface kind x.0
      then object x.1 >>= parse_values false kind >>= (λ o. rest >>= (λ r. ok ((x.0, o) ∷ r)))
      else err invalid

  unfoldable pub parse_type_fields : Bytes → Table Json → Result TypeOverrides
  parse_type_fields kind fields =
      optional [] (λ j. object j >>= parse_surfaces kind) (lookup (ascii "surfaces") fields)
      >>= (λ s.
          parse_values false kind (remove (ascii "surfaces") fields)
          >>= (λ v. ok (record { values = v; surfaces = s })))

  unfoldable pub parse_type_table : Table Json → Result (Table TypeOverrides)
  parse_type_table [] = ok []
  parse_type_table (x ∷ xs) =
      let rest = parse_type_table xs in
      if valid_type x.0
      then object x.1 >>= parse_type_fields x.0 >>= (λ t. rest >>= (λ r. ok ((x.0, t) ∷ r)))
      else err invalid

  unfoldable pub parse_types : Json → Result (Table TypeOverrides)
  parse_types j = object j >>= parse_type_table

  unfoldable pub parse_item : Table Json → Result ItemOverrides
  parse_item fields = item_kind (lookup (ascii "type") fields) >>= (λ kind.
      parse_type_fields kind (remove (ascii "type") fields)
      >>= (λ t. ok (record { kind = kind; overrides = t })))

  unfoldable pub parse_item_table : Table ItemOverrides → Table Json → Result (Table ItemOverrides)
  parse_item_table result [] = ok result
  parse_item_table result (x ∷ xs) =
      let id = to_lower x.0 in
      if not (valid_id x.0) || is_some (lookup id result)
      then err invalid
      else object x.1 >>= parse_item >>= (λ i. parse_item_table ((id, i) ∷ result) xs)

  unfoldable pub parse_items : Json → Result (Table ItemOverrides)
  parse_items j = object j >>= parse_item_table []

  unfoldable pub parse_workspace : Table Json → Result WorkspaceOverrides
  parse_workspace fields =
      let untyped = remove (ascii "types") fields in
      optional [] parse_types (lookup (ascii "types") fields) >>= (λ types.
        optional [] parse_items (lookup (ascii "items") untyped) >>= (λ items.
          parse_values true [] (remove (ascii "items") untyped)
          >>= (λ values. ok (record { values = values; types = types; items = items }))))

  unfoldable pub parse_workspace_table :
      Table WorkspaceOverrides → Table Json → Result (Table WorkspaceOverrides)
  parse_workspace_table result [] = ok result
  parse_workspace_table result (x ∷ xs) =
      let id = to_lower x.0 in
      if not (valid_id x.0) || is_some (lookup id result)
      then err invalid
      else object x.1 >>= parse_workspace >>= (λ w. parse_workspace_table ((id, w) ∷ result) xs)

  unfoldable pub parse_workspaces : Json → Result (Table WorkspaceOverrides)
  parse_workspaces j = object j >>= parse_workspace_table []

  -- one round of the loop of `Parse`
  unfoldable pub parse_section : Bytes → Json → Policy → Result Policy
  parse_section key j p =
      if same key (ascii "defaults")
      then object j >>= parse_values true [] >>= (λ v. ok (record p { defaults = v }))
      else if same key (ascii "types")
      then parse_types j >>= (λ t. ok (record p { types = t }))
      else if same key (ascii "workspaces")
      then parse_workspaces j >>= (λ w. ok (record p { workspaces = w }))
      else err invalid

  unfoldable pub parse_sections : Table Json → Policy → Result Policy
  parse_sections [] p = ok p
  parse_sections (x ∷ xs) p = parse_section x.0 x.1 p >>= parse_sections xs

  -- `Parse`; `read` is what the decoder makes of the whole input, a trailing value being an error
  unfoldable pub parse : (Bytes → Option Json) → Bytes → Result Policy
  parse read input =
      if ltb max_config_bytes (length input) || not (valid_utf8 input)
      then err invalid
      else elim (read input) [
        | none ↦ err invalid
        | some j ↦ object j >>= (λ fields. parse_sections fields default_policy)
      ]
