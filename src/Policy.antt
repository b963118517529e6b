-- ===== src/Policy.antt =====
-- internal/cachepolicy/policy.go: the retention lifetimes of the caches. Durations are signed
-- nanoseconds.
pub mod Config
pub mod Resolution
pub mod CatalogLifetime
pub mod Validity
pub mod Types
pub mod Parsing
pub mod Lifetimes
mod Examples
use fabric_workspace_fs.Prelude.{
  ◌*◌, Bool, true, ◌&&◌, ◌||◌, not, Option, none, some, List, [], ◌∷◌, map, if◌then◌else◌, is_some,
}
use fabric_workspace_fs.Prelude.Int.{ℤ, pos, negsuc, is_neg}
use fabric_workspace_fs.Errors.{Result, ok, err, invalid}
use fabric_workspace_fs.Bytes.{Bytes, ascii, same, lower}
use fabric_workspace_fs.Tables.{Table, lookup, lookup_or}

-- two minutes
abbrev pub default_ttl : ℤ
default_ttl = pos (120 * 1000000000)

pub record Values : Type 0 where
  pub catalog : ℤ
  pub attr : ℤ
  pub directory : ℤ
  pub definition : ℤ
  pub content : ℤ
  pub kernel_attr : ℤ
  pub kernel_entry : ℤ
  pub kernel_negative : ℤ

pub record Selector : Type 0 where
  pub workspace : Bytes
  pub item : Bytes
  pub kind : Bytes
  pub surface : Bytes

abbrev pub Overrides : Type 0
Overrides = Table ℤ

pub record TypeOverrides : Type 0 where
  pub values : Overrides
  pub surfaces : Table Overrides

pub record ItemOverrides : Type 0 where
  pub kind : Bytes
  pub overrides : TypeOverrides

pub record WorkspaceOverrides : Type 0 where
  pub values : Overrides
  pub types : Table TypeOverrides
  pub items : Table ItemOverrides

pub record Policy : Type 0 where
  pub defaults : Overrides
  pub types : Table TypeOverrides
  pub workspaces : Table WorkspaceOverrides

-- the zero values that a lookup of a missing key returns
abbrev pub no_type_overrides : TypeOverrides
no_type_overrides = record { values = []; surfaces = [] }

abbrev pub no_item_overrides : ItemOverrides
no_item_overrides = record { kind = []; overrides = no_type_overrides }

abbrev pub no_workspace_overrides : WorkspaceOverrides
no_workspace_overrides = record { values = []; types = []; items = [] }

abbrev pub default_policy : Policy
default_policy = record { defaults = []; types = []; workspaces = [] }

-- the eight layers, and the keys that name them
pub data Layer : Type 0 where
  catalog attr directory definition content kernel_attr kernel_entry kernel_negative : Layer

abbrev pub layer_name : Layer → Bytes
layer_name catalog = ascii "catalog"
layer_name attr = ascii "attr"
layer_name directory = ascii "directory"
layer_name definition = ascii "definition"
layer_name content = ascii "content"
layer_name kernel_attr = ascii "kernelAttr"
layer_name kernel_entry = ascii "kernelEntry"
layer_name kernel_negative = ascii "kernelNegative"

abbrev pub all_layers : List Layer
all_layers =
    catalog ∷ attr ∷ directory ∷ definition ∷ content ∷ kernel_attr ∷ kernel_entry ∷ kernel_negative
    ∷ []

-- `Uniform`
unfoldable pub uniform : ℤ → Result Policy
uniform ttl =
    if is_neg ttl
    then err invalid
    else ok (record {
      defaults = map (λ l. (layer_name l, ttl)) all_layers;
      types = [];
      workspaces = [];
    })

-- the cases of the switch in `apply`
unfoldable pub layer_of : Bytes → List Layer → Option Layer
layer_of key [] = none
layer_of key (l ∷ ls) = if same (layer_name l) key then some l else layer_of key ls

abbrev pub assign : Layer → ℤ → Values → Values
assign catalog d v = record v { catalog = d }
assign attr d v = record v { attr = d }
assign directory d v = record v { directory = d }
assign definition d v = record v { definition = d }
assign content d v = record v { content = d }
assign kernel_attr d v = record v { kernel_attr = d }
assign kernel_entry d v = record v { kernel_entry = d }
assign kernel_negative d v = record v { kernel_negative = d }

unfoldable pub assign_key : Bytes → ℤ → Values → Values
assign_key key d v = elim (layer_of key all_layers) [ none ↦ v | some l ↦ assign l d v ]

-- `apply`; Go's order of the keys is not specified
unfoldable pub apply : Overrides → Values → Values
apply [] v = v
apply (x ∷ xs) v = apply xs (assign_key x.0 x.1 v)

abbrev pub default_values : Values
default_values = record {
  catalog = default_ttl;
  attr = default_ttl;
  directory = default_ttl;
  definition = default_ttl;
  content = default_ttl;
  kernel_attr = default_ttl;
  kernel_entry = default_ttl;
  kernel_negative = default_ttl;
}

abbrev pub to_lower : Bytes → Bytes
to_lower = map lower

abbrev pub is_empty : Bytes → Bool
is_empty s = same s []

-- `matched`: the item has overrides, and they are for this type
unfoldable pub matched_item : Selector → WorkspaceOverrides → Option ItemOverrides
matched_item s w = elim (lookup (to_lower s.item) w.items) [
  | none ↦ none
  | some i ↦ if is_empty s.kind || same s.kind i.kind then some i else none
]

-- the type of the selector, which a matched item supplies if it is missing
unfoldable pub selected_kind : Selector → Option ItemOverrides → Bytes
selected_kind s none = s.kind
selected_kind s (some i) = if is_empty s.kind then i.kind else s.kind

unfoldable pub apply_type : Bytes → TypeOverrides → Values → Values
apply_type surface t v = apply (lookup_or [] surface t.surfaces) (apply t.values v)

-- the first six overlays of `Resolve`, which items do not decide
unfoldable pub resolve_type : Policy → WorkspaceOverrides → Bytes → Bytes → Values
resolve_type p w kind surface =
    let types =
      apply_type surface (lookup_or no_type_overrides kind p.types)
        (apply p.defaults default_values) in
    apply_type surface (lookup_or no_type_overrides kind w.types) (apply w.values types)

abbrev pub apply_item : Option ItemOverrides → Bytes → Values → Values
apply_item none surface v = v
apply_item (some i) surface v = apply_type surface i.overrides v

unfoldable pub resolve : Option Policy → Selector → Values
resolve none s = default_values
resolve (some p) s =
    let w = lookup_or no_workspace_overrides (to_lower s.workspace) p.workspaces in
    let matched = matched_item s w in
    apply_item matched s.surface (resolve_type p w (selected_kind s matched) s.surface)

unfoldable pub catalog_ttl : Option Policy → Bytes → ℤ
catalog_ttl none workspace = default_ttl
catalog_ttl (some p) workspace =
    let ttl = lookup_or default_ttl (ascii "catalog") p.defaults in
    let w = lookup_or no_workspace_overrides (to_lower workspace) p.workspaces in
    lookup_or ttl (ascii "catalog") w.values
