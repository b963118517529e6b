-- ===== src/Policy/Resolution.antt =====
-- internal/cachepolicy/policy.go: what `Resolve` selects, layer by layer.
use fabric_workspace_fs.Prelude.{
  ◌≡◌, refl, ap, sym, ◌∙◌, inl, inr, Bool, true, false, Option, none, some, List, [], ◌∷◌, arith,
  if◌then◌else◌, Bool-cases, Option-cases,
}
use fabric_workspace_fs.Prelude.Int.{ℤ, is_neg}
use fabric_workspace_fs.Bytes.{Bytes, ascii, same, same→≡}
use fabric_workspace_fs.Tables.{lookup, lookup_or, Distinct, Every, lookup_or-Every, lookup-Every}
use fabric_workspace_fs.Policy.{
  apply_item, resolve_type, default_ttl, Values, Selector, Overrides, TypeOverrides, ItemOverrides,
  WorkspaceOverrides, Policy, no_type_overrides, no_workspace_overrides, Layer, layer_name,
  all_layers, layer_of, assign, assign_key, apply, apply_type, default_values, to_lower,
  matched_item, selected_kind, resolve,
}

abbrev pub get : Layer → Values → ℤ
get Layer.catalog v = v.catalog
get Layer.attr v = v.attr
get Layer.directory v = v.directory
get Layer.definition v = v.definition
get Layer.content v = v.content
get Layer.kernel_attr v = v.kernel_attr
get Layer.kernel_entry v = v.kernel_entry
get Layer.kernel_negative v = v.kernel_negative

-- What the readers of a configuration promise of one object of overrides: no key twice, nothing
-- negative, and the catalog only where it may stand.
pub record IsGood (with_catalog : Bool) (o : Overrides) : Type 0 where
  pub distinct : Distinct o
  pub catalog_allowed : with_catalog ≡ false → lookup (ascii "catalog") o ≡ none
  pub positive : Every (λ d. is_neg d ≡ false) o

pub record IsGoodType (t : TypeOverrides) : Type 0 where
  pub values : IsGood false t.values
  pub surfaces : Every (IsGood false) t.surfaces

abbrev pub IsGoodItem : ItemOverrides → Type 0
IsGoodItem i = IsGoodType i.overrides

pub record IsGoodWorkspace (w : WorkspaceOverrides) : Type 0 where
  pub values : IsGood true w.values
  pub types : Every IsGoodType w.types
  pub items : Every IsGoodItem w.items

pub record IsValid (p : Policy) : Type 0 where
  pub defaults : IsGood true p.defaults
  pub types : Every IsGoodType p.types
  pub workspaces : Every IsGoodWorkspace p.workspaces

-- The objects that may override a layer for a selector, the most specific first.
abbrev pub type_scopes : Bytes → TypeOverrides → List Overrides → List Overrides
type_scopes surface t rest = lookup_or [] surface t.surfaces ∷ t.values ∷ rest

abbrev pub shared_scopes : Policy → WorkspaceOverrides → Bytes → Bytes → List Overrides
shared_scopes p w kind surface =
    type_scopes surface (lookup_or no_type_overrides kind w.types)
      (w.values ∷ type_scopes surface (lookup_or no_type_overrides kind p.types) (p.defaults ∷ []))

abbrev pub item_scopes : Option ItemOverrides → Bytes → List Overrides → List Overrides
item_scopes none surface rest = rest
item_scopes (some i) surface rest = type_scopes surface i.overrides rest

abbrev pub scopes : Policy → Selector → List Overrides
scopes p s =
    let w = lookup_or no_workspace_overrides (to_lower s.workspace) p.workspaces in
    let matched = matched_item s w in
    item_scopes matched s.surface (shared_scopes p w (selected_kind s matched) s.surface)

-- the first object that has the layer decides
abbrev pub most_specific : Layer → List Overrides → ℤ
most_specific l [] = default_ttl
most_specific l (o ∷ os) = lookup_or (most_specific l os) (layer_name l) o

layer_of_name : (l : Layer) → layer_of (layer_name l) all_layers ≡ some l
unfolding layer_of same
layer_of_name Layer.catalog = refl
layer_of_name Layer.attr = refl
layer_of_name Layer.directory = refl
layer_of_name Layer.definition = refl
layer_of_name Layer.content = refl
layer_of_name Layer.kernel_attr = refl
layer_of_name Layer.kernel_entry = refl
layer_of_name Layer.kernel_negative = refl

name_layer_of :
    (k : Bytes) (ls : List Layer) (m : Layer) → layer_of k ls ≡ some m → layer_name m ≡ k
unfolding layer_of
name_layer_of k [] m h = absurd (ground arith)
name_layer_of k (l ∷ ls) m h = elim (Bool-cases (same (layer_name l) k)) [
  | inl e ↦
      let found : some l ≡ some m = rw e at h in
      ap (λ o. elim o [ none ↦ k | some x ↦ layer_name x ]) (sym found) ∙ same→≡ (layer_name l) k e
  | inr n ↦ name_layer_of k ls m (rw n at h)
]

get-assign :
    (l m : Layer) (d : ℤ) (v : Values)
    → get l (assign m d v) ≡ (if same (layer_name m) (layer_name l) then d else get l v)
unfolding same
get-assign l m d v = ground arith

get-assign_key :
    (l : Layer) (k : Bytes) (d : ℤ) (v : Values)
    → get l (assign_key k d v) ≡ (if same k (layer_name l) then d else get l v)
unfolding assign_key layer_of same
get-assign_key l k d v = elim (Option-cases (layer_of k all_layers)) [
  | inl n ↦ elim (Bool-cases (same k (layer_name l))) [
    | inl e ↦ absurd (ground (arith, layer_of_name l, same→≡ k (layer_name l) e))
    | inr e ↦ rw (n, e) refl
  ]
  | inr (m, h) ↦ rw (h, ← name_layer_of k all_layers m h) (get-assign l m d v)
]

pub get-apply :
    (l : Layer) (o : Overrides) (v : Values)
    → Distinct o
    → get l (apply o v) ≡ lookup_or (get l v) (layer_name l) o
unfolding apply lookup lookup_or
get-apply l [] v d = refl
get-apply l (x ∷ o) v d = elim (Bool-cases (same x.0 (layer_name l))) [
  | inl e ↦ ground (
    arith,
    get-apply l o (assign_key x.0 x.1 v) d.1,
    get-assign_key l x.0 x.1 v,
    same→≡ x.0 (layer_name l) e,
  )
  | inr n ↦ ground (arith, get-apply l o (assign_key x.0 x.1 v) d.1, get-assign_key l x.0 x.1 v)
]

pub nothing-IsGood : IsGood false []
unfolding lookup
nothing-IsGood = record { distinct = tt; catalog_allowed = λ h. refl; positive = tt }

get-apply_type :
    (l : Layer) (surface : Bytes) (t : TypeOverrides) (v : Values) (rest : List Overrides)
    → IsGoodType t
    → get l v ≡ most_specific l rest
    → get l (apply_type surface t v) ≡ most_specific l (type_scopes surface t rest)
unfolding apply_type
get-apply_type l surface t v rest g h =
    let surfaced = lookup_or-Every (IsGood false) [] surface t.surfaces nothing-IsGood g.surfaces in
    let outer =
      get-apply l (lookup_or [] surface t.surfaces) (apply t.values v) surfaced.distinct in
    let inner = get-apply l t.values v g.values.distinct in rw (outer, inner, h) refl

pub no_type-IsGood : IsGoodType no_type_overrides
no_type-IsGood = record { values = nothing-IsGood; surfaces = tt }

pub no_workspace-IsGood : IsGoodWorkspace no_workspace_overrides
no_workspace-IsGood = record {
  values = record { distinct = tt; catalog_allowed = λ h. absurd (ground arith); positive = tt };
  types = tt;
  items = tt;
}

get-default_values : (l : Layer) → get l default_values ≡ default_ttl
get-default_values l = ground arith

pub matched_item-Good :
    (s : Selector) (w : WorkspaceOverrides) (i : ItemOverrides)
    → IsGoodWorkspace w
    → matched_item s w ≡ some i
    → IsGoodItem i
unfolding matched_item
matched_item-Good s w i g h = elim (Option-cases (lookup (to_lower s.item) w.items)) [
  | inl n ↦ absurd (ground arith)
  | inr (j, e) ↦
      let good = lookup-Every IsGoodItem (to_lower s.item) w.items j g.items e in ground arith
]

pub workspace-Good :
    (p : Policy) (s : Selector)
    → IsValid p
    → IsGoodWorkspace (lookup_or no_workspace_overrides (to_lower s.workspace) p.workspaces)
workspace-Good p s g =
    lookup_or-Every IsGoodWorkspace no_workspace_overrides (to_lower s.workspace) p.workspaces
      no_workspace-IsGood g.workspaces

get-resolve_type :
    (p : Policy) (w : WorkspaceOverrides) (kind surface : Bytes) (l : Layer)
    → IsValid p
    → IsGoodWorkspace w
    → get l (resolve_type p w kind surface) ≡ most_specific l (shared_scopes p w kind surface)
unfolding resolve_type
get-resolve_type p w kind surface l g h =
    let t = lookup_or no_type_overrides kind p.types in
    let good = lookup_or-Every IsGoodType no_type_overrides kind p.types no_type-IsGood g.types in
    let good_scoped =
      lookup_or-Every IsGoodType no_type_overrides kind w.types no_type-IsGood h.types in
    let defaults = get-apply l p.defaults default_values g.defaults.distinct in
    let first = rw (get-default_values l) at defaults in
    let types =
      get-apply_type l surface t (apply p.defaults default_values) (p.defaults ∷ []) good first in
    let below = apply_type surface t (apply p.defaults default_values) in
    let values = get-apply l w.values below h.values.distinct in
    get-apply_type l surface (lookup_or no_type_overrides kind w.types) (apply w.values below)
      (w.values ∷ type_scopes surface t (p.defaults ∷ [])) good_scoped (rw types at values)

get-apply_item :
    (o : Option ItemOverrides) (surface : Bytes) (l : Layer) (v : Values) (rest : List Overrides)
    → ((i : ItemOverrides) → o ≡ some i → IsGoodItem i)
    → get l v ≡ most_specific l rest
    → get l (apply_item o surface v) ≡ most_specific l (item_scopes o surface rest)
get-apply_item none surface l v rest g h = h
get-apply_item (some i) surface l v rest g h =
    get-apply_type l surface i.overrides v rest (g i refl) h

pub get-resolve :
    (p : Policy) (s : Selector) (l : Layer)
    → IsValid p
    → get l (resolve (some p) s) ≡ most_specific l (scopes p s)
unfolding resolve
get-resolve p s l g =
    let w = lookup_or no_workspace_overrides (to_lower s.workspace) p.workspaces in
    let good = workspace-Good p s g in
    let kind = selected_kind s (matched_item s w) in
    get-apply_item (matched_item s w) s.surface l (resolve_type p w kind s.surface)
      (shared_scopes p w kind s.surface) (λ i e. matched_item-Good s w i good e)
      (get-resolve_type p w kind s.surface l g good)
