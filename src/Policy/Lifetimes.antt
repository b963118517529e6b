-- ===== src/Policy/Lifetimes.antt =====
-- internal/cachepolicy: the lifetimes that an accepted configuration, or a uniform policy, gives.
use fabric_workspace_fs.Prelude.{
  ◌≡◌, refl, ap, ◌∙◌, false, Option, none, some, List, [], ◌∷◌, arith, All,
}
use fabric_workspace_fs.Prelude.Int.{ℤ, pos, negsuc, is_neg}
use fabric_workspace_fs.Errors.{ok, ok_injective}
use fabric_workspace_fs.Bytes.{Bytes, same}
use fabric_workspace_fs.Tables.{lookup, lookup_or, Every, lookup_or-Every}
use fabric_workspace_fs.Policy.{
  layer_of, assign_key, apply, apply_type, resolve_type, Selector, Overrides, TypeOverrides,
  ItemOverrides, WorkspaceOverrides, Policy, no_type_overrides, no_workspace_overrides, Layer,
  layer_name, uniform, to_lower, matched_item, selected_kind, resolve, catalog_ttl,
}
use fabric_workspace_fs.Policy.Config.{Json, parse}
use fabric_workspace_fs.Policy.Resolution.{
  matched_item-Good, nothing-IsGood, workspace-Good, no_type-IsGood, get, scopes, most_specific,
  get-resolve, IsGood, IsGoodType, IsGoodItem, IsGoodWorkspace, IsValid, item_scopes, shared_scopes,
  type_scopes,
}
use fabric_workspace_fs.Policy.CatalogLifetime.{catalog-resolve}
use fabric_workspace_fs.Policy.Parsing.{parse-IsValid}

abbrev Positive : Overrides → Type 0
Positive o = Every (λ d. is_neg d ≡ false) o

most_specific-Positive :
    (l : Layer) (os : List Overrides) → All Positive os → is_neg (most_specific l os) ≡ false
most_specific-Positive l [] a = refl
most_specific-Positive l (o ∷ os) a =
    lookup_or-Every (λ d. is_neg d ≡ false) (most_specific l os) (layer_name l) o
      (most_specific-Positive l os a.1) a.0

type_scopes-Positive :
    (surface : Bytes) (t : TypeOverrides) (rest : List Overrides)
    → IsGoodType t
    → All Positive rest
    → All Positive (type_scopes surface t rest)
type_scopes-Positive surface t rest g a = (
  (lookup_or-Every (IsGood false) [] surface t.surfaces nothing-IsGood g.surfaces).positive,
  (g.values.positive, a),
)

item_scopes-Positive :
    (o : Option ItemOverrides) (surface : Bytes) (rest : List Overrides)
    → ((i : ItemOverrides) → o ≡ some i → IsGoodItem i)
    → All Positive rest
    → All Positive (item_scopes o surface rest)
item_scopes-Positive none surface rest g a = a
item_scopes-Positive (some i) surface rest g a =
    type_scopes-Positive surface i.overrides rest (g i refl) a

shared_scopes-Positive :
    (p : Policy) (w : WorkspaceOverrides) (kind surface : Bytes)
    → IsValid p
    → IsGoodWorkspace w
    → All Positive (shared_scopes p w kind surface)
shared_scopes-Positive p w kind surface g h =
    let t = lookup_or no_type_overrides kind p.types in
    let good = lookup_or-Every IsGoodType no_type_overrides kind p.types no_type-IsGood g.types in
    let good_scoped =
      lookup_or-Every IsGoodType no_type_overrides kind w.types no_type-IsGood h.types in
    type_scopes-Positive surface (lookup_or no_type_overrides kind w.types)
      (w.values ∷ type_scopes surface t (p.defaults ∷ [])) good_scoped
      (
        h.values.positive,
        type_scopes-Positive surface t (p.defaults ∷ []) good (g.defaults.positive, tt),
      )

module _ (parse_duration : Bytes → Option ℤ) (read : Bytes → Option Json) where
  -- If Parse accepts an input, then for every selector and every layer Resolve gives the value of
  -- the most specific object of overrides that sets the layer (item surface, item, workspace type
  -- surface, workspace type, workspace, type surface, type, defaults, in this order), or two
  -- minutes if none does, and that value is not negative.
  pub resolve-parse :
      (input : Bytes) (p : Policy) (s : Selector) (l : Layer)
      → parse parse_duration read input ≡ ok p
      → (get l (resolve (some p) s) ≡ most_specific l (scopes p s))
        × (is_neg (get l (resolve (some p) s)) ≡ false)
  resolve-parse input p s l h =
      let g = parse-IsValid parse_duration read input p h in
      let w = lookup_or no_workspace_overrides (to_lower s.workspace) p.workspaces in
      let good = workspace-Good p s g in
      let kind = selected_kind s (matched_item s w) in
      let positive =
        item_scopes-Positive (matched_item s w) s.surface (shared_scopes p w kind s.surface)
          (λ i e. matched_item-Good s w i good e)
          (shared_scopes-Positive p w kind s.surface g good) in
      let selected = get-resolve p s l g in
      (selected, ap is_neg selected ∙ most_specific-Positive l (scopes p s) positive)

  -- If Parse accepts an input, then for every selector the catalog lifetime that Resolve gives is
  -- the one that CatalogTTL gives for the workspace of the selector, so no type, surface or item
  -- changes it.
  pub catalog-parse :
      (input : Bytes) (p : Policy) (s : Selector)
      → parse parse_duration read input ≡ ok p
      → (resolve (some p) s).catalog ≡ catalog_ttl (some p) s.workspace
  catalog-parse input p s h = catalog-resolve p s (parse-IsValid parse_duration read input p h)

-- If Uniform accepts a lifetime, then it is not negative and Resolve gives exactly it for every
-- selector and every layer.
pub resolve-uniform :
    (ttl : ℤ) (p : Policy) (s : Selector) (l : Layer)
    → uniform ttl ≡ ok p
    → (get l (resolve (some p) s) ≡ ttl) × (is_neg ttl ≡ false)
unfolding uniform resolve resolve_type apply_type apply assign_key layer_of same lookup lookup_or
    matched_item selected_kind
resolve-uniform (pos n) p s l h = rw (← ok_injective h) (ground arith, refl)
resolve-uniform (negsuc n) p s l h = absurd (ground arith)
