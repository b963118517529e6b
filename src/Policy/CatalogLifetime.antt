-- ===== src/Policy/CatalogLifetime.antt =====
-- internal/cachepolicy/policy.go: the catalog lifetime does not depend on items.
use fabric_workspace_fs.Prelude.{◌≡◌, refl, ap, ◌∙◌, false, Option, none, some, List, [], ◌∷◌}
use fabric_workspace_fs.Bytes.{Bytes, ascii}
use fabric_workspace_fs.Tables.{lookup_or_absent, lookup_or, lookup_or-Every}
use fabric_workspace_fs.Policy.{
  default_ttl, Selector, Overrides, TypeOverrides, ItemOverrides, WorkspaceOverrides, Policy,
  no_type_overrides, no_workspace_overrides, Layer, to_lower, matched_item, selected_kind, resolve,
  catalog_ttl,
}
use fabric_workspace_fs.Policy.Resolution.{
  IsGood, IsGoodType, IsGoodItem, IsGoodWorkspace, IsValid, shared_scopes, type_scopes, item_scopes,
  most_specific, get-resolve, no_type-IsGood, nothing-IsGood, workspace-Good, matched_item-Good,
}

most_specific-without :
    (surface : Bytes) (t : TypeOverrides) (rest : List Overrides)
    → IsGoodType t
    → most_specific Layer.catalog (type_scopes surface t rest) ≡ most_specific Layer.catalog rest
most_specific-without surface t rest g =
    let surfaced = lookup_or-Every (IsGood false) [] surface t.surfaces nothing-IsGood g.surfaces in
    let below = most_specific Layer.catalog rest in
    let values =
      lookup_or_absent below (ascii "catalog") t.values (g.values.catalog_allowed refl) in
    lookup_or_absent (lookup_or below (ascii "catalog") t.values) (ascii "catalog")
      (lookup_or [] surface t.surfaces) (surfaced.catalog_allowed refl)
    ∙ values

most_specific-shared :
    (p : Policy) (w : WorkspaceOverrides) (kind surface : Bytes)
    → IsValid p
    → IsGoodWorkspace w
    → most_specific Layer.catalog (shared_scopes p w kind surface)
      ≡ lookup_or (lookup_or default_ttl (ascii "catalog") p.defaults) (ascii "catalog") w.values
most_specific-shared p w kind surface g h =
    let t = lookup_or no_type_overrides kind p.types in
    let good = lookup_or-Every IsGoodType no_type_overrides kind p.types no_type-IsGood g.types in
    let good_scoped =
      lookup_or-Every IsGoodType no_type_overrides kind w.types no_type-IsGood h.types in
    most_specific-without surface (lookup_or no_type_overrides kind w.types)
      (w.values ∷ type_scopes surface t (p.defaults ∷ [])) good_scoped
    ∙ ap (λ d. lookup_or d (ascii "catalog") w.values)
        (most_specific-without surface t (p.defaults ∷ []) good)

most_specific-item :
    (o : Option ItemOverrides) (surface : Bytes) (rest : List Overrides)
    → ((i : ItemOverrides) → o ≡ some i → IsGoodItem i)
    → most_specific Layer.catalog (item_scopes o surface rest) ≡ most_specific Layer.catalog rest
most_specific-item none surface rest g = refl
most_specific-item (some i) surface rest g =
    most_specific-without surface i.overrides rest (g i refl)

pub catalog-resolve :
    (p : Policy) (s : Selector)
    → IsValid p
    → (resolve (some p) s).catalog ≡ catalog_ttl (some p) s.workspace
unfolding catalog_ttl
catalog-resolve p s g =
    let w = lookup_or no_workspace_overrides (to_lower s.workspace) p.workspaces in
    let good = workspace-Good p s g in
    let kind = selected_kind s (matched_item s w) in
    get-resolve p s Layer.catalog g
    ∙ most_specific-item (matched_item s w) s.surface (shared_scopes p w kind s.surface)
        (λ i e. matched_item-Good s w i good e)
    ∙ most_specific-shared p w kind s.surface g good
