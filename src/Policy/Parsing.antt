-- ===== src/Policy/Parsing.antt =====
-- internal/cachepolicy/config.go: what a configuration that is accepted makes of
-- its sections.
use fabric_workspace_fs.Prelude.{
  ◌≡◌, refl, inl, inr, true, not, ◌||◌, Option, [], ◌∷◌, arith, Bool-cases, Option-cases, is_some,
}
use fabric_workspace_fs.Prelude.Int.{ℤ}
use fabric_workspace_fs.Errors.{Result, ok, ◌>>=◌, bind_ok, ok_injective}
use fabric_workspace_fs.Bytes.{Bytes, ascii, same}
use fabric_workspace_fs.Tables.{Table, lookup, remove, Distinct, Every, remove-Distinct}
use fabric_workspace_fs.Policy.{WorkspaceOverrides, Policy, default_policy, to_lower}
use fabric_workspace_fs.Policy.Config.{
  Json, object, parse_values, optional, parse_types, parse_items, parse_workspace,
  parse_workspace_table, parse_workspaces, parse_section, parse_sections, parse,
}
use fabric_workspace_fs.Policy.Resolution.{IsGood, IsGoodType, IsGoodItem, IsGoodWorkspace, IsValid}
use fabric_workspace_fs.Names.Labels.{valid_id}
use fabric_workspace_fs.Policy.Validity.{object-Distinct, parse_values-IsGood}
use fabric_workspace_fs.Policy.Types.{
  object-IsGood, optional-Every, more_of_table, parse_items-Good, parse_types-Good,
}

module _ (parse_duration : Bytes → Option ℤ) where
  parse_workspace-IsGood :
      (fields : Table Json) (w : WorkspaceOverrides)
      → Distinct fields
      → parse_workspace parse_duration fields ≡ ok w
      → IsGoodWorkspace w
  unfolding parse_workspace
  parse_workspace-IsGood fields w u h =
      let untyped = remove (ascii "types") fields in
      let others = remove (ascii "items") untyped in
      let (types, e, f) =
        bind_ok (optional [] (parse_types parse_duration) (lookup (ascii "types") fields))
          (λ types.
            optional [] (parse_items parse_duration) (lookup (ascii "items") untyped) >>= (λ items.
              parse_values parse_duration true [] others
              >>= (λ values. ok (record { values = values; types = types; items = items }))))
          w h in
      let (items, g, k) =
        bind_ok (optional [] (parse_items parse_duration) (lookup (ascii "items") untyped))
          (λ items.
            parse_values parse_duration true [] others
            >>= (λ values. ok (record { values = values; types = types; items = items })))
          w f in
      let (values, l, m) =
        bind_ok (parse_values parse_duration true [] others)
          (λ values. ok (record { values = values; types = types; items = items })) w k in
      let distinct =
        remove-Distinct (ascii "items") untyped (remove-Distinct (ascii "types") fields u) in
      rw (← ok_injective m) (record {
        values = parse_values-IsGood parse_duration true [] others values distinct l;
        types =
            optional-Every parse_duration IsGoodType (parse_types parse_duration)
              (parse_types-Good parse_duration) (lookup (ascii "types") fields) types e;
        items =
            optional-Every parse_duration IsGoodItem (parse_items parse_duration)
              (parse_items-Good parse_duration) (lookup (ascii "items") untyped) items g;
      })

  object-IsGoodWorkspace :
      (j : Json) (w : WorkspaceOverrides)
      → (object j >>= parse_workspace parse_duration) ≡ ok w
      → IsGoodWorkspace w
  object-IsGoodWorkspace j w h =
      let (fields, e, f) = bind_ok (object j) (parse_workspace parse_duration) w h in
      parse_workspace-IsGood fields w (object-Distinct j fields e) f

  parse_workspace_table-Good :
      (result : Table WorkspaceOverrides) (xs : Table Json) (r : Table WorkspaceOverrides)
      → Every IsGoodWorkspace result
      → parse_workspace_table parse_duration result xs ≡ ok r
      → Every IsGoodWorkspace r
  unfolding parse_workspace_table
  parse_workspace_table-Good result [] r g h = rw (← ok_injective h) g
  parse_workspace_table-Good result (x ∷ xs) r g h =
      let id = to_lower x.0 in
      let (w, e, f) =
        more_of_table parse_duration (not (valid_id x.0) || is_some (lookup id result))
          (object x.1 >>= parse_workspace parse_duration)
          (λ w. parse_workspace_table parse_duration ((id, w) ∷ result) xs) r h in
      parse_workspace_table-Good ((id, w) ∷ result) xs r (object-IsGoodWorkspace x.1 w e, g) f

  parse_workspaces-Good :
      (j : Json) (t : Table WorkspaceOverrides)
      → parse_workspaces parse_duration j ≡ ok t
      → Every IsGoodWorkspace t
  unfolding parse_workspaces
  parse_workspaces-Good j t h =
      let (fields, e, f) = bind_ok (object j) (parse_workspace_table parse_duration []) t h in
      parse_workspace_table-Good [] fields t tt f

  -- a section of the policy is replaced by what was read
  read_section :
      {A : Type 0} (P : A → Type 0) (first : Result A) (place : A → Policy) (q : Policy)
      → ((a : A) → first ≡ ok a → P a)
      → ((a : A) → P a → IsValid (place a))
      → (first >>= (λ a. ok (place a))) ≡ ok q
      → IsValid q
  read_section P first place q each valid h =
      let (a, e, f) = bind_ok first (λ a. ok (place a)) q h in
      rw (← ok_injective f) (valid a (each a e))

  parse_section-IsValid :
      (key : Bytes) (j : Json) (p q : Policy)
      → IsValid p
      → parse_section parse_duration key j p ≡ ok q
      → IsValid q
  unfolding parse_section
  parse_section-IsValid key j p q v h = elim (Bool-cases (same key (ascii "defaults"))) [
    | inl d ↦
        read_section (IsGood true) (object j >>= parse_values parse_duration true [])
          (λ o. record p { defaults = o }) q (object-IsGood parse_duration true [] j)
          (λ o g. record { defaults = g; types = v.types; workspaces = v.workspaces }) (rw d at h)
    | inr d ↦ elim (Bool-cases (same key (ascii "types"))) [
      | inl t ↦
          read_section (Every IsGoodType) (parse_types parse_duration j)
            (λ o. record p { types = o }) q (parse_types-Good parse_duration j)
            (λ o g. record { defaults = v.defaults; types = g; workspaces = v.workspaces })
            (rw (d, t) at h)
      | inr t ↦ elim (Bool-cases (same key (ascii "workspaces"))) [
        | inl w ↦
            read_section (Every IsGoodWorkspace) (parse_workspaces parse_duration j)
              (λ o. record p { workspaces = o }) q (parse_workspaces-Good j)
              (λ o g. record { defaults = v.defaults; types = v.types; workspaces = g })
              (rw (d, t, w) at h)
        | inr w ↦ absurd (ground arith)
      ]
    ]
  ]

  parse_sections-IsValid :
      (xs : Table Json) (p q : Policy)
      → IsValid p
      → parse_sections parse_duration xs p ≡ ok q
      → IsValid q
  unfolding parse_sections
  parse_sections-IsValid [] p q v h = rw (← ok_injective h) v
  parse_sections-IsValid (x ∷ xs) p q v h =
      let (r, e, f) =
        bind_ok (parse_section parse_duration x.0 x.1 p) (parse_sections parse_duration xs) q h in
      parse_sections-IsValid xs r q (parse_section-IsValid x.0 x.1 p r v e) f

  default_policy-IsValid : IsValid default_policy
  unfolding lookup
  default_policy-IsValid = record {
    defaults = record { distinct = tt; catalog_allowed = λ h. refl; positive = tt };
    types = tt;
    workspaces = tt;
  }

  -- In a policy that Parse accepts, every object of overrides sets a layer at most once and never
  -- to a negative duration, and only the defaults and the objects of workspaces set the catalog.
  pub parse-IsValid :
      (read : Bytes → Option Json) (input : Bytes) (p : Policy)
      → parse parse_duration read input ≡ ok p
      → IsValid p
  unfolding parse
  parse-IsValid read input p h = elim (Option-cases (read input)) [
    | inl n ↦ absurd (ground arith)
    | inr (j, e) ↦
        let k : (object j >>= (λ fields. parse_sections parse_duration fields default_policy))
            ≡ ok p =
          ground arith in
        let (fields, f, g) =
          bind_ok (object j) (λ fields. parse_sections parse_duration fields default_policy) p k in
        parse_sections-IsValid fields default_policy p default_policy-IsValid g
  ]
