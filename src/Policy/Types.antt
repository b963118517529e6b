-- ===== src/Policy/Types.antt =====
-- internal/cachepolicy/config.go: what a configuration that is accepted makes of
-- its types, items and workspaces.
use fabric_workspace_fs.Prelude.{
  ◌≡◌, sym, Bool, true, false, not, ◌||◌, Option, none, some, [], ◌∷◌, if◌then◌else◌, is_some,
}
use fabric_workspace_fs.Prelude.Int.{ℤ}
use fabric_workspace_fs.Errors.{Result, ok, err, invalid, ◌>>=◌, bind_ok, ok_injective}
use fabric_workspace_fs.Bytes.{Bytes, ascii}
use fabric_workspace_fs.Tables.{Table, lookup, remove, Distinct, Every, remove-Distinct}
use fabric_workspace_fs.Policy.{Overrides, TypeOverrides, ItemOverrides, to_lower}
use fabric_workspace_fs.Policy.Config.{
  valid_surface, valid_type, Json, object, parse_values, parse_surfaces, optional,
  parse_type_fields, parse_type_table, parse_types, parse_item, parse_item_table, parse_items,
  item_kind,
}
use fabric_workspace_fs.Policy.Resolution.{IsGood, IsGoodType, IsGoodItem}
use fabric_workspace_fs.Names.Labels.{valid_id}
use fabric_workspace_fs.Policy.Config.{valid_surface, valid_type}
use fabric_workspace_fs.Policy.Validity.{object-Distinct, parse_values-IsGood}

module _ (parse_duration : Bytes → Option ℤ) where
  pub object-IsGood :
      (c : Bool) (kind : Bytes) (j : Json) (o : Overrides)
      → (object j >>= parse_values parse_duration c kind) ≡ ok o
      → IsGood c o
  object-IsGood c kind j o h =
      let (t, e, f) = bind_ok (object j) (parse_values parse_duration c kind) o h in
      parse_values-IsGood parse_duration c kind t o (object-Distinct j t e) f

  -- a loop that reads a value for each member and puts it before those of the rest
  rest_of_table :
      {A : Type 0} (allowed : Bool) (first : Result A) (name : Bytes) (rest : Result (Table A))
      (r : Table A)
      → (if allowed then first >>= (λ a. rest >>= (λ t. ok ((name, a) ∷ t))) else err invalid)
        ≡ ok r
      → (a : A) × (t : Table A) × (first ≡ ok a) × (rest ≡ ok t) × (r ≡ (name, a) ∷ t)
  rest_of_table false first name rest r h = absurd (cc h)
  rest_of_table true first name rest r h =
      let (a, e, f) = bind_ok first (λ a. rest >>= (λ t. ok ((name, a) ∷ t))) r h in
      let (t, g, k) = bind_ok rest (λ t. ok ((name, a) ∷ t)) r f in
      (a, t, e, g, sym (ok_injective k))

  parse_surfaces-Good :
      (kind : Bytes) (xs : Table Json) (r : Table Overrides)
      → parse_surfaces parse_duration kind xs ≡ ok r
      → Every (IsGood false) r
  unfolding parse_surfaces
  parse_surfaces-Good kind [] r h = rw (← ok_injective h) tt
  parse_surfaces-Good kind (x ∷ xs) r h =
      let (o, t, e, f, g) =
        rest_of_table (valid_surface kind x.0)
          (object x.1 >>= parse_values parse_duration false kind) x.0
          (parse_surfaces parse_duration kind xs) r h in
      rw g (object-IsGood false kind x.1 o e, parse_surfaces-Good kind xs t f)

  pub optional-Every :
      {A : Type 0} (P : A → Type 0) (read : Json → Result (Table A))
      → ((j : Json) (t : Table A) → read j ≡ ok t → Every P t)
      → (o : Option Json) (t : Table A) → optional [] read o ≡ ok t
      → Every P t
  optional-Every P read each none t h = rw (← ok_injective h) tt
  optional-Every P read each (some j) t h = each j t h

  surfaces-Good :
      (kind : Bytes) (j : Json) (t : Table Overrides)
      → (object j >>= parse_surfaces parse_duration kind) ≡ ok t
      → Every (IsGood false) t
  surfaces-Good kind j t h =
      let (fields, e, f) = bind_ok (object j) (parse_surfaces parse_duration kind) t h in
      parse_surfaces-Good kind fields t f

  parse_type_fields-IsGoodType :
      (kind : Bytes) (fields : Table Json) (t : TypeOverrides)
      → Distinct fields
      → parse_type_fields parse_duration kind fields ≡ ok t
      → IsGoodType t
  unfolding parse_type_fields
  parse_type_fields-IsGoodType kind fields t u h =
      let read = λ (j : Json). object j >>= parse_surfaces parse_duration kind in
      let others = remove (ascii "surfaces") fields in
      let (s, e, f) =
        bind_ok (optional [] read (lookup (ascii "surfaces") fields))
          (λ s.
            parse_values parse_duration false kind others
            >>= (λ v. ok (record { values = v; surfaces = s })))
          t h in
      let (v, g, k) =
        bind_ok (parse_values parse_duration false kind others)
          (λ v. ok (record { values = v; surfaces = s })) t f in
      rw (← ok_injective k) (record {
        values =
            parse_values-IsGood parse_duration false kind others v
              (remove-Distinct (ascii "surfaces") fields u) g;
        surfaces =
            optional-Every (IsGood false) read (surfaces-Good kind)
              (lookup (ascii "surfaces") fields) s e;
      })

  object-IsGoodType :
      (kind : Bytes) (j : Json) (t : TypeOverrides)
      → (object j >>= parse_type_fields parse_duration kind) ≡ ok t
      → IsGoodType t
  object-IsGoodType kind j t h =
      let (fields, e, f) = bind_ok (object j) (parse_type_fields parse_duration kind) t h in
      parse_type_fields-IsGoodType kind fields t (object-Distinct j fields e) f

  parse_type_table-Good :
      (xs : Table Json) (r : Table TypeOverrides)
      → parse_type_table parse_duration xs ≡ ok r
      → Every IsGoodType r
  unfolding parse_type_table
  parse_type_table-Good [] r h = rw (← ok_injective h) tt
  parse_type_table-Good (x ∷ xs) r h =
      let (o, t, e, f, g) =
        rest_of_table (valid_type x.0) (object x.1 >>= parse_type_fields parse_duration x.0) x.0
          (parse_type_table parse_duration xs) r h in
      rw g (object-IsGoodType x.0 x.1 o e, parse_type_table-Good xs t f)

  pub parse_types-Good :
      (j : Json) (t : Table TypeOverrides)
      → parse_types parse_duration j ≡ ok t
      → Every IsGoodType t
  unfolding parse_types
  parse_types-Good j t h =
      let (fields, e, f) = bind_ok (object j) (parse_type_table parse_duration) t h in
      parse_type_table-Good fields t f

  parse_item-IsGoodItem :
      (fields : Table Json) (i : ItemOverrides)
      → Distinct fields
      → parse_item parse_duration fields ≡ ok i
      → IsGoodItem i
  unfolding parse_item
  parse_item-IsGoodItem fields i u h =
      let others = remove (ascii "type") fields in
      let (kind, e, f) =
        bind_ok (item_kind (lookup (ascii "type") fields))
          (λ kind.
            parse_type_fields parse_duration kind others
            >>= (λ t. ok (record { kind = kind; overrides = t })))
          i h in
      let (t, g, k) =
        bind_ok (parse_type_fields parse_duration kind others)
          (λ t. ok (record { kind = kind; overrides = t })) i f in
      rw (← ok_injective k)
        (parse_type_fields-IsGoodType kind others t (remove-Distinct (ascii "type") fields u) g)

  -- a loop that refuses or goes on with one more value in front of the result
  pub more_of_table :
      {A : Type 0} (refused : Bool) (first : Result A) (more : A → Result (Table A)) (r : Table A)
      → (if refused then err invalid else first >>= more) ≡ ok r
      → (a : A) × (first ≡ ok a) × (more a ≡ ok r)
  more_of_table true first more r h = absurd (cc h)
  more_of_table false first more r h = bind_ok first more r h

  object-IsGoodItem :
      (j : Json) (i : ItemOverrides)
      → (object j >>= parse_item parse_duration) ≡ ok i
      → IsGoodItem i
  object-IsGoodItem j i h =
      let (fields, e, f) = bind_ok (object j) (parse_item parse_duration) i h in
      parse_item-IsGoodItem fields i (object-Distinct j fields e) f

  parse_item_table-Good :
      (result : Table ItemOverrides) (xs : Table Json) (r : Table ItemOverrides)
      → Every IsGoodItem result
      → parse_item_table parse_duration result xs ≡ ok r
      → Every IsGoodItem r
  unfolding parse_item_table
  parse_item_table-Good result [] r g h = rw (← ok_injective h) g
  parse_item_table-Good result (x ∷ xs) r g h =
      let id = to_lower x.0 in
      let (i, e, f) =
        more_of_table (not (valid_id x.0) || is_some (lookup id result))
          (object x.1 >>= parse_item parse_duration)
          (λ i. parse_item_table parse_duration ((id, i) ∷ result) xs) r h in
      parse_item_table-Good ((id, i) ∷ result) xs r (object-IsGoodItem x.1 i e, g) f

  pub parse_items-Good :
      (j : Json) (t : Table ItemOverrides)
      → parse_items parse_duration j ≡ ok t
      → Every IsGoodItem t
  unfolding parse_items
  parse_items-Good j t h =
      let (fields, e, f) = bind_ok (object j) (parse_item_table parse_duration []) t h in
      parse_item_table-Good [] fields t tt f
