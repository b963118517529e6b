-- ===== src/Policy/Validity.antt =====
-- internal/cachepolicy/config.go: what a configuration that is accepted has.
use fabric_workspace_fs.Prelude.{
  ◌≡◌, refl, ap, sym, ◌∙◌, inl, inr, Bool, true, false, Option, none, some, [], ◌∷◌, arith,
  Bool-cases, Option-cases,
}
use fabric_workspace_fs.Prelude.Int.{ℤ, is_neg}
use fabric_workspace_fs.Errors.{ok, ◌>>=◌, bind_ok, ok_injective}
use fabric_workspace_fs.Bytes.{Bytes, ascii, same}
use fabric_workspace_fs.Tables.{Table, lookup, Distinct, Every}
use fabric_workspace_fs.Policy.{Overrides}
use fabric_workspace_fs.Policy.Config.{
  Json, Members, finish, torn, member, null, text, object_of, other, read_members, object,
  allowed_value, with_value, parse_value, parse_values,
}
use fabric_workspace_fs.Policy.Resolution.{IsGood}

pub read_members-Distinct :
    (t : Table Json) (m : Members) (r : Table Json)
    → Distinct t
    → read_members t m ≡ ok r
    → Distinct r
unfolding read_members
read_members-Distinct t finish r d h = rw (← ok_injective h) d
read_members-Distinct t torn r d h = absurd (cc h)
read_members-Distinct t (member k v rest) r d h = elim (Option-cases (lookup k t)) [
  | inl n ↦ read_members-Distinct ((k, v) ∷ t) rest r (n, d) (rw n at h)
  | inr (a, e) ↦ absurd (ground arith)
]

pub object-Distinct : (j : Json) (r : Table Json) → object j ≡ ok r → Distinct r
unfolding object
object-Distinct (object_of m) r h = read_members-Distinct [] m r tt h
object-Distinct null r h = absurd (cc h)
object-Distinct (text s) r h = absurd (cc h)
object-Distinct other r h = absurd (cc h)

with_value-Distinct :
    (name : Bytes) (d : Option ℤ) (r : Overrides)
    → lookup name r ≡ none
    → Distinct r
    → Distinct (with_value name d r)
with_value-Distinct name none r n u = u
with_value-Distinct name (some d) r n u = (n, u)

with_value-Positive :
    (name : Bytes) (d : Option ℤ) (r : Overrides)
    → ((v : ℤ) → d ≡ some v → is_neg v ≡ false)
    → Every (λ v. is_neg v ≡ false) r
    → Every (λ v. is_neg v ≡ false) (with_value name d r)
with_value-Positive name none r n e = e
with_value-Positive name (some d) r n e = (n d refl, e)

not_catalog :
    (kind name : Bytes) → allowed_value false kind name ≡ true → same name (ascii "catalog") ≡ false
unfolding allowed_value
not_catalog kind name h = ground arith

module _ (parse_duration : Bytes → Option ℤ) where
  parse_value-Positive :
      (j : Json) (d : ℤ) → parse_value parse_duration j ≡ ok (some d) → is_neg d ≡ false
  unfolding parse_value
  parse_value-Positive null d h = absurd (ground arith)
  parse_value-Positive (text s) d h = ground arith
  parse_value-Positive (object_of m) d h = absurd (ground arith)
  parse_value-Positive other d h = absurd (ground arith)

  lookup-with_value :
      (k name : Bytes) (d : Option ℤ) (o : Overrides)
      → lookup k o ≡ none
      → same name k ≡ false
      → lookup k (with_value name d o) ≡ none
  unfolding lookup
  lookup-with_value k name none o h n = h
  lookup-with_value k name (some d) o h n = rw n h

  -- one member of an object of values
  parse_values_lem :
      (c : Bool) (kind : Bytes) (x : Bytes × Json) (xs : Table Json) (o : Overrides)
      → parse_values parse_duration c kind (x ∷ xs) ≡ ok o
      → (allowed_value c kind x.0 ≡ true)
        × ((d : Option ℤ) × (r : Overrides) × (parse_value parse_duration x.1 ≡ ok d)
            × (parse_values parse_duration c kind xs ≡ ok r)
            × (o ≡ with_value x.0 d r))
  unfolding parse_values
  parse_values_lem c kind x xs o h = elim (Bool-cases (allowed_value c kind x.0)) [
    | inr n ↦ absurd (ground arith)
    | inl a ↦
        let rest = parse_values parse_duration c kind xs in
        let (d, e, h2) =
          bind_ok (parse_value parse_duration x.1) (λ d. rest >>= (λ r. ok (with_value x.0 d r))) o
            (rw a at h) in
        let (r, f, h3) = bind_ok rest (λ r. ok (with_value x.0 d r)) o h2 in
        (a, (d, r, e, f, sym (ok_injective h3)))
  ]

  -- what is not a member of the object has no value
  parse_values-absent :
      (c : Bool) (kind k : Bytes) (xs : Table Json) (o : Overrides)
      → parse_values parse_duration c kind xs ≡ ok o
      → lookup k xs ≡ none
      → lookup k o ≡ none
  unfolding lookup parse_values
  parse_values-absent c kind k [] o h n = rw (← ok_injective h) refl
  parse_values-absent c kind k (x ∷ xs) o h n = elim (Bool-cases (same x.0 k)) [
    | inl s ↦ absurd (ground arith)
    | inr s ↦
        let (a, (d, r, e, f, g)) = parse_values_lem c kind x xs o h in
        rw g (lookup-with_value k x.0 d r (parse_values-absent c kind k xs r f (rw s at n)) s)
  ]

  parse_values-Distinct :
      (c : Bool) (kind : Bytes) (xs : Table Json) (o : Overrides)
      → Distinct xs
      → parse_values parse_duration c kind xs ≡ ok o
      → Distinct o
  unfolding parse_values
  parse_values-Distinct c kind [] o u h = rw (← ok_injective h) tt
  parse_values-Distinct c kind (x ∷ xs) o u h =
      let (a, (d, r, e, f, g)) = parse_values_lem c kind x xs o h in
      rw g (
        with_value-Distinct x.0 d r (parse_values-absent c kind x.0 xs r f u.0)
          (parse_values-Distinct c kind xs r u.1 f))

  parse_values-Positive :
      (c : Bool) (kind : Bytes) (xs : Table Json) (o : Overrides)
      → parse_values parse_duration c kind xs ≡ ok o
      → Every (λ d. is_neg d ≡ false) o
  unfolding parse_values
  parse_values-Positive c kind [] o h = rw (← ok_injective h) tt
  parse_values-Positive c kind (x ∷ xs) o h =
      let (a, (d, r, e, f, g)) = parse_values_lem c kind x xs o h in
      rw g (
        with_value-Positive x.0 d r (λ v k. parse_value-Positive x.1 v (e ∙ ap ok k))
          (parse_values-Positive c kind xs r f))

  -- where the catalog may not stand, it is refused
  parse_values-catalog :
      (kind : Bytes) (xs : Table Json) (o : Overrides)
      → parse_values parse_duration false kind xs ≡ ok o
      → lookup (ascii "catalog") o ≡ none
  unfolding parse_values lookup
  parse_values-catalog kind [] o h = rw (← ok_injective h) refl
  parse_values-catalog kind (x ∷ xs) o h =
      let (a, (d, r, e, f, g)) = parse_values_lem false kind x xs o h in
      rw g (
        lookup-with_value (ascii "catalog") x.0 d r (parse_values-catalog kind xs r f)
          (not_catalog kind x.0 a))

  pub parse_values-IsGood :
      (c : Bool) (kind : Bytes) (xs : Table Json) (o : Overrides)
      → Distinct xs
      → parse_values parse_duration c kind xs ≡ ok o
      → IsGood c o
  parse_values-IsGood c kind xs o u h = record {
    distinct = parse_values-Distinct c kind xs o u h;
    catalog_allowed = λ k. parse_values-catalog kind xs o (rw k at h);
    positive = parse_values-Positive c kind xs o h;
  }
