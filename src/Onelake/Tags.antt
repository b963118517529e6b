-- ===== src/Onelake/Tags.antt =====
-- internal/onelake/path.go: the tags that `entityTag` returns.
use fabric_workspace_fs.Prelude.{
  length-drop, length-take, ℕ, ◌+◌, ◌-◌, ◌≤◌, ◌≡◌, refl, sym, inl, inr, Bool, true, false, [], ◌∷◌,
  ◌++◌, arith, length, drop, ltb, Bool-cases, take-append, length-append,
}
use fabric_workspace_fs.Errors.{ok, ok_injective}
use fabric_workspace_fs.Bytes.{Bytes, same, has_prefix}
use fabric_workspace_fs.Names.{is_nil}
use fabric_workspace_fs.Onelake.{
  quote, last_byte, inner, is_tag_byte, all_tag_bytes, add_quotes, quoted_tag, entity_tag,
}

last_byte-append : (s : Bytes) (b : ℕ) → last_byte (s ++ (b ∷ [])) ≡ b
unfolding last_byte
last_byte-append [] b = refl
last_byte-append (a ∷ []) b = refl
last_byte-append (a ∷ c ∷ s) b = last_byte-append (c ∷ s) b

last_byte-add_quotes : (s : Bytes) → last_byte (add_quotes s) ≡ quote
last_byte-add_quotes s = last_byte-append (quote ∷ s) quote

length-add_quotes : (s : Bytes) → length (add_quotes s) ≡ length s + 2
length-add_quotes s = omega (arith, length-append s (quote ∷ []))

inner-add_quotes : (s : Bytes) → inner (add_quotes s) ≡ s
unfolding inner
inner-add_quotes s =
    let n : length (add_quotes s) - 2 ≡ length s = omega (arith, length-add_quotes s) in
    rw n (take-append s (quote ∷ []))

all_tag_bytes-quoted :
    (quoted : Bool) (s : Bytes) → all_tag_bytes quoted s ≡ true → all_tag_bytes true s ≡ true
unfolding all_tag_bytes is_tag_byte
all_tag_bytes-quoted quoted [] h = refl
all_tag_bytes-quoted quoted (b ∷ s) h = ground (arith, all_tag_bytes-quoted quoted s)

length-inner : (s : Bytes) → ltb (length s) 3 ≡ false → 1 ≤ length (inner s)
unfolding inner
length-inner s h = ground (arith, length-take (length s - 2) (drop 1 s), length-drop 1 s)

length_of_some : (s : Bytes) → is_nil s ≡ false → 1 ≤ length s
length_of_some [] h = absurd (cc h)
length_of_some (b ∷ s) h = omega arith

quoted_tag_lem : (quoted : Bool) (s t : Bytes) → quoted_tag quoted s ≡ ok t → t ≡ add_quotes s
unfolding quoted_tag
quoted_tag_lem quoted s t h = elim (Bool-cases (all_tag_bytes quoted s)) [
  | inl a ↦ sym (ok_injective (rw a at h))
  | inr a ↦ absurd (ground arith)
]

-- every accepted tag is a text in quotes, of allowed bytes
entity_tag_lem :
    (s t : Bytes) (required : Bool)
    → is_nil s ≡ false
    → entity_tag s required ≡ ok t
    → (r : Bytes) × (1 ≤ length r) × (all_tag_bytes true r ≡ true) × (t ≡ add_quotes r)
unfolding entity_tag quoted_tag
entity_tag_lem s t required n h = elim (Bool-cases (has_prefix s (quote ∷ []))) [
  | inl q ↦ (
    inner s,
    length-inner s (ground arith),
    ground arith,
    quoted_tag_lem true (inner s) t (ground arith),
  )
  | inr u ↦ (
    s,
    length_of_some s n,
    all_tag_bytes-quoted false s (ground arith),
    quoted_tag_lem false s t (ground arith),
  )
]

entity_tag-add_quotes :
    (r : Bytes) (required : Bool)
    → 1 ≤ length r
    → all_tag_bytes true r ≡ true
    → entity_tag (add_quotes r) required ≡ ok (add_quotes r)
unfolding entity_tag quoted_tag same has_prefix
entity_tag-add_quotes r required l a =
    ground (arith, last_byte-add_quotes r, length-add_quotes r, inner-add_quotes r)

-- If entityTag accepts a text that is not empty, its result is a text of at least one allowed
-- byte between quotes, and entityTag, applied to that result, returns it unchanged.
pub entity_tag-entity_tag :
    (s t : Bytes) (required again : Bool)
    → is_nil s ≡ false
    → entity_tag s required ≡ ok t
    → (entity_tag t again ≡ ok t)
      × ((r : Bytes) × (1 ≤ length r) × (all_tag_bytes true r ≡ true) × (t ≡ add_quotes r))
entity_tag-entity_tag s t required again n h =
    let (r, l, a, e) = entity_tag_lem s t required n h in
    (rw e (entity_tag-add_quotes r again l a), (r, l, a, e))
