-- ===== src/Names/Bounds.antt =====
-- internal/namespace/names.go and internal/namespace/creation.go: generated names fit into a
-- component of a path, and an accepted creation is named by its canonical name.
use mathlib.Core.List.{append-nil}
use fabric_workspace_fs.Prelude.{
  ℕ, zero, suc, ◌+◌, ◌-◌, ◌≤◌, true, ◌≡◌, sym, ◌∙◌, ap, inl, inr, Option, none, some, [], ◌∷◌, ◌++◌,
  arith, ◌==◌, if◌then◌else◌, length, take, drop, length-append, length-take, take-append-drop,
  Option-cases,
}
use fabric_workspace_fs.Errors.{invalid, Result, ok, err, ◌>>=◌}
use fabric_workspace_fs.Bytes.{same→≡, Bytes, ascii, same, path_unescape}
use fabric_workspace_fs.Names.{is_nil, encode, max_name_bytes}
use fabric_workspace_fs.Names.Roundtrip.{Result-cases}
use fabric_workspace_fs.Names.Labels.{
  content_extension, rune_back, last_index, cut_at, cut_suffix, shorten, unhide, catalog_name,
  notebook_content_file_name, Kind, notebook, lakehouse, environment, Creation, suffix, split_kind,
  any_id, create_base, parse_creation,
}

rune_back-le : (s : Bytes) (n : ℕ) → rune_back s n ≤ n
unfolding rune_back
rune_back-le s zero = omega arith
rune_back-le s (suc n) = ground (arith, rune_back-le s n)

-- a place that is found lies in the text
last_index-le :
    (c i : ℕ) (found : Option ℕ) (s : Bytes) (n k : ℕ)
    → (found ≡ some k → k ≤ n)
    → i + length s ≤ n
    → last_index c i found s ≡ some k
    → k ≤ n
unfolding last_index
last_index-le c i found [] n k h b e = h e
last_index-le c i found (x ∷ s) n k h b e =
    last_index-le c (i + 1) (if x == c then some i else found) s n k (λ q. ground (arith, h))
      (omega arith) e

cut_at-le : (name : Bytes) (limit : ℕ) → cut_at name limit ≤ limit - 17
unfolding cut_at
cut_at-le name limit =
    let end = rune_back name (limit - 17) in
    elim (Option-cases (last_index 37 0 none (take end name))) [
      | inl n ↦ rw (n, cut_at) (rune_back-le name (limit - 17))
      | inr (i, s) ↦
          let inside : i ≤ end =
            last_index-le 37 0 none (take end name) end i (λ q. absurd (ground (arith, q)))
              (omega (arith, length-take end name)) s in
          rw (s, cut_at) (ground (arith, inside, rune_back-le name (limit - 17)))
    ]

length-same : (s t : Bytes) → same s t ≡ true → length s ≡ length t
length-same s t h = ap length (same→≡ s t h)

length-content_extension-le : (extension : Bytes) → length (content_extension extension) ≤ 6
unfolding content_extension
length-content_extension-le extension =
    ground (arith, length-same extension (ascii ".ipynb"), length-same extension (ascii ".py"))

module _ (digest : Bytes → Bytes) (sized : (s : Bytes) → length (digest s) ≡ 16) where
  length-shorten-le :
      (name : Bytes) (limit : ℕ) → 17 ≤ limit → length (shorten digest name limit) ≤ limit
  unfolding shorten
  length-shorten-le name limit h = ground (
    arith,
    sized name,
    cut_at-le name limit,
    length-take (cut_at name limit) name,
    length-append (take (cut_at name limit) name) (45 ∷ digest name),
  )

  -- If the digest has 16 bytes, a name that CatalogName returns has at most 220 bytes.
  pub length-catalog_name-le :
      (label id name : Bytes) → catalog_name digest label id ≡ ok name → length name ≤ 220
  unfolding catalog_name
  length-catalog_name-le label id name h =
      let shown = encode (if is_nil label then ascii "unnamed" else label) in
      let k : (shown >>= (λ encoded. ok (shorten digest (unhide digest encoded) 220))) ≡ ok name =
        ground arith in
      elim (Result-cases shown) [
        | inl (e, s) ↦ absurd (ground (arith, s))
        | inr (encoded, s) ↦ ground (arith, s, length-shorten-le (unhide digest encoded) 220)
      ]

  -- If the digest has 16 bytes, the local name of a Notebook content has at most 255 bytes, for
  -- every display name and extension.
  pub length-notebook_content_file_name-le :
      (display_name extension : Bytes)
      → length (notebook_content_file_name digest display_name extension) ≤ max_name_bytes
  unfolding notebook_content_file_name
  length-notebook_content_file_name-le display_name extension =
      let kept = content_extension extension in
      let short = length-content_extension-le extension in
      let fallback = length-append (ascii "content") kept in
      elim (Result-cases (encode display_name)) [
        | inl (e, s) ↦ ground (arith, s)
        | inr (encoded, s) ↦ ground (
          arith,
          s,
          length-append encoded kept,
          length-append (shorten digest encoded (max_name_bytes - length kept)) kept,
          length-shorten-le encoded (max_name_bytes - length kept),
        )
      ]

cut_suffix_lem :
    (name suffix base : Bytes) → cut_suffix name suffix ≡ some base → name ≡ base ++ suffix
unfolding cut_suffix
cut_suffix_lem name suffix base h = ground (
  arith,
  same→≡ (drop (length name - length suffix) name) suffix,
  take-append-drop (length name - length suffix) name,
)

split_kind_lem : (name : Bytes) → name ≡ (split_kind name).1 ++ suffix (split_kind name).0
unfolding split_kind
split_kind_lem name = elim (Option-cases (cut_suffix name (suffix notebook))) [
  | inr (base, s) ↦ rw (s, split_kind) (cut_suffix_lem name (suffix notebook) base s)
  | inl n ↦ elim (Option-cases (cut_suffix name (suffix lakehouse))) [
    | inr (base, s) ↦ rw (n, s, split_kind) (cut_suffix_lem name (suffix lakehouse) base s)
    | inl m ↦ elim (Option-cases (cut_suffix name (suffix environment))) [
      | inr (base, s) ↦ rw (n, m, s, split_kind) (cut_suffix_lem name (suffix environment) base s)
      | inl l ↦ rw (n, m, l, split_kind) (sym (append-nil name))
    ]
  ]
]

canonical_case :
    (kind : Kind) (base raw : Bytes) (r : Result Bytes) (c : Creation)
    → (r >>= (λ canonical.
        if same canonical base
        then ok (record { display_name = raw; kind = kind })
        else err invalid))
      ≡ ok c
    → (r ≡ ok base) × (c.display_name ≡ raw) × (c.kind ≡ kind)
canonical_case kind base raw (err e) c h = absurd (ground arith)
canonical_case kind base raw (ok name) c h = ground (arith, same→≡ name base)

create_base_lem :
    (digest : Bytes → Bytes) (kind : Kind) (base : Bytes) (c : Creation)
    → create_base digest kind base ≡ ok c
    → (catalog_name digest c.display_name any_id ≡ ok base) × (c.kind ≡ kind)
unfolding create_base
create_base_lem digest kind base c h = elim (Option-cases (path_unescape base)) [
  | inl n ↦ absurd (ground (arith, n))
  | inr (raw, s) ↦
      let k : (catalog_name digest raw any_id >>= (λ canonical.
        if same canonical base
        then ok (record { display_name = raw; kind = kind })
        else err invalid))
          ≡ ok c =
        ground (arith, s) in
      let (named, shown, same_kind) =
        canonical_case kind base raw (catalog_name digest raw any_id) c k in
      (ap (λ d. catalog_name digest d any_id) shown ∙ named, same_kind)
]

parse_creation_base :
    (digest : Bytes → Bytes) (name : Bytes) (c : Creation)
    → parse_creation digest name ≡ ok c
    → create_base digest (split_kind name).0 (split_kind name).1 ≡ ok c
unfolding parse_creation
parse_creation_base digest name c h = ground arith

-- A local name that ParseCreation accepts is the catalog name of the display name that it
-- returns, followed by the suffix of the type that it returns.
pub parse_creation-catalog_name :
    (digest : Bytes → Bytes) (name : Bytes) (c : Creation)
    → parse_creation digest name ≡ ok c
    → (base : Bytes) × (name ≡ base ++ suffix c.kind)
      × (catalog_name digest c.display_name any_id ≡ ok base)
parse_creation-catalog_name digest name c h =
    let (named, kind) =
      create_base_lem digest (split_kind name).0 (split_kind name).1 c
        (parse_creation_base digest name c h) in
    (
      (split_kind name).1,
      split_kind_lem name ∙ ap (λ k. (split_kind name).1 ++ suffix k) (sym kind),
      named,
    )
