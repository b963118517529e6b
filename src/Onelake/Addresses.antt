-- ===== src/Onelake/Addresses.antt =====
-- internal/onelake/path.go: what an accepted address is.
use fabric_workspace_fs.Prelude.{
  ℕ, ◌≡◌, ◌⊎◌, inl, inr, refl, ◌≤◌, Bool, true, false, ◌||◌, none, List, [], ◌∷◌, arith, length,
  ◌==◌, All, Bool-cases,
}
use fabric_workspace_fs.Bytes.{Bytes, ascii, same, same→≡, contains, split, cons_first}
use fabric_workspace_fs.Names.Labels.{valid_id}
use fabric_workspace_fs.Onelake.{
  Address, safe_text, is_part, all_parts, first_part, validate_parts, validate_path, join_parts,
}

join_parts-cons_first :
    (b : ℕ) (ps : List Bytes) (s : Bytes)
    → join_parts ps ≡ b'/' ∷ s
    → join_parts (cons_first b ps) ≡ b'/' ∷ b ∷ s
unfolding join_parts cons_first
join_parts-cons_first b [] s h = absurd (cc h)
join_parts-cons_first b (p ∷ ps) s h = cc h

-- joining the components behind slashes gives the text behind a slash
pub join_parts-split : (s : Bytes) → join_parts (split b'/' s) ≡ b'/' ∷ s
unfolding split join_parts
join_parts-split [] = refl
join_parts-split (b ∷ s) = elim (Bool-cases (b == b'/')) [
  | inl e ↦ rw e (ground (arith, join_parts-split s))
  | inr n ↦ rw n (join_parts-cons_first b (split b'/' s) s (join_parts-split s))
]

all_parts_lem : (ps : List Bytes) → all_parts ps ≡ true → All (λ p. is_part p ≡ true) ps
unfolding all_parts
all_parts_lem [] h = tt
all_parts_lem (p ∷ ps) h = (ground arith, all_parts_lem ps (ground arith))

-- An accepted address: canonical identities, a safe text, and components below a protected root.
pub record IsAddress (write : Bool) (p : Address) : Type 0 where
  pub workspace : valid_id p.workspace ≡ true
  pub item : valid_id p.item ≡ true
  pub safe : safe_text p.relative ≡ true
  pub no_backslash : contains b'\\' p.relative ≡ false
  pub parts : All (λ c. is_part c ≡ true) (split b'/' p.relative)
  pub root :
      (first_part (split b'/' p.relative) ≡ ascii "Files")
      ⊎ (first_part (split b'/' p.relative) ≡ ascii "Tables")
  pub writable :
      (write ≡ false)
      ⊎ ((first_part (split b'/' p.relative) ≡ ascii "Files")
          × (2 ≤ length (split b'/' p.relative)))

validate_parts_lem :
    (ps : List Bytes) (write : Bool)
    → validate_parts ps write ≡ none
    → (all_parts ps ≡ true)
      × ((same (first_part ps) (ascii "Files") || same (first_part ps) (ascii "Tables")) ≡ true)
      × (write ≡ true → same (first_part ps) (ascii "Files") ≡ true)
      × (write ≡ true → (length ps == 1) ≡ false)
unfolding validate_parts
validate_parts_lem ps write h =
    (ground arith, ground arith, (λ w. ground arith), (λ w. ground arith))

validate_path_checks :
    (p : Address) (write : Bool)
    → validate_path p write ≡ none
    → (valid_id p.workspace ≡ true)
      × (valid_id p.item ≡ true)
      × (safe_text p.relative ≡ true)
      × (contains b'\\' p.relative ≡ false)
      × (validate_parts (split b'/' p.relative) write ≡ none)
unfolding validate_path
validate_path_checks p write h =
    (ground arith, ground arith, ground arith, ground arith, ground arith)

root_lem :
    (r : Bytes)
    → (same r (ascii "Files") || same r (ascii "Tables")) ≡ true
    → (r ≡ ascii "Files") ⊎ (r ≡ ascii "Tables")
root_lem r h = elim (Bool-cases (same r (ascii "Files"))) [
  | inl f ↦ inl (same→≡ r (ascii "Files") f)
  | inr f ↦ inr (same→≡ r (ascii "Tables") (ground arith))
]

at_least_two :
    (ps : List Bytes) → first_part ps ≡ ascii "Files" → (length ps == 1) ≡ false → 2 ≤ length ps
at_least_two [] f h = absurd (ground arith)
at_least_two (p ∷ []) f h = absurd (ground arith)
at_least_two (p ∷ q ∷ ps) f h = omega arith

-- If ValidatePath accepts an address, then both identities are canonical UUIDs, the relative path
-- is a safe text without a backslash whose components, joined by slashes, are exactly the path,
-- none of them is empty, "." or "..", the first is Files or Tables, and for a write it is Files
-- with at least one more component.
pub validate_path_lem :
    (p : Address) (write : Bool)
    → validate_path p write ≡ none
    → IsAddress write p × (join_parts (split b'/' p.relative) ≡ b'/' ∷ p.relative)
validate_path_lem p write h =
    let (workspace, item, safe, no_backslash, accepted) = validate_path_checks p write h in
    let parts = split b'/' p.relative in
    let (all, root, below, deep) = validate_parts_lem parts write accepted in
    (
      record {
        workspace = workspace;
        item = item;
        safe = safe;
        no_backslash = no_backslash;
        parts = all_parts_lem parts all;
        root = root_lem (first_part parts) root;
        writable = elim (Bool-cases write) [
          | inr w ↦ inl w
          | inl w ↦
              let files = same→≡ (first_part parts) (ascii "Files") (below w) in
              inr (files, at_least_two parts files (deep w))
        ];
      },
      join_parts-split p.relative,
    )
