-- ===== src/Resources/Roots.antt =====
-- internal/resources/backend.go: what accepted roots are.
use fabric_workspace_fs.Prelude.{
  ◌≡◌, inl, inr, true, false, none, List, [], ◌∷◌, arith, Bool-cases, All,
}
use fabric_workspace_fs.Bytes.{Bytes, ascii, same, same→≡}
use fabric_workspace_fs.Resources.{
  Target, Root, notebook, environment, validate_target, same_target, allowed_root, seen,
  validate_roots_loop, validate_roots,
}

-- what a root of an owner may be
pub data IsRootOf (owner : Target) (r : Root) : Type 0 where
  builtin : r.name ≡ ascii "builtin" → owner.kind ≡ notebook → r.target ≡ owner → IsRootOf owner r
  env :
      r.name ≡ ascii "env" → owner.kind ≡ notebook → r.target.kind ≡ environment → IsRootOf owner r
  resources :
      r.name ≡ ascii "resources" → owner.kind ≡ environment → r.target ≡ owner → IsRootOf owner r

same_target→≡ : (a b : Target) → same_target a b ≡ true → a ≡ b
unfolding same_target
same_target→≡ a b h =
    let w = same→≡ a.workspace_id b.workspace_id (ground arith) in
    let i = same→≡ a.item_id b.item_id (ground arith) in
    let k = same→≡ a.kind b.kind (ground arith) in cc (w, i, k)

allowed_root_lem : (owner : Target) (r : Root) → allowed_root owner r ≡ true → IsRootOf owner r
unfolding allowed_root
allowed_root_lem owner r h = elim (Bool-cases (same r.name (ascii "builtin"))) [
  | inl b ↦
      builtin (same→≡ r.name (ascii "builtin") b) (same→≡ owner.kind notebook (ground arith))
        (same_target→≡ r.target owner (ground arith))
  | inr b ↦ elim (Bool-cases (same r.name (ascii "env"))) [
    | inl e ↦
        env (same→≡ r.name (ascii "env") e) (same→≡ owner.kind notebook (ground arith))
          (same→≡ r.target.kind environment (ground arith))
    | inr e ↦ elim (Bool-cases (same r.name (ascii "resources"))) [
      | inl s ↦
          resources (same→≡ r.name (ascii "resources") s)
            (same→≡ owner.kind environment (ground arith))
            (same_target→≡ r.target owner (ground arith))
      | inr s ↦ absurd (ground arith)
    ]
  ]
]

-- the names of the roots, and none of them twice or among those before
abbrev pub AreNew : List Bytes → List Root → Type 0
AreNew names [] = Unit
AreNew names (r ∷ rs) = (seen r.name names ≡ false) × AreNew (r.name ∷ names) rs

abbrev pub IsAccepted : Target → Root → Type 0
IsAccepted owner r = (validate_target r.target ≡ none) × IsRootOf owner r

validate_roots_loop_lem :
    (owner : Target) (names : List Bytes) (rs : List Root)
    → validate_roots_loop owner names rs ≡ none
    → All (IsAccepted owner) rs × AreNew names rs
unfolding validate_roots_loop
validate_roots_loop_lem owner names [] h = (tt, tt)
validate_roots_loop_lem owner names (r ∷ rs) h =
    let target : validate_target r.target ≡ none = ground arith in
    let allowed : allowed_root owner r ≡ true = ground arith in
    let fresh : seen r.name names ≡ false = ground arith in
    let rest : validate_roots_loop owner (r.name ∷ names) rs ≡ none = ground arith in
    let (all, new) = validate_roots_loop_lem owner (r.name ∷ names) rs rest in
    (((target, allowed_root_lem owner r allowed), all), (fresh, new))

-- If ValidateRoots accepts the roots of an owner, then no name occurs twice, the target of every
-- root is valid, and every root is builtin with the owning Notebook, env of a Notebook with an
-- Environment, or resources with the owning Environment.
pub validate_roots_lem :
    (owner : Target) (rs : List Root)
    → validate_roots owner rs ≡ none
    → All (IsAccepted owner) rs × AreNew [] rs
unfolding validate_roots
validate_roots_lem owner rs h = validate_roots_loop_lem owner [] rs (ground arith)
