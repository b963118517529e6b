-- ===== src/Overlay/Depth.antt =====
-- internal/overlay/store.go: the rounds of the scan are enough, since a path of more than maxDepth
-- components is refused.
use fabric_workspace_fs.Prelude.{
  ℕ, zero, suc, ◌+◌, ◌≤◌, ◌≡◌, refl, ap, sym, ◌∙◌, inl, inr, Bool, false, List, [], ◌∷◌, ◌++◌,
  arith, if◌then◌else◌, length, Bool-cases,
}
use mathlib.Core.Path.{fun_ext}
use fabric_workspace_fs.Errors.{err, invalid}
use fabric_workspace_fs.Bytes.{Bytes, split, cons_first}
use fabric_workspace_fs.Names.{is_nil}
use fabric_workspace_fs.Overlay.{Location, Os, M}
use fabric_workspace_fs.Overlay.Paths.{resolve, valid_location, slash, max_depth}
use fabric_workspace_fs.Overlay.Access.{read_dir}
use fabric_workspace_fs.Overlay.Lifecycle.{scan_resolved, scan_name, scan_entries}

-- the number of components of a relative path
abbrev parts : Bytes → ℕ
parts relative = if is_nil relative then 0 else length (split b'/' relative)

length-cons_first : (b : ℕ) (ps : List Bytes) → 1 ≤ length ps → length (cons_first b ps) ≡ length ps
unfolding cons_first
length-cons_first b [] h = absurd (omega (arith, h))
length-cons_first b (p ∷ ps) h = refl

pub split_some : (c : ℕ) (s : Bytes) → 1 ≤ length (split c s)
unfolding split
split_some c [] = omega arith
split_some c (b ∷ s) =
    let h = split_some c s in ground (arith, h, length-cons_first b (split c s) h)

length-split : (c : ℕ) (s t : Bytes) → length (split c s) + 1 ≤ length (split c (s ++ (c ∷ t)))
unfolding split
length-split c [] t = ground (arith, split_some c t)
length-split c (b ∷ s) t = ground (
  arith,
  length-split c s t,
  length-cons_first b (split c s) (split_some c s),
  length-cons_first b (split c (s ++ (c ∷ t))) (split_some c (s ++ (c ∷ t))),
)

resolve_deep :
    (l : Location)
    → (is_nil l.relative ≡ false → max_depth + 1 ≤ parts l.relative)
    → resolve l false ≡ err invalid
unfolding resolve valid_location
resolve_deep l h = elim (Bool-cases (is_nil l.relative)) [
  | inl e ↦ ground arith
  | inr e ↦ ground (arith, h e)
]

-- a component more
parts-slash :
    (relative name : Bytes)
    → is_nil (if is_nil relative then name else slash relative name) ≡ false
    → parts relative + 1 ≤ parts (if is_nil relative then name else slash relative name)
parts-slash [] name h = ground (arith, split_some b'/' name)
parts-slash (b ∷ s) name h = ground (arith, length-split b'/' (b ∷ s) name)

module _ (O : Os) where
  -- below a path that is refused, it does not matter how the scan goes on
  scan_name_refused :
      (workspace parent : Bytes) (at_root : Bool) (child : Bytes) (a b : M O.World (Unit {0}))
      → resolve (record { workspace = workspace; parent = parent; relative = child }) false
        ≡ err invalid
      → scan_name O workspace parent at_root child a ≡ scan_name O workspace parent at_root child b
  unfolding scan_name scan_resolved
  scan_name_refused workspace parent at_root child a b e =
      ap (scan_resolved O at_root a) e ∙ sym (ap (scan_resolved O at_root b) e)

  -- a name below a path of the largest depth is refused
  refused_below :
      (workspace parent relative name : Bytes)
      → max_depth ≤ parts relative
      → resolve
          (record {
            workspace = workspace;
            parent = parent;
            relative = if is_nil relative then name else slash relative name;
          })
          false
        ≡ err invalid
  refused_below workspace parent relative name k =
      resolve_deep
        (record {
          workspace = workspace;
          parent = parent;
          relative = if is_nil relative then name else slash relative name;
        })
        (λ e. omega (arith, parts-slash relative name e, k))

  same_rounds :
      (d n : ℕ) (workspace parent relative : Bytes)
      → ((name : Bytes)
          → (let child = if is_nil relative then name else slash relative name in
              scan_name O workspace parent
                (is_nil relative)
                child
                (scan_entries O n workspace parent child)
              ≡ scan_name O workspace parent
                  (is_nil relative)
                  child
                  (scan_entries O d workspace parent child)))
      → scan_entries O (suc n) workspace parent relative
        ≡ scan_entries O (suc d) workspace parent relative
  unfolding scan_entries
  same_rounds d n workspace parent relative names =
      ap
        (λ visit.
          read_dir O
            (if is_nil relative
              then slash workspace parent
              else slash (slash workspace parent) relative)
            tt visit)
        (fun_ext (λ u. fun_ext names))

  same_names :
      (d n : ℕ) (workspace parent relative name : Bytes)
      → d ≤ n
      → max_depth ≤ d + parts relative
      → (let child = if is_nil relative then name else slash relative name in
          scan_name O workspace parent
            (is_nil relative)
            child
            (scan_entries O n workspace parent child)
          ≡ scan_name O workspace parent
              (is_nil relative)
              child
              (scan_entries O d workspace parent child))
  unfolding scan_entries
  same_names zero n workspace parent relative name h k =
      (let child = if is_nil relative then name else slash relative name in
        scan_name_refused workspace parent (is_nil relative) child
          (scan_entries O n workspace parent child) (scan_entries O zero workspace parent child)
          (refused_below workspace parent relative name (omega (arith, k))))
  same_names (suc d) zero workspace parent relative name h k = absurd (omega (arith, h))
  same_names (suc d) (suc n) workspace parent relative name h k =
      let child = if is_nil relative then name else slash relative name in
      elim (Bool-cases (is_nil child)) [
        | inl e ↦
            scan_name_refused workspace parent (is_nil relative) child
              (scan_entries O (suc n) workspace parent child)
              (scan_entries O (suc d) workspace parent child)
              (resolve_deep (record { workspace = workspace; parent = parent; relative = child })
                (λ f. absurd (ground arith)))
        | inr e ↦ ap (scan_name O workspace parent (is_nil relative) child) (
            same_rounds d n workspace parent child (λ below.
              same_names d n workspace parent child below (omega (arith, h))
                (omega (arith, k, parts-slash relative name e))))
      ]

  -- With any number of rounds that is at least 33 the scan of a scope does the same as with 33:
  -- its recursion ends because resolve refuses a path of more than 32 components.
  pub scan_entries-enough :
      (n : ℕ) (workspace parent : Bytes)
      → max_depth ≤ n
      → scan_entries O (suc n) workspace parent []
        ≡ scan_entries O (suc max_depth) workspace parent []
  scan_entries-enough n workspace parent h =
      same_rounds max_depth n workspace parent []
        (λ name. same_names max_depth n workspace parent [] name h (omega arith))
