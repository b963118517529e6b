-- ===== src/Overlay/Naming.antt =====
-- internal/overlay/store.go: what a rename does to the names of the entries, and the order of a listing.
use fabric_workspace_fs.Prelude.{
  ℕ, ◌+◌, ◌-◌, Bool, true, false, ◌&&◌, ◌||◌, Option, none, some, List, [], ◌∷◌, ◌++◌, ltb, ◌==◌,
  if◌then◌else◌, length, drop,
}
use fabric_workspace_fs.Bytes.{Bytes}
use fabric_workspace_fs.Tables.{put, Table}
use fabric_workspace_fs.Overlay.{Description, Node, Store}
use fabric_workspace_fs.Overlay.Paths.{within, max_depth}
use fabric_workspace_fs.Overlay.Access.{forget}

-- the entries below a path, under their new names, put into the others
unfoldable pub move_entries : Bytes → Bytes → Table Node → Table Node → Table Node
move_entries source target [] kept = kept
move_entries source target (x ∷ xs) kept =
    let rest = move_entries source target xs kept in
    if within x.0 source then put (target ++ drop (length source) x.0) x.1 rest else rest

-- the entries that do not move
unfoldable pub staying : Bytes → Table Node → Table Node
staying source [] = []
staying source (x ∷ xs) =
    let rest = staying source xs in if within x.0 source then rest else x ∷ rest

unfoldable pub count_byte : ℕ → Bytes → ℕ
count_byte c [] = 0
count_byte c (b ∷ s) = (if b == c then 1 else 0) + count_byte c s

-- a new name beyond the depth limit
unfoldable pub too_deep : Bytes → Bytes → Table Node → Bool
too_deep source target [] = false
too_deep source target (x ∷ xs) =
    within x.0 source && ltb max_depth (count_byte b'/' (target ++ drop (length source) x.0) - 1)
    || too_deep source target xs

-- the changes of the maps at the end of a rename
unfoldable pub renamed : Bytes → Bytes → Option Node → Store → Store
renamed source target old s =
    let t : Store = elim old [ none ↦ s | some n ↦ forget target n s ] in
    record t { entries = move_entries source target t.entries (staying source t.entries) }

-- insertion by path, as `slices.SortFunc` orders the descriptions
unfoldable pub byte_less : Bytes → Bytes → Bool
byte_less s [] = false
byte_less [] (b ∷ t) = true
byte_less (a ∷ s) (b ∷ t) = ltb a b || a == b && byte_less s t

unfoldable pub insert_sorted : Description → List Description → List Description
insert_sorted d [] = d ∷ []
insert_sorted d (x ∷ xs) =
    let rest = insert_sorted d xs in if byte_less x.path d.path then x ∷ rest else d ∷ x ∷ xs

unfoldable pub sorted : List Description → List Description
sorted [] = []
sorted (d ∷ ds) = insert_sorted d (sorted ds)
