-- ===== src/Overlay/Moving.antt =====
-- internal/overlay/store.go: the new names that a rename gives to the entries below its source.
use fabric_workspace_fs.Prelude.{
  ◌∙◌, ℕ, ◌+◌, ◌-◌, ◌≤◌, ◌≡◌, refl, inl, inr, true, false, Option, none, some, List, [], ◌∷◌, ◌++◌,
  arith, if◌then◌else◌, length, drop, is_some, All, Bool-cases,
}
use fabric_workspace_fs.Bytes.{Bytes, same, same→≡}
use fabric_workspace_fs.Tables.{
  Table, lookup, Distinct, total, lookup-put, put-Distinct, length-remove-le, total-remove-le,
}
use fabric_workspace_fs.Overlay.{Node, File, Store}
use fabric_workspace_fs.Overlay.Paths.{within}
use fabric_workspace_fs.Overlay.Access.{any_open, busy, forget}
use fabric_workspace_fs.Overlay.Naming.{move_entries, staying, renamed}
use fabric_workspace_fs.Overlay.Quota.{IsSound, IsLive, file_size, forget-IsSound}

lookup-staying :
    (source k : Bytes) (t : Table Node)
    → lookup k (staying source t) ≡ (if within k source then none else lookup k t)
unfolding lookup staying
lookup-staying source k [] = ground arith
lookup-staying source k (x ∷ t) = elim (Bool-cases (same x.0 k)) [
  | inl e ↦ ground (arith, lookup-staying source k t, same→≡ x.0 k e)
  | inr e ↦ ground (arith, lookup-staying source k t)
]

staying-Distinct : (source : Bytes) (t : Table Node) → Distinct t → Distinct (staying source t)
unfolding staying
staying-Distinct source [] d = tt
staying-Distinct source (x ∷ t) d = elim (Bool-cases (within x.0 source)) [
  | inl e ↦ rw e (staying-Distinct source t d.1)
  | inr e ↦ rw e (ground (arith, lookup-staying source x.0 t, d.0), staying-Distinct source t d.1)
]

module _ (source target : Bytes) where
  moved-Distinct :
      (t kept : Table Node) → Distinct kept → Distinct (move_entries source target t kept)
  unfolding move_entries
  moved-Distinct [] kept d = d
  moved-Distinct (x ∷ t) kept d = elim (Bool-cases (within x.0 source)) [
    | inl e ↦ rw e (
        put-Distinct (target ++ drop (length source) x.0) x.1 (move_entries source target t kept)
          (moved-Distinct t kept d))
    | inr e ↦ rw e (moved-Distinct t kept d)
  ]

  -- a moved entry may take the place of another, but none is lost otherwise
  moved_kept :
      (k : Bytes) (t kept : Table Node)
      → is_some (lookup k kept) ≡ true
      → is_some (lookup k (move_entries source target t kept)) ≡ true
  unfolding move_entries
  moved_kept k [] kept h = h
  moved_kept k (x ∷ t) kept h = ground (
    arith,
    moved_kept k t kept h,
    lookup-put (target ++ drop (length source) x.0) k x.1 (move_entries source target t kept),
  )

  length-moved :
      (t kept : Table Node)
      → length (move_entries source target t kept) + length (staying source t)
        ≤ length t + length kept
  unfolding move_entries staying
  length-moved [] kept = omega arith
  length-moved (x ∷ t) kept = ground (
    arith,
    length-moved t kept,
    length-remove-le (target ++ drop (length source) x.0) (move_entries source target t kept),
  )

  total-moved :
      (f : Node → ℕ) (t kept : Table Node)
      → total f (move_entries source target t kept) + total f (staying source t)
        ≤ total f t + total f kept
  unfolding move_entries staying total
  total-moved f [] kept = omega arith
  total-moved f (x ∷ t) kept = ground (
    arith,
    total-moved f t kept,
    total-remove-le f (target ++ drop (length source) x.0) (move_entries source target t kept),
  )

  -- a file that is open on none of the entries that move has its entry afterwards
  moved-live :
      (t : Table Node) (fs : List File)
      → any_open (λ f. within f.path source) fs ≡ false
      → All (IsLive t) fs
      → All (IsLive (move_entries source target t (staying source t))) fs
  unfolding any_open
  moved-live t [] free a = tt
  moved-live t (f ∷ fs) free a = (
    elim (Bool-cases f.closed) [
      | inl c ↦ ground arith
      | inr c ↦ ground (
        arith,
        a.0,
        moved_kept f.path t (staying source t)
            (ground (arith, a.0, lookup-staying source f.path t)),
      )
    ],
    moved-live t fs (ground arith) a.1,
  )

-- the counters are at least those of the entries
pub record IsBounded (s : Store) : Type 0 where
  pub lost_entries : ℕ
  pub lost_bytes : ℕ
  pub sound : IsSound lost_entries lost_bytes s

moved-IsBounded :
    (source target : Bytes) (le lb : ℕ) (s : Store)
    → IsSound le lb s
    → busy source s ≡ false
    → IsBounded
        (record s { entries = move_entries source target s.entries (staying source s.entries) })
unfolding busy
moved-IsBounded source target le lb s v free =
    let new = move_entries source target s.entries (staying source s.entries) in
    record {
      lost_entries = le + (length s.entries - length new);
      lost_bytes = lb + (total file_size s.entries - total file_size new);
      sound = record {
        counted =
            omega
              (arith, v.counted, length-moved source target s.entries (staying source s.entries));
        summed = omega (
          arith,
          v.summed,
          total-moved source target file_size s.entries (staying source s.entries),
        );
        small = v.small;
        limited = v.limited;
        room = v.room;
        distinct =
            moved-Distinct source target s.entries (staying source s.entries)
              (staying-Distinct source s.entries v.distinct);
        live = moved-live source target s.entries s.files free v.live;
        single = v.single;
      };
    }

-- the entry that a rename replaces
abbrev pub Replaced : Bytes → Option Node → Store → Type 0
Replaced target none s = Unit
Replaced target (some n) s = lookup target s.entries ≡ some n

busy-forget :
    (path target : Bytes) (n : Node) (s : Store) → busy path (forget target n s) ≡ busy path s
unfolding busy forget
busy-forget path target n s = refl

pub renamed-IsBounded :
    (source target : Bytes) (old : Option Node) (le lb : ℕ) (s : Store)
    → IsSound le lb s
    → Replaced target old s
    → busy source s ≡ false
    → busy target s ≡ false
    → IsBounded (renamed source target old s)
unfolding renamed
renamed-IsBounded source target none le lb s v h free other =
    moved-IsBounded source target le lb s v free
renamed-IsBounded source target (some n) le lb s v h free other =
    moved-IsBounded source target le lb (forget target n s)
      (forget-IsSound le lb target n s v h other) (busy-forget source target n s ∙ free)
