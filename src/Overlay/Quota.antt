-- ===== src/Overlay/Quota.antt =====
-- internal/overlay/store.go: the accounting of a store, and how its helpers keep it.
use fabric_workspace_fs.Prelude.{
  ℕ, ◌+◌, ◌-◌, ◌≤◌, ◌≡◌, ◌⊎◌, inl, inr, true, false, not, ◌&&◌, ◌||◌, none, some, List, [], ◌∷◌,
  arith, if◌then◌else◌, length, is_some, All, Bool-cases,
}
use fabric_workspace_fs.Prelude.Int.{pos_part}
use fabric_workspace_fs.Bytes.{same_sym, Bytes, same}
use fabric_workspace_fs.Tables.{
  Table, lookup, remove, put, Distinct, total, lookup-put, put-Distinct, lookup-remove,
  remove-Distinct, length-remove, total-remove, remove_absent,
}
use fabric_workspace_fs.Overlay.{Error, Info, Node, File, Store}
use fabric_workspace_fs.Overlay.Paths.{within}
use fabric_workspace_fs.Overlay.Access.{
  max_int64, is_directory, any_open, busy, refreshed, same_object, fits_accounting, forget,
}

-- what an entry counts for: the size of a file
abbrev pub file_size : Node → ℕ
file_size n = if is_directory n.info then 0 else n.size

-- an open file has its entry
abbrev pub IsLive : Table Node → File → Type 0
IsLive entries f = (f.closed || is_some (lookup f.path entries)) ≡ true

-- no two open files write to one entry
abbrev pub IsSingle : List File → Type 0
IsSingle [] = Unit
IsSingle (f ∷ fs) =
    ((f.closed || not f.writable || not (any_open (λ g. same g.path f.path && g.writable) fs))
      ≡ true)
    × IsSingle fs

-- an entry more is allowed
abbrev pub HasRoom : Store → Type 0
HasRoom s = s.entry_count + 1 ≤ s.options.max_entries

-- The counters are those of the entries, with what was counted for entries that are lost.
pub record IsSound (lost_entries lost_bytes : ℕ) (s : Store) : Type 0 where
  pub counted : length s.entries + lost_entries ≡ s.entry_count
  pub summed : total file_size s.entries + lost_bytes ≡ s.total_bytes
  pub small : s.total_bytes ≤ max_int64
  pub limited : s.options.max_bytes ≤ max_int64
  pub room : s.entry_count ≤ s.options.max_entries
  pub distinct : Distinct s.entries
  pub live : All (IsLive s.entries) s.files
  pub single : IsSingle s.files

live-put :
    (path : Bytes) (n : Node) (entries : Table Node) (fs : List File)
    → All (IsLive entries) fs
    → All (IsLive (put path n entries)) fs
live-put path n entries [] a = tt
live-put path n entries (f ∷ fs) a =
    (ground (arith, a.0, lookup-put path f.path n entries), live-put path n entries fs a.1)

-- a file is open on no entry below a path that is not busy
live-remove :
    (path : Bytes) (entries : Table Node) (fs : List File)
    → any_open (λ f. within f.path path) fs ≡ false
    → All (IsLive entries) fs
    → All (IsLive (remove path entries)) fs
unfolding any_open within
live-remove path entries [] free a = tt
live-remove path entries (f ∷ fs) free a = (
  ground (arith, a.0, lookup-remove path f.path entries, same_sym path f.path),
  live-remove path entries fs (ground arith) a.1,
)

-- `put` under a key that is there changes the sum by the difference, and the count not at all
put_found :
    (path : Bytes) (old n : Node) (t : Table Node)
    → Distinct t
    → lookup path t ≡ some old
    → (length (put path n t) ≡ length t)
      × (total file_size (put path n t) + file_size old ≡ total file_size t + file_size n)
unfolding total
put_found path old n t d h = (
  omega (arith, length-remove path t old d h),
  omega (arith, total-remove file_size path t old d h),
)

-- the kind of an object does not change, and a new size fits
refreshed_sizes :
    (n : Node) (i : Info) (s : Store)
    → same_object n.info i ≡ true
    → fits_accounting n i s ≡ true
    → ((is_directory n.info ≡ true) × (is_directory i ≡ true))
      ⊎ ((is_directory n.info ≡ false)
          × (is_directory i ≡ false)
          × (pos_part i.size ≤ max_int64 - (s.total_bytes - n.size)))
unfolding same_object fits_accounting
refreshed_sizes n i s h k = elim (Bool-cases (is_directory i)) [
  | inl d ↦ inl (ground arith, d)
  | inr d ↦ inr (ground arith, d, ground arith)
]

module _ (le lb : ℕ) where
  pub refreshed-IsSound :
      (path : Bytes) (n : Node) (i : Info) (s : Store)
      → IsSound le lb s
      → lookup path s.entries ≡ some n
      → same_object n.info i ≡ true
      → fits_accounting n i s ≡ true
      → IsSound le lb (refreshed path n i s)
  unfolding refreshed
  refreshed-IsSound path n i s v h same_kind fits =
      let new : Node = record {
        info = i;
        size = if is_directory i then n.size else pos_part i.size;
      } in
      let (c, b) = put_found path n new s.entries v.distinct h in
      let r = total-remove file_size path s.entries n v.distinct h in
      elim (refreshed_sizes n i s same_kind fits) [
        | inl (d, e) ↦ record {
          counted = omega (arith, c, v.counted);
          summed = ground (arith, v.summed, b);
          small = ground (arith, v.small);
          limited = v.limited;
          room = v.room;
          distinct = put-Distinct path new s.entries v.distinct;
          live = live-put path new s.entries s.files v.live;
          single = v.single;
        }
        | inr (d, e, m) ↦ record {
          counted = omega (arith, c, v.counted);
          summed = ground (arith, v.summed, b, r);
          small = ground (arith, v.small, v.summed, r);
          limited = v.limited;
          room = v.room;
          distinct = put-Distinct path new s.entries v.distinct;
          live = live-put path new s.entries s.files v.live;
          single = v.single;
        }
      ]

  pub poisoned-IsSound :
      (s : Store) (es : List Error)
      → IsSound le lb s
      → IsSound le lb (record s { poison = some es })
  poisoned-IsSound s es v = record {
    counted = v.counted;
    summed = v.summed;
    small = v.small;
    limited = v.limited;
    room = v.room;
    distinct = v.distinct;
    live = v.live;
    single = v.single;
  }

  -- an entry that was not there, with its counters
  pub added-IsSound :
      (path : Bytes) (n : Node) (s : Store)
      → IsSound le lb s
      → HasRoom s
      → lookup path s.entries ≡ none
      → s.total_bytes + file_size n ≤ max_int64
      → IsSound le lb (record s {
        entries = put path n s.entries;
        entry_count = s.entry_count + 1;
        total_bytes = s.total_bytes + file_size n;
      })
  unfolding total
  added-IsSound path n s v room h m =
      let e = remove_absent path s.entries h in
      record {
        counted = rw e (omega (arith, v.counted));
        summed = rw e (omega (arith, v.summed));
        small = m;
        limited = v.limited;
        room = room;
        distinct = put-Distinct path n s.entries v.distinct;
        live = live-put path n s.entries s.files v.live;
        single = v.single;
      }

  -- a directory counts as an entry and for no bytes
  pub added_directory-IsSound :
      (path : Bytes) (n : Node) (s : Store)
      → IsSound le lb s
      → HasRoom s
      → lookup path s.entries ≡ none
      → is_directory n.info ≡ true
      → IsSound le lb (record s { entries = put path n s.entries; entry_count = s.entry_count + 1 })
  unfolding total
  added_directory-IsSound path n s v room h d =
      let e = remove_absent path s.entries h in
      record {
        counted = rw e (omega (arith, v.counted));
        summed = rw (e, d) (omega (arith, v.summed));
        small = v.small;
        limited = v.limited;
        room = room;
        distinct = put-Distinct path n s.entries v.distinct;
        live = live-put path n s.entries s.files v.live;
        single = v.single;
      }

  -- the containers, and what is counted of them, do not matter
  pub containers-IsSound :
      (cs : Table Info) (sc ws : ℕ) (s : Store)
      → IsSound le lb s
      → IsSound le lb (record s { containers = cs; scopes = sc; workspaces = ws })
  containers-IsSound cs sc ws s v = record {
    counted = v.counted;
    summed = v.summed;
    small = v.small;
    limited = v.limited;
    room = v.room;
    distinct = v.distinct;
    live = v.live;
    single = v.single;
  }

  pub forget-IsSound :
      (path : Bytes) (n : Node) (s : Store)
      → IsSound le lb s
      → lookup path s.entries ≡ some n
      → busy path s ≡ false
      → IsSound le lb (forget path n s)
  unfolding forget busy
  forget-IsSound path n s v h free =
      let c = length-remove path s.entries n v.distinct h in
      let b = total-remove file_size path s.entries n v.distinct h in
      record {
        counted = omega (arith, c, v.counted);
        summed = ground (arith, b, v.summed);
        small = ground (arith, v.small);
        limited = v.limited;
        room = omega (arith, v.room);
        distinct = remove-Distinct path s.entries v.distinct;
        live = live-remove path s.entries s.files free v.live;
        single = v.single;
      }
