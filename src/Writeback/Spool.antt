-- ===== src/Writeback/Spool.antt =====
-- internal/writeback/file.go: positional reads and writes of the spool, byte by byte.
use fabric_workspace_fs.Prelude.{
  ℕ, ◌+◌, ◌-◌, ◌≤◌, ◌≡◌, ◌∙◌, ap, none, some, ◌++◌, arith, ltb, false, if◌then◌else◌, length, take,
  drop, replicate, get_elem?, max, length-append, length-take, length-drop, length-replicate,
  get_elem?-append, get_elem?-take, get_elem?-drop, get_elem?-replicate, take-append, drop-append,
}
use fabric_workspace_fs.Writeback.{Bytes, os_read, os_write, os_truncate}

-- the content, with zeros behind its end
abbrev padded : Bytes → ℕ → Bytes
padded c n = c ++ replicate (n - length c) 0

length-padded : (c : Bytes) (n : ℕ) → length (padded c n) ≡ max (length c) n
length-padded c n =
    omega (
      arith,
      length-append c (replicate (n - length c) 0),
      length-replicate {A = ℕ} (n - length c) 0,
    )

pub length-os_write :
    (c : Bytes) (at : ℕ) (p : Bytes) → length (os_write c at p) ≡ max (length c) (at + length p)
unfolding os_write
length-os_write c at p = omega (
  arith,
  length-append (take at (padded c at)) (p ++ drop (at + length p) c),
  length-append p (drop (at + length p) c),
  length-take at (padded c at),
  length-drop (at + length p) c,
  length-padded c at,
)

pub length-os_truncate : (c : Bytes) (n : ℕ) → length (os_truncate c n) ≡ n
unfolding os_truncate
length-os_truncate c n = omega (arith, length-take n (padded c n), length-padded c n)

-- a read right after a write of the same bytes returns them, whole
pub os_read-os_write :
    (c : Bytes) (at : ℕ) (p : Bytes) → os_read (os_write c at p) at (length p) ≡ (p, false)
unfolding os_read os_write
os_read-os_write c at p =
    let front = take at (padded c at) in
    let e : at ≡ length front = omega (arith, length-take at (padded c at), length-padded c at) in
    let d : drop at (front ++ (p ++ drop (at + length p) c)) ≡ p ++ drop (at + length p) c =
      ap (λ n. drop n (front ++ (p ++ drop (at + length p) c))) e
      ∙ drop-append front (p ++ drop (at + length p) c) in
    rw (d, take-append p (drop (at + length p) c)) (ground arith)

back_in_place :
    (i at n : ℕ) (c : Bytes) → at + n ≤ i → get_elem? c (at + n + (i - at - n)) ≡ get_elem? c i
back_in_place i at n c h = ap (get_elem? c) (omega arith)

-- After a write, the byte at each place is the old one before the offset (zero in a gap behind
-- the old end), the written one within the written range, and the old one behind it.
pub get_elem?-os_write :
    (c : Bytes) (at : ℕ) (p : Bytes) (i : ℕ)
    → get_elem? (os_write c at p) i ≡ (
        if ltb i at
        then (if ltb i (length c) then get_elem? c i else some 0)
        else if ltb i (at + length p)
        then get_elem? p (i - at)
        else get_elem? c i)
unfolding os_write
get_elem?-os_write c at p i =
    let front = take at (padded c at) in
    let e : length front ≡ at = omega (arith, length-take at (padded c at), length-padded c at) in
    rw (get_elem?-append front (p ++ drop (at + length p) c) i, e)
      (ground (
        arith,
        get_elem?-take at (padded c at) i,
        get_elem?-append c (replicate (at - length c) 0) i,
        get_elem?-replicate {A = ℕ} (at - length c) 0 (i - length c),
        get_elem?-append p (drop (at + length p) c) (i - at),
        get_elem?-drop (at + length p) c (i - at - length p),
        back_in_place i at (length p) c,
      ))

-- a truncation keeps the bytes in front of the new end, and fills with zeros behind the old one
pub get_elem?-os_truncate :
    (c : Bytes) (n i : ℕ)
    → get_elem? (os_truncate c n) i
      ≡ (if ltb i n then (if ltb i (length c) then get_elem? c i else some 0) else none)
unfolding os_truncate
get_elem?-os_truncate c n i = ground (
  arith,
  get_elem?-take n (padded c n) i,
  get_elem?-append c (replicate (n - length c) 0) i,
  get_elem?-replicate {A = ℕ} (n - length c) 0 (i - length c),
)
