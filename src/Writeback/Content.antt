-- ===== src/Writeback/Content.antt =====
-- internal/writeback/file.go: what a write leaves in the spool, byte by byte.
use fabric_workspace_fs.Prelude.{
  ℕ, ◌+◌, ◌-◌, ◌<◌, ◌≤◌, ◌≡◌, inl, inr, Option, some, arith, ltb, if◌then◌else◌, length, take, min,
  max, get_elem?, get_elem?-take, length-take,
}
use fabric_workspace_fs.Prelude.Int.{ℤ, pos_part}
use fabric_workspace_fs.Errors.{Error, ok}
use fabric_workspace_fs.Writeback.{Bytes, File, write_offset, store_bytes, write_at}
use fabric_workspace_fs.Writeback.Safety.{Offset-cases, write_offset_open}
use fabric_workspace_fs.Writeback.Spool.{get_elem?-os_write}

-- where a write starts
abbrev pub place : File → ℤ → ℕ
place f offset = if f.append then f.size else pos_part offset

write_offset-place :
    (f : File) (offset : ℤ) (p : Bytes) (at : ℕ)
    → write_offset f offset p ≡ ok (some at)
    → at ≡ place f offset
unfolding write_offset
write_offset-place f offset p at h = ground arith

-- the bytes after a write of the first `n` of `p` at a place
abbrev pub byte_after : Bytes → ℕ → Bytes → ℕ → ℕ → Option ℕ
byte_after content at p n i =
    if ltb i at
    then (if ltb i (length content) then get_elem? content i else some 0)
    else if ltb i (at + n)
    then get_elem? p (i - at)
    else get_elem? content i

get_elem?-store_bytes :
    (at n i : ℕ) (p : Bytes) (f : File)
    → 0 < n
    → n ≤ length p
    → get_elem? (store_bytes at p n f).content i ≡ byte_after f.content at p n i
unfolding store_bytes
get_elem?-store_bytes at n i p f some_byte within = ground (
  arith,
  get_elem?-os_write f.content at (take n p) i,
  get_elem?-take n p (i - at),
  length-take n p,
)

-- When WriteAt reports n bytes, at least one, and starts at the end of an appending handle or
-- else at its offset, then the byte of the spool at each place is the old one before the start
-- (zero in a gap behind the old end), that of the buffer in the n places from the start, and the
-- old one behind them; the published size is the larger of the old one and the end of the write,
-- and this end is within the limit.
pub get_elem?-write_at :
    (p : Bytes) (offset : ℤ) (stored : ℕ) (os_err : Option Error) (f : File) (i : ℕ)
    → 0 < (write_at p offset stored os_err f).1.0
    → (let r = write_at p offset stored os_err f in
        (get_elem? r.0.content i ≡ byte_after f.content (place f offset) p r.1.0 i)
        × (r.0.size ≡ max f.size (place f offset + r.1.0))
        × (place f offset + r.1.0 ≤ f.max_size))
unfolding write_at
get_elem?-write_at p offset stored os_err f i h = elim (Offset-cases (write_offset f offset p)) [
  | inl (e, s) ↦ absurd (omega (arith, rw (s, write_at) at h))
  | inr (inl s) ↦ absurd (omega (arith, rw (s, write_at) at h))
  | inr (inr (at, s)) ↦
      let n = min stored (length p) in
      let some_byte : 0 < n = rw (s, write_at) at h in
      let here = write_offset-place f offset p at s in
      rw (s, write_at, ← here)
        (
          get_elem?-store_bytes at n i p f some_byte (omega arith),
          (unfold store_bytes in ground arith),
          omega (arith, (write_offset_open f offset p at s).1),
        )
]
