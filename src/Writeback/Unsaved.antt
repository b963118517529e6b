-- ===== src/Writeback/Unsaved.antt =====
-- internal/writeback/file.go: what was written and not saved is kept at the end.
use fabric_workspace_fs.Prelude.{
  ℕ, ◌<◌, ◌≡◌, refl, inl, inr, true, false, Option, none, some, List, [], ◌∷◌, arith, length, min,
  All,
}
use fabric_workspace_fs.Prelude.Int.{ℤ}
use fabric_workspace_fs.Errors.{Error, join, external}
use fabric_workspace_fs.Writeback.{
  recovery, Bytes, File, write_offset, store_bytes, write_at, truncate, flush, close,
}
use fabric_workspace_fs.Writeback.Safety.{
  write_offset_open, Offset-cases, Operation, write, resize, save, shut, step, run,
}

-- An operation that saves nothing: it does not close the handle, and if it flushes, then the context is
-- done, or the sync or every commit fails.
abbrev pub IsUnsaving : Operation → Type 0
IsUnsaving (write p offset stored os_err) = Unit
IsUnsaving (resize size os_err) = Unit
IsUnsaving (save (some e) sync commit) = Unit
IsUnsaving (save none (some e) commit) = Unit
IsUnsaving (save none none commit) =
    (content : Bytes) (size : ℕ) → (e : Error) × (commit content size ≡ some e)
IsUnsaving (shut os_close os_remove) = ⊥

-- an open handle with unsaved changes
pub record IsUnsaved (f : File) : Type 0 where
  pub opened : f.closed ≡ false
  pub changed : f.dirty ≡ true

stored-IsUnsaved :
    (at : ℕ) (p : Bytes) (n : ℕ) (f : File) → IsUnsaved f → IsUnsaved (store_bytes at p n f)
unfolding store_bytes
stored-IsUnsaved at p n f v = record {
  opened = ground (arith, v.opened);
  changed = ground (arith, v.changed);
}

write_at-IsUnsaved :
    (p : Bytes) (offset : ℤ) (stored : ℕ) (os_err : Option Error) (f : File)
    → IsUnsaved f
    → IsUnsaved (write_at p offset stored os_err f).0
unfolding write_at
write_at-IsUnsaved p offset stored os_err f v = elim (Offset-cases (write_offset f offset p)) [
  | inl (e, s) ↦ rw (s, write_at) v
  | inr (inl s) ↦ rw (s, write_at) v
  | inr (inr (at, s)) ↦ rw (s, write_at) (stored-IsUnsaved at p (min stored (length p)) f v)
]

-- a write that stores a byte
write_at-changed :
    (p : Bytes) (offset : ℤ) (stored : ℕ) (os_err : Option Error) (f : File)
    → 0 < (write_at p offset stored os_err f).1.0
    → IsUnsaved (write_at p offset stored os_err f).0
unfolding write_at
write_at-changed p offset stored os_err f h = elim (Offset-cases (write_offset f offset p)) [
  | inl (e, s) ↦ absurd (omega (arith, rw (s, write_at) at h))
  | inr (inl s) ↦ absurd (omega (arith, rw (s, write_at) at h))
  | inr (inr (at, s)) ↦
      let some_byte : 0 < min stored (length p) = rw (s, write_at) at h in
      rw (s, write_at)
        (unfold store_bytes in
          record {
            opened = ground (arith, (write_offset_open f offset p at s).0);
            changed = ground arith;
          })
]

step-IsUnsaved : (o : Operation) (f : File) → IsUnsaving o → IsUnsaved f → IsUnsaved (step o f)
unfolding step truncate flush
step-IsUnsaved (write p offset stored os_err) f u v = write_at-IsUnsaved p offset stored os_err f v
step-IsUnsaved (resize size os_err) f u v = record {
  opened = ground (arith, v.opened, v.changed);
  changed = ground (arith, v.opened, v.changed);
}
step-IsUnsaved (save (some e) sync commit) f u v = record {
  opened = ground (arith, v.opened, v.changed);
  changed = ground (arith, v.opened, v.changed);
}
step-IsUnsaved (save none (some e) commit) f u v = record {
  opened = ground (arith, v.opened, v.changed);
  changed = ground (arith, v.opened, v.changed);
}
step-IsUnsaved (save none none commit) f u v =
    let (e, k) = u f.content f.size in
    record {
      opened = ground (arith, v.opened, v.changed, k);
      changed = ground (arith, v.opened, v.changed, k);
    }
step-IsUnsaved (shut os_close os_remove) f u v = absurd u

run-IsUnsaved :
    (os : List Operation) (f : File) → All IsUnsaving os → IsUnsaved f → IsUnsaved (run os f)
unfolding run
run-IsUnsaved [] f u v = v
run-IsUnsaved (o ∷ os) f u v = run-IsUnsaved os (step o f) u.1 (step-IsUnsaved o f u.0 v)

first_error :
    (last os_close : Option Error)
    → (e : Error) × (es : List Error) × (join
          (elim last [ none ↦ some (external 0) | some c ↦ some c ])
          (join os_close [])
        ≡ e ∷ es)
first_error none os_close = (external 0, join os_close [], refl)
first_error (some c) os_close = (c, join os_close [], refl)

-- a close with unsaved changes
close-dirty :
    (os_close os_remove : Option Error) (f : File)
    → f.closed ≡ false
    → f.dirty ≡ true
    → ((close os_close os_remove f).0.on_disk ≡ true)
      × ((close os_close os_remove f).0.content ≡ f.content)
      × ((e : Error) × (es : List Error) × ((close os_close os_remove f).1 ≡ recovery (e ∷ es)))
unfolding close
close-dirty os_close os_remove f up unsaved =
    let (e, es, k) = first_error f.last_save os_close in
    (ground arith, ground arith, (e, es, ground (arith, k)))

-- If WriteAt reports at least one byte, and then come any writes and truncations, and flushes
-- none of which can save (the context is done, or the sync fails, or the commit fails on
-- everything), then Close leaves the spool on disk with the content that it has and returns a
-- recovery error with at least one cause, whatever the operating system answers.
pub close-unsaved :
    (p : Bytes) (offset : ℤ) (stored : ℕ) (os_err : Option Error) (os : List Operation)
    (os_close os_remove : Option Error) (f : File)
    → 0 < (write_at p offset stored os_err f).1.0
    → All IsUnsaving os
    → (let g = run os (write_at p offset stored os_err f).0 in
        ((close os_close os_remove g).0.on_disk ≡ true)
        × ((close os_close os_remove g).0.content ≡ g.content)
        × ((e : Error) × (es : List Error) × ((close os_close os_remove g).1 ≡ recovery (e ∷ es))))
close-unsaved p offset stored os_err os os_close os_remove f h u =
    let g = run os (write_at p offset stored os_err f).0 in
    let v =
      run-IsUnsaved os (write_at p offset stored os_err f).0 u
        (write_at-changed p offset stored os_err f h) in
    close-dirty os_close os_remove g v.opened v.changed
