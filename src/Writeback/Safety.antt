-- ===== src/Writeback/Safety.antt =====
-- internal/writeback/file.go: whatever a handle is asked to do, its only copy of unsaved data is not
-- destroyed, and the size that it publishes is that of its spool.
use fabric_workspace_fs.Prelude.{
  ℕ, ◌+◌, ◌≤◌, ◌≡◌, ◌≢◌, refl, ◌⊎◌, inl, inr, true, false, Option, none, some, List, [], ◌∷◌, arith,
  ◌==◌, length, take, min, length-take, Bool-cases,
}
use fabric_workspace_fs.Prelude.Int.{ℤ, pos_part}
use fabric_workspace_fs.Errors.{Error, Result, ok, err}
use fabric_workspace_fs.Writeback.{
  Bytes, File, write_offset, store_bytes, write_at, truncate, flush, close,
}
use fabric_workspace_fs.Writeback.Spool.{length-os_write, length-os_truncate}

-- the published size is that of the spool and within the limit, a clean spool holds what the remote
-- holds, a spool is removed only when it is clean, and a closed handle knows how it ended
pub record IsValid (f : File) : Type 0 where
  pub sized : f.size ≡ length f.content
  pub limited : f.size ≤ f.max_size
  pub clean : f.dirty ≡ false → f.content ≡ f.remote
  pub kept : f.on_disk ≡ false → (f.dirty ≡ false) × (f.closed ≡ true)
  pub ended : f.closed ≡ true → f.close_err ≢ none

-- One operation on a handle, with what the operating system and the remote service answer.
pub data Operation : Type 0 where
  write : Bytes → ℤ → ℕ → Option Error → Operation
  resize : ℤ → Option Error → Operation
  save : Option Error → Option Error → (Bytes → ℕ → Option Error) → Operation
  shut : Option Error → Option Error → Operation

unfoldable pub step : Operation → File → File
step (write p offset stored os_err) f = (write_at p offset stored os_err f).0
step (resize size os_err) f = (truncate size os_err f).0
step (save ctx sync commit) f = (flush ctx sync commit f).0
step (shut os_close os_remove) f = (close os_close os_remove f).0

unfoldable pub run : List Operation → File → File
run [] f = f
run (o ∷ os) f = run os (step o f)

store_bytes-IsValid :
    (at : ℕ) (p : Bytes) (n : ℕ) (f : File)
    → IsValid f
    → n ≤ length p
    → at + n ≤ f.max_size
    → f.closed ≡ false
    → IsValid (store_bytes at p n f)
unfolding store_bytes
store_bytes-IsValid at p n f v short room opened = elim (Bool-cases (n == 0)) [
  | inl nothing ↦ rw nothing v
  | inr some_bytes ↦ rw some_bytes (record {
    sized = omega (arith, v.sized, length-os_write f.content at (take n p), length-take n p);
    limited = omega (arith, v.limited);
    clean = λ e. cc e;
    kept = λ e. ground (arith, v.kept e);
    ended = v.ended;
  })
]

pub write_offset_open :
    (f : File) (offset : ℤ) (p : Bytes) (at : ℕ)
    → write_offset f offset p ≡ ok (some at)
    → (f.closed ≡ false) × (at + length p ≤ f.max_size)
unfolding write_offset
write_offset_open f offset p at h = ground arith

pub Offset-cases :
    (r : Result (Option ℕ))
    → ((e : Error) × (r ≡ err e)) ⊎ ((r ≡ ok none) ⊎ ((at : ℕ) × (r ≡ ok (some at))))
Offset-cases (err e) = inl (e, refl)
Offset-cases (ok none) = inr (inl refl)
Offset-cases (ok (some at)) = inr (inr (at, refl))

pub write_at-IsValid :
    (p : Bytes) (offset : ℤ) (stored : ℕ) (os_err : Option Error) (f : File)
    → IsValid f
    → IsValid (write_at p offset stored os_err f).0
unfolding write_at
write_at-IsValid p offset stored os_err f v = elim (Offset-cases (write_offset f offset p)) [
  | inl (e, s) ↦ rw (s, write_at) v
  | inr (inl s) ↦ rw (s, write_at) v
  | inr (inr (at, s)) ↦
      let (opened, room) = write_offset_open f offset p at s in
      rw (s, write_at)
        (store_bytes-IsValid at p (min stored (length p)) f v (omega arith) (omega (arith, room))
          opened)
]

pub truncate-IsValid :
    (size : ℤ) (os_err : Option Error) (f : File) → IsValid f → IsValid (truncate size os_err f).0
unfolding truncate
truncate-IsValid size os_err f v = record {
  sized = ground (arith, length-os_truncate f.content (pos_part size));
  limited = ground arith;
  clean = λ e. ground (arith, v.clean);
  kept = λ e. ground (arith, v.kept);
  ended = λ e. ground (arith, v.ended);
}

pub flush-IsValid :
    (ctx sync : Option Error) (commit : Bytes → ℕ → Option Error) (f : File)
    → IsValid f
    → IsValid (flush ctx sync commit f).0
unfolding flush
flush-IsValid ctx sync commit f v = record {
  sized = ground arith;
  limited = ground arith;
  clean = λ e. ground (arith, v.clean);
  kept = λ e. ground (arith, v.kept);
  ended = λ e. ground (arith, v.ended);
}

pub close-IsValid :
    (os_close os_remove : Option Error) (f : File)
    → IsValid f
    → IsValid (close os_close os_remove f).0
unfolding close
close-IsValid os_close os_remove f v = record {
  sized = ground arith;
  limited = ground arith;
  clean = λ e. ground (arith, v.clean);
  kept = λ e. ground (arith, v.kept);
  ended = λ e. ground (arith, v.ended);
}

step-IsValid : (o : Operation) (f : File) → IsValid f → IsValid (step o f)
unfolding step
step-IsValid (write p offset stored os_err) f v = write_at-IsValid p offset stored os_err f v
step-IsValid (resize size os_err) f v = truncate-IsValid size os_err f v
step-IsValid (save ctx sync commit) f v = flush-IsValid ctx sync commit f v
step-IsValid (shut os_close os_remove) f v = close-IsValid os_close os_remove f v

pub run-IsValid_lem : (os : List Operation) (f : File) → IsValid f → IsValid (run os f)
unfolding run
run-IsValid_lem [] f v = v
run-IsValid_lem (o ∷ os) f v = run-IsValid_lem os (step o f) (step-IsValid o f v)
