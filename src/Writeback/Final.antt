-- ===== src/Writeback/Final.antt =====
-- internal/writeback/file.go: a close is final.
use fabric_workspace_fs.Prelude.{ℕ, ◌≡◌, refl, ◌∙◌, ap, true, Option, some, List, [], ◌∷◌, arith}
use fabric_workspace_fs.Prelude.Int.{ℤ}
use fabric_workspace_fs.Errors.{Error, err, handle_closed}
use fabric_workspace_fs.Writeback.{
  Bytes, File, read_at, write_offset, write_at, truncate, flush, close,
}
use fabric_workspace_fs.Writeback.Safety.{Operation, write, resize, save, shut, step, run}

-- no operation changes a closed handle
step-closed : (o : Operation) (f : File) → f.closed ≡ true → step o f ≡ f
unfolding step write_at write_offset truncate flush close
step-closed (write p offset stored os_err) f h = ground arith
step-closed (resize size os_err) f h = ground arith
step-closed (save ctx sync commit) f h = ground arith
step-closed (shut os_close os_remove) f h = ground arith

run-closed : (os : List Operation) (f : File) → f.closed ≡ true → run os f ≡ f
unfolding run
run-closed [] f h = refl
run-closed (o ∷ os) f h = ap (run os) (step-closed o f h) ∙ run-closed os f h

close-closed :
    (os_close os_remove : Option Error) (f : File) → (close os_close os_remove f).0.closed ≡ true
unfolding close
close-closed os_close os_remove f = ground arith

close_twice :
    (os_close os_remove again_close again_remove : Option Error) (f : File)
    → (close again_close again_remove (close os_close os_remove f).0).1
      ≡ (close os_close os_remove f).1
unfolding close
close_twice os_close os_remove again_close again_remove f = ground arith

read_at-closed :
    (f : File) (offset : ℤ) (n : ℕ) → f.closed ≡ true → read_at f offset n ≡ err handle_closed
unfolding read_at
read_at-closed f offset n h = ground arith

write_at-closed :
    (p : Bytes) (offset : ℤ) (stored : ℕ) (os_err : Option Error) (f : File)
    → f.closed ≡ true
    → (write_at p offset stored os_err f).1 ≡ (0, some handle_closed)
unfolding write_at write_offset
write_at-closed p offset stored os_err f h = ground arith

-- what the operations answer after a close and any further operations
pub record IsFinal (g : File) : Type 0 where
  pub reading : (offset : ℤ) (n : ℕ) → read_at g offset n ≡ err handle_closed
  pub writing :
      (p : Bytes) (offset : ℤ) (stored : ℕ) (os_err : Option Error)
      → (write_at p offset stored os_err g).1 ≡ (0, some handle_closed)
  pub resizing :
      (size : ℤ) (os_err : Option Error) → (truncate size os_err g).1 ≡ some handle_closed
  pub saving :
      (ctx sync : Option Error) (commit : Bytes → ℕ → Option Error)
      → (flush ctx sync commit g).1 ≡ some handle_closed

closed-IsFinal : (g : File) → g.closed ≡ true → IsFinal g
unfolding truncate flush
closed-IsFinal g h = record {
  reading = λ offset n. read_at-closed g offset n h;
  writing = λ p offset stored os_err. write_at-closed p offset stored os_err g h;
  resizing = λ size os_err. ground arith;
  saving = λ ctx sync commit. ground arith;
}

-- After Close of any handle and any further operations, the handle is as Close left it, reads,
-- writes, truncations and flushes with any arguments return ErrClosed and no byte, and another
-- Close returns what the first one returned.
pub run-close :
    (os : List Operation) (os_close os_remove again_close again_remove : Option Error) (f : File)
    → (let g = run os (close os_close os_remove f).0 in
        (g ≡ (close os_close os_remove f).0)
        × IsFinal g
        × ((close again_close again_remove g).1 ≡ (close os_close os_remove f).1))
run-close os os_close os_remove again_close again_remove f =
    let k = close-closed os_close os_remove f in
    let e = run-closed os (close os_close os_remove f).0 k in
    (
      e,
      rw e (closed-IsFinal (close os_close os_remove f).0 k),
      rw e (close_twice os_close os_remove again_close again_remove f),
    )
