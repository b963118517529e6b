-- ===== src/Invalidation/Failures.antt =====
-- internal/fusefs/invalidation_linux.go: the first failure stays.
use fabric_workspace_fs.Prelude.{◌≡◌, ◌≢◌, refl, ap, sym, ◌∙◌, false, List, [], ◌∷◌, ℕ, arith}
use fabric_workspace_fs.Invalidation.{
  Target, Invalidator, refusal, reserve, add, changed, receive, collect, enoent, failure, finish,
  close, stop,
}
use fabric_workspace_fs.Invalidation.Delivery.{
  Section, reserving, adding, changing, receiving, collecting, failing, finishing, closing,
  stopping, step, run_sections, failure-code,
}

step-code : (s : Section) (i : Invalidator) → i.code ≢ 0 → (step s i).code ≡ i.code
unfolding step reserve add changed receive collect finish close stop
step-code (reserving targets) i n = ground arith
step-code (adding id inode) i n = refl
step-code (changing id retire) i n = ground arith
step-code receiving i n = ground arith
step-code collecting i n = ground arith
step-code (failing code) i n = let (k, e, kept) = failure-code code i in ap (λ j. j.code) e ∙ kept n
step-code (finishing id) i n = refl
step-code closing i n = refl
step-code stopping i n = ground arith

run_sections-code :
    (ss : List Section) (i : Invalidator) → i.code ≢ 0 → (run_sections ss i).code ≡ i.code
unfolding run_sections
run_sections-code [] i n = refl
run_sections-code (s ∷ ss) i n =
    let e = step-code s i n in run_sections-code ss (step s i) (λ z. n (sym e ∙ z)) ∙ e

reserve-refused : (targets : List Target) (i : Invalidator) → i.code ≢ 0 → (reserve targets i).0 ≢ 0
unfolding reserve refusal
reserve-refused targets i n = ground arith

failure_first :
    (code : ℕ) (i : Invalidator)
    → i.closed ≡ false
    → i.code ≡ 0
    → code ≢ 0
    → code ≢ enoent
    → (failure code i).code ≡ code
unfolding failure
failure_first code i up clean n m = ground arith

-- The first failure of the kernel other than ENOENT on an open coordinator without error stays
-- its error through every sequence of sections, and every later reservation is refused.
pub reserve-failure :
    (code : ℕ) (ss : List Section) (targets : List Target) (i : Invalidator)
    → i.closed ≡ false
    → i.code ≡ 0
    → code ≢ 0
    → code ≢ enoent
    → ((reserve targets (run_sections ss (failure code i))).0 ≢ 0)
      × ((run_sections ss (failure code i)).code ≡ code)
reserve-failure code ss targets i up clean n m =
    let first = failure_first code i up clean n m in
    let kept = run_sections-code ss (failure code i) (λ z. n (sym first ∙ z)) ∙ first in
    (reserve-refused targets (run_sections ss (failure code i)) (λ z. n (sym kept ∙ z)), kept)
