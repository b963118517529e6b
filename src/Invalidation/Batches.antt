-- ===== src/Invalidation/Batches.antt =====
-- internal/fusefs/invalidation_linux.go: a change reaches the next batch.
use fabric_workspace_fs.Prelude.{
  ℕ, ◌≡◌, refl, Bool, true, false, ◌&&◌, ◌||◌, List, [], ◌∷◌, ◌++◌, arith, ◌==◌, if◌then◌else◌, All,
}
use fabric_workspace_fs.Invalidation.{
  not, Target, Change, Invalidator, reserve, update, add, changed, dirty_ids, receive, collect,
  is_done, keep_unfinished, finish, close,
}
use fabric_workspace_fs.Invalidation.Delivery.{
  Section, reserving, adding, changing, receiving, collecting, failing, finishing, closing,
  stopping, step, run_sections, failure-code,
}

-- the coordinator holds the change
unfoldable pub holds : ℕ → List Change → Bool
holds id [] = false
holds id (c ∷ cs) = c.id == id || holds id cs

-- the coordinator holds the change, and it is dirty
unfoldable pub is_dirty : ℕ → List Change → Bool
is_dirty id [] = false
is_dirty id (c ∷ cs) = c.id == id && c.dirty || is_dirty id cs

unfoldable pub has_id : ℕ → List ℕ → Bool
has_id id [] = false
has_id id (n ∷ ns) = n == id || has_id id ns

-- no batch is collected, and `run` does not end; a signal may be received
abbrev pub is_quiet : Section → Bool
is_quiet (reserving targets) = true
is_quiet (adding id inode) = true
is_quiet (changing id retire) = true
is_quiet receiving = true
is_quiet collecting = false
is_quiet (failing code) = true
is_quiet (finishing id) = true
is_quiet closing = true
is_quiet stopping = false

is_dirty-marked :
    (id : ℕ) (retire : Bool) (cs : List Change)
    → holds id cs ≡ true
    → is_dirty id (update id (λ c. record c { dirty = true; retired = c.retired || retire }) cs)
      ≡ true
unfolding holds is_dirty update
is_dirty-marked id retire [] h = h
is_dirty-marked id retire (c ∷ cs) h = ground (arith, is_dirty-marked id retire cs)

is_dirty-update :
    (id j : ℕ) (f : Change → Change)
    → ((c : Change) → (f c).id ≡ c.id)
    → ((c : Change) → c.dirty ≡ true → (f c).dirty ≡ true)
    → (cs : List Change) → is_dirty id cs ≡ true
    → is_dirty id (update j f cs) ≡ true
unfolding is_dirty update
is_dirty-update id j f named kept [] h = h
is_dirty-update id j f named kept (c ∷ cs) h =
    ground (arith, is_dirty-update id j f named kept cs, named c, kept c)

is_dirty-keep_unfinished :
    (id j : ℕ) (cs : List Change)
    → is_dirty id cs ≡ true
    → is_dirty id (keep_unfinished j cs) ≡ true
unfolding is_dirty keep_unfinished is_done
is_dirty-keep_unfinished id j [] h = h
is_dirty-keep_unfinished id j (c ∷ cs) h = ground (arith, is_dirty-keep_unfinished id j cs)

has_id-dirty_ids :
    (id : ℕ) (cs : List Change) → is_dirty id cs ≡ true → has_id id (dirty_ids cs) ≡ true
unfolding is_dirty has_id dirty_ids
has_id-dirty_ids id [] h = h
has_id-dirty_ids id (c ∷ cs) h = ground (arith, has_id-dirty_ids id cs)

-- the change waits for the next batch
pub record IsPending (id : ℕ) (i : Invalidator) : Type 0 where
  pub dirty : is_dirty id i.jobs ≡ true
  pub woken : (i.wake || i.awake) ≡ true

if-Pending :
    (id : ℕ) (b : Bool) (x y : Invalidator)
    → IsPending id x
    → IsPending id y
    → IsPending id (if b then x else y)
if-Pending id true x y p q = p
if-Pending id false x y p q = q

reserve-IsPending :
    (id : ℕ) (targets : List Target) (i : Invalidator)
    → IsPending id i
    → IsPending id (reserve targets i).1
unfolding reserve is_dirty
reserve-IsPending id targets i p = record {
  dirty = ground (arith, p.dirty);
  woken = ground (arith, p.woken);
}

receive-IsPending : (id : ℕ) (i : Invalidator) → IsPending id i → IsPending id (receive i)
unfolding receive
receive-IsPending id i p =
    if-Pending id (i.wake && not i.awake) (record i { wake = false; awake = true }) i
      (record { dirty = p.dirty; woken = refl }) p

step-IsPending :
    (id : ℕ) (s : Section) (i : Invalidator)
    → is_quiet s ≡ true
    → IsPending id i
    → IsPending id (step s i)
unfolding step add changed finish close
step-IsPending id (reserving targets) i q p = reserve-IsPending id targets i p
step-IsPending id (adding j inode) i q p = record {
  dirty =
      is_dirty-update id j
        (λ c. record c { targets = c.targets ++ (record { inode = inode; name = [] } ∷ []) })
        (λ c. refl) (λ c h. h) i.jobs p.dirty;
  woken = p.woken;
}
step-IsPending id (changing j retire) i q p =
    let f = λ (c : Change). record c { dirty = true; retired = c.retired || retire } in
    if-Pending id i.closed i (record i { jobs = update j f i.jobs; wake = true }) p
      (record {
        dirty = is_dirty-update id j f (λ c. refl) (λ c h. refl) i.jobs p.dirty;
        woken = refl;
      })
step-IsPending id receiving i q p = receive-IsPending id i p
step-IsPending id collecting i q p = absurd (ground arith)
step-IsPending id (failing code) i q p =
    let (k, e, kept) = failure-code code i in rw e (record { dirty = p.dirty; woken = p.woken })
step-IsPending id (finishing j) i q p = record {
  dirty = is_dirty-keep_unfinished id j i.jobs p.dirty;
  woken = p.woken;
}
step-IsPending id closing i q p = record { dirty = p.dirty; woken = p.woken }
step-IsPending id stopping i q p = absurd (ground arith)

run_sections-IsPending :
    (id : ℕ) (ss : List Section) (i : Invalidator)
    → All (λ s. is_quiet s ≡ true) ss
    → IsPending id i
    → IsPending id (run_sections ss i)
unfolding run_sections
run_sections-IsPending id [] i q p = p
run_sections-IsPending id (s ∷ ss) i q p =
    run_sections-IsPending id ss (step s i) q.1 (step-IsPending id s i q.0 p)

changed-IsPending :
    (id : ℕ) (retire : Bool) (i : Invalidator)
    → i.closed ≡ false
    → holds id i.jobs ≡ true
    → IsPending id (changed id retire i)
unfolding changed
changed-IsPending id retire i up h = record {
  dirty = ground (arith, is_dirty-marked id retire i.jobs h);
  woken = ground arith;
}

collect-Pending :
    (id : ℕ) (i : Invalidator) → IsPending id i → has_id id (collect (receive i)).0 ≡ true
unfolding collect receive
collect-Pending id i p = ground (arith, has_id-dirty_ids id i.jobs p.dirty, p.woken)

-- When a change that the coordinator holds is reported while it is open, then after any further
-- steps (the receive of a signal among them) other than the collection of a batch and the end of
-- the loop, run is woken and the batch that it collects next contains the change.
pub collect-changed :
    (id : ℕ) (retire : Bool) (ss : List Section) (i : Invalidator)
    → i.closed ≡ false
    → holds id i.jobs ≡ true
    → All (λ s. is_quiet s ≡ true) ss
    → has_id id (collect (receive (run_sections ss (changed id retire i)))).0 ≡ true
collect-changed id retire ss i up h q =
    collect-Pending id (run_sections ss (changed id retire i))
      (run_sections-IsPending id ss (changed id retire i) q (changed-IsPending id retire i up h))
