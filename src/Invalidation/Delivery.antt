-- ===== src/Invalidation/Delivery.antt =====
-- internal/fusefs/invalidation_linux.go: bounds, sticky errors and the delivery of changes.
use fabric_workspace_fs.Prelude.{
  ℕ, ◌+◌, ◌≤◌, suc, ◌<◌, ◌≡◌, ◌≢◌, refl, ap, inl, inr, Bool, true, false, not, ◌&&◌, ◌||◌, List, [],
  ◌∷◌, ◌++◌, arith, ◌==◌, if◌then◌else◌, length, All, Bool-cases,
}
use fabric_workspace_fs.Invalidation.{
  Target, Change, Invalidator, refusal, reserve, update, add, changed, dirty_ids, clear_dirty,
  receive, collect, enoent, failure, is_done, keep_unfinished, finish, close, stop,
}

-- The steps that the goroutines of the filesystem and of `run` take: the sections under the mutex and
-- the receive. `failing` is a section of `failure` with any answer of the kernel.
pub data Section : Type 0 where
  reserving : List Target → Section
  adding : ℕ → ℕ → Section
  changing : ℕ → Bool → Section
  receiving collecting : Section
  failing : ℕ → Section
  finishing : ℕ → Section
  closing stopping : Section

unfoldable pub step : Section → Invalidator → Invalidator
step (reserving targets) i = (reserve targets i).1
step (adding id inode) i = add id inode i
step (changing id retire) i = changed id retire i
step receiving i = receive i
step collecting i = (collect i).1
step (failing code) i = failure code i
step (finishing id) i = finish id i
step closing i = close i
step stopping i = stop i

unfoldable pub run_sections : List Section → Invalidator → Invalidator
run_sections [] i = i
run_sections (s ∷ ss) i = run_sections ss (step s i)

-- a dirty change has a signal that is pending or was received for the next batch
abbrev pub IsWoken : Bool → List Change → Type 0
IsWoken signal cs = All (λ c. c.dirty ≡ true → signal ≡ true) cs

pub record IsValid (i : Invalidator) : Type 0 where
  pub bounded : length i.jobs ≤ i.limit
  pub woken : IsWoken (i.wake || i.awake) i.jobs
  pub known : All (λ c. c.id < i.fresh) i.jobs

length-update :
    (id : ℕ) (f : Change → Change) (cs : List Change) → length (update id f cs) ≡ length cs
unfolding update
length-update id f [] = refl
length-update id f (c ∷ cs) = ap suc (length-update id f cs)

length-clear_dirty : (cs : List Change) → length (clear_dirty cs) ≡ length cs
unfolding clear_dirty
length-clear_dirty [] = refl
length-clear_dirty (c ∷ cs) = ap suc (length-clear_dirty cs)

length-keep_unfinished-le : (id : ℕ) (cs : List Change) → length (keep_unfinished id cs) ≤ length cs
unfolding keep_unfinished
length-keep_unfinished-le id [] = omega arith
length-keep_unfinished-le id (c ∷ cs) = ground (arith, length-keep_unfinished-le id cs)

update-All :
    (P Q : Change → Type 0) (id : ℕ) (f : Change → Change)
    → ((c : Change) → P c → Q c)
    → ((c : Change) → P c → Q (f c))
    → (cs : List Change) → All P cs
    → All Q (update id f cs)
unfolding update
update-All P Q id f keep change [] a = tt
update-All P Q id f keep change (c ∷ cs) a = elim (Bool-cases (c.id == id)) [
  | inl e ↦ rw e (change c a.0, update-All P Q id f keep change cs a.1)
  | inr n ↦ rw n (keep c a.0, update-All P Q id f keep change cs a.1)
]

keep_unfinished-All :
    (P : Change → Type 0) (id : ℕ) (cs : List Change) → All P cs → All P (keep_unfinished id cs)
unfolding keep_unfinished
keep_unfinished-All P id [] a = tt
keep_unfinished-All P id (c ∷ cs) a = elim (Bool-cases (is_done id c)) [
  | inl e ↦ rw e (keep_unfinished-All P id cs a.1)
  | inr n ↦ rw n (a.0, keep_unfinished-All P id cs a.1)
]

All-map :
    (P Q : Change → Type 0) → ((c : Change) → P c → Q c) → (cs : List Change) → All P cs → All Q cs
All-map P Q f [] a = tt
All-map P Q f (c ∷ cs) a = (f c a.0, All-map P Q f cs a.1)

clear_dirty-IsWoken : (wake : Bool) (cs : List Change) → IsWoken wake (clear_dirty cs)
unfolding clear_dirty
clear_dirty-IsWoken wake [] = tt
clear_dirty-IsWoken wake (c ∷ cs) = ((λ h. absurd (ground arith)), clear_dirty-IsWoken wake cs)

clear_dirty-known :
    (n : ℕ) (cs : List Change) → All (λ c. c.id < n) cs → All (λ c. c.id < n) (clear_dirty cs)
unfolding clear_dirty
clear_dirty-known n [] a = tt
clear_dirty-known n (c ∷ cs) a = (a.0, clear_dirty-known n cs a.1)

-- an answer of the kernel can only set the error, and only once
pub failure-code :
    (code : ℕ) (i : Invalidator)
    → (k : ℕ) × (failure code i ≡ record i { code = k }) × (i.code ≢ 0 → k ≡ i.code)
unfolding failure
failure-code code i = elim (Bool-cases (code == 0 || code == enoent)) [
  | inl e ↦ (i.code, rw e refl, λ n. refl)
  | inr e ↦ elim (Bool-cases (not i.closed && i.code == 0)) [
    | inl h ↦ (code, rw (e, h) refl, λ n. absurd (ground arith))
    | inr h ↦ (i.code, rw (e, h) refl, λ n. refl)
  ]
]

reserve-IsValid :
    (targets : List Target) (i : Invalidator) → IsValid i → IsValid (reserve targets i).1
unfolding reserve
reserve-IsValid targets i v = elim (Bool-cases (refusal i == 0)) [
  | inr n ↦ rw (n, reserve) v
  | inl e ↦
      rw (e, reserve)
        (record {
          bounded = (unfold refusal in ground (arith, v.bounded));
          woken = ((λ h. absurd (ground arith)), v.woken);
          known = (
            omega arith,
            All-map (λ c. c.id < i.fresh) (λ c. c.id < i.fresh + 1) (λ c l. omega arith) i.jobs
                v.known,
          );
        })
]

add-IsValid : (id inode : ℕ) (i : Invalidator) → IsValid i → IsValid (add id inode i)
unfolding add
add-IsValid id inode i v =
    let f = λ (c : Change). record c {
      targets = c.targets ++ (record { inode = inode; name = [] } ∷ []);
    } in
    record {
      bounded = rw (length-update id f i.jobs) v.bounded;
      woken =
          update-All (λ c. c.dirty ≡ true → (i.wake || i.awake) ≡ true)
            (λ c. c.dirty ≡ true → (i.wake || i.awake) ≡ true) id f (λ c p. p) (λ c p. p) i.jobs
            v.woken;
      known =
          update-All (λ c. c.id < i.fresh) (λ c. c.id < i.fresh) id f (λ c p. p) (λ c p. p) i.jobs
            v.known;
    }

-- both branches of a conditional
if-Both {ℓ κ} :
    {A : Type ℓ} (P : A → Type κ) (b : Bool) (x y : A) → P x → P y → P (if b then x else y)
if-Both P true x y p q = p
if-Both P false x y p q = q

changed-IsValid :
    (id : ℕ) (retire : Bool) (i : Invalidator) → IsValid i → IsValid (changed id retire i)
unfolding changed
changed-IsValid id retire i v =
    let f = λ (c : Change). record c { dirty = true; retired = c.retired || retire } in
    if-Both IsValid i.closed i (record i { jobs = update id f i.jobs; wake = true }) v
      (record {
        bounded = rw (length-update id f i.jobs) v.bounded;
        woken =
            update-All (λ c. c.dirty ≡ true → (i.wake || i.awake) ≡ true)
              (λ c. c.dirty ≡ true → true ≡ true) id f (λ c p h. refl) (λ c p h. refl) i.jobs
              v.woken;
        known =
            update-All (λ c. c.id < i.fresh) (λ c. c.id < i.fresh) id f (λ c p. p) (λ c p. p) i.jobs
              v.known;
      })

receive-IsValid : (i : Invalidator) → IsValid i → IsValid (receive i)
unfolding receive
receive-IsValid i v =
    if-Both IsValid (i.wake && not i.awake) (record i { wake = false; awake = true }) i
      (record {
        bounded = v.bounded;
        woken =
            All-map (λ c. c.dirty ≡ true → (i.wake || i.awake) ≡ true)
              (λ c. c.dirty ≡ true → true ≡ true) (λ c p h. refl) i.jobs v.woken;
        known = v.known;
      })
      v

collect-IsValid : (i : Invalidator) → IsValid i → IsValid (collect i).1
unfolding collect
collect-IsValid i v =
    if-Both (λ (r : List ℕ × Invalidator). IsValid r.1) i.awake
      (dirty_ids i.jobs, record i { jobs = clear_dirty i.jobs; awake = false }) ([], i)
      (record {
        bounded = rw (length-clear_dirty i.jobs) v.bounded;
        woken = clear_dirty-IsWoken (i.wake || false) i.jobs;
        known = clear_dirty-known i.fresh i.jobs v.known;
      })
      v

stop-IsValid : (i : Invalidator) → IsValid i → IsValid (stop i)
unfolding stop
stop-IsValid i v =
    if-Both IsValid (i.closed && not i.awake) (record i { jobs = [] }) i
      (record { bounded = omega arith; woken = tt; known = tt }) v

step-IsValid : (s : Section) (i : Invalidator) → IsValid i → IsValid (step s i)
unfolding step finish close
step-IsValid (reserving targets) i v = reserve-IsValid targets i v
step-IsValid (adding id inode) i v = add-IsValid id inode i v
step-IsValid (changing id retire) i v = changed-IsValid id retire i v
step-IsValid receiving i v = receive-IsValid i v
step-IsValid collecting i v = collect-IsValid i v
step-IsValid (failing code) i v =
    let (k, e, kept) = failure-code code i in
    rw e (record { bounded = v.bounded; woken = v.woken; known = v.known })
step-IsValid (finishing id) i v = record {
  bounded = omega (arith, length-keep_unfinished-le id i.jobs, v.bounded);
  woken = keep_unfinished-All (λ c. c.dirty ≡ true → (i.wake || i.awake) ≡ true) id i.jobs v.woken;
  known = keep_unfinished-All (λ c. c.id < i.fresh) id i.jobs v.known;
}
step-IsValid closing i v = record { bounded = v.bounded; woken = v.woken; known = v.known }
step-IsValid stopping i v = stop-IsValid i v

-- Every sequence of sections under the mutex and receives of a signal keeps the number of
-- reserved changes within the limit, the pointers of reserved changes below the next one, so that
-- a new change is none of them, and, whenever a reserved change is dirty, a signal that is
-- pending or that run has received for a batch which it has not yet collected.
pub run_sections-IsValid :
    (ss : List Section) (i : Invalidator) → IsValid i → IsValid (run_sections ss i)
unfolding run_sections
run_sections-IsValid [] i v = v
run_sections-IsValid (s ∷ ss) i v = run_sections-IsValid ss (step s i) (step-IsValid s i v)
