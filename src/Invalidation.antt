-- ===== src/Invalidation.antt =====
-- internal/fusefs/invalidation_linux.go: the coordinator of kernel cache invalidations. Changes are
-- pointers, here numbers that are given out in order; each section under the mutex is a function, and
-- so is the receive of a signal, which `run` does outside the mutex.
pub mod Delivery
pub mod Failures
pub mod Batches
pub mod Notifications
mod Examples
use fabric_workspace_fs.Prelude.{
  ℕ, ◌+◌, Bool, true, false, not, ◌&&◌, ◌||◌, List, [], ◌∷◌, ◌++◌, leb, ◌==◌, if◌then◌else◌, length,
}
use fabric_workspace_fs.Errors.{Result, ok, err, no_device, again, external}
use fabric_workspace_fs.Bytes.{Bytes}
use fabric_workspace_fs.Names.{is_nil}

abbrev pub max_invalidations : ℕ
max_invalidations = 256

-- `ENOENT`, `EAGAIN` and `ENODEV`; zero is no error
abbrev pub enoent : ℕ
enoent = 2

abbrev pub eagain : ℕ
eagain = 11

abbrev pub enodev : ℕ
enodev = 19

pub record Target : Type 0 where
  pub inode : ℕ
  pub name : Bytes

pub record Change : Type 0 where
  pub id : ℕ
  pub targets : List Target
  pub dirty : Bool
  pub retired : Bool

-- `wake` says whether the channel of one place holds a signal, `awake` whether `run` has received one
-- and has not yet collected its batch; `fresh` is the next pointer.
pub record Invalidator : Type 0 where
  pub jobs : List Change
  pub limit : ℕ
  pub code : ℕ
  pub closed : Bool
  pub wake : Bool
  pub awake : Bool
  pub fresh : ℕ

abbrev pub new_invalidator : Invalidator
new_invalidator = record {
  jobs = [];
  limit = max_invalidations;
  code = 0;
  closed = false;
  wake = false;
  awake = false;
  fresh = 0;
}

abbrev pub new_change : ℕ → List Target → Change
new_change id targets = record { id = id; targets = targets; dirty = false; retired = false }

-- `reserve`: the errno, or the change
unfoldable pub refusal : Invalidator → ℕ
refusal i =
    if i.closed
    then enodev
    else if not (i.code == 0)
    then i.code
    else if leb i.limit (length i.jobs)
    then eagain
    else 0

unfoldable pub reserve : List Target → Invalidator → ℕ × Invalidator
unfolding refusal
reserve targets i =
    if refusal i == 0
    then (0, record i { jobs = new_change i.fresh targets ∷ i.jobs; fresh = i.fresh + 1 })
    else (refusal i, i)

unfoldable pub check : Invalidator → ℕ
check i = if i.closed then enodev else i.code

-- the object behind a pointer, if the coordinator still holds it
unfoldable pub update : ℕ → (Change → Change) → List Change → List Change
update id f [] = []
update id f (c ∷ cs) = (if c.id == id then f c else c) ∷ update id f cs

unfoldable pub add : ℕ → ℕ → Invalidator → Invalidator
add id inode i = record i {
  jobs =
      update id
        (λ c. record c { targets = c.targets ++ (record { inode = inode; name = [] } ∷ []) })
        i.jobs;
}

unfoldable pub changed : ℕ → Bool → Invalidator → Invalidator
changed id retire i = if i.closed then i else record i {
  jobs = update id (λ c. record c { dirty = true; retired = c.retired || retire }) i.jobs;
  wake = true;
}

-- the receive from `wake`, where `run` waits for it
unfoldable pub receive : Invalidator → Invalidator
receive i = if i.wake && not i.awake then record i { wake = false; awake = true } else i

-- the section of `run` that collects the batch
unfoldable pub dirty_ids : List Change → List ℕ
dirty_ids [] = []
dirty_ids (c ∷ cs) = let rest = dirty_ids cs in if c.dirty then c.id ∷ rest else rest

unfoldable pub clear_dirty : List Change → List Change
clear_dirty [] = []
clear_dirty (c ∷ cs) = record c { dirty = false } ∷ clear_dirty cs

unfoldable pub collect : Invalidator → List ℕ × Invalidator
collect i =
    if i.awake
    then (dirty_ids i.jobs, record i { jobs = clear_dirty i.jobs; awake = false })
    else ([], i)

-- a call of the notifier
pub data Call : Type 0 where
  attr : ℕ → Call
  entry : ℕ → Bytes → Call

-- one round of the loop over `entries`
unfoldable pub round : Bool → List Target → List Call
round entries [] = []
round entries (t ∷ ts) =
    let rest = round entries ts in
    if (if entries then is_nil t.name else not (is_nil t.name))
    then rest
    else if entries
    then entry t.inode t.name ∷ rest
    else attr t.inode ∷ rest

-- the calls of the notifier for the targets of a change, in their order
unfoldable pub notifications : List Target → List Call
unfolding round
notifications ts = round false ts ++ round true ts

unfoldable pub failure : ℕ → Invalidator → Invalidator
failure code i =
    if code == 0 || code == enoent
    then i
    else if not i.closed && i.code == 0
    then record i { code = code }
    else i

-- the end of a round of the batch: a retired change that is clean leaves
unfoldable pub is_done : ℕ → Change → Bool
is_done id c = c.id == id && c.retired && not c.dirty

unfoldable pub keep_unfinished : ℕ → List Change → List Change
keep_unfinished id [] = []
keep_unfinished id (c ∷ cs) =
    let rest = keep_unfinished id cs in if is_done id c then rest else c ∷ rest

unfoldable pub finish : ℕ → Invalidator → Invalidator
finish id i = record i { jobs = keep_unfinished id i.jobs }

unfoldable pub close : Invalidator → Invalidator
close i = record i { closed = true }

-- the end of `run`, where it waits and is told to stop
unfoldable pub stop : Invalidator → Invalidator
stop i = if i.closed && not i.awake then record i { jobs = [] } else i
