-- ===== src/Cache.antt =====
-- internal/cache/cache.go: the bounded, expiring cache with shared loads. Each critical section
-- under `c.mu` is one function from a state of the cache to the next. The clock, the errors of the
-- context and what the loader returns are arguments; times are nanoseconds, with 0 the zero time.
mod Heap
pub mod Wellformed
pub mod Eviction
pub mod Requests
pub mod Publication
pub mod Runs
pub mod Safety
pub mod Interleavings
pub mod Reads
mod Examples
use mathlib.Core.Option
use Prim.Native.String.{compare as compare_text}
use Prim.Native.Nat.{Ordering}
use fabric_workspace_fs.Prelude.{
  ℕ, zero, suc, ◌+◌, ◌-◌, ◌%◌, ◌^◌, String, Bool, true, false, ◌&&◌, ◌||◌, Option, none, some, List,
  [], ◌∷◌, ltb, ◌==◌, if◌then◌else◌, length, is_some,
}
use fabric_workspace_fs.Prelude.Int.{ℤ, pos, pos_part, neg_part, is_neg, ltb_ℤ, leb_ℤ}
use fabric_workspace_fs.Keyed.{without}

-- the errors that the cache makes itself, and those of the context and the loader by a number
pub data Error : Type 0 where
  negative_ttl negative_max_entries negative_max_bytes missing_max_entries missing_size : Error
  invalid_age nil_context missing_loader future_observation negative_size load_aborted : Error
  external : ℕ → Error

pub record Options {ℓ} (T : Type ℓ) : Type ℓ where
  pub ttl : ℤ
  pub max_entries : ℤ
  pub max_bytes : ℤ
  pub size : Option (T → ℤ)
  pub clone : Option (T → T)
  pub observed_at : Option (T → ℕ)

pub record Stats : Type 0 where
  pub hits : ℕ
  pub misses : ℕ
  pub loads : ℕ
  pub shared : ℕ
  pub retained : ℕ
  pub retained_bytes : ℕ

-- The pointers of `entry` into the list and the heap are the places of the entry in the lists below.
pub record Entry {ℓ} (T : Type ℓ) : Type ℓ where
  pub key : String
  pub value : T
  pub size : ℕ
  pub observed : ℕ
  pub expires : ℕ

-- A pending load; `id` is the identity of the `*flight` pointer.
pub record Flight : Type 0 where
  pub key : String
  pub id : ℕ

-- What a finished load leaves in its flight.
pub data Outcome {ℓ} (T : Type ℓ) : Type ℓ where
  ok : T → Outcome T
  err : Error → Outcome T

-- `lru` has the most recent entry first, `expiry` the root of the heap; `next_flight` is the
-- identity of the flight that is allocated next.
pub record Cache {ℓ} (T : Type ℓ) : Type ℓ where
  pub options : Options T
  pub config_err : Option Error
  pub entries : List (Entry T)
  pub flights : List Flight
  pub lru : List (Entry T)
  pub expiry : List (Entry T)
  pub bytes : ℕ
  pub stats : Stats
  pub next_flight : ℕ

abbrev pub no_stats : Stats
no_stats = record { hits = 0; misses = 0; loads = 0; shared = 0; retained = 0; retained_bytes = 0 }

-- the counters are `uint64`
abbrev pub next_u64 : ℕ → ℕ
next_u64 n = (n + 1) % 2 ^ 64

-- `now.Before(t.Add(d))`
abbrev pub before_add : ℕ → ℕ → ℤ → Bool
before_add now t d = ltb (now + neg_part d) (t + pos_part d)

-- `t.Add(d)`, for a positive duration
abbrev pub add_duration : ℕ → ℤ → ℕ
add_duration t d = t + pos_part d

-- `expiryHeap.Less`
pub text_less : String → String → Bool
text_less a b = elim (compare_text a b) [ Ordering.lt ↦ true | _ ↦ false ]

module _ {ℓ} {T : Type ℓ} where
  abbrev pub entry_key : Entry T → String
  entry_key e = e.key

  abbrev pub entry_size : Entry T → ℕ
  entry_size e = e.size

  unfoldable pub new : Options T → Cache T
  new o = record {
    options = o;
    config_err =
        if is_neg o.ttl
        then some negative_ttl
        else if is_neg o.max_entries
        then some negative_max_entries
        else if is_neg o.max_bytes
        then some negative_max_bytes
        else if ltb_ℤ (pos 0) o.ttl && pos_part o.max_entries == 0
        then some missing_max_entries
        else if ltb_ℤ (pos 0) o.max_bytes && (if is_some o.size then false else true)
        then some missing_size
        else none;
    entries = [];
    flights = [];
    lru = [];
    expiry = [];
    bytes = 0;
    stats = no_stats;
    next_flight = 0;
  }

  unfoldable pub less : Entry T → Entry T → Bool
  less a b = if a.expires == b.expires then text_less a.key b.key else ltb a.expires b.expires

  -- `heap.Push`: the root of the heap is a least entry, so the heap is kept as a list in order.
  unfoldable pub heap_push : Entry T → List (Entry T) → List (Entry T)
  unfolding less
  heap_push e [] = e ∷ []
  heap_push e (x ∷ xs) = let rest = heap_push e xs in if less e x then e ∷ x ∷ xs else x ∷ rest

  -- `lru.Back()`
  unfoldable pub back : List (Entry T) → Option (Entry T)
  back [] = none
  back (x ∷ []) = some x
  back (x ∷ y ∷ l) = back (y ∷ l)

  unfoldable pub remove_locked : Entry T → Cache T → Cache T
  remove_locked e c = record c {
    entries = without entry_key e.key c.entries;
    lru = without entry_key e.key c.lru;
    expiry = without entry_key e.key c.expiry;
    bytes = c.bytes - e.size;
  }

  -- the test of the loop in `expireLocked`: the root of the heap, if it is expired
  unfoldable pub expired_root : ℕ → List (Entry T) → Option (Entry T)
  expired_root now [] = none
  expired_root now (e ∷ _) = if ltb now e.expires then none else some e

  -- The rounds are bounded by the length of the heap.
  unfoldable pub expire_loop : ℕ → ℕ → Cache T → Cache T
  expire_loop zero now c = c
  expire_loop (suc fuel) now c = elim (expired_root now c.expiry) [
    | none ↦ c
    | some e ↦ expire_loop fuel now (remove_locked e c)
  ]

  unfoldable pub expire_locked : ℕ → Cache T → Cache T
  expire_locked now c = expire_loop (length c.expiry) now c

  -- the limit on bytes, with the largest `int64` where none is configured
  unfoldable pub byte_limit : Options T → ℕ
  byte_limit o = if pos_part o.max_bytes == 0 then 2 ^ 63 - 1 else pos_part o.max_bytes

  -- the test of the loop in `insertLocked`
  unfoldable pub over_budget : ℕ → Cache T → Bool
  unfolding byte_limit
  over_budget size c =
      leb_ℤ c.options.max_entries (pos (length c.entries))
      || ltb (byte_limit c.options - size) c.bytes

  -- `none` is the panic of `Back()` on an empty list
  unfoldable pub evict_loop : ℕ → ℕ → Cache T → Option (Cache T)
  evict_loop zero size c = none
  evict_loop (suc fuel) size c = elim (over_budget size c) [
    | true ↦ elim (back c.lru) [ none ↦ none | some e ↦ evict_loop fuel size (remove_locked e c) ]
    | false ↦ some c
  ]

  unfoldable pub link : Entry T → Cache T → Cache T
  link e c = record c {
    lru = e ∷ c.lru;
    expiry = heap_push e c.expiry;
    entries = e ∷ without entry_key e.key c.entries;
    bytes = c.bytes + e.size;
  }

  unfoldable pub insert_locked : Entry T → Cache T → Option (Cache T)
  unfolding byte_limit
  insert_locked e c =
      if ltb (byte_limit c.options) e.size
      then some c
      else Option.map (link e) (evict_loop (suc (length c.lru)) e.size c)
