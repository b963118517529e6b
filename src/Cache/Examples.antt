-- ===== src/Cache/Examples.antt =====
-- Small runs of the cache of internal/cache/cache.go, and its theorems at concrete inputs.
use mathlib.Core.Option
use fabric_workspace_fs.Cache.Wellformed.{IsLinked, link-IsLinked}
use fabric_workspace_fs.Cache.Safety.{get_within-IsValid}
use fabric_workspace_fs.Cache.{Error}
use fabric_workspace_fs.Prelude.{
  is_some, ℕ, String, ◌≡◌, refl, Option, none, some, List, [], ◌∷◌, arith, true, if◌then◌else◌,
}
use fabric_workspace_fs.Prelude.Int.{pos}
use fabric_workspace_fs.Keyed.{find, without, store, total}
use fabric_workspace_fs.Cache.{
  Options, Entry, Cache, ok, new, byte_limit, entry_key, insert_locked, evict_loop, over_budget,
  back, link, heap_push, remove_locked, expire_loop, expire_locked, expired_root,
}
use fabric_workspace_fs.Cache.Wellformed.{live, find-expire_locked}
use fabric_workspace_fs.Cache.Eviction.{Inserted, insert_locked_lem}
use fabric_workspace_fs.Cache.Requests.{
  returned, Prepared, prepare, clone, measure, observation, lookup_locked, get_within, refusal,
  young, take_hit, miss_locked, count_miss, complete, is_current, final_outcome, drop_flight,
  drop_entry, publish,
}
use fabric_workspace_fs.Cache.Runs.{
  Event, request, finish, step, run, invalidate, peek_within, stats,
}
use fabric_workspace_fs.Cache.Safety.{IsValid, new-IsValid, Advances}
use fabric_workspace_fs.Cache.Interleavings.{run-IsValid, complete-invalidate}
use fabric_workspace_fs.Cache.Reads.{
  value_of, entry_value, usable, lookup_locked-usable, lookup_locked-complete, peek_within-usable,
}

program : Unit {0}
unfolding new byte_limit insert_locked evict_loop over_budget back link heap_push remove_locked
    expire_loop expire_locked expired_root find without store total prepare clone measure
    observation lookup_locked get_within refusal young take_hit miss_locked count_miss complete
    is_current final_outcome drop_flight drop_entry publish step run Option.bind invalidate
    peek_within stats
program = tt

-- two entries at most, each kept for ten ticks
abbrev small : Options ℕ
small = record {
  ttl = pos 10;
  max_entries = pos 2;
  max_bytes = pos 100;
  size = some (λ n. pos n);
  clone = none;
  observed_at = none;
}

abbrev lead : String → ℕ → Event ℕ
lead key now = request (some none) none key (pos 10) (pos 10) true now

abbrev land : String → ℕ → ℕ → ℕ → Event ℕ
land key id now v = finish none none key id (pos 10) (pos 10) now (returned v)

-- three loads, of which the least recent is evicted
abbrev loads : List (Event ℕ)
loads =
    lead "a" 1
    ∷ land "a" 0 1 7
    ∷ lead "b" 2
    ∷ land "b" 1 2 8
    ∷ lead "a" 3
    ∷ lead "c" 4
    ∷ land "c" 2 4 9
    ∷ []

abbrev keys_of : List (Entry ℕ) → List String
keys_of [] = []
keys_of (e ∷ l) = e.key ∷ keys_of l

abbrev held : Option (Cache ℕ) → List String
held none = []
held (some c) = keys_of c.entries

loads_evict_b : held (run loads (new small)) ≡ "c" ∷ "a" ∷ []
unfolding program
loads_evict_b = refl

run-IsValid_example :
    (d : Cache ℕ) × (run loads (new small) ≡ some d) × IsValid small d × Advances (new small) d
run-IsValid_example = run-IsValid loads (new small) (new-IsValid small)

abbrev pending : Cache ℕ
pending = (get_within (some none) none "a" (pos 10) (pos 10) true 1 (new small)).1

pending-IsValid : IsValid small pending
pending-IsValid =
    get_within-IsValid (some none) none "a" (pos 10) (pos 10) true 1 (new small) (new-IsValid small)

complete-invalidate_example :
    (d : Cache ℕ) × (run (lead "a" 2 ∷ []) (invalidate "a" pending) ≡ some d)
    × ((ctx : Option Error) (p : Prepared ℕ)
        → complete ctx "a" 0 p d ≡ some (d, final_outcome ctx p.outcome))
unfolding program
complete-invalidate_example =
    complete-invalidate "a" 0 (lead "a" 2 ∷ []) pending pending-IsValid (omega arith)

abbrev good : Prepared ℕ
good = record { outcome = ok 7; size = 7; now = 2; observed = 2; retain = pos 10 }

lookup_locked-complete_example :
    (d : Cache ℕ) × (complete none "a" 0 good pending ≡ some (d, ok 7))
    × (value_of (lookup_locked "a" (pos 5) true 6 d).0 ≡ some 7)
unfolding program
lookup_locked-complete_example =
    lookup_locked-complete none "a" 0 good 7 pending (pos 5) true 6 pending-IsValid.linked
      pending-IsValid.bounded (omega arith) refl refl (omega arith) refl (omega arith) refl refl

abbrev kept_a : Entry ℕ
kept_a = record { key = "a"; value = 7; size = 7; observed = 2; expires = 12 }

abbrev holding : Cache ℕ
holding = link kept_a (new small)

holding-IsLinked : IsLinked holding
unfolding find new
holding-IsLinked = link-IsLinked (new small) kept_a (new-IsValid small).linked refl

lookup_locked-usable_example :
    value_of (lookup_locked "a" (pos 5) true 6 holding).0
    ≡ entry_value (usable (pos 5) 6 (find entry_key "a" holding.entries))
lookup_locked-usable_example = lookup_locked-usable "a" (pos 5) true 6 holding holding-IsLinked

peek_within-usable_example : (peek_within "a" (pos 5) 6 holding).0 ≡ (
    if is_some holding.config_err
    then none
    else Option.map
        (λ e. (clone holding.options e.value, e.observed))
        (usable (pos 5) 6 (find entry_key "a" holding.entries)))
peek_within-usable_example = peek_within-usable "a" (pos 5) 6 holding holding-IsLinked

find-expire_locked_example :
    find entry_key "a" (expire_locked 12 holding).entries
    ≡ live 12 (find entry_key "a" holding.entries)
find-expire_locked_example = find-expire_locked 12 holding "a" holding-IsLinked

abbrev kept_b : Entry ℕ
kept_b = record { key = "b"; value = 8; size = 95; observed = 3; expires = 13 }

insert_locked_example :
    (d : Cache ℕ) × (insert_locked kept_b holding ≡ some d) × Inserted kept_b holding d
unfolding program
insert_locked_example =
    insert_locked_lem kept_b holding holding-IsLinked
      (record { count = omega arith; bytes = omega arith }) (omega arith) refl
