-- ===== src/Cache/Runs.antt =====
-- internal/cache/cache.go: `Peek`, the invalidations and `Stats`, and the runs of a cache: each event
-- is one critical section, so a list of events is an interleaving of concurrent callers.
use mathlib.Core.Option
use text.Mathlib.Text.{starts_with}
use fabric_workspace_fs.Prelude.{
  ℕ, ◌^◌, ◌-◌, String, Bool, not, ◌||◌, Option, none, some, List, [], ◌∷◌, if◌then◌else◌, length,
  is_some,
}
use fabric_workspace_fs.Prelude.Int.{ℤ, pos, leb_ℤ}
use fabric_workspace_fs.Keyed.{find}
use fabric_workspace_fs.Cache.{
  Error, Stats, Entry, Flight, Cache, before_add, entry_key, remove_locked, expire_locked,
}
use fabric_workspace_fs.Cache.Requests.{
  Loaded, clone, refusal, get_within, prepare, drop_entry, drop_flight, complete,
}

unfoldable pub keep_flights : String → List Flight → List Flight
keep_flights prefix [] = []
keep_flights prefix (f ∷ l) =
    let rest = keep_flights prefix l in if starts_with f.key prefix then rest else f ∷ rest

module _ {ℓ} {T : Type ℓ} where
  unfoldable pub peek_within : String → ℤ → ℕ → Cache T → Option (T × ℕ) × Cache T
  peek_within key max_age now c =
      let swept = expire_locked now c in
      (
        elim (find entry_key key swept.entries) [
          | none ↦ none
          | some e ↦
              if is_some c.config_err
                || leb_ℤ max_age (pos 0)
                || not (before_add now e.observed max_age)
              then none
              else some (clone c.options e.value, e.observed)
        ],
        swept,
      )

  abbrev pub peek : String → ℕ → Cache T → Option (T × ℕ) × Cache T
  peek key now c = peek_within key (pos (2 ^ 63 - 1)) now c

  unfoldable pub invalidate : String → Cache T → Cache T
  invalidate key c = drop_flight key (drop_entry key c)

  -- the two loops of `InvalidatePrefix`
  unfoldable pub drop_prefixed : String → List (Entry T) → Cache T → Cache T
  drop_prefixed prefix [] c = c
  drop_prefixed prefix (e ∷ l) c =
      drop_prefixed prefix l (if starts_with e.key prefix then remove_locked e c else c)

  unfoldable pub invalidate_prefix : String → Cache T → Cache T
  invalidate_prefix prefix c =
      let dropped = drop_prefixed prefix c.entries c in
      record dropped { flights = keep_flights prefix c.flights }

  unfoldable pub clear : Cache T → Cache T
  clear c = record c { entries = []; flights = []; lru = []; expiry = []; bytes = 0 }

  unfoldable pub stats : ℕ → Cache T → Stats × Cache T
  stats now c =
      let swept = expire_locked now c in
      (
        record (swept.stats) { retained = length swept.entries; retained_bytes = swept.bytes },
        swept,
      )

-- One critical section of some caller. `finish` is the end of a load that a request with the same
-- `max_age` and `retain` started.
pub data Event {ℓ} (T : Type ℓ) : Type ℓ where
  request : Option (Option Error) → Option Error → String → ℤ → ℤ → Bool → ℕ → Event T
  finish : Option Error → Option Error → String → ℕ → ℤ → ℤ → ℕ → Loaded T → Event T
  look : String → ℤ → ℕ → Event T
  forget : String → Event T
  forget_prefix : String → Event T
  reset : Event T
  report : ℕ → Event T

module _ {ℓ} {T : Type ℓ} where
  -- the state after an event; `none` is a panic under the lock
  unfoldable pub step : Event T → Cache T → Option (Cache T)
  step (request ctx locked key max_age retain has_load now) c =
      some (get_within ctx locked key max_age retain has_load now c).1
  step (finish loaded_ctx ctx key id max_age retain now loaded) c =
      elim (refusal (some none) max_age retain c) [
        | some _ ↦ some c
        | none ↦
            Option.map (λ r. r.0)
              (complete ctx key id (prepare c.options loaded_ctx now retain loaded) c)
      ]
  step (look key max_age now) c = some (peek_within key max_age now c).1
  step (forget key) c = some (invalidate key c)
  step (forget_prefix prefix) c = some (invalidate_prefix prefix c)
  step reset c = some (clear c)
  step (report now) c = some (stats now c).1

  unfoldable pub run : List (Event T) → Cache T → Option (Cache T)
  run [] c = some c
  run (e ∷ es) c = Option.bind (step e c) (run es)
