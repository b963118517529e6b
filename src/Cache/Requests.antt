-- ===== src/Cache/Requests.antt =====
-- internal/cache/cache.go: the requests. `GetWithin` is two critical sections: `lookup_locked`
-- before the loader runs and `complete` after it; between them other sections may run.
use mathlib.Core.Option
use fabric_workspace_fs.Prelude.{
  ℕ, ◌+◌, String, Bool, false, ◌&&◌, ◌||◌, Option, none, some, ◌∷◌, ◌==◌, ltb, if◌then◌else◌,
}
use fabric_workspace_fs.Prelude.Int.{ℤ, pos, pos_part, is_neg, ltb_ℤ, leb_ℤ}
use fabric_workspace_fs.Keyed.{find, without, store}
use fabric_workspace_fs.Cache.{
  Error, Options, Entry, Flight, Outcome, Cache, ok, err, next_u64, before_add, add_duration,
  entry_key, remove_locked, expire_locked, insert_locked, invalid_age, nil_context, missing_loader,
  future_observation, negative_size, load_aborted,
}

abbrev pub flight_key : Flight → String
flight_key f = f.key

-- What the first half of a request finds.
pub data Begun {ℓ} (T : Type ℓ) : Type ℓ where
  refused : Error → Begun T
  hit : T → Begun T
  joined : ℕ → Begun T
  leading : ℕ → Begun T

-- What the loader does.
pub data Loaded {ℓ} (T : Type ℓ) : Type ℓ where
  returned : T → Loaded T
  failed : Error → Loaded T
  panicked : Loaded T

-- The arguments that `runLoad` hands to `complete`.
pub record Prepared {ℓ} (T : Type ℓ) : Type ℓ where
  pub outcome : Outcome T
  pub size : ℕ
  pub now : ℕ
  pub observed : ℕ
  pub retain : ℤ

module _ {ℓ} {T : Type ℓ} where
  unfoldable pub clone : Options T → T → T
  clone o v = elim o.clone [ none ↦ v | some f ↦ f v ]

  -- The checks before the lock. `ctx` is absent for a nil context, and else the first `ctx.Err()`.
  unfoldable pub refusal : Option (Option Error) → ℤ → ℤ → Cache T → Option Error
  refusal ctx max_age retain c = elim c.config_err [
    | some e ↦ some e
    | none ↦
        if is_neg max_age
          || is_neg retain
          || ltb_ℤ (pos 0) retain && leb_ℤ c.options.max_entries (pos 0)
        then some invalid_age
        else elim ctx [ none ↦ some nil_context | some e ↦ e ]
  ]

  unfoldable pub count_miss : Cache T → Cache T
  count_miss c = record c { stats = record (c.stats) { misses = next_u64 c.stats.misses } }

  -- a miss joins the pending load of the key or starts one
  unfoldable pub miss_locked : String → Bool → Cache T → Begun T × Cache T
  miss_locked key has_load c = elim (find flight_key key c.flights) [
    | some f ↦
        (joined f.id, record c { stats = record (c.stats) { shared = next_u64 c.stats.shared } })
    | none ↦
        if has_load
        then (
          leading c.next_flight,
          record c {
            flights = record { key = key; id = c.next_flight } ∷ c.flights;
            next_flight = c.next_flight + 1;
            stats = record (c.stats) { loads = next_u64 c.stats.loads };
          },
        )
        else (refused missing_loader, c)
  ]

  unfoldable pub take_hit : Entry T → Cache T → Begun T × Cache T
  take_hit e c = (
    hit e.value,
    record c {
      stats = record (c.stats) { hits = next_u64 c.stats.hits };
      lru = store entry_key e c.lru;
    },
  )

  -- a retained entry under the key that is younger than `max_age`
  unfoldable pub young : String → ℤ → ℕ → Cache T → Option (Entry T)
  young key max_age now c = elim (find entry_key key c.entries) [
    | none ↦ none
    | some e ↦ if ltb_ℤ (pos 0) max_age && before_add now e.observed max_age then some e else none
  ]

  -- The section of `GetWithin` under the lock, the check of the context apart.
  unfoldable pub lookup_locked : String → ℤ → Bool → ℕ → Cache T → Begun T × Cache T
  lookup_locked key max_age has_load now c =
      let swept = expire_locked now c in
      elim (young key max_age now swept) [
        | some e ↦ take_hit e swept
        | none ↦ miss_locked key has_load (count_miss swept)
      ]

  -- `GetWithin` up to the loader: `ctx` as above, `locked` the second `ctx.Err()`.
  unfoldable pub get_within :
      Option (Option Error) → Option Error → String → ℤ → ℤ → Bool → ℕ → Cache T → Begun T × Cache T
  get_within ctx locked key max_age retain has_load now c = elim (refusal ctx max_age retain c) [
    | some e ↦ (refused e, c)
    | none ↦ elim locked [
      | some e ↦ (refused e, c)
      | none ↦ lookup_locked key max_age has_load now c
    ]
  ]

  abbrev pub get_with_ttl :
      Option (Option Error) → Option Error → String → ℤ → Bool → ℕ → Cache T → Begun T × Cache T
  get_with_ttl ctx locked key ttl has_load now c = get_within ctx locked key ttl ttl has_load now c

  abbrev pub get :
      Option (Option Error) → Option Error → String → Bool → ℕ → Cache T → Begun T × Cache T
  get ctx locked key has_load now c =
      get_within ctx locked key c.options.ttl c.options.ttl has_load now c

  -- `options.Size`, where retention asks for it
  unfoldable pub measure : Options T → ℤ → T → ℤ
  measure o retain v =
      if ltb_ℤ (pos 0) retain then elim o.size [ none ↦ pos 0 | some f ↦ f v ] else pos 0

  -- the observation time: that of the source, unless it has none
  unfoldable pub observation : Options T → ℕ → T → ℕ
  observation o now v = elim o.observed_at [ none ↦ now | some f ↦ if f v == 0 then now else f v ]

  abbrev pub rejected : Error → ℤ → Prepared T
  rejected e retain = record { outcome = err e; size = 0; now = 0; observed = 0; retain = retain }

  -- The body of `runLoad` between the loader and `complete`; `ctx` is `ctx.Err()` after the load. A
  -- panic comes from the loader; a callback's is not modelled.
  unfoldable pub prepare : Options T → Option Error → ℕ → ℤ → Loaded T → Prepared T
  prepare o ctx now retain panicked = rejected load_aborted (pos 0)
  prepare o ctx now retain (failed e) = rejected e retain
  prepare o ctx now retain (returned v) = elim ctx [
    | some e ↦ rejected e retain
    | none ↦
        let w = clone o v in
        record {
          outcome =
              if is_neg (measure o retain w)
              then err negative_size
              else if ltb now (observation o now w)
              then err future_observation
              else ok w;
          size = pos_part (measure o retain w);
          now = now;
          observed = observation o now w;
          retain = retain;
        }
  ]

  -- `f.value` and `f.err` after `complete`; `ctx` is its `ctx.Err()`
  unfoldable pub final_outcome : Option Error → Outcome T → Outcome T
  final_outcome ctx (err e) = err e
  final_outcome none (ok v) = ok v
  final_outcome (some e) (ok v) = err e

  -- `c.flights[key] == f`
  unfoldable pub is_current : String → ℕ → Cache T → Bool
  is_current key id c = elim (find flight_key key c.flights) [ none ↦ false | some f ↦ f.id == id ]

  unfoldable pub drop_entry : String → Cache T → Cache T
  drop_entry key c = elim (find entry_key key c.entries) [ none ↦ c | some e ↦ remove_locked e c ]

  unfoldable pub drop_flight : String → Cache T → Cache T
  drop_flight key c = record c { flights = without flight_key key c.flights }

  abbrev pub new_entry : String → Prepared T → T → Entry T
  new_entry key p v = record {
    key = key;
    value = v;
    size = p.size;
    observed = p.observed;
    expires = add_duration p.observed p.retain;
  }

  -- the successful branch of `complete`, once the flight is removed
  unfoldable pub publish : String → Prepared T → T → Cache T → Option (Cache T)
  publish key p v c =
      let cleared = drop_entry key (expire_locked p.now c) in
      if ltb_ℤ (pos 0) p.retain && before_add p.now p.observed p.retain
      then insert_locked (new_entry key p v) cleared
      else some cleared

  -- `none` is the panic of `insertLocked`; `id` is the flight that the leader holds
  unfoldable pub complete :
      Option Error → String → ℕ → Prepared T → Cache T → Option (Cache T × Outcome T)
  complete ctx key id p c =
      if is_current key id c
      then elim (final_outcome ctx p.outcome) [
        | err e ↦ some (drop_flight key c, err e)
        | ok v ↦ Option.map (λ d. (d, ok v)) (publish key p v (drop_flight key c))
      ]
      else some (c, final_outcome ctx p.outcome)

  -- `result`: `before` and `after` are the two readings of `ctx.Err()`
  unfoldable pub result : Options T → Option Error → Option Error → Outcome T → Outcome T
  result o (some e) after r = err e
  result o none after (err e) = err e
  result o none none (ok v) = ok (clone o v)
  result o none (some e) (ok v) = err e
