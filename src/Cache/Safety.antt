-- ===== src/Cache/Safety.antt =====
-- internal/cache/cache.go: whatever critical sections concurrent callers run, in whatever order, the
-- cache stays well formed and within its limits, and no section panics.

use fabric_workspace_fs.Prelude.{
  ℕ, ◌≤◌, ◌<◌, String, ◌≡◌, refl, ◌∙◌, ap, ◌⊎◌, inl, inr, Option, none, some, arith, eq_iff, Bool,
  true, false, Bool-cases, Option-cases,
}
use fabric_workspace_fs.Prelude.Int.{ℤ, pos, pos_part, ltb_ℤ}
use fabric_workspace_fs.Keyed.{
  key-find, find, without, total, find-without, find-store, store-Unique,
}
use fabric_workspace_fs.Cache.{
  Entry, Cache, Error, Options, Outcome, ok, err, entry_key, expire_locked, new,
}
use fabric_workspace_fs.Cache.Wellformed.{IsLinked, expire_locked-IsLinked}
use fabric_workspace_fs.Cache.Eviction.{
  Shrinks, expire_locked-Shrinks, IsBounded, Shrinks-IsBounded,
}
use fabric_workspace_fs.Cache.Requests.{
  flight_key, Prepared, Loaded, returned, failed, panicked, refusal, young, take_hit, miss_locked,
  count_miss, lookup_locked, get_within, drop_flight, complete, is_current, final_outcome, prepare,
}
use fabric_workspace_fs.Cache.Publication.{complete-Published}

Outcome-cases {ℓ} :
    {T : Type ℓ} (r : Outcome T) → ((e : Error) × (r ≡ err e)) ⊎ ((v : T) × (r ≡ ok v))
Outcome-cases (err e) = inl (e, refl)
Outcome-cases (ok v) = inr (v, refl)

module _ {ℓ} {T : Type ℓ} where
  -- the invariant of the cache with options `o`
  pub record IsValid (o : Options T) (c : Cache T) : Type ℓ where
    pub linked : IsLinked c
    pub bounded : IsBounded c
    pub options : c.options ≡ o

  pub new-IsValid : (o : Options T) → IsValid o (new o)
  unfolding new total
  new-IsValid o = record {
    linked = record {
      unique = tt;
      lru_unique = tt;
      expiry_unique = tt;
      lru_same = λ k. refl;
      expiry_same = λ k. refl;
      ordered = tt;
      bytes_total = refl;
    };
    bounded = record { count = omega arith; bytes = omega arith };
    options = refl;
  }

  pub shrunk :
      {o : Options T} (c d : Cache T) → IsValid o c → IsLinked d → Shrinks c d → IsValid o d
  shrunk c d v w s = record {
    linked = w;
    bounded = Shrinks-IsBounded c d s v.bounded;
    options = s.options ∙ v.options;
  }

  pub expire_locked-IsValid :
      {o : Options T} (now : ℕ) (c : Cache T) → IsValid o c → IsValid o (expire_locked now c)
  expire_locked-IsValid now c v =
      shrunk c (expire_locked now c) v (expire_locked-IsLinked now c v.linked)
        (expire_locked-Shrinks now c)

  -- No flight that was allocated before comes back under a key once it is detached from it.
  pub record Advances (c d : Cache T) : Type ℓ where
    pub next_flight : c.next_flight ≤ d.next_flight
    pub detached :
        (k : String) (id : ℕ)
        → id < c.next_flight
        → is_current k id c ≡ false
        → is_current k id d ≡ false

  pub Advances-refl : (c : Cache T) → Advances c c
  Advances-refl c = record { next_flight = omega arith; detached = λ k id l h. h }

  pub Advances-trans : (a b c : Cache T) → Advances a b → Advances b c → Advances a c
  Advances-trans a b c p q = record {
    next_flight = omega (arith, p.next_flight, q.next_flight);
    detached = λ k id l h. q.detached k id (omega (arith, p.next_flight)) (p.detached k id l h);
  }

  pub Advances-same :
      (c d : Cache T) → d.flights ≡ c.flights → d.next_flight ≡ c.next_flight → Advances c d
  unfolding is_current
  Advances-same c d f n = record { next_flight = rw n (omega arith); detached = λ k id l h. rw f h }

  pub Advances-without :
      (key : String) (c d : Cache T)
      → d.flights ≡ without flight_key key c.flights
      → d.next_flight ≡ c.next_flight
      → Advances c d
  unfolding is_current
  Advances-without key c d f n = record {
    next_flight = rw n (omega arith);
    detached = λ k id l h. rw f (ground (arith, find-without flight_key key k c.flights));
  }

  -- a change of the counters and the flights alone
  pub relabelled :
      {o : Options T} (c d : Cache T)
      → IsValid o c
      → d ≡ record c { stats = d.stats; flights = d.flights; next_flight = d.next_flight }
      → IsValid o d
  relabelled {o} c d v e = rw e (record {
    linked = record {
      unique = v.linked.unique;
      lru_unique = v.linked.lru_unique;
      expiry_unique = v.linked.expiry_unique;
      lru_same = v.linked.lru_same;
      expiry_same = v.linked.expiry_same;
      ordered = v.linked.ordered;
      bytes_total = v.linked.bytes_total;
    };
    bounded = record { count = v.bounded.count; bytes = v.bounded.bytes };
    options = v.options;
  })

  young_found :
      (key : String) (max_age : ℤ) (now : ℕ) (c : Cache T) (e : Entry T)
      → young key max_age now c ≡ some e
      → find entry_key key c.entries ≡ some e
  unfolding young
  young_found key max_age now c e h = ground arith

  take_hit-IsValid :
      {o : Options T} (c : Cache T) (e : Entry T)
      → IsValid o c
      → find entry_key e.key c.entries ≡ some e
      → IsValid o (take_hit e c).1
  unfolding take_hit
  take_hit-IsValid c e v h = record {
    linked = record {
      unique = v.linked.unique;
      lru_unique = store-Unique entry_key e c.lru v.linked.lru_unique;
      expiry_unique = v.linked.expiry_unique;
      lru_same =
          λ k. ground (arith, find-store entry_key e k c.lru, eq_iff e.key k, v.linked.lru_same k);
      expiry_same = v.linked.expiry_same;
      ordered = v.linked.ordered;
      bytes_total = v.linked.bytes_total;
    };
    bounded = record { count = v.bounded.count; bytes = v.bounded.bytes };
    options = v.options;
  }

  miss-IsValid :
      {o : Options T} (key : String) (has_load : Bool) (c : Cache T)
      → IsValid o c
      → IsValid o (miss_locked key has_load (count_miss c)).1
  unfolding miss_locked count_miss
  miss-IsValid key has_load c v =
      relabelled c (miss_locked key has_load (count_miss c)).1 v (ground arith)

  lookup_locked-IsValid :
      {o : Options T} (key : String) (max_age : ℤ) (has_load : Bool) (now : ℕ) (c : Cache T)
      → IsValid o c
      → IsValid o (lookup_locked key max_age has_load now c).1
  unfolding lookup_locked
  lookup_locked-IsValid key max_age has_load now c v =
      let swept = expire_locked now c in
      let v' = expire_locked-IsValid now c v in
      elim (Option-cases (young key max_age now swept)) [
        | inl n ↦ rw (n, lookup_locked) (miss-IsValid key has_load swept v')
        | inr (e, s) ↦
            let f = young_found key max_age now swept e s in
            rw (s, lookup_locked)
              (take_hit-IsValid swept e v' (
                ap (λ k. find entry_key k swept.entries) (key-find entry_key key swept.entries e f)
                ∙ f))
      ]

  pub get_within-IsValid :
      {o : Options T} (ctx : Option (Option Error)) (locked : Option Error) (key : String)
      (max_age retain : ℤ) (has_load : Bool) (now : ℕ) (c : Cache T)
      → IsValid o c
      → IsValid o (get_within ctx locked key max_age retain has_load now c).1
  unfolding get_within
  get_within-IsValid ctx locked key max_age retain has_load now c v =
      elim (Option-cases (refusal ctx max_age retain c)) [
        | inr (e, s) ↦ rw (s, get_within) v
        | inl n ↦ elim (Option-cases locked) [
          | inr (e, s) ↦ rw (n, s, get_within) v
          | inl m ↦ rw (n, m, get_within) (lookup_locked-IsValid key max_age has_load now c v)
        ]
      ]

  -- a positive retention is refused where nothing can be retained
  pub room_to_retain :
      (ctx : Option (Option Error)) (max_age retain : ℤ) (c : Cache T)
      → refusal ctx max_age retain c ≡ none
      → ltb_ℤ (pos 0) retain ≡ true
      → 0 < pos_part c.options.max_entries
  unfolding refusal
  room_to_retain ctx max_age retain c h r = ground arith

  -- a retention that the request accepted, or that of a panic
  abbrev pub HasRoom : Prepared T → Cache T → Type 0
  HasRoom p c = ltb_ℤ (pos 0) p.retain ≡ true → 0 < pos_part c.options.max_entries

  pub prepare-HasRoom :
      (ctx : Option (Option Error)) (e : Option Error) (max_age retain : ℤ) (now : ℕ) (l : Loaded T)
      (c : Cache T)
      → refusal ctx max_age retain c ≡ none
      → HasRoom (prepare c.options e now retain l) c
  unfolding prepare
  prepare-HasRoom ctx e max_age retain now panicked c h = λ r. absurd (ground arith)
  prepare-HasRoom ctx e max_age retain now (failed f) c h = room_to_retain ctx max_age retain c h
  prepare-HasRoom ctx none max_age retain now (returned v) c h =
      room_to_retain ctx max_age retain c h
  prepare-HasRoom ctx (some f) max_age retain now (returned v) c h =
      room_to_retain ctx max_age retain c h

  -- `complete` never panics and keeps the invariant.
  pub complete-IsValid :
      {o : Options T} (ctx : Option Error) (key : String) (id : ℕ) (p : Prepared T) (c : Cache T)
      → IsValid o c
      → HasRoom p c
      → (d : Cache T) × (complete ctx key id p c ≡ some (d, final_outcome ctx p.outcome))
        × IsValid o d
        × Advances c d
  unfolding complete
  complete-IsValid ctx key id p c v room = elim (Bool-cases (is_current key id c)) [
    | inr old ↦ (c, rw old, v, Advances-refl c)
    | inl current ↦ elim (Outcome-cases (final_outcome ctx p.outcome)) [
      | inl (e, f) ↦ (
        drop_flight key c,
        rw (current, f, complete),
        unfold drop_flight in relabelled c (drop_flight key c) v refl,
        Advances-without key c (drop_flight key c) (unfold drop_flight in refl)
            (unfold drop_flight in refl),
      )
      | inr (w, f) ↦
          let (d, r, g) = complete-Published ctx key id p w c v.linked v.bounded room current f in
          (
            d,
            r ∙ rw f,
            record {
              linked = g.linked;
              bounded = g.bounded;
              options = unfold drop_flight in (g.options ∙ v.options);
            },
            Advances-without key c d (unfold drop_flight in g.flights)
                (unfold drop_flight in g.next_flight),
          )
    ]
  ]

  miss-Advances :
      (key : String) (has_load : Bool) (c : Cache T)
      → Advances c (miss_locked key has_load (count_miss c)).1
  unfolding miss_locked count_miss is_current
  miss-Advances key has_load c = record {
    next_flight = ground arith;
    detached = λ k id l h. unfold find in ground (arith, eq_iff key k);
  }

  lookup_locked-Advances :
      (key : String) (max_age : ℤ) (has_load : Bool) (now : ℕ) (c : Cache T)
      → Advances c (lookup_locked key max_age has_load now c).1
  unfolding lookup_locked
  lookup_locked-Advances key max_age has_load now c =
      let swept = expire_locked now c in
      let s = expire_locked-Shrinks now c in
      elim (Option-cases (young key max_age now swept)) [
        | inl n ↦
            rw (n, lookup_locked)
              (Advances-trans c swept (miss_locked key has_load (count_miss swept)).1
                (Advances-same c swept s.flights s.next_flight) (miss-Advances key has_load swept))
        | inr (e, f) ↦
            rw (f, lookup_locked)
              (unfold take_hit in Advances-same c (take_hit e swept).1 s.flights s.next_flight)
      ]

  pub get_within-Advances :
      (ctx : Option (Option Error)) (locked : Option Error) (key : String) (max_age retain : ℤ)
      (has_load : Bool) (now : ℕ) (c : Cache T)
      → Advances c (get_within ctx locked key max_age retain has_load now c).1
  unfolding get_within
  get_within-Advances ctx locked key max_age retain has_load now c =
      elim (Option-cases (refusal ctx max_age retain c)) [
        | inr (e, s) ↦ rw (s, get_within) (Advances-refl c)
        | inl n ↦ elim (Option-cases locked) [
          | inr (e, s) ↦ rw (n, s, get_within) (Advances-refl c)
          | inl m ↦ rw (n, m, get_within) (lookup_locked-Advances key max_age has_load now c)
        ]
      ]
