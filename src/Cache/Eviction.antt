-- ===== src/Cache/Eviction.antt =====
-- internal/cache/cache.go: `insertLocked` makes room without a panic and within the limits.
use fabric_workspace_fs.Prelude.{
  ℕ, zero, suc, ◌+◌, ◌≤◌, ◌<◌, String, ◌≡◌, refl, ◌∙◌, ap, sym, ◌≢◌, ◌⊎◌, inl, inr, none, some, [],
  arith, eq_iff, if◌then◌else◌, length, ltb, true, false, Bool-cases, Option-cases, List-cases,
}
use mathlib.Core.Path.{subst}
use fabric_workspace_fs.Prelude.Int.{pos_part}
use fabric_workspace_fs.Keyed.{
  find, without, SameFinds, total, find-without, length-without, SameFinds-nil, without_absent,
  find-head, length-without-le,
}
use fabric_workspace_fs.Cache.{
  Entry, Cache, entry_key, entry_size, remove_locked, byte_limit, over_budget, back, evict_loop,
  insert_locked, link, expire_loop, expire_locked, expired_root,
}
use fabric_workspace_fs.Cache.Heap.{find-back, back-some}
use fabric_workspace_fs.Cache.Wellformed.{IsLinked, remove_locked-IsLinked, link-IsLinked}

module _ {ℓ} {T : Type ℓ} where
  -- what the removal of entries leaves alone: all but the entries, and no entry is new
  pub record Shrinks (c d : Cache T) : Type ℓ where
    pub options : d.options ≡ c.options
    pub config_err : d.config_err ≡ c.config_err
    pub flights : d.flights ≡ c.flights
    pub next_flight : d.next_flight ≡ c.next_flight
    pub lengths : length d.entries ≤ length c.entries
    pub bytes : d.bytes ≤ c.bytes
    pub subset :
        (k : String)
        → (find entry_key k d.entries ≡ none)
          ⊎ (find entry_key k d.entries ≡ find entry_key k c.entries)

  pub Shrinks-refl : (c : Cache T) → Shrinks c c
  Shrinks-refl c = record {
    options = refl;
    config_err = refl;
    flights = refl;
    next_flight = refl;
    lengths = omega arith;
    bytes = omega arith;
    subset = λ k. inr refl;
  }

  pub remove_locked-Shrinks : (c : Cache T) (e : Entry T) → Shrinks c (remove_locked e c)
  unfolding remove_locked
  remove_locked-Shrinks c e = record {
    options = refl;
    config_err = refl;
    flights = refl;
    next_flight = refl;
    lengths = length-without-le entry_key e.key c.entries;
    bytes = omega arith;
    subset = λ k. ground (arith, find-without entry_key e.key k c.entries);
  }

  pub Shrinks-trans : (a b c : Cache T) → Shrinks a b → Shrinks b c → Shrinks a c
  Shrinks-trans a b c p q = record {
    options = q.options ∙ p.options;
    config_err = q.config_err ∙ p.config_err;
    flights = q.flights ∙ p.flights;
    next_flight = q.next_flight ∙ p.next_flight;
    lengths = omega (arith, p.lengths, q.lengths);
    bytes = omega (arith, p.bytes, q.bytes);
    subset = λ k. ground (arith, p.subset k, q.subset k);
  }

  -- an empty cache is within its budget
  empty_fits :
      (size : ℕ) (c : Cache T)
      → 0 < pos_part c.options.max_entries
      → length c.entries ≡ 0
      → c.bytes ≡ 0
      → over_budget size c ≢ true
  unfolding over_budget
  empty_fits size c p n b h = ground arith

  over_budget-cons :
      (size : ℕ) (c : Cache T)
      → IsLinked c
      → 0 < pos_part c.options.max_entries
      → over_budget size c ≡ true
      → (e : Entry T) × (back c.lru ≡ some e)
  unfolding over_budget total
  over_budget-cons size c v p h = elim (List-cases c.lru) [
    | inl n ↦
        let none_left : c.entries ≡ [] =
          SameFinds-nil entry_key c.entries
            (subst (λ l. SameFinds entry_key l c.entries) n v.lru_same) in
        absurd (
          empty_fits size c p (ap length none_left)
            (v.bytes_total ∙ ap (total entry_size) none_left) h)
    | inr (x, r, n) ↦ let (e, b) = back-some x r in (e, rw n b)
  ]

  pub record Evicted (size : ℕ) (c d : Cache T) : Type ℓ where
    pub linked : IsLinked d
    pub shrinks : Shrinks c d
    pub fits : over_budget size d ≡ false

  evict_step :
      (fuel size : ℕ) (c : Cache T) (e : Entry T)
      → over_budget size c ≡ true
      → back c.lru ≡ some e
      → evict_loop (suc fuel) size c ≡ evict_loop fuel size (remove_locked e c)
  unfolding evict_loop
  evict_step fuel size c e h b = ground arith

  evict_stop :
      (fuel size : ℕ) (c : Cache T)
      → over_budget size c ≡ false
      → evict_loop (suc fuel) size c ≡ some c
  unfolding evict_loop
  evict_stop fuel size c h = ground arith

  pub evict_loop_lem :
      (fuel size : ℕ) (c : Cache T)
      → IsLinked c
      → 0 < pos_part c.options.max_entries
      → length c.lru < fuel
      → (d : Cache T) × (evict_loop fuel size c ≡ some d) × Evicted size c d
  unfolding evict_loop
  evict_loop_lem zero size c v p h = absurd (omega arith)
  evict_loop_lem (suc fuel) size c v p h = elim (Bool-cases (over_budget size c)) [
    | inl over ↦
        let (e, b) = over_budget-cons size c v p over in
        let in_lru = find-back c.lru e v.lru_unique b in
        let v' = remove_locked-IsLinked c e v (sym (v.lru_same e.key) ∙ in_lru) in
        let s = remove_locked-Shrinks c e in
        let (d, r, g) = evict_loop_lem fuel size (remove_locked e c) v' (rw s.options p) (
          unfold remove_locked in
          omega (arith, length-without entry_key e.key c.lru e v.lru_unique in_lru)) in
        (
          d,
          evict_step fuel size c e over b ∙ r,
          record {
            linked = g.linked;
            shrinks = Shrinks-trans c (remove_locked e c) d s g.shrinks;
            fits = g.fits;
          },
        )
    | inr fits ↦ (
      c,
      evict_stop fuel size c fits,
      record { linked = v; shrinks = Shrinks-refl c; fits = fits },
    )
  ]

  -- the limits of the options
  pub record IsBounded (c : Cache T) : Type ℓ where
    pub count : length c.entries ≤ pos_part c.options.max_entries
    pub bytes : c.bytes ≤ byte_limit c.options

  fits_bounds :
      (size : ℕ) (c : Cache T)
      → over_budget size c ≡ false
      → 0 < pos_part c.options.max_entries
      → size ≤ byte_limit c.options
      → (length c.entries < pos_part c.options.max_entries)
        × (c.bytes + size ≤ byte_limit c.options)
  unfolding over_budget
  fits_bounds size c h p s = ground arith

  link-IsBounded :
      (c : Cache T) (e : Entry T)
      → over_budget e.size c ≡ false
      → 0 < pos_part c.options.max_entries
      → e.size ≤ byte_limit c.options
      → find entry_key e.key c.entries ≡ none
      → IsBounded (link e c)
  unfolding link
  link-IsBounded c e h p s n =
      let b = fits_bounds e.size c h p s in
      record {
        count = rw (without_absent entry_key e.key c.entries n) (omega (arith, b.0));
        bytes = b.1;
      }

  absent_after :
      (e : Entry T) (c d : Cache T)
      → Shrinks c d
      → find entry_key e.key c.entries ≡ none
      → find entry_key e.key d.entries ≡ none
  absent_after e c d s n = ground (arith, s.subset e.key)

  -- what `insertLocked` promises: the invariant and the limits hold, the new entry is found under
  -- its key unless it is larger than the limit on bytes, and nothing else is new
  pub record Inserted (e : Entry T) (c d : Cache T) : Type ℓ where
    pub linked : IsLinked d
    pub bounded : IsBounded d
    pub options : d.options ≡ c.options
    pub config_err : d.config_err ≡ c.config_err
    pub flights : d.flights ≡ c.flights
    pub next_flight : d.next_flight ≡ c.next_flight
    pub at_key :
        find entry_key e.key d.entries
        ≡ (if ltb (byte_limit c.options) e.size then none else some e)
    pub others :
        (k : String)
        → k ≢ e.key
        → (find entry_key k d.entries ≡ none)
          ⊎ (find entry_key k d.entries ≡ find entry_key k c.entries)

  link-Inserted :
      (e : Entry T) (c d : Cache T)
      → Evicted e.size c d
      → ltb (byte_limit c.options) e.size ≡ false
      → 0 < pos_part c.options.max_entries
      → find entry_key e.key c.entries ≡ none
      → Inserted e c (link e d)
  link-Inserted e c d g small p n =
      let gone = absent_after e c d g.shrinks n in
      record {
        linked = link-IsLinked d e g.linked gone;
        bounded =
            link-IsBounded d e g.fits (rw g.shrinks.options p)
              (rw g.shrinks.options (ground (arith, small))) gone;
        options = unfold link in g.shrinks.options;
        config_err = unfold link in g.shrinks.config_err;
        flights = unfold link in g.shrinks.flights;
        next_flight = unfold link in g.shrinks.next_flight;
        at_key =
            unfold link in rw small (find-head entry_key e (without entry_key e.key d.entries));
        others = λ k ne.
            unfold link find in
            ground
              (arith, eq_iff e.key k, find-without entry_key e.key k d.entries, g.shrinks.subset k);
      }

  -- On a well-formed cache within its limits that may hold an entry, inserting an entry under an
  -- absent key ends without a panic, keeps the invariant and the limits, makes the entry found
  -- under its key unless it is larger than the byte limit, and adds nothing else.
  pub insert_locked_lem :
      (e : Entry T) (c : Cache T)
      → IsLinked c
      → IsBounded c
      → 0 < pos_part c.options.max_entries
      → find entry_key e.key c.entries ≡ none
      → (d : Cache T) × (insert_locked e c ≡ some d) × Inserted e c d
  unfolding insert_locked
  insert_locked_lem e c v b p n = elim (Bool-cases (ltb (byte_limit c.options) e.size)) [
    | inl large ↦ (
      c,
      rw large,
      record {
        linked = v;
        bounded = b;
        options = refl;
        config_err = refl;
        flights = refl;
        next_flight = refl;
        at_key = rw large n;
        others = λ k _. inr refl;
      },
    )
    | inr small ↦
        let (d, r, g) = evict_loop_lem (suc (length c.lru)) e.size c v p (omega arith) in
        (link e d, rw (small, r), link-Inserted e c d g small p n)
  ]

  -- removals keep the limits
  pub Shrinks-IsBounded : (c d : Cache T) → Shrinks c d → IsBounded c → IsBounded d
  Shrinks-IsBounded c d s b = record {
    count = rw s.options (omega (arith, s.lengths, b.count));
    bytes = rw s.options (omega (arith, s.bytes, b.bytes));
  }

  expire_loop-Shrinks : (fuel now : ℕ) (c : Cache T) → Shrinks c (expire_loop fuel now c)
  unfolding expire_loop
  expire_loop-Shrinks zero now c = Shrinks-refl c
  expire_loop-Shrinks (suc fuel) now c = elim (Option-cases (expired_root now c.expiry)) [
    | inl n ↦ rw (n, expire_loop) (Shrinks-refl c)
    | inr (e, s) ↦
        rw (s, expire_loop)
          (Shrinks-trans c (remove_locked e c) (expire_loop fuel now (remove_locked e c))
            (remove_locked-Shrinks c e) (expire_loop-Shrinks fuel now (remove_locked e c)))
  ]

  pub expire_locked-Shrinks : (now : ℕ) (c : Cache T) → Shrinks c (expire_locked now c)
  unfolding expire_locked
  expire_locked-Shrinks now c = expire_loop-Shrinks (length c.expiry) now c
