-- ===== src/Cache/Publication.antt =====
-- internal/cache/cache.go: what `complete` does to the cache, in each of its branches.

use fabric_workspace_fs.Prelude.{
  ℕ, ◌<◌, String, ◌≡◌, ◌≢◌, ◌∙◌, ap, ◌⊎◌, inl, inr, Option, none, some, ◌&&◌, arith, str_eq, eq_iff,
  if◌then◌else◌, ltb, Bool, true, false, Bool-cases, Option-cases,
}
use fabric_workspace_fs.Prelude.Int.{pos, pos_part, ltb_ℤ}
use fabric_workspace_fs.Keyed.{find, find-without, key-find}
use fabric_workspace_fs.Cache.{
  Error, ok, Entry, Cache, entry_key, remove_locked, byte_limit, before_add, expire_locked,
}
use fabric_workspace_fs.Cache.Wellformed.{
  IsLinked, remove_locked-IsLinked, expire_locked-IsLinked, find-expire_locked, live,
}
use fabric_workspace_fs.Cache.Eviction.{
  Shrinks, Shrinks-refl, Shrinks-trans, remove_locked-Shrinks, expire_locked-Shrinks, IsBounded,
  Shrinks-IsBounded, insert_locked_lem, Inserted,
}
use fabric_workspace_fs.Cache.Requests.{
  Prepared, drop_entry, drop_flight, new_entry, publish, complete, is_current, final_outcome,
}

first_holds : (a b : Bool) → (a && b) ≡ true → a ≡ true
first_holds a b h = ground arith

module _ {ℓ} {T : Type ℓ} where
  found_key :
      (key : String) (c : Cache T) (e : Entry T)
      → find entry_key key c.entries ≡ some e
      → find entry_key e.key c.entries ≡ some e
  found_key key c e h =
      ap (λ k. find entry_key k c.entries) (key-find entry_key key c.entries e h) ∙ h

  pub drop_entry-IsLinked : (key : String) (c : Cache T) → IsLinked c → IsLinked (drop_entry key c)
  unfolding drop_entry
  drop_entry-IsLinked key c v = elim (Option-cases (find entry_key key c.entries)) [
    | inl n ↦ rw (n, drop_entry) v
    | inr (e, s) ↦ rw (s, drop_entry) (remove_locked-IsLinked c e v (found_key key c e s))
  ]

  pub drop_entry-Shrinks : (key : String) (c : Cache T) → Shrinks c (drop_entry key c)
  unfolding drop_entry
  drop_entry-Shrinks key c = elim (Option-cases (find entry_key key c.entries)) [
    | inl n ↦ rw (n, drop_entry) (Shrinks-refl c)
    | inr (e, s) ↦ rw (s, drop_entry) (remove_locked-Shrinks c e)
  ]

  -- dropping a key changes what is found under that key alone
  pub find-drop_entry :
      (key k : String) (c : Cache T)
      → find entry_key k (drop_entry key c).entries
        ≡ (if str_eq key k then none else find entry_key k c.entries)
  unfolding drop_entry
  find-drop_entry key k c = elim (Option-cases (find entry_key key c.entries)) [
    | inl n ↦ rw (n, drop_entry) (ground (arith, n, eq_iff key k))
    | inr (e, s) ↦
        rw (s, drop_entry)
          (unfold remove_locked in
            rw (find-without entry_key e.key k c.entries, key-find entry_key key c.entries e s))
  ]

  pub drop_flight-IsLinked :
      (key : String) (c : Cache T) → IsLinked c → IsLinked (drop_flight key c)
  unfolding drop_flight
  drop_flight-IsLinked key c v = record {
    unique = v.unique;
    lru_unique = v.lru_unique;
    expiry_unique = v.expiry_unique;
    lru_same = v.lru_same;
    expiry_same = v.expiry_same;
    ordered = v.ordered;
    bytes_total = v.bytes_total;
  }

  -- the entry that a load leaves, if it is retained at all
  abbrev pub retained : String → Prepared T → T → Cache T → Option (Entry T)
  retained key p v c =
      if ltb_ℤ (pos 0) p.retain && before_add p.now p.observed p.retain
      then (if ltb (byte_limit c.options) p.size then none else some (new_entry key p v))
      else none

  pub record Published (key : String) (p : Prepared T) (v : T) (c d : Cache T) : Type ℓ where
    pub linked : IsLinked d
    pub bounded : IsBounded d
    pub options : d.options ≡ c.options
    pub config_err : d.config_err ≡ c.config_err
    pub flights : d.flights ≡ c.flights
    pub next_flight : d.next_flight ≡ c.next_flight
    pub at_key : find entry_key key d.entries ≡ retained key p v c
    pub others :
        (k : String)
        → k ≢ key
        → (find entry_key k d.entries ≡ none)
          ⊎ (find entry_key k d.entries ≡ live p.now (find entry_key k c.entries))

  -- `expireLocked` and the removal of the old entry
  pub swept_lem :
      (key : String) (now : ℕ) (c : Cache T)
      → IsLinked c
      → IsLinked (drop_entry key (expire_locked now c))
        × Shrinks c (drop_entry key (expire_locked now c))
  swept_lem key now c v = (
    drop_entry-IsLinked key (expire_locked now c) (expire_locked-IsLinked now c v),
    Shrinks-trans c (expire_locked now c) (drop_entry key (expire_locked now c))
        (expire_locked-Shrinks now c) (drop_entry-Shrinks key (expire_locked now c)),
  )

  find-swept :
      (key k : String) (now : ℕ) (c : Cache T)
      → IsLinked c
      → find entry_key k (drop_entry key (expire_locked now c)).entries
        ≡ (if str_eq key k then none else live now (find entry_key k c.entries))
  find-swept key k now c v =
      find-drop_entry key k (expire_locked now c) ∙ rw (find-expire_locked now c k v)

  module _ (key : String) (p : Prepared T) (v : T) (c : Cache T) (w : IsLinked c) where
    swept : Cache T
    swept = drop_entry key (expire_locked p.now c)

    swept_other :
        (k : String)
        → k ≢ key
        → find entry_key k swept.entries ≡ live p.now (find entry_key k c.entries)
    unfolding swept
    swept_other k ne = find-swept key k p.now c w ∙ ground (arith, eq_iff key k)

    swept_key : find entry_key key swept.entries ≡ none
    unfolding swept
    swept_key = find-swept key key p.now c w ∙ ground (arith, eq_iff key key)

    inserted :
        (d : Cache T)
        → (ltb_ℤ (pos 0) p.retain && before_add p.now p.observed p.retain) ≡ true
        → Inserted (new_entry key p v) swept d
        → Published key p v c d
    unfolding swept
    inserted d keep g =
        let s = (swept_lem key p.now c w).1 in
        record {
          linked = g.linked;
          bounded = g.bounded;
          options = g.options ∙ s.options;
          config_err = g.config_err ∙ s.config_err;
          flights = g.flights ∙ s.flights;
          next_flight = g.next_flight ∙ s.next_flight;
          at_key = rw keep (rw (← s.options) g.at_key);
          others = λ k ne. ground (arith, g.others k ne, swept_other k ne);
        }

    skipped :
        IsBounded c
        → (ltb_ℤ (pos 0) p.retain && before_add p.now p.observed p.retain) ≡ false
        → Published key p v c swept
    unfolding swept
    skipped b skip =
        let (linked, s) = swept_lem key p.now c w in
        record {
          linked = linked;
          bounded = Shrinks-IsBounded c swept s b;
          options = s.options;
          config_err = s.config_err;
          flights = s.flights;
          next_flight = s.next_flight;
          at_key = rw skip swept_key;
          others = λ k ne. inr (swept_other k ne);
        }

  -- A successful load never panics, and leaves its entry under the key exactly if it is retained.
  pub publish_lem :
      (key : String) (p : Prepared T) (v : T) (c : Cache T)
      → IsLinked c
      → IsBounded c
      → (ltb_ℤ (pos 0) p.retain ≡ true → 0 < pos_part c.options.max_entries)
      → (d : Cache T) × (publish key p v c ≡ some d) × Published key p v c d
  unfolding publish swept
  publish_lem key p v c w b room =
      elim (Bool-cases (ltb_ℤ (pos 0) p.retain && before_add p.now p.observed p.retain)) [
        | inl keep ↦
            let (linked, s) = swept_lem key p.now c w in
            let (d, r, g) =
              insert_locked_lem (new_entry key p v) (swept key p v c w) linked
                (Shrinks-IsBounded c (swept key p v c w) s b)
                (rw s.options (
                  room (
                    first_holds (ltb_ℤ (pos 0) p.retain) (before_add p.now p.observed p.retain)
                      keep)))
                (swept_key key p v c w) in
            (d, rw keep r, inserted key p v c w d keep g)
        | inr skip ↦ (swept key p v c w, rw skip, skipped key p v c w b skip)
      ]

  -- `complete` by the current leader of a load that succeeded
  pub complete-Published :
      (ctx : Option Error) (key : String) (id : ℕ) (p : Prepared T) (v : T) (c : Cache T)
      → IsLinked c
      → IsBounded c
      → (ltb_ℤ (pos 0) p.retain ≡ true → 0 < pos_part c.options.max_entries)
      → is_current key id c ≡ true
      → final_outcome ctx p.outcome ≡ ok v
      → (d : Cache T) × (complete ctx key id p c ≡ some (d, ok v))
        × Published key p v (drop_flight key c) d
  unfolding complete
  complete-Published ctx key id p v c w b room current good =
      let (d, r, g) =
        publish_lem key p v (drop_flight key c) (drop_flight-IsLinked key c w)
          (unfold drop_flight in record { count = b.count; bytes = b.bytes })
          (unfold drop_flight in room) in
      (d, rw (current, good, r), g)
