-- ===== src/Cache/Reads.antt =====
-- internal/cache/cache.go: what a request and `Peek` can return, and what a finished load makes later
-- requests return.
use mathlib.Core.Option
use fabric_workspace_fs.Cache.Requests.{new_entry}
use fabric_workspace_fs.Prelude.{
  ◌≤◌, is_some, ℕ, ◌+◌, ◌<◌, String, Bool, ◌≡◌, refl, ◌∙◌, inl, inr, Option, none, some, ◌&&◌,
  arith, if◌then◌else◌, ltb, true, Option-cases,
}
use fabric_workspace_fs.Prelude.Int.{ℤ, pos, pos_part, ltb_ℤ}
use fabric_workspace_fs.Keyed.{find}
use fabric_workspace_fs.Cache.{
  Entry, Cache, Error, ok, before_add, entry_key, expire_locked, byte_limit,
}
use fabric_workspace_fs.Cache.Wellformed.{IsLinked, find-expire_locked}
use fabric_workspace_fs.Cache.Eviction.{IsBounded}
use fabric_workspace_fs.Cache.Requests.{
  Begun, hit, Prepared, young, take_hit, miss_locked, count_miss, lookup_locked, complete,
  is_current, final_outcome, drop_flight, clone,
}
use fabric_workspace_fs.Cache.Publication.{complete-Published}
use fabric_workspace_fs.Cache.Runs.{peek_within}

module _ {ℓ} {T : Type ℓ} where
  -- the entry that a request may use: in the map, not expired, and observed less than `max_age` ago
  abbrev pub usable : ℤ → ℕ → Option (Entry T) → Option (Entry T)
  usable max_age now none = none
  usable max_age now (some e) =
      if ltb now e.expires && (ltb_ℤ (pos 0) max_age && before_add now e.observed max_age)
      then some e
      else none

  young-expire_locked :
      (key : String) (max_age : ℤ) (now : ℕ) (c : Cache T)
      → IsLinked c
      → young key max_age now (expire_locked now c)
        ≡ usable max_age now (find entry_key key c.entries)
  unfolding young
  young-expire_locked key max_age now c w = ground (arith, find-expire_locked now c key w)

  abbrev pub value_of : Begun T → Option T
  value_of (hit v) = some v
  value_of _ = none

  miss_no_value :
      (key : String) (has_load : Bool) (c : Cache T)
      → value_of (miss_locked key has_load c).0 ≡ none
  unfolding miss_locked
  miss_no_value key has_load c = ground arith

  abbrev pub entry_value : Option (Entry T) → Option T
  entry_value none = none
  entry_value (some e) = some e.value

  -- A request on a well-formed cache is answered from it exactly when the entry under its key is
  -- unexpired and younger than the allowed age, and then with the value of that entry.
  pub lookup_locked-usable :
      (key : String) (max_age : ℤ) (has_load : Bool) (now : ℕ) (c : Cache T)
      → IsLinked c
      → value_of (lookup_locked key max_age has_load now c).0
        ≡ entry_value (usable max_age now (find entry_key key c.entries))
  unfolding lookup_locked
  lookup_locked-usable key max_age has_load now c w =
      let swept = expire_locked now c in
      let y = young-expire_locked key max_age now c w in
      elim (Option-cases (young key max_age now swept)) [
        | inl n ↦
            rw (n, lookup_locked) (rw (← y, n) (miss_no_value key has_load (count_miss swept)))
        | inr (e, s) ↦ rw (s, lookup_locked) (rw (← y, s) (unfold take_hit in refl))
      ]

  -- When a load succeeds on a cache with room, its flight is current, its entry fits and its
  -- retention has not passed, then an immediately following request at a time within the
  -- retention and its own maximal age is answered with the loaded value.
  pub lookup_locked-complete :
      (ctx : Option Error) (key : String) (id : ℕ) (p : Prepared T) (v : T) (c : Cache T)
      (max_age : ℤ) (has_load : Bool) (later : ℕ)
      → IsLinked c
      → IsBounded c
      → 0 < pos_part c.options.max_entries
      → is_current key id c ≡ true
      → final_outcome ctx p.outcome ≡ ok v
      → p.size ≤ byte_limit c.options
      → (ltb_ℤ (pos 0) p.retain && before_add p.now p.observed p.retain) ≡ true
      → later < p.observed + pos_part p.retain
      → ltb_ℤ (pos 0) max_age ≡ true
      → before_add later p.observed max_age ≡ true
      → (d : Cache T) × (complete ctx key id p c ≡ some (d, ok v))
        × (value_of (lookup_locked key max_age has_load later d).0 ≡ some v)
  lookup_locked-complete ctx key id p v c max_age has_load later w b room current good small keep
        young_still aged fresh =
      let (d, r, g) = complete-Published ctx key id p v c w b (λ _. room) current good in
      let kept : find entry_key key d.entries ≡ some (new_entry key p v) =
        g.at_key ∙ rw keep (unfold drop_flight in (ground (arith, small))) in
      (d, r, lookup_locked-usable key max_age has_load later d g.linked ∙ rw kept (ground (arith)))

module _ {T : Type 0} where
  -- On a well-formed cache PeekWithin returns a copy of the value and the observation time of the
  -- entry under the key exactly when it is unexpired and younger than the allowed age, and
  -- nothing on an invalid configuration.
  pub peek_within-usable :
      (key : String) (max_age : ℤ) (now : ℕ) (c : Cache T)
      → IsLinked c
      → (peek_within key max_age now c).0 ≡ (
          if is_some c.config_err
          then none
          else Option.map
              (λ e. (clone c.options e.value, e.observed))
              (usable max_age now (find entry_key key c.entries)))
  unfolding peek_within
  peek_within-usable key max_age now c w = ground (arith, find-expire_locked now c key w)
