-- ===== src/Cache/Wellformed.antt =====
-- internal/cache/cache.go: the invariant that ties the map, the recency list, the heap and the byte
-- count together, and that the locked helpers keep it.
use fabric_workspace_fs.Prelude.{
  ℕ, zero, suc, ◌≤◌, String, ◌≡◌, refl, ◌∙◌, ap, Option, none, some, List, [], ◌∷◌, arith, eq_iff,
  if◌then◌else◌, length, ltb, false, Option-cases, List-cases, inl, inr,
}
use fabric_workspace_fs.Keyed.{
  find, without, Unique, SameFinds, total, find-without, without-Unique, total-without,
  SameFinds-without, find-head, length-without, without_absent,
}
use fabric_workspace_fs.Cache.{
  Entry, Cache, entry_key, entry_size, remove_locked, expire_loop, expire_locked, link,
  expired_root,
}
use fabric_workspace_fs.Cache.Heap.{
  IsOrdered, heap_push-IsOrdered, without-IsOrdered, root_first, find-heap_push, heap_push-Unique,
}

module _ {ℓ} {T : Type ℓ} where
  -- the map, the recency list and the heap hold the same entries, each once, in heap order, and
  -- `bytes` is the sum of their sizes
  pub record IsLinked (c : Cache T) : Type ℓ where
    pub unique : Unique entry_key c.entries
    pub lru_unique : Unique entry_key c.lru
    pub expiry_unique : Unique entry_key c.expiry
    pub lru_same : SameFinds entry_key c.lru c.entries
    pub expiry_same : SameFinds entry_key c.expiry c.entries
    pub ordered : IsOrdered c.expiry
    pub bytes_total : c.bytes ≡ total entry_size c.entries

  pub remove_locked-IsLinked :
      (c : Cache T) (e : Entry T)
      → IsLinked c
      → find entry_key e.key c.entries ≡ some e
      → IsLinked (remove_locked e c)
  unfolding remove_locked
  remove_locked-IsLinked c e v h = record {
    unique = without-Unique entry_key e.key c.entries v.unique;
    lru_unique = without-Unique entry_key e.key c.lru v.lru_unique;
    expiry_unique = without-Unique entry_key e.key c.expiry v.expiry_unique;
    lru_same = SameFinds-without entry_key e.key c.lru c.entries v.lru_same;
    expiry_same = SameFinds-without entry_key e.key c.expiry c.entries v.expiry_same;
    ordered = without-IsOrdered e.key c.expiry v.ordered;
    bytes_total =
        omega
          (arith, v.bytes_total, total-without entry_key entry_size e.key c.entries e v.unique h);
  }

  -- what `expireLocked` leaves under a key
  abbrev pub live : ℕ → Option (Entry T) → Option (Entry T)
  live now none = none
  live now (some e) = if ltb now e.expires then some e else none

  -- the root of the heap is in the map
  root_found :
      (c : Cache T) (now : ℕ) (e : Entry T)
      → IsLinked c
      → expired_root now c.expiry ≡ some e
      → find entry_key e.key c.entries ≡ some e
  unfolding expired_root find
  root_found c now e v h = elim (List-cases c.expiry) [
    | inl n ↦ ground (arith, n)
    | inr (x, r, n) ↦ ground (arith, n, v.expiry_same x.key, find-head entry_key x r)
  ]

  pub expire_loop-IsLinked :
      (fuel now : ℕ) (c : Cache T) → IsLinked c → IsLinked (expire_loop fuel now c)
  unfolding expire_loop
  expire_loop-IsLinked zero now c v = v
  expire_loop-IsLinked (suc fuel) now c v = elim (Option-cases (expired_root now c.expiry)) [
    | inl n ↦ rw (n, expire_loop) v
    | inr (e, s) ↦
        rw (s, expire_loop)
          (expire_loop-IsLinked fuel now (remove_locked e c)
            (remove_locked-IsLinked c e v (root_found c now e v s)))
  ]

  -- no entry of the heap is expired if its root is not
  none_expired :
      (now : ℕ) (l : List (Entry T)) (k : String)
      → IsOrdered l
      → expired_root now l ≡ none
      → find entry_key k l ≡ live now (find entry_key k l)
  unfolding expired_root
  none_expired now [] k o h = unfold find in refl
  none_expired now (e ∷ l) k o h = elim (Option-cases (find entry_key k (e ∷ l))) [
    | inl n ↦ rw n
    | inr (x, n) ↦ ground (arith, n, root_first e x k l o n)
  ]

  root_expired :
      (now : ℕ) (l : List (Entry T)) (e : Entry T)
      → expired_root now l ≡ some e
      → (ltb now e.expires ≡ false) × (find entry_key e.key l ≡ some e)
  unfolding expired_root
  root_expired now [] e h = ground arith
  root_expired now (x ∷ l) e h = ground (arith, find-head entry_key x l)

  -- an expired entry can be removed without changing what is live
  live-without :
      (now : ℕ) (e : Entry T) (l : List (Entry T)) (k : String)
      → find entry_key e.key l ≡ some e
      → ltb now e.expires ≡ false
      → live now (find entry_key k (without entry_key e.key l)) ≡ live now (find entry_key k l)
  live-without now e l k found late =
      rw (find-without entry_key e.key k l) (ground (arith, eq_iff e.key k))

  root_in_map :
      (now : ℕ) (c : Cache T) (k : String)
      → IsLinked c
      → expired_root now c.expiry ≡ none
      → find entry_key k c.entries ≡ live now (find entry_key k c.entries)
  root_in_map now c k v n = rw (v.expiry_same k) at (none_expired now c.expiry k v.ordered n)

  -- With as much fuel as the heap has entries, exactly the entries that are not expired are left.
  pub find-expire_loop :
      (fuel now : ℕ) (c : Cache T) (k : String)
      → IsLinked c
      → length c.expiry ≤ fuel
      → find entry_key k (expire_loop fuel now c).entries ≡ live now (find entry_key k c.entries)
  unfolding expire_loop
  find-expire_loop zero now c k v h = elim (List-cases c.expiry) [
    | inl n ↦ root_in_map now c k v (unfold expired_root in rw n)
    | inr (x, r, n) ↦ absurd (omega (arith, ap length n))
  ]
  find-expire_loop (suc fuel) now c k v h = elim (Option-cases (expired_root now c.expiry)) [
    | inl n ↦ rw (n, expire_loop) (root_in_map now c k v n)
    | inr (e, s) ↦
        let (late, in_heap) = root_expired now c.expiry e s in
        let found = root_found c now e v s in
        rw (s, expire_loop)
          (find-expire_loop fuel now (remove_locked e c) k (remove_locked-IsLinked c e v found) (
              unfold remove_locked in
              omega (arith, length-without entry_key e.key c.expiry e v.expiry_unique in_heap))
            ∙ unfold remove_locked in live-without now e c.entries k found late)
  ]

  -- `expireLocked` keeps the invariant and leaves exactly the entries that are not expired.
  pub expire_locked-IsLinked : (now : ℕ) (c : Cache T) → IsLinked c → IsLinked (expire_locked now c)
  unfolding expire_locked
  expire_locked-IsLinked now c v = expire_loop-IsLinked (length c.expiry) now c v

  -- Sweeping a well-formed cache leaves, under each key, exactly the entry that was there if it
  -- expires after the given time, and nothing otherwise.
  pub find-expire_locked :
      (now : ℕ) (c : Cache T) (k : String)
      → IsLinked c
      → find entry_key k (expire_locked now c).entries ≡ live now (find entry_key k c.entries)
  unfolding expire_locked
  find-expire_locked now c k v = find-expire_loop (length c.expiry) now c k v (omega arith)

  pub link-IsLinked :
      (c : Cache T) (e : Entry T)
      → IsLinked c
      → find entry_key e.key c.entries ≡ none
      → IsLinked (link e c)
  unfolding link total
  link-IsLinked c e v h =
      let gone = without_absent entry_key e.key c.entries h in
      record {
        unique = rw gone (h, v.unique);
        lru_unique = (v.lru_same e.key ∙ h, v.lru_unique);
        expiry_unique = heap_push-Unique e c.expiry (v.expiry_same e.key ∙ h) v.expiry_unique;
        lru_same = λ k. rw gone (unfold find in rw (v.lru_same k));
        expiry_same = λ k.
            find-heap_push e k c.expiry (v.expiry_same e.key ∙ h)
            ∙ rw (gone, v.expiry_same k) (unfold find in refl);
        ordered = heap_push-IsOrdered e c.expiry v.ordered;
        bytes_total = rw gone (omega (arith, v.bytes_total));
      }
