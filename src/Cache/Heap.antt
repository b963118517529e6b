-- ===== src/Cache/Heap.antt =====
-- internal/cache/cache.go: the expiry heap and the recency list, as they stand alone.
use fabric_workspace_fs.Prelude.{
  ℕ, ◌≤◌, String, ◌≡◌, refl, none, some, List, [], ◌∷◌, arith, str_eq, eq_iff, if◌then◌else◌, All,
  true, false, Bool-cases, inl, inr,
}
use fabric_workspace_fs.Keyed.{find, without, Unique}
use fabric_workspace_fs.Cache.{Entry, entry_key, less, heap_push, back}

module _ {ℓ} {T : Type ℓ} where
  abbrev NoneBefore : ℕ → List (Entry T) → Type 0
  NoneBefore t l = All (λ e. t ≤ e.expires) l

  -- the heap order: no entry expires before those that stand in front of it
  abbrev pub IsOrdered : List (Entry T) → Type 0
  IsOrdered [] = Unit
  IsOrdered (e ∷ l) = NoneBefore e.expires l × IsOrdered l

  NoneBefore-mono : (s t : ℕ) (l : List (Entry T)) → s ≤ t → NoneBefore t l → NoneBefore s l
  NoneBefore-mono s t [] h n = tt
  NoneBefore-mono s t (e ∷ l) h n = (omega arith, NoneBefore-mono s t l h n.1)

  NoneBefore-push :
      (t : ℕ) (e : Entry T) (l : List (Entry T))
      → t ≤ e.expires
      → NoneBefore t l
      → NoneBefore t (heap_push e l)
  unfolding heap_push
  NoneBefore-push t e [] h n = (h, tt)
  NoneBefore-push t e (x ∷ l) h n = ground (arith, NoneBefore-push t e l h n.1)

  less_le : (a b : Entry T) → less a b ≡ true → a.expires ≤ b.expires
  unfolding less
  less_le a b h = ground arith

  not_less_le : (a b : Entry T) → less a b ≡ false → b.expires ≤ a.expires
  unfolding less
  not_less_le a b h = ground arith

  pub heap_push-IsOrdered :
      (e : Entry T) (l : List (Entry T)) → IsOrdered l → IsOrdered (heap_push e l)
  unfolding heap_push
  heap_push-IsOrdered e [] o = (tt, tt)
  heap_push-IsOrdered e (x ∷ l) o = elim (Bool-cases (less e x)) [
    | inl here ↦
        rw here
          ((less_le e x here, NoneBefore-mono e.expires x.expires l (less_le e x here) o.0), o)
    | inr there ↦
        rw there
          (NoneBefore-push x.expires e l (not_less_le e x there) o.0, heap_push-IsOrdered e l o.1)
  ]

  NoneBefore-without :
      (t : ℕ) (k : String) (l : List (Entry T))
      → NoneBefore t l
      → NoneBefore t (without entry_key k l)
  unfolding without
  NoneBefore-without t k [] n = tt
  NoneBefore-without t k (e ∷ l) n = ground (arith, NoneBefore-without t k l n.1)

  pub without-IsOrdered :
      (k : String) (l : List (Entry T)) → IsOrdered l → IsOrdered (without entry_key k l)
  unfolding without
  without-IsOrdered k [] o = tt
  without-IsOrdered k (e ∷ l) o =
      ground (arith, without-IsOrdered k l o.1, NoneBefore-without e.expires k l o.0)

  NoneBefore-find :
      (t : ℕ) (k : String) (l : List (Entry T)) (x : Entry T)
      → NoneBefore t l
      → find entry_key k l ≡ some x
      → t ≤ x.expires
  unfolding find
  NoneBefore-find t k [] x n h = ground arith
  NoneBefore-find t k (e ∷ l) x n h = ground (arith, NoneBefore-find t k l x n.1)

  -- what stands in the heap does not expire before the root
  pub root_first :
      (e x : Entry T) (k : String) (l : List (Entry T))
      → IsOrdered (e ∷ l)
      → find entry_key k (e ∷ l) ≡ some x
      → e.expires ≤ x.expires
  unfolding find
  root_first e x k l o h = ground (arith, NoneBefore-find e.expires k l x o.0)

  pub find-heap_push :
      (e : Entry T) (k : String) (l : List (Entry T))
      → find entry_key e.key l ≡ none
      → find entry_key k (heap_push e l) ≡ (if str_eq e.key k then some e else find entry_key k l)
  unfolding heap_push find
  find-heap_push e k [] h = refl
  find-heap_push e k (x ∷ l) h =
      ground (arith, find-heap_push e k l, eq_iff e.key k, eq_iff x.key k, eq_iff x.key e.key)

  pub heap_push-Unique :
      (e : Entry T) (l : List (Entry T))
      → find entry_key e.key l ≡ none
      → Unique entry_key l
      → Unique entry_key (heap_push e l)
  unfolding heap_push find
  heap_push-Unique e [] h u = (refl, tt)
  heap_push-Unique e (x ∷ l) h u = ground (
    arith,
    heap_push-Unique e l,
    find-heap_push e x.key l,
    eq_iff x.key e.key,
    eq_iff e.key x.key,
  )

  -- the least recent entry is found under its key
  pub find-back :
      (l : List (Entry T)) (e : Entry T)
      → Unique entry_key l
      → back l ≡ some e
      → find entry_key e.key l ≡ some e
  unfolding back find
  find-back [] e u h = ground arith
  find-back (x ∷ []) e u h = ground (arith, eq_iff x.key x.key)
  find-back (x ∷ y ∷ l) e u h = ground (arith, find-back (y ∷ l) e u.1 h, eq_iff x.key e.key)

  pub back-some : (e : Entry T) (l : List (Entry T)) → (x : Entry T) × (back (e ∷ l) ≡ some x)
  unfolding back
  back-some e [] = (e, refl)
  back-some e (x ∷ l) = back-some x l
