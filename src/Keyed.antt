-- ===== src/Keyed.antt =====
-- Go maps from strings and lists of pointers to objects that carry their key, as lists of values
-- with a key field. A removal by key leaves no value of that key.
use fabric_workspace_fs.Prelude.{
  ℕ, ◌+◌, ◌≤◌, String, ◌≡◌, refl, Option, none, some, List, [], ◌∷◌, arith, str_eq, eq_iff,
  if◌then◌else◌, length,
}

-- the sum of a measure over the values
unfoldable pub total {ℓ} : {A : Type ℓ} → (A → ℕ) → List A → ℕ
total f [] = 0
total f (x ∷ xs) = f x + total f xs

module _ {ℓ} {A : Type ℓ} (key : A → String) where
  -- the value stored under a key
  unfoldable pub find : String → List A → Option A
  find k [] = none
  find k (x ∷ xs) = if str_eq (key x) k then some x else find k xs

  -- `delete(m, k)`, or unlinking the object with this key
  unfoldable pub without : String → List A → List A
  without k [] = []
  without k (x ∷ xs) = let rest = without k xs in if str_eq (key x) k then rest else x ∷ rest

  -- `m[k] = x`, with `k` the key of `x`
  unfoldable pub store : A → List A → List A
  store x xs = x ∷ without (key x) xs

  -- no key twice
  abbrev pub Unique : List A → Type ℓ
  Unique [] = Unit
  Unique (x ∷ xs) = (find (key x) xs ≡ none) × Unique xs

  pub find-without :
      (k j : String) (l : List A) → find j (without k l) ≡ (if str_eq k j then none else find j l)
  unfolding find without
  find-without k j [] = ground arith
  find-without k j (x ∷ l) =
      ground (arith, find-without k j l, eq_iff (key x) k, eq_iff (key x) j, eq_iff k j)

  pub find-store :
      (x : A) (j : String) (l : List A)
      → find j (store x l) ≡ (if str_eq (key x) j then some x else find j l)
  unfolding find store
  find-store x j l = ground (arith, find-without (key x) j l)

  -- what is found carries the key
  pub key-find : (k : String) (l : List A) (x : A) → find k l ≡ some x → key x ≡ k
  unfolding find
  key-find k [] x h = ground arith
  key-find k (y ∷ l) x h = ground (arith, key-find k l x, eq_iff (key y) k)

  pub without_absent : (k : String) (l : List A) → find k l ≡ none → without k l ≡ l
  unfolding find without
  without_absent k [] h = refl
  without_absent k (x ∷ l) h = ground (arith, without_absent k l)

  pub without-Unique : (k : String) (l : List A) → Unique l → Unique (without k l)
  unfolding without
  without-Unique k [] u = tt
  without-Unique k (x ∷ l) u = ground (arith, without-Unique k l u.1, find-without k (key x) l)

  pub store-Unique : (x : A) (l : List A) → Unique l → Unique (store x l)
  unfolding store
  store-Unique x l u = (
    ground (arith, find-without (key x) (key x) l, eq_iff (key x) (key x)),
    without-Unique (key x) l u,
  )

  pub length-without :
      (k : String) (l : List A) (x : A)
      → Unique l
      → find k l ≡ some x
      → length (without k l) + 1 ≡ length l
  unfolding find without
  length-without k [] x u h = ground arith
  length-without k (y ∷ l) x u h =
      ground (arith, length-without k l x u.1, without_absent k l, eq_iff (key y) k)

  pub total-without :
      (f : A → ℕ) (k : String) (l : List A) (x : A)
      → Unique l
      → find k l ≡ some x
      → f x + total f (without k l) ≡ total f l
  unfolding find without total
  total-without f k [] x u h = ground arith
  total-without f k (y ∷ l) x u h =
      ground (arith, total-without f k l x u.1, without_absent k l, eq_iff (key y) k)

  -- two lists of values that find the same under every key
  abbrev pub SameFinds : List A → List A → Type ℓ
  SameFinds xs ys = (k : String) → find k xs ≡ find k ys

  pub SameFinds-without :
      (k : String) (xs ys : List A) → SameFinds xs ys → SameFinds (without k xs) (without k ys)
  SameFinds-without k xs ys h j = ground (arith, find-without k j xs, find-without k j ys, h j)

  pub find-head : (x : A) (l : List A) → find (key x) (x ∷ l) ≡ some x
  unfolding find
  find-head x l = ground (arith, eq_iff (key x) (key x))

  -- a list that finds nothing is empty, so a list that finds the same is empty too
  pub SameFinds-nil : (ys : List A) → SameFinds [] ys → ys ≡ []
  unfolding find
  SameFinds-nil [] h = refl
  SameFinds-nil (y ∷ ys) h = ground (arith, h (key y), eq_iff (key y) (key y))

  pub length-without-le : (k : String) (l : List A) → length (without k l) ≤ length l
  unfolding without
  length-without-le k [] = omega arith
  length-without-le k (x ∷ l) = ground (arith, length-without-le k l)
