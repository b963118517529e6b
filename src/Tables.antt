-- ===== src/Tables.antt =====
-- Go maps from strings to values, as lists of pairs of a byte string and a value. A map holds a
-- key at most once.
use fabric_workspace_fs.Prelude.{
  ℕ, ◌+◌, ◌≤◌, refl, length, ap, ◌≡◌, inl, inr, Option, none, some, List, [], ◌∷◌, arith,
  if◌then◌else◌, Bool-cases,
}
use fabric_workspace_fs.Bytes.{Bytes, same, same→≡, same_refl}

some_injective {ℓ} : {A : Type ℓ} (a b : A) → some b ≡ some a → b ≡ a
some_injective a b h = cc h

abbrev pub Table {ℓ} : Type ℓ → Type ℓ
Table A = List (Bytes × A)

module _ {ℓ} {A : Type ℓ} where
  -- `m[k]`, with the second result of a comma-ok lookup
  unfoldable pub lookup : Bytes → Table A → Option A
  lookup k [] = none
  lookup k (x ∷ xs) = if same x.0 k then some x.1 else lookup k xs

  -- `m[k]` of a missing key: the zero value
  unfoldable pub lookup_or : A → Bytes → Table A → A
  lookup_or zero_value k t = elim (lookup k t) [ none ↦ zero_value | some a ↦ a ]

  -- `delete(m, k)`
  unfoldable pub remove : Bytes → Table A → Table A
  remove k [] = []
  remove k (x ∷ xs) = let rest = remove k xs in if same x.0 k then rest else x ∷ rest

  -- `m[k] = a`
  abbrev pub put : Bytes → A → Table A → Table A
  put k a t = (k, a) ∷ remove k t

  -- every key once
  abbrev pub Distinct : Table A → Type ℓ
  Distinct [] = Unit
  Distinct (x ∷ xs) = (lookup x.0 xs ≡ none) × Distinct xs

  abbrev pub Every {κ} : (A → Type κ) → Table A → Type κ
  Every P [] = Unit
  Every P (x ∷ xs) = P x.1 × Every P xs

  pub lookup-remove :
      (k j : Bytes) (t : Table A) → lookup j (remove k t) ≡ (if same k j then none else lookup j t)
  unfolding lookup remove
  lookup-remove k j [] = ground arith
  lookup-remove k j (x ∷ t) = elim (Bool-cases (same x.0 k)) [
    | inl e ↦ ground (arith, lookup-remove k j t, same→≡ x.0 k e)
    | inr n ↦ elim (Bool-cases (same x.0 j)) [
      | inl e ↦ ground (arith, lookup-remove k j t, same→≡ x.0 j e, same→≡ k j, same_refl j)
      | inr m ↦ ground (arith, lookup-remove k j t)
    ]
  ]

  pub remove-Distinct : (k : Bytes) (t : Table A) → Distinct t → Distinct (remove k t)
  unfolding remove
  remove-Distinct k [] d = tt
  remove-Distinct k (x ∷ t) d = elim (Bool-cases (same x.0 k)) [
    | inl e ↦ rw e (remove-Distinct k t d.1)
    | inr n ↦ rw n (ground (arith, lookup-remove k x.0 t, d.0), remove-Distinct k t d.1)
  ]

  pub lookup_or_absent : (z : A) (k : Bytes) (t : Table A) → lookup k t ≡ none → lookup_or z k t ≡ z
  unfolding lookup_or
  lookup_or_absent z k t h = ap (λ o. elim o [ none ↦ z | some a ↦ a ]) h

  -- what holds of every value holds of the one that is found, or of the zero value
  pub lookup_or-Every {κ} :
      (P : A → Type κ) (zero_value : A) (k : Bytes) (t : Table A)
      → P zero_value
      → Every P t
      → P (lookup_or zero_value k t)
  unfolding lookup lookup_or
  lookup_or-Every P z k [] p e = p
  lookup_or-Every P z k (x ∷ t) p e = elim (Bool-cases (same x.0 k)) [
    | inl h ↦ rw (h, lookup_or) e.0
    | inr h ↦ rw (h, lookup_or) (lookup_or-Every P z k t p e.1)
  ]

  pub lookup-Every {κ} :
      (P : A → Type κ) (k : Bytes) (t : Table A) (a : A) → Every P t → lookup k t ≡ some a → P a
  unfolding lookup
  lookup-Every P k [] a e h = absurd (ground arith)
  lookup-Every P k (x ∷ t) a e h = elim (Bool-cases (same x.0 k)) [
    | inl s ↦ rw (← some_injective a x.1 (rw s at h)) e.0
    | inr s ↦ lookup-Every P k t a e.1 (rw s at h)
  ]

-- the sum of a measure over the values
unfoldable pub total {ℓ} : {A : Type ℓ} → (A → ℕ) → Table A → ℕ
total f [] = 0
total f (x ∷ xs) = f x.1 + total f xs

module _ {ℓ} {A : Type ℓ} where
  pub remove_absent : (k : Bytes) (t : Table A) → lookup k t ≡ none → remove k t ≡ t
  unfolding lookup remove
  remove_absent k [] h = refl
  remove_absent k (x ∷ t) h = ground (arith, remove_absent k t)

  pub put-Distinct : (k : Bytes) (a : A) (t : Table A) → Distinct t → Distinct (put k a t)
  put-Distinct k a t d = (ground (arith, lookup-remove k k t, same_refl k), remove-Distinct k t d)

  pub lookup-put :
      (k j : Bytes) (a : A) (t : Table A)
      → lookup j (put k a t) ≡ (if same k j then some a else lookup j t)
  unfolding lookup
  lookup-put k j a t = ground (arith, lookup-remove k j t)

  pub length-remove :
      (k : Bytes) (t : Table A) (a : A)
      → Distinct t
      → lookup k t ≡ some a
      → length (remove k t) + 1 ≡ length t
  unfolding lookup remove
  length-remove k [] a d h = absurd (ground arith)
  length-remove k (x ∷ t) a d h = elim (Bool-cases (same x.0 k)) [
    | inl e ↦ ground (arith, remove_absent k t, d.0, same→≡ x.0 k e)
    | inr n ↦ ground (arith, length-remove k t a d.1)
  ]

  pub total-remove :
      (f : A → ℕ) (k : Bytes) (t : Table A) (a : A)
      → Distinct t
      → lookup k t ≡ some a
      → f a + total f (remove k t) ≡ total f t
  unfolding lookup remove total
  total-remove f k [] a d h = absurd (ground arith)
  total-remove f k (x ∷ t) a d h = elim (Bool-cases (same x.0 k)) [
    | inl e ↦ ground (arith, remove_absent k t, d.0, same→≡ x.0 k e)
    | inr n ↦ ground (arith, total-remove f k t a d.1)
  ]

  pub length-remove-le : (k : Bytes) (t : Table A) → length (remove k t) ≤ length t
  unfolding remove
  length-remove-le k [] = omega arith
  length-remove-le k (x ∷ t) = ground (arith, length-remove-le k t)

  pub total-remove-le : (f : A → ℕ) (k : Bytes) (t : Table A) → total f (remove k t) ≤ total f t
  unfolding remove total
  total-remove-le f k [] = omega arith
  total-remove-le f k (x ∷ t) = ground (arith, total-remove-le f k t)
