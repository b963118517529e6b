-- ===== src/Errors.antt =====
-- internal/fserrors/errors.go, and the errors of Go's io/fs and syscall that the filesystem layers
-- return. An error that wraps one of them is that one: callers look with `errors.Is`.
use fabric_workspace_fs.Prelude.{◌≡◌, refl, ℕ, Option, none, some, List, ◌∷◌}

pub data Error : Type 0 where
  read_only conflict busy too_large cross_device not_empty unsupported is_dir not_dir : Error
  handle_closed : Error
  invalid exist not_exist permission closed no_space again no_device : Error
  -- an error of the operating system, of the context or of a remote service
  external : ℕ → Error

-- `errors.Join` of errors that may be nil: nil, here the empty list, if all are.
abbrev pub join : Option Error → List Error → List Error
join none es = es
join (some e) es = e ∷ es

-- what a Go function with results and an error returns
pub data Result {ℓ} (Value : Type ℓ) : Type ℓ where
  err : Error → Result Value
  ok : Value → Result Value

-- `if err != nil { return err }`, and then the rest with the value
infixl 10 ◌>>=◌
abbrev pub ◌>>=◌ {ℓ κ} :
    {Value : Type ℓ} {Next : Type κ} → Result Value → (Value → Result Next) → Result Next
err failure >>= rest = err failure
ok value >>= rest = rest value

-- a chain that succeeds has a first step that succeeds
pub bind_ok {ℓ κ} :
    {Value : Type ℓ} {Next : Type κ} (r : Result Value) (rest : Value → Result Next) (b : Next)
    → (r >>= rest) ≡ ok b
    → (a : Value) × (r ≡ ok a) × (rest a ≡ ok b)
bind_ok (err failure) rest b h = absurd (cc h)
bind_ok (ok value) rest b h = (value, refl, h)

pub ok_injective {ℓ} : {Value : Type ℓ} {a b : Value} → ok a ≡ ok b → a ≡ b
ok_injective h = cc h
