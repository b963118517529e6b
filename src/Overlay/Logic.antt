-- ===== src/Overlay/Logic.antt =====
-- How the operations of a store are reasoned about: what holds of the store after an operation, where
-- it fails and where it returns a value.
use fabric_workspace_fs.Prelude.{
  ◌≡◌, refl, Option, none, some, Bool, true, false, List, [], ◌∷◌, if◌then◌else◌,
}
use fabric_workspace_fs.Overlay.Access.{found}
use fabric_workspace_fs.Overlay.Directories.{of_result}
use fabric_workspace_fs.Errors.{Error, Result, ok, err}
use fabric_workspace_fs.Overlay.{
  some, Option, Store, Reply, failed, value, Outcome, done, continue, M, when_ok, guard, as_value,
}

abbrev pub Post :
    {World Value : Type 0}
    → (Store → Type 0)
    → (Value → Store → Type 0)
    → Outcome World Value
    → Type 0
Post E Q (done (failed e) w s) = E s
Post E Q (done (value a) w s) = Q a s

-- from a store with `P`, the operation fails in one with `P` or returns a value in one with `Q`
abbrev pub Ensures :
    {World Value : Type 0} → (Store → Type 0) → M World Value → (Value → Store → Type 0) → Type 0
Ensures P m Q = (w : _) (s : Store) → P s → Post P Q (m w s)

-- `P` holds after the operation, whatever becomes of it
abbrev pub Keeps : {World Value : Type 0} → (Store → Type 0) → M World Value → Type 0
Keeps P m = Ensures P m (λ a. P)

-- What holds of an attempt: its reply is a value that says which case it is.
abbrev pub Attempted :
    {Value : Type 0} → (Store → Type 0) → (Value → Store → Type 0) → Reply Value → Store → Type 0
Attempted E Q (failed e) s = E s
Attempted E Q (value a) s = Q a s

-- The rules take what fails into, what is returned, and the rest, and mostly find them.
pub step :
    {World Value Next : Type 0} (E : Store → Type 0) (Q : Value → Store → Type 0)
    (R : Next → Store → Type 0) (o : Outcome World Value)
    (rest : Value → World → Store → Outcome World Next)
    → Post E Q o
    → ((a : Value) (w : World) (s : Store) → Q a s → Post E R (rest a w s))
    → Post E R (continue o rest)
step E Q R (done (failed e) w s) rest p k = p
step E Q R (done (value a) w s) rest p k = k a w s p

pub weaken :
    {World Value : Type 0} (E F : Store → Type 0) (Q R : Value → Store → Type 0)
    (o : Outcome World Value)
    → ((s : Store) → E s → F s)
    → ((a : Value) (s : Store) → Q a s → R a s)
    → Post E Q o
    → Post F R o
weaken E F Q R (done (failed e) w s) f g p = f s p
weaken E F Q R (done (value a) w s) f g p = g a s p

pub attempt-Post :
    {World Value : Type 0} (E : Store → Type 0) (Q : Value → Store → Type 0)
    (o : Outcome World Value)
    → Post E Q o
    → Post E (Attempted E Q) (as_value o)
attempt-Post E Q (done (failed e) w s) p = p
attempt-Post E Q (done (value a) w s) p = p

pub if-Post :
    {World Value : Type 0} (E : Store → Type 0) (Q : Value → Store → Type 0) (w : World) (s : Store)
    (b : Bool) (m n : M World Value)
    → (b ≡ true → Post E Q (m w s))
    → (b ≡ false → Post E Q (n w s))
    → Post E Q ((if b then m else n) w s)
if-Post E Q w s true m n p q = p refl
if-Post E Q w s false m n p q = q refl

-- The steps that leave the store alone: each goes on where it does not fail.
module _ {World Next : Type 0} (E : Store → Type 0) (R : Next → Store → Type 0) where
  pub guard_step :
      (b : Bool) (e : Error) (rest : Unit {0} → World → Store → Outcome World Next) (w : World)
      (s : Store)
      → E s
      → (b ≡ true → Post E R (rest tt w s))
      → Post E R (continue (guard b e w s) rest)
  guard_step true e rest w s p k = k refl
  guard_step false e rest w s p k = p

  pub ok_step :
      (es : List Error) (rest : Unit {0} → World → Store → Outcome World Next) (w : World)
      (s : Store)
      → E s
      → (es ≡ [] → Post E R (rest tt w s))
      → Post E R (continue (when_ok es w s) rest)
  ok_step [] rest w s p k = k refl
  ok_step (e ∷ es) rest w s p k = p

  pub ask_step :
      {Value : Type 0} (r : Reply Value) (rest : Value → World → Store → Outcome World Next)
      (w : World) (s : Store)
      → E s
      → ((a : Value) → r ≡ value a → Post E R (rest a w s))
      → Post E R (continue (done r w s) rest)
  ask_step (failed e) rest w s p k = p
  ask_step (value a) rest w s p k = k a refl

  pub found_step :
      {Value : Type 0} (o : Option Value) (e : Error)
      (rest : Value → World → Store → Outcome World Next) (w : World) (s : Store)
      → E s
      → ((a : Value) → o ≡ some a → Post E R (rest a w s))
      → Post E R (continue (found o e w s) rest)
  found_step none e rest w s p k = p
  found_step (some a) e rest w s p k = k a refl

  pub result_step :
      {Value : Type 0} (r : Result Value) (rest : Value → World → Store → Outcome World Next)
      (w : World) (s : Store)
      → E s
      → ((a : Value) → r ≡ ok a → Post E R (rest a w s))
      → Post E R (continue (of_result r w s) rest)
  result_step (err e) rest w s p k = p
  result_step (ok a) rest w s p k = k a refl

module _ {World : Type 0} (P : Store → Type 0) where
  pub guard-Keeps : (b : Bool) (e : Error) → Keeps {World = World} P (guard b e)
  guard-Keeps true e w s p = p
  guard-Keeps false e w s p = p

  pub guard-Ensures :
      (Q : Unit {0} → Store → Type 0) (b : Bool) (e : Error) (w : World) (s : Store)
      → P s
      → (b ≡ true → Q tt s)
      → Post P Q (guard b e w s)
  guard-Ensures Q true e w s p q = q refl
  guard-Ensures Q false e w s p q = p

  pub when_ok-Keeps : (es : List Error) → Keeps {World = World} P (when_ok es)
  when_ok-Keeps [] w s p = p
  when_ok-Keeps (e ∷ es) w s p = p

  pub found-Keeps :
      {Value : Type 0} (o : Option Value) (e : Error) → Keeps {World = World} P (found o e)
  found-Keeps none e w s p = p
  found-Keeps (some a) e w s p = p

pub attempted :
    {Value : Type 0} (P : Store → Type 0) (r : Reply Value) (s : Store)
    → Attempted P (λ a. P) r s
    → P s
attempted P (failed e) s p = p
attempted P (value a) s p = p

-- two facts about one outcome
pub both :
    {World Value : Type 0} (E : Store → Type 0) (Q R : Value → Store → Type 0)
    (o : Outcome World Value)
    → Post E Q o
    → Post (λ s. Unit {0}) R o
    → Post E (λ a s. Q a s × R a s) o
both E Q R (done (failed e) w s) p q = p
both E Q R (done (value a) w s) p q = (p, q)
