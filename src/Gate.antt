-- ===== src/Gate.antt =====
-- internal/workspacefs/definition_gate.go: the gate that lets at most four exports of definitions run.
-- Each section under the mutex is a function. A channel is a number; it is closed unless it is the one
-- that the gate holds. The context's error is an argument.
use fabric_workspace_fs.Prelude.{
  ℕ, ◌+◌, ◌-◌, Bool, true, false, not, ◌&&◌, ◌||◌, Option, none, some, List, [], ◌∷◌, ltb, ◌==◌,
  if◌then◌else◌, length,
}
mod Wakeups
mod Examples

-- `definitionGate`; `made` is the number of channels that were made
pub record Gate : Type 0 where
  pub active : ℕ
  pub waiting : ℕ
  pub changed : Option ℕ
  pub made : ℕ

-- what one round of the loop of `acquire` comes to
pub data Round : Type 0 where
  refused granted : Round
  asleep : ℕ → Round

abbrev pub with_channel : Option ℕ → Gate → Round × Gate
with_channel (some c) g = (asleep c, g)
with_channel none g = (asleep g.made, record g { changed = some g.made; made = g.made + 1 })

-- one round of the loop, under the mutex
unfoldable pub round : Bool → Gate → Round × Gate
round cancelled g =
    if cancelled
    then (refused, record g { waiting = g.waiting - 1 })
    else if ltb g.active 4
    then (granted, record g { waiting = g.waiting - 1; active = g.active + 1 })
    else with_channel g.changed g

-- `acquire` up to its first sleep
unfoldable pub acquire : Bool → Gate → Round × Gate
unfolding round
acquire cancelled g = round cancelled (record g { waiting = g.waiting + 1 })

unfoldable pub try_background : Gate → Bool × Gate
try_background g =
    if not (g.waiting == 0) || not (ltb g.active 4)
    then (false, g)
    else (true, record g { active = g.active + 1 })

unfoldable pub release : Gate → Gate
release g = record g { active = g.active - 1; changed = none }

unfoldable pub is_open : Option ℕ → ℕ → Bool
is_open none c = false
is_open (some d) c = d == c

-- The goroutines at a gate: the channels that the sleeping ones wait for, and how many hold a slot.
pub record Crowd : Type 0 where
  pub gate : Gate
  pub sleepers : List ℕ
  pub holders : ℕ

pub data Event : Type 0 where
  arrival : Bool → Event
  waking : ℕ → Bool → Event
  background finish : Event

-- what the goroutine that ran a round does next
abbrev pub after_round : Round × Gate → List ℕ → ℕ → Crowd
after_round (refused, g) sleepers holders = record {
  gate = g;
  sleepers = sleepers;
  holders = holders;
}
after_round (granted, g) sleepers holders = record {
  gate = g;
  sleepers = sleepers;
  holders = holders + 1;
}
after_round (asleep c, g) sleepers holders = record {
  gate = g;
  sleepers = c ∷ sleepers;
  holders = holders;
}

-- the channel of a sleeper by its place, and those of the others
unfoldable pub sleeper_at : ℕ → List ℕ → Option ℕ
sleeper_at i [] = none
sleeper_at i (c ∷ cs) = let rest = sleeper_at (i - 1) cs in if i == 0 then some c else rest

unfoldable pub without : ℕ → List ℕ → List ℕ
without i [] = []
without i (c ∷ cs) = let rest = without (i - 1) cs in if i == 0 then cs else c ∷ rest

-- The select ends if the channel is closed or the context is done.
abbrev pub woken : Bool → List ℕ → Crowd → Option ℕ → Crowd
woken cancelled others s none = s
woken cancelled others s (some c) =
    if is_open s.gate.changed c && not cancelled
    then s
    else after_round (round cancelled s.gate) others s.holders

unfoldable pub step : Event → Crowd → Crowd
unfolding acquire round try_background release is_open
step (arrival cancelled) s = after_round (acquire cancelled s.gate) s.sleepers s.holders
step (waking i cancelled) s = woken cancelled (without i s.sleepers) s (sleeper_at i s.sleepers)
step background s =
    let (taken, g) = try_background s.gate in
    record s { gate = g; holders = if taken then s.holders + 1 else s.holders }
step finish s =
    if s.holders == 0 then s else record s { gate = release s.gate; holders = s.holders - 1 }

unfoldable pub run : List Event → Crowd → Crowd
unfolding step
run [] s = s
run (e ∷ es) s = run es (step e s)
