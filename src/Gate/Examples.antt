-- ===== src/Gate/Examples.antt =====
-- The theorems on the gate of internal/workspacefs/definition_gate.go at concrete inputs.
use fabric_workspace_fs.Prelude.{◌+◌, ◌≡◌, refl, false, some, List, [], ◌∷◌, arith}
use fabric_workspace_fs.Gate.{
  Event, arrival, waking, background, finish, acquire, round, try_background, release, is_open,
  sleeper_at, without, step, run,
}
use fabric_workspace_fs.Gate.Wakeups.{IsBalanced, start, run-IsBalanced, waking-granted}

-- five exports, of which one has to wait, and the end of one
abbrev busy_day : List Event
busy_day =
    arrival false
    ∷ background
    ∷ arrival false
    ∷ arrival false
    ∷ arrival false
    ∷ background
    ∷ finish
    ∷ []

run_of_gate : Unit {0}
unfolding acquire round try_background release is_open sleeper_at without step run
run_of_gate = tt

one_sleeper : sleeper_at 0 (run busy_day start).sleepers ≡ some 0
unfolding run_of_gate
one_sleeper = refl

three_active : (run busy_day start).gate.active ≡ 3
unfolding run_of_gate
three_active = refl

run-IsBalanced_example : IsBalanced (run busy_day start)
run-IsBalanced_example = run-IsBalanced busy_day

waking-granted_example :
    ((step (waking 0 false) (run busy_day start)).holders ≡ (run busy_day start).holders + 1)
    × ((step (waking 0 false) (run busy_day start)).sleepers
        ≡ without 0 (run busy_day start).sleepers)
waking-granted_example = waking-granted busy_day 0 0 one_sleeper (omega (arith, three_active))
