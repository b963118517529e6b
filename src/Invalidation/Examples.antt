-- ===== src/Invalidation/Examples.antt =====
-- A writer reserves a change of a file and its entry, reports it twice and retires it.
use fabric_workspace_fs.Prelude.{map, ℕ, ◌≡◌, refl, true, false, List, [], ◌∷◌, arith, ◌≢◌}
use fabric_workspace_fs.Bytes.{ascii}
use fabric_workspace_fs.Invalidation.{
  Target, Invalidator, new_invalidator, new_change, reserve, refusal, changed, receive, collect,
  attr, entry, round, notifications, failure,
}
use fabric_workspace_fs.Invalidation.Delivery.{
  Section, reserving, adding, changing, receiving, collecting, failing, finishing, IsValid,
  run_sections, run_sections-IsValid,
}
use fabric_workspace_fs.Invalidation.Failures.{reserve-failure}
use fabric_workspace_fs.Invalidation.Notifications.{
  call_of, count, is_attr, attr_first, notifications_lem,
}
use fabric_workspace_fs.Invalidation.Batches.{holds, has_id, collect-changed}

abbrev targets : List Target
targets = record { inode = 7; name = ascii "a" } ∷ record { inode = 8; name = [] } ∷ []

abbrev story : List Section
story =
    reserving targets
    ∷ adding 0 9
    ∷ changing 0 false
    ∷ receiving
    ∷ changing 0 false
    ∷ collecting
    ∷ failing 5
    ∷ changing 0 true
    ∷ finishing 0
    ∷ []

new_invalidator-IsValid : IsValid new_invalidator
new_invalidator-IsValid = record { bounded = omega arith; woken = tt; known = tt }

run_sections-IsValid_example : IsValid (run_sections story new_invalidator)
run_sections-IsValid_example = run_sections-IsValid story new_invalidator new_invalidator-IsValid

five-two : ◌≢◌ {A = ℕ} 5 2
five-two = omega arith

five-zero : ◌≢◌ {A = ℕ} 5 0
five-zero = omega arith

reserve-failure_example :
    ((reserve targets (run_sections story (failure 5 new_invalidator))).0 ≢ 0)
    × ((run_sections story (failure 5 new_invalidator)).code ≡ 5)
reserve-failure_example =
    reserve-failure 5 story targets new_invalidator refl refl five-zero five-two

abbrev reserved : Invalidator
reserved = record {
  jobs = new_change 0 targets ∷ [];
  limit = 256;
  code = 0;
  closed = false;
  wake = false;
  awake = false;
  fresh = 1;
}

reserve_first : reserve targets new_invalidator ≡ (0, reserved)
unfolding reserve refusal
reserve_first = refl

reserved_holds : holds 0 reserved.jobs ≡ true
unfolding holds
reserved_holds = refl

abbrev quiet : List Section
quiet = receiving ∷ adding 0 9 ∷ reserving targets ∷ finishing 0 ∷ []

collect-changed_example :
    has_id 0 (collect (receive (run_sections quiet (changed 0 true reserved)))).0 ≡ true
collect-changed_example =
    collect-changed 0 true quiet reserved refl reserved_holds (refl, (refl, (refl, (refl, tt))))

notifications_example :
    (count is_attr (notifications targets) ≡ count is_attr (map call_of targets))
    × (attr_first (notifications targets) ≡ true)
notifications_example = notifications_lem is_attr targets

-- the attributes come first
notified : notifications targets ≡ attr 8 ∷ entry 7 (ascii "a") ∷ []
unfolding notifications round
notified = refl

-- a change that is reported again between the receive and the collection leaves a signal behind
abbrev received : Invalidator
received = receive (changed 0 false reserved)

reported_again : (changed 0 true received).wake ≡ true
unfolding changed receive
reported_again = refl
