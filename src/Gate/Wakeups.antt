-- ===== src/Gate/Wakeups.antt =====
-- internal/workspacefs/definition_gate.go: no more than four at a time, and no lost wakeup.
use fabric_workspace_fs.Prelude.{
  ◌||◌, ℕ, ◌+◌, ◌-◌, ◌<◌, ◌≤◌, ◌≡◌, refl, ◌⊎◌, inl, inr, Bool, true, false, not, ◌&&◌, Option, none,
  some, List, [], ◌∷◌, arith, ltb, ◌==◌, if◌then◌else◌, length, All, Bool-cases,
}
use fabric_workspace_fs.Gate.{
  Gate, granted, with_channel, round, acquire, try_background, release, is_open, Crowd, Event,
  arrival, waking, background, finish, after_round, sleeper_at, without, woken, step, run,
}

-- the channel that a gate holds was made
abbrev Made : Option ℕ → ℕ → Type 0
Made none n = Unit
Made (some c) n = c + 1 ≤ n

-- The gate counts what it is for, and holds a channel only while all slots are taken.
pub record IsBalanced (s : Crowd) : Type 0 where
  pub holding : s.gate.active ≡ s.holders
  pub bounded : s.gate.active ≤ 4
  pub sleeping : s.gate.waiting ≡ length s.sleepers
  pub current : (s.gate.changed ≡ none) ⊎ (s.gate.active ≡ 4)
  pub known : All (λ c. c + 1 ≤ s.gate.made) s.sleepers
  pub made : Made s.gate.changed s.gate.made

known_later : (m n : ℕ) (cs : List ℕ) → m ≤ n → All (λ c. c + 1 ≤ m) cs → All (λ c. c + 1 ≤ n) cs
known_later m n [] h a = tt
known_later m n (c ∷ cs) h a = (omega (arith, h, a.0), known_later m n cs h a.1)

-- a round by a goroutine that the gate counts as waiting beside the sleepers
asleep_valid :
    (g : Gate) (o : Option ℕ) (sleepers : List ℕ) (holders : ℕ)
    → g.changed ≡ o
    → g.active ≡ holders
    → g.active ≡ 4
    → g.waiting ≡ length sleepers + 1
    → All (λ c. c + 1 ≤ g.made) sleepers
    → Made o g.made
    → IsBalanced (after_round (with_channel o g) sleepers holders)
asleep_valid g none sleepers holders e h f w k m = record {
  holding = h;
  bounded = omega (arith, f);
  sleeping = omega (arith, w);
  current = inr f;
  known = (omega arith, known_later g.made (g.made + 1) sleepers (omega arith) k);
  made = omega arith;
}
asleep_valid g (some c) sleepers holders e h f w k m = record {
  holding = h;
  bounded = omega (arith, f);
  sleeping = omega (arith, w);
  current = inr f;
  known = (m, k);
  made = rw e m;
}

tested_valid :
    (free : Bool) (g : Gate) (sleepers : List ℕ) (holders : ℕ)
    → ltb g.active 4 ≡ free
    → g.active ≡ holders
    → g.active ≤ 4
    → g.waiting ≡ length sleepers + 1
    → (g.changed ≡ none) ⊎ (g.active ≡ 4)
    → All (λ c. c + 1 ≤ g.made) sleepers
    → Made g.changed g.made
    → IsBalanced (
        after_round
          (if free
            then (granted, record g { waiting = g.waiting - 1; active = g.active + 1 })
            else with_channel g.changed g)
          sleepers
          holders)
tested_valid true g sleepers holders t h b w c k m = record {
  holding = omega (arith, h);
  bounded = ground arith;
  sleeping = omega (arith, w);
  current = elim c [ inl e ↦ inl e | inr f ↦ absurd (ground arith) ];
  known = k;
  made = m;
}
tested_valid false g sleepers holders t h b w c k m =
    asleep_valid g g.changed sleepers holders refl h (ground arith) w k m

round-IsBalanced :
    (cancelled : Bool) (g : Gate) (sleepers : List ℕ) (holders : ℕ)
    → g.active ≡ holders
    → g.active ≤ 4
    → g.waiting ≡ length sleepers + 1
    → (g.changed ≡ none) ⊎ (g.active ≡ 4)
    → All (λ c. c + 1 ≤ g.made) sleepers
    → Made g.changed g.made
    → IsBalanced (after_round (round cancelled g) sleepers holders)
unfolding round
round-IsBalanced true g sleepers holders h b w c k m = record {
  holding = h;
  bounded = b;
  sleeping = omega (arith, w);
  current = c;
  known = k;
  made = m;
}
round-IsBalanced false g sleepers holders h b w c k m =
    tested_valid (ltb g.active 4) g sleepers holders refl h b w c k m

length-without :
    (i c : ℕ) (cs : List ℕ) → sleeper_at i cs ≡ some c → length cs ≡ length (without i cs) + 1
unfolding sleeper_at without
length-without i c [] h = absurd (ground arith)
length-without i c (d ∷ cs) h = ground (arith, length-without (i - 1) c cs)

known_without :
    (i m : ℕ) (cs : List ℕ) → All (λ c. c + 1 ≤ m) cs → All (λ c. c + 1 ≤ m) (without i cs)
unfolding without
known_without i m [] a = tt
known_without i m (d ∷ cs) a = elim (Bool-cases (i == 0)) [
  | inl e ↦ rw e a.1
  | inr e ↦ rw e (a.0, known_without (i - 1) m cs a.1)
]

woken_if : (b : Bool) (s t : Crowd) → IsBalanced s → IsBalanced t → IsBalanced (if b then s else t)
woken_if true s t v u = v
woken_if false s t v u = u

woken-IsBalanced :
    (cancelled : Bool) (i : ℕ) (s : Crowd) (o : Option ℕ)
    → sleeper_at i s.sleepers ≡ o
    → IsBalanced s
    → IsBalanced (woken cancelled (without i s.sleepers) s o)
woken-IsBalanced cancelled i s none e v = v
woken-IsBalanced cancelled i s (some c) e v =
    woken_if (is_open s.gate.changed c && not cancelled) s _ v (
      round-IsBalanced cancelled s.gate (without i s.sleepers) s.holders v.holding v.bounded
        (omega (arith, length-without i c s.sleepers e, v.sleeping)) v.current
        (known_without i s.gate.made s.sleepers v.known) v.made)

background-IsBalanced : (s : Crowd) → IsBalanced s → IsBalanced (step background s)
unfolding step try_background
background-IsBalanced s v =
    elim (Bool-cases (not (s.gate.waiting == 0) || not (ltb s.gate.active 4))) [
      | inl e ↦ rw e v
      | inr e ↦ rw e (record {
        holding = omega (arith, v.holding);
        bounded = ground arith;
        sleeping = v.sleeping;
        current = elim v.current [ inl n ↦ inl n | inr f ↦ absurd (ground arith) ];
        known = v.known;
        made = v.made;
      })
    ]

finish-IsBalanced : (s : Crowd) → IsBalanced s → IsBalanced (step finish s)
unfolding step release
finish-IsBalanced s v = woken_if (s.holders == 0) s _ v (record {
  holding = omega (arith, v.holding);
  bounded = omega (arith, v.bounded);
  sleeping = v.sleeping;
  current = inl refl;
  known = v.known;
  made = tt;
})

step-IsBalanced : (e : Event) (s : Crowd) → IsBalanced s → IsBalanced (step e s)
unfolding step acquire
step-IsBalanced (arrival cancelled) s v =
    round-IsBalanced cancelled (record s.gate { waiting = s.gate.waiting + 1 }) s.sleepers s.holders
      v.holding v.bounded (omega (arith, v.sleeping)) v.current v.known v.made
step-IsBalanced (waking i cancelled) s v =
    woken-IsBalanced cancelled i s (sleeper_at i s.sleepers) refl v
step-IsBalanced background s v = background-IsBalanced s v
step-IsBalanced finish s v = finish-IsBalanced s v

abbrev pub start : Crowd
start = record {
  gate = record { active = 0; waiting = 0; changed = none; made = 0 };
  sleepers = [];
  holders = 0;
}

start-IsBalanced : IsBalanced start
start-IsBalanced = record {
  holding = refl;
  bounded = omega arith;
  sleeping = refl;
  current = inl refl;
  known = tt;
  made = tt;
}

run_from : (es : List Event) (s : Crowd) → IsBalanced s → IsBalanced (run es s)
unfolding run
run_from [] s v = v
run_from (e ∷ es) s v = run_from es (step e s) (step-IsBalanced e s v)

-- After every interleaving of arrivals, wakeups, background attempts and releases, from an unused
-- gate, active is the number of holders and at most four, waiting is the number of sleepers,
-- every channel that is slept on was made, and the gate holds a channel only while four slots are
-- taken.
pub run-IsBalanced : (es : List Event) → IsBalanced (run es start)
run-IsBalanced es = run_from es start start-IsBalanced

-- nobody sleeps on an open channel while a slot is free, so a woken sleeper gets one
granted_free :
    (c : ℕ) (others : List ℕ) (s : Crowd)
    → IsBalanced s
    → s.gate.active < 4
    → ((woken false others s (some c)).holders ≡ s.holders + 1)
      × ((woken false others s (some c)).sleepers ≡ others)
unfolding round is_open
granted_free c others s v free = elim v.current [
  | inl e ↦ (ground arith, ground arith)
  | inr f ↦ absurd (omega (arith, f, free))
]

-- No wakeup is lost: after every interleaving, if a slot is free, then any sleeper that runs,
-- without its context being done, gets a slot and leaves the sleepers.
pub waking-granted :
    (es : List Event) (i c : ℕ)
    → sleeper_at i (run es start).sleepers ≡ some c
    → (run es start).gate.active < 4
    → ((step (waking i false) (run es start)).holders ≡ (run es start).holders + 1)
      × ((step (waking i false) (run es start)).sleepers ≡ without i (run es start).sleepers)
unfolding step
waking-granted es i c h free =
    rw h
      (granted_free c (without i (run es start).sleepers) (run es start) (run-IsBalanced es) free)
