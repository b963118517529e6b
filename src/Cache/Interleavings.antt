-- ===== src/Cache/Interleavings.antt =====
-- internal/cache/cache.go: runs of the cache under any interleaving of critical sections.
use mathlib.Core.Option
use text.Mathlib.Text.{starts_with}
use fabric_workspace_fs.Prelude.{
  ℕ, ◌<◌, String, ◌≡◌, refl, ap, inl, inr, Option, none, some, List, [], ◌∷◌, arith, str_eq, eq_iff,
  if◌then◌else◌, false, Bool-cases, Option-cases, All,
}
use fabric_workspace_fs.Prelude.Int.{ℤ}
use fabric_workspace_fs.Keyed.{find, without, Unique, total, find-without, find-head}
use fabric_workspace_fs.Cache.{
  Entry, Cache, Flight, Error, Options, entry_key, remove_locked, expire_locked,
}
use fabric_workspace_fs.Cache.Wellformed.{remove_locked-IsLinked}
use fabric_workspace_fs.Cache.Eviction.{
  Shrinks, Shrinks-refl, Shrinks-trans, remove_locked-Shrinks, expire_locked-Shrinks,
}
use fabric_workspace_fs.Cache.Requests.{
  flight_key, is_current, Prepared, Loaded, refusal, drop_entry, drop_flight, complete,
  final_outcome, prepare,
}
use fabric_workspace_fs.Cache.Publication.{drop_entry-IsLinked, drop_entry-Shrinks}
use fabric_workspace_fs.Cache.Runs.{
  Event, peek_within, invalidate, drop_prefixed, keep_flights, invalidate_prefix, clear, stats,
  step, run, request, finish, look, forget, forget_prefix, reset, report,
}
use fabric_workspace_fs.Cache.Safety.{
  Advances, Advances-refl, Advances-trans, Advances-same, Advances-without, get_within-Advances,
  IsValid, shrunk, relabelled, expire_locked-IsValid, get_within-IsValid, complete-IsValid,
  prepare-HasRoom,
}

-- the flights under the prefix are dropped, and those alone
find-keep_flights :
    (prefix k : String) (l : List Flight)
    → find flight_key k (keep_flights prefix l)
      ≡ (if starts_with k prefix then none else find flight_key k l)
unfolding find keep_flights
find-keep_flights prefix k [] = ground arith
find-keep_flights prefix k (f ∷ l) = elim (Bool-cases (str_eq f.key k)) [
  | inl same ↦
      let e : starts_with f.key prefix ≡ starts_with k prefix =
        ap (λ t. starts_with t prefix) ((eq_iff f.key k).0 same) in
      ground (arith, e, find-keep_flights prefix k l)
  | inr other ↦ ground (arith, find-keep_flights prefix k l)
]

module _ {ℓ} {T : Type ℓ} where
  -- the entries of a list are in the map
  abbrev AllIn : List (Entry T) → List (Entry T) → Type ℓ
  AllIn m l = All (λ e. find entry_key e.key m ≡ some e) l

  AllIn-cons :
      (x : Entry T) (m l : List (Entry T))
      → find entry_key x.key l ≡ none
      → AllIn m l
      → AllIn (x ∷ m) l
  unfolding find
  AllIn-cons x m [] n h = tt
  AllIn-cons x m (e ∷ l) n h =
      ground (arith, AllIn-cons x m l, eq_iff x.key e.key, eq_iff e.key x.key)

  AllIn-self : (l : List (Entry T)) → Unique entry_key l → AllIn l l
  AllIn-self [] u = tt
  AllIn-self (x ∷ l) u = (find-head entry_key x l, AllIn-cons x l l u.0 (AllIn-self l u.1))

  AllIn-without :
      (x : Entry T) (m l : List (Entry T))
      → find entry_key x.key l ≡ none
      → AllIn m l
      → AllIn (without entry_key x.key m) l
  unfolding find
  AllIn-without x m [] n h = tt
  AllIn-without x m (e ∷ l) n h = ground (
    arith,
    AllIn-without x m l,
    find-without entry_key x.key e.key m,
    eq_iff x.key e.key,
    eq_iff e.key x.key,
  )

  drop_prefixed_lem :
      {o : Options T} (prefix : String) (l : List (Entry T)) (c : Cache T)
      → Unique entry_key l
      → AllIn c.entries l
      → IsValid o c
      → IsValid o (drop_prefixed prefix l c)
  unfolding drop_prefixed
  drop_prefixed_lem prefix [] c u h v = v
  drop_prefixed_lem prefix (e ∷ l) c u h v = elim (Bool-cases (starts_with e.key prefix)) [
    | inl starts ↦ rw starts (
        drop_prefixed_lem prefix l (remove_locked e c) u.1
          (unfold remove_locked in AllIn-without e c.entries l u.0 h.1)
          (shrunk c (remove_locked e c) v (remove_locked-IsLinked c e v.linked h.0)
            (remove_locked-Shrinks c e)))
    | inr other ↦ rw other (drop_prefixed_lem prefix l c u.1 h.1 v)
  ]

  drop_flight-IsValid :
      {o : Options T} (key : String) (c : Cache T) → IsValid o c → IsValid o (drop_flight key c)
  unfolding drop_flight
  drop_flight-IsValid key c v = relabelled c (drop_flight key c) v refl

  invalidate-IsValid :
      {o : Options T} (key : String) (c : Cache T) → IsValid o c → IsValid o (invalidate key c)
  unfolding invalidate
  invalidate-IsValid key c v = drop_flight-IsValid key (drop_entry key c) (
      shrunk c (drop_entry key c) v (drop_entry-IsLinked key c v.linked) (drop_entry-Shrinks key c))

  invalidate_prefix-IsValid :
      {o : Options T} (prefix : String) (c : Cache T)
      → IsValid o c
      → IsValid o (invalidate_prefix prefix c)
  unfolding invalidate_prefix
  invalidate_prefix-IsValid prefix c v =
      relabelled (drop_prefixed prefix c.entries c) (invalidate_prefix prefix c)
        (drop_prefixed_lem prefix c.entries c v.linked.unique (AllIn-self c.entries v.linked.unique)
          v)
        refl

  clear-IsValid : {o : Options T} (c : Cache T) → IsValid o c → IsValid o (clear c)
  unfolding clear total
  clear-IsValid c v = record {
    linked = record {
      unique = tt;
      lru_unique = tt;
      expiry_unique = tt;
      lru_same = λ k. refl;
      expiry_same = λ k. refl;
      ordered = tt;
      bytes_total = refl;
    };
    bounded = record { count = omega arith; bytes = omega arith };
    options = v.options;
  }

  finish-IsValid :
      {o : Options T} (loaded_ctx ctx : Option Error) (key : String) (id : ℕ) (max_age retain : ℤ)
      (now : ℕ) (l : Loaded T) (c : Cache T)
      → IsValid o c
      → (d : Cache T) × (step (finish loaded_ctx ctx key id max_age retain now l) c ≡ some d)
        × IsValid o d
        × Advances c d
  unfolding step
  finish-IsValid loaded_ctx ctx key id max_age retain now l c v =
      elim (Option-cases (refusal (some none) max_age retain c)) [
        | inr (e, s) ↦ (c, rw (s, step), v, Advances-refl c)
        | inl n ↦
            let (d, r, w, a) =
              complete-IsValid ctx key id (prepare c.options loaded_ctx now retain l) c v
                (prepare-HasRoom (some none) loaded_ctx max_age retain now l c n) in
            (d, rw (n, step, r), w, a)
      ]

  expire_locked-Advances : (now : ℕ) (c : Cache T) → Advances c (expire_locked now c)
  expire_locked-Advances now c =
      let s = expire_locked-Shrinks now c in
      Advances-same c (expire_locked now c) s.flights s.next_flight

  invalidate-Advances : (key : String) (c : Cache T) → Advances c (invalidate key c)
  unfolding invalidate drop_flight
  invalidate-Advances key c =
      let s = drop_entry-Shrinks key c in
      Advances-without key c (invalidate key c) (ap (without flight_key key) s.flights)
        s.next_flight

  is_current-invalidate :
      (key : String) (id : ℕ) (c : Cache T) → is_current key id (invalidate key c) ≡ false
  unfolding invalidate drop_flight is_current
  is_current-invalidate key id c =
      ground (arith, find-without flight_key key key (drop_entry key c).flights, eq_iff key key)

  clear-Advances : (c : Cache T) → Advances c (clear c)
  unfolding clear is_current find
  clear-Advances c = record { next_flight = omega arith; detached = λ k id l h. refl }

  drop_prefixed-Shrinks :
      (prefix : String) (l : List (Entry T)) (c : Cache T) → Shrinks c (drop_prefixed prefix l c)
  unfolding drop_prefixed
  drop_prefixed-Shrinks prefix [] c = Shrinks-refl c
  drop_prefixed-Shrinks prefix (e ∷ l) c = elim (Bool-cases (starts_with e.key prefix)) [
    | inl starts ↦ rw starts (
        Shrinks-trans c (remove_locked e c) (drop_prefixed prefix l (remove_locked e c))
          (remove_locked-Shrinks c e) (drop_prefixed-Shrinks prefix l (remove_locked e c)))
    | inr other ↦ rw other (drop_prefixed-Shrinks prefix l c)
  ]

  invalidate_prefix-Advances :
      (prefix : String) (c : Cache T) → Advances c (invalidate_prefix prefix c)
  unfolding invalidate_prefix is_current
  invalidate_prefix-Advances prefix c = record {
    next_flight = omega (arith, (drop_prefixed-Shrinks prefix c.entries c).next_flight);
    detached = λ k id l h. ground (arith, find-keep_flights prefix k c.flights);
  }

  -- No critical section panics, and each keeps the invariant.
  pub step-IsValid :
      {o : Options T} (e : Event T) (c : Cache T)
      → IsValid o c
      → (d : Cache T) × (step e c ≡ some d) × IsValid o d × Advances c d
  unfolding step
  step-IsValid (request ctx locked key max_age retain has_load now) c v = (
    _,
    refl,
    get_within-IsValid ctx locked key max_age retain has_load now c v,
    get_within-Advances ctx locked key max_age retain has_load now c,
  )
  step-IsValid (finish loaded_ctx ctx key id max_age retain now l) c v =
      finish-IsValid loaded_ctx ctx key id max_age retain now l c v
  step-IsValid (look key max_age now) c v = (
    _,
    refl,
    unfold peek_within in (expire_locked-IsValid now c v),
    unfold peek_within in expire_locked-Advances now c,
  )
  step-IsValid (forget key) c v = (_, refl, invalidate-IsValid key c v, invalidate-Advances key c)
  step-IsValid (forget_prefix prefix) c v =
      (_, refl, invalidate_prefix-IsValid prefix c v, invalidate_prefix-Advances prefix c)
  step-IsValid reset c v = (_, refl, clear-IsValid c v, clear-Advances c)
  step-IsValid (report now) c v = (
    _,
    refl,
    unfold stats in (expire_locked-IsValid now c v),
    unfold stats in expire_locked-Advances now c,
  )

  -- From any state that satisfies the invariant of its options, every sequence of critical
  -- sections (requests, ends of loads, peeks, invalidations, statistics) runs without a panic and
  -- ends in a state where the map, the recency list and the expiry heap hold the same entries
  -- once each, the heap is ordered, the byte count is the sum of the sizes, and the configured
  -- limits hold; and no flight that was detached from a key comes back under it.
  pub run-IsValid :
      {o : Options T} (es : List (Event T)) (c : Cache T)
      → IsValid o c
      → (d : Cache T) × (run es c ≡ some d) × IsValid o d × Advances c d
  unfolding run Option.bind
  run-IsValid [] c v = (c, refl, v, Advances-refl c)
  run-IsValid (e ∷ es) c v =
      let (d, r, w, a) = step-IsValid e c v in
      let (d', r', w', a') = run-IsValid es d w in (d', rw r r', w', Advances-trans c d d' a a')

  -- After Invalidate of a key, a load of that key that was pending never publishes: whatever
  -- critical sections run in between, its completion leaves the cache unchanged and still hands
  -- its outcome to its callers.
  pub complete-invalidate :
      {o : Options T} (key : String) (id : ℕ) (es : List (Event T)) (c : Cache T)
      → IsValid o c
      → id < c.next_flight
      → (d : Cache T) × (run es (invalidate key c) ≡ some d)
        × ((ctx : Option Error) (p : Prepared T)
            → complete ctx key id p d ≡ some (d, final_outcome ctx p.outcome))
  unfolding complete
  complete-invalidate key id es c v old =
      let (d, r, w, a) = run-IsValid es (invalidate key c) (invalidate-IsValid key c v) in
      let gone =
        a.detached key id (omega (arith, (invalidate-Advances key c).next_flight))
          (is_current-invalidate key id c) in
      (d, r, λ ctx p. rw gone)
