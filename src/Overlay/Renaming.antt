-- ===== src/Overlay/Renaming.antt =====
-- internal/overlay/store.go: a rename never counts less than there is.
use fabric_workspace_fs.Prelude.{
  ℕ, ◌≡◌, Bool, false, not, ◌&&◌, ◌||◌, Option, none, some, arith, is_some,
}
use fabric_workspace_fs.Errors.{busy as busy_error, exist, invalid, unsupported, cross_device}
use fabric_workspace_fs.Bytes.{Bytes, same}
use fabric_workspace_fs.Overlay.{
  Outcome, Node, Store, Os, Reply, failed, value, Location, is_not_exist,
}
use fabric_workspace_fs.Overlay.Paths.{Resolved, resolve, within}
use fabric_workspace_fs.Overlay.Access.{is_directory, busy}
use fabric_workspace_fs.Overlay.Directories.{
  is_root_name, optional_node, checked_rename, rename_known, apply_rename, rename,
}
use fabric_workspace_fs.Overlay.Naming.{too_deep}
use fabric_workspace_fs.Overlay.Logic.{
  Post, step, weaken, attempt-Post, Attempted, if-Post, guard_step, ok_step, result_step,
}
use fabric_workspace_fs.Overlay.Neutral.{check_locked-Keeps}
use fabric_workspace_fs.Overlay.Quota.{IsSound}
use fabric_workspace_fs.Overlay.Entries.{Kept, KeptWith, existing-Ensures, destination-Keeps}
use fabric_workspace_fs.Overlay.Opening.{Always, Always-stable}
use fabric_workspace_fs.Overlay.Moving.{IsBounded, Replaced, renamed-IsBounded}

bounded : (le lb : ℕ) (s : Store) → IsSound le lb s → IsBounded s
bounded le lb s v = record { lost_entries = le; lost_bytes = lb; sound = v }

module _ (O : Os) (le lb : ℕ) where
  abbrev A : Store → Type 0
  A = Kept O le lb Always Always-stable

  abbrev B : {Value : Type 0} → Value → Store → Type 0
  B a s = IsBounded s

  abbrev KnownOld : Bytes → Option Node → Store → Type 0
  KnownOld target old s = IsSound le lb s × Replaced target old s

  optional_node-Ensures :
      (target : Bytes) (r : Reply Node) (w : O.World) (s : Store)
      → Attempted A (λ n. KeptWith O le lb Always Always-stable target n) r s
      → Post IsBounded (KnownOld target) (optional_node r w s)
  optional_node-Ensures target (value n) w s q = (q.0.0, q.1)
  optional_node-Ensures target (failed e) w s q =
      if-Post IsBounded (KnownOld target) w s (is_not_exist e) _ _ (λ h. (q.0, tt))
        (λ h. bounded le lb s q.0)

  apply_rename-Keeps :
      (source target : Bytes) (n : Node) (old : Option Node) (w : O.World) (s : Store)
      → KnownOld target old s
      → busy source s ≡ false
      → busy target s ≡ false
      → Post IsBounded B (apply_rename O source target n old w s)
  unfolding apply_rename
  apply_rename-Keeps source target n old w s q free other =
      let v = bounded le lb s q.0 in
      guard_step IsBounded B (not (is_directory n.info && within target source)) invalid _ w s v
        (λ h.
          guard_step IsBounded B
            (not (elim old [ none ↦ false | some o ↦ is_directory o.info || is_directory n.info ]))
            unsupported _ w s v
            (λ h.
              guard_step IsBounded B (not (too_deep source target s.entries)) invalid _ w s v (λ h.
                ok_step IsBounded B (O.rename source target w).0 _ (O.rename source target w).1 s v
                  (λ e. renamed-IsBounded source target old le lb s q.0 q.1 free other))))

  checked_rename-Keeps :
      (source target : Bytes) (n : Node) (old : Option Node) (no_replace : Bool) (w : O.World)
      (s : Store)
      → KnownOld target old s
      → Post IsBounded B (checked_rename O source target n old no_replace w s)
  unfolding checked_rename
  checked_rename-Keeps source target n old no_replace w s q =
      let v = bounded le lb s q.0 in
      guard_step IsBounded B (not (busy source s || busy target s)) busy_error _ w s v (λ free.
        guard_step IsBounded B (not (is_some old && no_replace)) exist _ w s v (λ h.
          if-Post IsBounded B w s (is_some old && same target source) _ _ (λ h. v)
            (λ h.
              apply_rename-Keeps source target n old w s q (ground (arith, free))
                (ground (arith, free)))))

  -- an operation that keeps the accounting, where less is wanted of its failure
  loosen :
      {Value : Type 0} (Q : Value → Store → Type 0) (o : Outcome O.World Value)
      → Post A Q o
      → Post IsBounded Q o
  loosen Q o p = weaken A IsBounded Q Q o (λ t q. bounded le lb t q.0) (λ a t q. q) p

  rename_known-Keeps :
      (source : Bytes) (q : Resolved) (n : Node) (no_replace : Bool) (w : O.World) (s : Store)
      → A s
      → Post IsBounded B (rename_known O source q n no_replace w s)
  unfolding rename_known
  rename_known-Keeps source r n no_replace w s p =
      let Old =
        λ (target : Bytes). Attempted A (λ n. KeptWith O le lb Always Always-stable target n) in
      guard_step IsBounded B (is_directory n.info || not (is_root_name r)) invalid _ w s
        (bounded le lb s p.0)
        (λ h.
          step IsBounded (λ a. A) B _ _
            (loosen (λ a. A) _ (destination-Keeps O le lb Always Always-stable r w s p))
            (λ target w s p.
              step IsBounded (Old target) B _ _
                (loosen (Old target) _ (
                  attempt-Post A (λ n. KeptWith O le lb Always Always-stable target n) _
                    (existing-Ensures O le lb Always Always-stable target w s p)))
                (λ reply w s p.
                  step IsBounded (KnownOld target) B _ _ (optional_node-Ensures target reply w s p)
                    (λ old w s q. checked_rename-Keeps source target n old no_replace w s q))))

  pub rename-Keeps :
      (src dst : Location) (no_replace : Bool) (w : O.World) (s : Store)
      → IsSound le lb s
      → Post IsBounded B (rename O src dst no_replace w s)
  unfolding rename
  rename-Keeps src dst no_replace w s v =
      let K = IsSound le lb in
      let b = bounded le lb in
      step IsBounded (λ a. K) B _ _
        (weaken K IsBounded (λ a. K) (λ a. K) _ b (λ a t q. q) (check_locked-Keeps O K w s v))
        (λ u w s v. result_step IsBounded B (resolve src false) _ w s (b s v) (λ r e.
          result_step IsBounded B (resolve dst false) _ w s (b s v) (λ t e.
            guard_step IsBounded B (same r.scope t.scope) cross_device _ w s (b s v) (λ h.
              step IsBounded (λ n. KeptWith O le lb Always Always-stable r.path n) B _ _
                (loosen (λ n. KeptWith O le lb Always Always-stable r.path n) _
                  (existing-Ensures O le lb Always Always-stable r.path w s (v, tt)))
                (λ n w s q. rename_known-Keeps r.path t n no_replace w s q.0)))))
