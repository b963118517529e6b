-- ===== src/Overlay/Closing.antt =====
-- internal/overlay/store.go: closing a store keeps its accounting, and closes it for good.
use fabric_workspace_fs.Prelude.{
  ℕ, ◌≡◌, refl, Bool, true, false, List, [], ◌∷◌, ◌++◌, if◌then◌else◌,
}
use fabric_workspace_fs.Errors.{Error}
use fabric_workspace_fs.Overlay.{File, Store, Os, continue, Outcome, done, failed, value, M, pure}
use fabric_workspace_fs.Overlay.Files.{close_locked}
use fabric_workspace_fs.Overlay.Lifecycle.{closed_root, close_files, closing, close_store}
use fabric_workspace_fs.Overlay.Logic.{Post, Keeps, step, if-Post}
use fabric_workspace_fs.Overlay.Quota.{IsSound}
use fabric_workspace_fs.Overlay.Sound.{close_locked-Keeps}

closed-IsSound :
    (le lb : ℕ) (c : Bool) (es : List Error) (s : Store)
    → IsSound le lb s
    → IsSound le lb (record s { closed = c; close_err = es })
closed-IsSound le lb c es s v = record {
  counted = v.counted;
  summed = v.summed;
  small = v.small;
  limited = v.limited;
  room = v.room;
  distinct = v.distinct;
  live = v.live;
  single = v.single;
}

module _ (O : Os) (P : Store → Type 0) (keeps : (f : File) → Keeps P (close_locked O f)) where
  close_open-Keeps : (f : File) → Keeps P (if f.closed then pure [] else close_locked O f)
  close_open-Keeps f w s p = if-Post P (λ e. P) w s f.closed _ _ (λ h. p) (λ h. keeps f w s p)

  pub close_files-Keeps : (fs : List File) → Keeps P (close_files O fs)
  unfolding close_files
  close_files-Keeps [] w s p = p
  close_files-Keeps (f ∷ fs) w s p =
      step P (λ e. P) (λ e. P) _ _ (close_open-Keeps f w s p)
        (λ e w s p. step P (λ e. P) (λ e. P) _ _ (close_files-Keeps fs w s p) (λ es w s p. p))

module _ (O : Os) (le lb : ℕ) where
  abbrev K : Store → Type 0
  K = IsSound le lb

  closing-Keeps : (s : Store) (w : O.World) → K s → Post K (λ e. K) (closing O s w s)
  unfolding closing
  closing-Keeps s w v =
      step K (λ e. K) (λ e. K) _ _
        (close_files-Keeps O K (close_locked-Keeps O le lb) s.files w (record s { closed = true })
          (closed-IsSound le lb true s.close_err s v))
        (λ e w t v. closed-IsSound le lb t.closed (e ++ (O.close_root w).0) t v)

  pub close_store-Keeps : Keeps K (close_store O)
  unfolding close_store
  close_store-Keeps w s v = if-Post K (λ e. K) w s s.closed _ _ (λ h. v) (λ h. closing-Keeps s w v)

-- the store is closed, and closing it again returns the same errors and touches nothing
abbrev pub IsFinal : (O : Os) → Outcome O.World (List Error) → Type 0
IsFinal O (done (failed e) w s) = ⊥
IsFinal O (done (value e) w s) =
    (s.closed ≡ true) × ((v : O.World) → close_store O v s ≡ done (value e) v s)

module _ (O : Os) where
  abbrev Never : Store → Type 0
  Never s = ⊥

  abbrev Shut : List Error → Store → Type 0
  Shut e s = s.closed ≡ true

  close_locked-Shut :
      (f : File) (w : O.World) (s : Store)
      → s.closed ≡ true
      → Post Never Shut (close_locked O f w s)
  unfolding close_locked
  close_locked-Shut f w s c = if-Post Never Shut w s f.closed _ _ (λ h. c) (λ h. c)

  close_files-Shut :
      (fs : List File) (w : O.World) (s : Store)
      → s.closed ≡ true
      → Post Never Shut (close_files O fs w s)
  unfolding close_files
  close_files-Shut [] w s c = c
  close_files-Shut (f ∷ fs) w s c =
      step Never Shut Shut _ _
        (if-Post Never Shut w s f.closed _ _ (λ h. c) (λ h. close_locked-Shut f w s c))
        (λ e w s c. step Never Shut Shut _ _ (close_files-Shut fs w s c) (λ es w s c. c))

  again :
      (e : List Error) (w : O.World) (s : Store)
      → s.closed ≡ true
      → s.close_err ≡ e
      → IsFinal O (done (value e) w s)
  unfolding close_store
  again e w s c h = (c, λ v. rw (c, h) refl)

  closing_final :
      (o : Outcome O.World (List Error))
      → Post Never Shut o
      → IsFinal O (continue o (closed_root O))
  closing_final (done (failed e) w s) p = p
  closing_final (done (value e) w s) c =
      again (e ++ (O.close_root w).0) (O.close_root w).1
        (record s { close_err = e ++ (O.close_root w).0 }) c refl

  final_if :
      (w : O.World) (s : Store) (b : Bool) (m n : M O.World (List Error))
      → (b ≡ true → IsFinal O (m w s))
      → (b ≡ false → IsFinal O (n w s))
      → IsFinal O ((if b then m else n) w s)
  final_if w s true m n p q = p refl
  final_if w s false m n p q = q refl

  -- Close of a store always returns, leaves the store closed, and closing it again returns the
  -- same errors, changes nothing and does not touch the system.
  pub close_store-IsFinal : (w : O.World) (s : Store) → IsFinal O (close_store O w s)
  unfolding close_store closing
  close_store-IsFinal w s =
      final_if w s s.closed (pure s.close_err) (closing O s) (λ c. again s.close_err w s c refl)
        (λ c. closing_final _ (close_files-Shut s.files w (record s { closed = true }) refl))
