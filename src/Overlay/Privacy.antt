-- ===== src/Overlay/Privacy.antt =====
-- internal/overlay/store.go: nothing is opened that is not private, and a check of a path looks at all
-- of its prefixes.
use fabric_workspace_fs.Prelude.{
  inl, inr, ◌⊎◌, ◌==◌, if◌then◌else◌, Bool-cases, arith, Bool-cases, arith, ℕ, ◌≡◌, true, false,
}
use fabric_workspace_fs.Errors.{permission}
use fabric_workspace_fs.Bytes.{Bytes}
use fabric_workspace_fs.Overlay.{is_dir, Info, Store, Os, Reply, failed, value, Flags}
use fabric_workspace_fs.Overlay.Paths.{check_private, checked_type, is_regular}
use fabric_workspace_fs.Overlay.Access.{verify, close_failed, open_verified}
use fabric_workspace_fs.Overlay.Neutral.{checked_stat-Keeps}
use fabric_workspace_fs.Overlay.Logic.{
  Post, Ensures, step, ask_step, guard_step, attempt-Post, Attempted,
}

-- an object that the user owns alone and no link leads to
pub record IsPrivate (euid : ℕ) (i : Info) : Type 0 where
  pub kind : checked_type i.mode ≡ true
  pub owner : i.uid ≡ euid
  pub bits : i.permissions ≡ (if is_dir i.mode then 448 else 384)
  pub one_name : (is_regular i.mode ≡ false) ⊎ (i.links ≡ 1)

check_private-IsPrivate : (euid : ℕ) (i : Info) → check_private euid i ≡ true → IsPrivate euid i
unfolding check_private
check_private-IsPrivate euid i h = record {
  kind = ground arith;
  owner = ground arith;
  bits = ground arith;
  one_name = elim (Bool-cases (is_regular i.mode)) [ inl e ↦ inr (ground arith) | inr e ↦ inl e ];
}

module _ (O : Os) where
  abbrev Nothing : Store → Type 0
  Nothing s = Unit

  abbrev Private : Info → Store → Type 0
  Private i s = IsPrivate O.euid i

  abbrev Opened : ℕ × Info → Store → Type 0
  Opened opened s = IsPrivate O.euid opened.1

  verify-Ensures : (fd : ℕ) (before : Info) → Ensures Nothing (verify O fd before) Private
  unfolding verify
  verify-Ensures fd before w s p = ask_step Nothing Private (O.fstat fd w).0 _ _ s tt (λ i e.
      guard_step Nothing Private (check_private O.euid i) permission _ _ s tt (λ h.
        guard_step Nothing Private (before.identity == i.identity) permission _ _ s tt
          (λ k. check_private-IsPrivate O.euid i h)))

  close_failed-Ensures :
      (fd : ℕ) (r : Reply Info) (w : O.World) (s : Store)
      → Attempted Nothing Private r s
      → Post Nothing Private (close_failed O fd r w s)
  close_failed-Ensures fd (value i) w s p = p
  close_failed-Ensures fd (failed e) w s p = tt

  -- Whenever openVerified succeeds, the opened object is a regular file or a directory, is owned
  -- by the effective user, has exactly the private permissions of its kind, and, if it is a file,
  -- has one link.
  pub open_verified-IsPrivate :
      (path : Bytes) (f : Flags) (w : O.World) (s : Store)
      → Post Nothing Opened (open_verified O path f w s)
  unfolding open_verified
  open_verified-IsPrivate path f w s =
      step Nothing (λ a. Nothing) Opened _ _ (checked_stat-Keeps O Nothing path w s tt)
        (λ before w s p.
          ask_step Nothing Opened (O.open_file path f w).0 _ (O.open_file path f w).1 s tt (λ fd e.
            step Nothing (Attempted Nothing Private) Opened _ _
              (attempt-Post Nothing Private _
                (verify-Ensures fd before (O.open_file path f w).1 s tt))
              (λ r w s q.
                step Nothing Private Opened _ _ (close_failed-Ensures fd r w s q) (λ i w s q. q))))
