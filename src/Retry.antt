-- ===== src/Retry.antt =====
-- internal/transport/retry.go: how long the client waits before it tries again. Durations are
-- nanoseconds; the client's options are never negative. `strings.TrimSpace` and `http.ParseTime`
-- (less the present time) are parameters.
mod Examples
use fabric_workspace_fs.Prelude.{
  ℕ, zero, suc, ◌+◌, ◌-◌, ◌*◌, ◌/◌, ◌^◌, ◌≤◌, ◌≡◌, refl, ◌⊎◌, inl, inr, min, max, Bool, true, false,
  not, ◌&&◌, Option, none, some, List, [], ◌∷◌, arith, ltb, leb, if◌then◌else◌, Bool-cases,
}
use fabric_workspace_fs.Prelude.Int.{ℤ, pos_part}
use fabric_workspace_fs.Errors.{Result, ok, err, invalid}
use fabric_workspace_fs.Bytes.{Bytes}
use fabric_workspace_fs.Names.{is_nil}
use fabric_workspace_fs.Names.Roundtrip.{Result-cases}

unfoldable pub all_digits : Bytes → Bool
all_digits [] = true
all_digits (b ∷ s) = leb b'0' b && leb b b'9' && all_digits s

-- the number that `strconv.ParseInt` reads
unfoldable pub decimal : ℕ → Bytes → ℕ
decimal value [] = value
decimal value (b ∷ s) = decimal (value * 10 + (b - 48)) s

abbrev pub second : ℕ
second = 1000000000

abbrev pub max_int64 : ℕ
max_int64 = 2 ^ 63 - 1

-- the doubling of the delay
unfoldable pub backoff : ℕ → ℕ → ℕ → ℕ
backoff limit zero delay = delay
backoff limit (suc attempts) delay =
    let rest = backoff limit attempts (delay * 2) in if ltb (limit / 2) delay then limit else rest

module _ (trim_space : Bytes → Bytes) (time_until : Bytes → Option ℤ) where
  unfoldable pub retry_after : Bytes → Result ℕ
  unfolding all_digits decimal
  retry_after header =
      let value = trim_space header in
      if is_nil value
      then err invalid
      else if all_digits value
      then (let seconds = decimal 0 value in
          if leb seconds max_int64 && leb seconds (max_int64 / second)
          then ok (seconds * second)
          else err invalid)
      else elim (time_until value) [ none ↦ err invalid | some delay ↦ ok (pos_part delay) ]

  -- `none`: do not try again
  unfoldable pub retry_wait : ℕ → ℕ → ℕ → Bytes → Option ℕ
  retry_wait retry_delay limit attempt header =
      let delay = backoff limit attempt (min retry_delay limit) in
      if is_nil header then some delay else elim (retry_after header) [
        | err e ↦ none
        | ok server ↦ if ltb limit server then none else some (max delay server)
      ]

  -- a wait for at least what the server asks
  abbrev pub Obeys : Bytes → ℕ → Type 0
  Obeys header wait =
      (header ≡ []) ⊎ ((server : ℕ) × (retry_after header ≡ ok server) × (server ≤ wait))

  backoff-bounded :
      (limit attempts delay : ℕ)
      → delay ≤ limit
      → (delay ≤ backoff limit attempts delay) × (backoff limit attempts delay ≤ limit)
  unfolding backoff
  backoff-bounded limit zero delay h = ground arith
  backoff-bounded limit (suc attempts) delay h = elim (Bool-cases (ltb (limit / 2) delay)) [
    | inl s ↦ rw s (h, omega arith)
    | inr s ↦
        let below : delay * 2 ≤ limit = ground arith in
        let (low, high) = backoff-bounded limit attempts (delay * 2) below in
        rw s (omega arith, high)
  ]

  -- When retryWait allows another attempt, its wait is at least the smaller of the configured
  -- delay and the maximal delay, at most the maximal delay, and, if there is a Retry-After
  -- header, at least what RetryAfter reads from it.
  pub retry_wait_lem :
      (retry_delay limit attempt wait : ℕ) (header : Bytes)
      → retry_wait retry_delay limit attempt header ≡ some wait
      → (min retry_delay limit ≤ wait) × (wait ≤ limit) × Obeys header wait
  unfolding retry_wait
  retry_wait_lem retry_delay limit attempt wait [] h =
      let bounds = backoff-bounded limit attempt (min retry_delay limit) (omega arith) in
      (ground arith, ground arith, inl refl)
  retry_wait_lem retry_delay limit attempt wait (b ∷ s) h =
      let (low, high) = backoff-bounded limit attempt (min retry_delay limit) (omega arith) in
      elim (Result-cases (retry_after (b ∷ s))) [
        | inl (e, f) ↦ absurd (ground arith)
        | inr (server, f) ↦ (ground arith, ground arith, inr (server, f, ground arith))
      ]
