-- ===== src/Delivery/Retry.antt =====
-- internal/delivery/retry.go: the backoff schedule. Durations are nanoseconds, as in Go's `time`.
pub mod Schedule
use hookman.Common.{
  ℕ, ◌+◌, ◌-◌, ◌*◌, Bool, true, false, List, [], ◌∷◌, Option, none, some, leb, length,
  if◌then◌else◌,
}
use hookman.Common.Int.{ℤ, pos, leb_ℤ, ltb_ℤ, decr}

abbrev pub second : ℕ
second = 1_000_000_000

abbrev pub minute : ℕ
minute = 60 * second

abbrev pub hour : ℕ
hour = 60 * minute

abbrev pub retry_delays : List ℕ
retry_delays = (30 * second) ∷ (5 * minute) ∷ (30 * minute) ∷ (2 * hour) ∷ (5 * hour) ∷ []

-- `retryDelays[i]`; the callers keep the index within the slice.
abbrev pub delay_at : List ℕ → ℕ → ℕ
delay_at [] i = 0
delay_at (d ∷ ds) ℕ.zero = d
delay_at (d ∷ ds) (ℕ.suc i) = delay_at ds i

abbrev index_of : ℤ → ℕ
index_of (pos n) = n
index_of (ℤ.negsuc n) = 0

-- `none` stands for the pair (0, false).
unfoldable pub next_retry_delay : ℤ → ℤ → Option ℕ
next_retry_delay attempt_number max_retries =
    if leb_ℤ max_retries attempt_number
    then none
    else let idx = decr attempt_number in
      let at_least_zero = if ltb_ℤ idx (pos 0) then pos 0 else idx in
      if leb_ℤ (pos (length retry_delays)) at_least_zero
      then some (delay_at retry_delays (length retry_delays - 1))
      else some (delay_at retry_delays (index_of at_least_zero))

-- `now` is what time.Now() returns.
unfoldable pub next_retry_at : ℤ → ℤ → ℕ → Option ℕ
unfolding next_retry_delay
next_retry_at attempt_number max_retries now = elim (next_retry_delay attempt_number max_retries) [
  | none ↦ none
  | some delay ↦ some (now + delay)
]
