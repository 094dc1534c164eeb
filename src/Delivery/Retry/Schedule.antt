-- ===== src/Delivery/Retry/Schedule.antt =====
-- The retry schedule of internal/delivery/retry.go: its limit and its waits.
use hookman.Common.{
  ℕ, ◌+◌, ◌*◌, ◌≤◌, ◌≡◌, ◌↔◌, ◌⊎◌, inl, inr, true, false, none, some, arith, Bool-cases,
  Option-cases,
}
use hookman.Common.Int.{ℤ, pos, negsuc, ltb_ℤ, leb_ℤ}
use hookman.Delivery.Retry.{second, hour, next_retry_delay, next_retry_at}

-- A retry is scheduled exactly while the attempt number is below the limit, negative numbers
-- included.
pub next_retry_delay-none_iff :
    (attempt limit : ℤ) → (next_retry_delay attempt limit ≡ none) ↔ (ltb_ℤ attempt limit ≡ false)
unfolding next_retry_delay
next_retry_delay-none_iff (pos a) (pos m) = ground arith
next_retry_delay-none_iff (pos a) (negsuc m) = ground arith
next_retry_delay-none_iff (negsuc a) (pos m) = ground arith
next_retry_delay-none_iff (negsuc a) (negsuc m) = ground arith

next_retry_delay-some :
    (attempt limit : ℤ) (d : ℕ)
    → next_retry_delay attempt limit ≡ some d
    → ltb_ℤ attempt limit ≡ true
next_retry_delay-some attempt limit d e = elim (Bool-cases (ltb_ℤ attempt limit)) [
  | inl h ↦ h
  | inr h ↦ cc ((next_retry_delay-none_iff attempt limit).1 h)
]

next_retry_delay_bounds :
    (attempt limit : ℤ) (d : ℕ)
    → next_retry_delay attempt limit ≡ some d
    → (30 * second ≤ d) × (d ≤ 5 * hour)
unfolding next_retry_delay
next_retry_delay_bounds (pos a) (pos m) d h = ground arith
next_retry_delay_bounds (pos a) (negsuc m) d h = ground arith
next_retry_delay_bounds (negsuc a) (pos m) d h = ground arith
next_retry_delay_bounds (negsuc a) (negsuc m) d h = ground arith

-- A scheduled retry waits between thirty seconds and five hours, and it exists exactly while the
-- attempt number is below the limit; the absolute time is the present plus that wait.
pub next_retry_at_lem :
    (attempt limit : ℤ) (now : ℕ)
    → ((next_retry_at attempt limit now ≡ none) × (ltb_ℤ attempt limit ≡ false))
      ⊎ ((t : ℕ) × (next_retry_at attempt limit now ≡ some t)
          × (ltb_ℤ attempt limit ≡ true)
          × (now + 30 * second ≤ t)
          × (t ≤ now + 5 * hour))
unfolding next_retry_at
next_retry_at_lem attempt limit now = elim (Option-cases (next_retry_delay attempt limit)) [
  | inl e ↦ inl (rw (e, next_retry_at), (next_retry_delay-none_iff attempt limit).0 e)
  | inr (d, e) ↦ inr (
    now + d,
    rw (e, next_retry_at),
    next_retry_delay-some attempt limit d e,
    omega (arith, next_retry_delay_bounds attempt limit d e),
    omega (arith, next_retry_delay_bounds attempt limit d e),
  )
]

-- While the limit is not reached, a later attempt never waits less than an earlier one.
pub next_retry_delay_mono :
    (a b limit : ℤ) (d e : ℕ)
    → leb_ℤ a b ≡ true
    → next_retry_delay a limit ≡ some d
    → next_retry_delay b limit ≡ some e
    → d ≤ e
unfolding next_retry_delay
next_retry_delay_mono (pos a) (pos b) (pos m) d e h p q = ground arith
next_retry_delay_mono (negsuc a) (pos b) (pos m) d e h p q = ground arith
next_retry_delay_mono (negsuc a) (negsuc b) m d e h p q = ground arith
next_retry_delay_mono _ _ _ d e h p q = ground arith
