-- ===== src/Api/RateLimit.antt =====
-- internal/api/ratelimit.go: a token bucket for each client address. The buckets lie in a heap, and
-- an entry of the map points into it: a request keeps its bucket while the map loses the entry.
pub mod Isolation
pub mod Clients
use hookman.Common.{
  ℕ, ◌+◌, ◌-◌, ◌*◌, String, Bool, true, false, not, List, [], ◌∷◌, ◌++◌, Option, none, some, ◌==◌,
  ltb, if◌then◌else◌, find, select, length, get_elem?, set,
}
use hookman.Common.Int.{ℤ}
use hookman.Delivery.Retry.{minute}
use hookman.Store.Sql.{update_where, delete_where}
use hookman.Api.Response.{Response, HttpHandler, refuse}

-- What the code uses of golang.org/x/time/rate: NewLimiter from a rate and a burst, and Allow at a
-- time, which also changes the bucket.
pub record RateLib (L : Type 0) : Type 0 where
  pub new_limiter : ℤ → ℤ → L
  pub allow : ℕ → L → Bool × L

pub record IpLimiter : Type 0 where
  pub ip : String
  pub limiter : ℕ
  pub last_seen : ℕ

pub record RateLimiter (L : Type 0) : Type 0 where
  pub limiters : List IpLimiter
  pub rps : ℤ
  pub burst : ℤ
  pub heap : List L

module _ {L : Type 0} where
  abbrev pub new_rate_limiter : (rps burst : ℤ) → RateLimiter L
  new_rate_limiter rps burst = record { limiters = []; rps = rps; burst = burst; heap = [] }

abbrev pub has_ip : String → IpLimiter → Bool
has_ip ip e = e.ip == ip

abbrev pub seen_at : ℕ → IpLimiter → IpLimiter
seen_at now e = record e { last_seen = now }

abbrev pub client_ip : (remote_addr real_ip : String) → String
client_ip remote_addr real_ip = if real_ip == "" then remote_addr else real_ip

abbrev pub is_idle : ℕ → IpLimiter → Bool
is_idle now e = ltb (10 * minute) (now - e.last_seen)

module _ {L : Type 0} (lib : RateLib L) where
  -- The branches of the lookup in the map.
  abbrev pub found_or_new : String → ℕ → RateLimiter L → Option IpLimiter → ℕ × RateLimiter L
  found_or_new ip now rl none = (
    length rl.heap,
    record rl {
      limiters = rl.limiters ++ record { ip = ip; limiter = length rl.heap; last_seen = now } ∷ [];
      heap = rl.heap ++ lib.new_limiter rl.rps rl.burst ∷ [];
    },
  )
  found_or_new ip now rl (some e) =
      (e.limiter, record rl { limiters = update_where (has_ip ip) (seen_at now) rl.limiters })

  unfoldable pub get_limiter : String → ℕ → RateLimiter L → ℕ × RateLimiter L
  get_limiter ip now rl = found_or_new ip now rl (find (has_ip ip) rl.limiters)

  -- Allow on the bucket behind a pointer; every pointer handed out has one.
  abbrev pub allow_there : ℕ → ℕ → RateLimiter L → Option L → Bool × RateLimiter L
  allow_there now p rl none = (false, rl)
  allow_there now p rl (some l) =
      let (allowed, l') = lib.allow now l in (allowed, record rl { heap = set rl.heap p l' })

  abbrev pub allow_at : ℕ → ℕ → RateLimiter L → Bool × RateLimiter L
  allow_at now p rl = allow_there now p rl (get_elem? rl.heap p)

  unfoldable pub rate_limit_middleware :
      {W : Type 0}
      → (remote_addr real_ip : String) → ℕ
      → RateLimiter L
      → HttpHandler W
      → W
      → Response × (RateLimiter L × W)
  unfolding get_limiter
  rate_limit_middleware remote_addr real_ip now rl next w =
      let (p, rl') = get_limiter (client_ip remote_addr real_ip) now rl in
      let (allowed, rl'') = allow_at now p rl' in
      let (r, w') = (if allowed then next else refuse 429 "rate limit exceeded") w in
      (r, (rl'', w'))

module _ {L : Type 0} where
  -- One round of the loop that forgets idle clients.
  unfoldable pub cleanup : ℕ → RateLimiter L → RateLimiter L
  cleanup now rl = record rl { limiters = delete_where (is_idle now) rl.limiters }
