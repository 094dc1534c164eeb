-- ===== src/Api/RateLimit/Clients.antt =====
-- What the rate limiter does for one client, whatever the others send.
use hookman.Common.{
  ℕ, ◌-◌, ◌*◌, ◌≡◌, ◌≢◌, refl, sym, ◌∙◌, inl, inr, String, Bool, true, false, List, [], ◌∷◌, Option,
  none, some, ltb, if◌then◌else◌, find, any, length, get_elem?, get_elem?-append, get_elem?-set,
  arith, eq_iff, eq_refl, Bool-cases, Option-cases,
}
use hookman.Common.Int.{ℤ}
use hookman.Delivery.Retry.{minute}
use hookman.Store.Sql.{update_where, delete_where}
use hookman.Store.Sql.Members.{All-In}
use hookman.Store.Integrity.{AreApart}
use hookman.Api.Response.{HttpHandler}
use hookman.Api.RateLimit.{
  RateLib, IpLimiter, RateLimiter, new_rate_limiter, has_ip, seen_at, client_ip, is_idle,
  found_or_new, get_limiter, allow_there, allow_at, rate_limit_middleware, cleanup,
}
use hookman.Api.RateLimit.Isolation.{
  clash, IsPrivate, bucket_of, find-In, find-append, find-append_other, find-update_other,
  apart-limiter, get_limiter-IsPrivate, allow_there-IsPrivate, cleanup-IsPrivate,
}

-- The states that lookups, uses of buckets and rounds of the cleanup lead to, in any order.
pub data Reached {L : Type 0} (lib : RateLib L) (rps burst : ℤ) : RateLimiter L → Type 0 where
  starts : Reached lib rps burst (new_rate_limiter rps burst)
  gets :
      {rl : RateLimiter L} (ip : String) (now : ℕ)
      → Reached lib rps burst rl
      → Reached lib rps burst (get_limiter lib ip now rl).1
  allows :
      {rl : RateLimiter L} (now p : ℕ)
      → Reached lib rps burst rl
      → Reached lib rps burst (allow_at lib now p rl).1
  cleans :
      {rl : RateLimiter L} (now : ℕ)
      → Reached lib rps burst rl
      → Reached lib rps burst (cleanup now rl)

find-update_same :
    (ip : String) (now : ℕ) (xs : List IpLimiter) (e : IpLimiter)
    → find (has_ip ip) xs ≡ some e
    → find (has_ip ip) (update_where (has_ip ip) (seen_at now) xs) ≡ some (seen_at now e)
find-update_same ip now [] e h = cc
find-update_same ip now (x ∷ xs) e h = ground (arith, find-update_same ip now xs e)

find-kept :
    (p q : IpLimiter → Bool) (xs : List IpLimiter) (e : IpLimiter)
    → find p xs ≡ some e
    → q e ≡ false
    → find p (delete_where q xs) ≡ some e
find-kept p q [] e h k = cc
find-kept p q (x ∷ xs) e h k = ground (arith, find-kept p q xs e)

find-none :
    (ip : String) (q : IpLimiter → Bool) (xs : List IpLimiter) (e : IpLimiter)
    → any (clash e) xs ≡ false
    → e.ip ≡ ip
    → find (has_ip ip) (delete_where q xs) ≡ none
find-none ip q [] e h k = refl
find-none ip q (x ∷ xs) e h k =
    ground (arith, find-none ip q xs e, eq_iff x.ip ip, eq_iff e.ip x.ip)

find-deleted :
    (ip : String) (q : IpLimiter → Bool) (xs : List IpLimiter) (e : IpLimiter)
    → AreApart clash xs
    → find (has_ip ip) xs ≡ some e
    → q e ≡ true
    → find (has_ip ip) (delete_where q xs) ≡ none
find-deleted ip q [] e a h k = cc
find-deleted ip q (x ∷ xs) e (a, as') h k =
    ground (arith, find-deleted ip q xs e as', find-none ip q xs x a, eq_iff x.ip ip)

module _ {L : Type 0} (lib : RateLib L) where
  Reached-IsPrivate : (rps burst : ℤ) (rl : RateLimiter L) → Reached lib rps burst rl → IsPrivate rl
  Reached-IsPrivate rps burst _ starts = record { apart = tt; in_heap = tt }
  Reached-IsPrivate rps burst _ (gets {rl} ip now r) =
      get_limiter-IsPrivate lib ip now rl (Reached-IsPrivate rps burst rl r)
  Reached-IsPrivate rps burst _ (allows {rl} now p r) =
      allow_there-IsPrivate lib now p rl (get_elem? rl.heap p) (Reached-IsPrivate rps burst rl r)
  Reached-IsPrivate rps burst _ (cleans {rl} now r) =
      cleanup-IsPrivate lib now rl (Reached-IsPrivate rps burst rl r)

  -- After a lookup the client's entry is there, seen now, with the bucket handed out.
  found_or_new-Has :
      (ip : String) (now : ℕ) (rl : RateLimiter L) (o : Option IpLimiter)
      → find (has_ip ip) rl.limiters ≡ o
      → (d : IpLimiter) × (find (has_ip ip) (found_or_new lib ip now rl o).1.limiters ≡ some d)
        × (d.limiter ≡ (found_or_new lib ip now rl o).0)
        × (d.last_seen ≡ now)
  found_or_new-Has ip now rl none q = (
    record { ip = ip; limiter = length rl.heap; last_seen = now },
    find-append (has_ip ip) rl.limiters _ q ∙ rw (eq_refl ip) refl,
    refl,
    refl,
  )
  found_or_new-Has ip now rl (some e) q =
      (seen_at now e, find-update_same ip now rl.limiters e q, refl, refl)

  get_limiter-Has :
      (ip : String) (now : ℕ) (rl : RateLimiter L)
      → (d : IpLimiter) × (find (has_ip ip) (get_limiter lib ip now rl).1.limiters ≡ some d)
        × (d.limiter ≡ (get_limiter lib ip now rl).0)
        × (d.last_seen ≡ now)
  unfolding get_limiter
  get_limiter-Has ip now rl = found_or_new-Has ip now rl (find (has_ip ip) rl.limiters) refl

  bucket-found_or_new :
      (ip other : String) (now : ℕ) (rl : RateLimiter L) (o : Option IpLimiter)
      → IsPrivate rl
      → other ≢ ip
      → bucket_of other (found_or_new lib ip now rl o).1 ≡ bucket_of other rl
  unfolding bucket_of
  bucket-found_or_new ip other now rl none h n =
      rw
        (find-append_other (has_ip other) rl.limiters
          (record { ip = ip; limiter = length rl.heap; last_seen = now })
          (ground (arith, eq_iff ip other)))
        (elim (Option-cases (find (has_ip other) rl.limiters)) [
          | inl e ↦ rw e refl
          | inr (d, e) ↦ rw e (
              get_elem?-append rl.heap _ d.limiter
                (All-In _ rl.limiters d h.in_heap (find-In (has_ip other) rl.limiters d e).0))
        ])
  bucket-found_or_new ip other now rl (some e) h n =
      rw (find-update_other ip other now rl.limiters n)
        (elim (Option-cases (find (has_ip other) rl.limiters)) [
          | inl q ↦ rw q refl
          | inr (d, q) ↦ rw q refl
        ])

  bucket-get_limiter :
      (ip other : String) (now : ℕ) (rl : RateLimiter L)
      → IsPrivate rl
      → other ≢ ip
      → bucket_of other (get_limiter lib ip now rl).1 ≡ bucket_of other rl
  unfolding get_limiter
  bucket-get_limiter ip other now rl =
      bucket-found_or_new ip other now rl (find (has_ip ip) rl.limiters)

  bucket-allow_there :
      (ip other : String) (now p : ℕ) (rl : RateLimiter L) (o : Option L) (d : IpLimiter)
      → IsPrivate rl
      → find (has_ip ip) rl.limiters ≡ some d
      → d.limiter ≡ p
      → other ≢ ip
      → bucket_of other (allow_there lib now p rl o).1 ≡ bucket_of other rl
  unfolding bucket_of
  bucket-allow_there ip other now p rl none d h q at_p n = refl
  bucket-allow_there ip other now p rl (some l) d h q at_p n =
      elim (Option-cases (find (has_ip other) rl.limiters)) [
        | inl r ↦ rw r refl
        | inr (e, r) ↦
            let (m, i) = find-In (has_ip ip) rl.limiters d q in
            let (m', i') = find-In (has_ip other) rl.limiters e r in
            let differ : d.ip ≢ e.ip =
              λ s. n (sym ((eq_iff e.ip other).0 i') ∙ sym s ∙ (eq_iff d.ip ip).0 i) in
            let apart' = apart-limiter rl.limiters d e h.apart m m' differ in
            rw r (get_elem?-set rl.heap p e.limiter _ (λ s. apart' (at_p ∙ s)))
      ]

-- A request of one client leaves the bucket of every other client as it is, in every state that
-- the rate limiter reaches from its start.
pub others_keep_their_buckets :
    {L : Type 0} (lib : RateLib L) (rps burst : ℤ) (rl : RateLimiter L)
    → Reached lib rps burst rl
    → (remote_addr real_ip other : String) (now : ℕ) {W : Type 0} (next : HttpHandler W) (w : W)
    → other ≢ client_ip remote_addr real_ip
    → bucket_of other (rate_limit_middleware lib remote_addr real_ip now rl next w).1.0
      ≡ bucket_of other rl
unfolding rate_limit_middleware
others_keep_their_buckets lib rps burst rl r remote_addr real_ip other now next w n =
    let ip = client_ip remote_addr real_ip in
    let h = Reached-IsPrivate lib rps burst rl r in
    let (d, q, at_p, _) = get_limiter-Has lib ip now rl in
    bucket-allow_there lib ip other now _ _ _ d (get_limiter-IsPrivate lib ip now rl h) q at_p n
    ∙ bucket-get_limiter lib ip other now rl h n

-- A round of the cleanup at `later` forgets a client last seen at `now` exactly when that was more
-- than ten minutes ago, and otherwise its next request finds the same bucket.
cleanup-get_limiter :
    {L : Type 0} (lib : RateLib L) (rps burst : ℤ) (rl : RateLimiter L)
    → Reached lib rps burst rl
    → (ip : String) (now later : ℕ)
    → bucket_of ip (cleanup later (get_limiter lib ip now rl).1) ≡ (
        if ltb (10 * minute) (later - now)
        then none
        else bucket_of ip (get_limiter lib ip now rl).1)
unfolding cleanup bucket_of
cleanup-get_limiter lib rps burst rl r ip now later =
    let h = get_limiter-IsPrivate lib ip now rl (Reached-IsPrivate lib rps burst rl r) in
    let (d, q, at_p, seen) = get_limiter-Has lib ip now rl in
    elim (Bool-cases (ltb (10 * minute) (later - now))) [
      | inl e ↦
          rw
            (
              e,
              find-deleted ip (is_idle later) (get_limiter lib ip now rl).1.limiters d h.apart q
                  (rw (seen, e) refl),
            )
            refl
      | inr e ↦
          rw
            (
              e,
              q,
              find-kept (has_ip ip) (is_idle later) (get_limiter lib ip now rl).1.limiters d q
                  (rw (seen, e) refl),
            )
            refl
    ]
