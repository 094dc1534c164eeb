-- ===== src/Api/RateLimit/Isolation.antt =====
-- The buckets of internal/api/ratelimit.go and the clients they belong to.
use hookman.Common.{
  ℕ, ◌<◌, ◌≡◌, ◌≢◌, refl, sym, ap, ◌∙◌, inl, inr, String, Bool, true, false, ◌||◌, List, [], ◌∷◌,
  ◌++◌, Option, none, some, ◌==◌, eqb, find, any, length, get_elem?, length-set, length-append, All,
  In, arith, eq_iff, Bool-cases,
}
use hookman.Store.Sql.{update_where, delete_where}
use hookman.Store.Sql.Members.{All-append, All-map}
use hookman.Store.Integrity.{AreApart}
use hookman.Store.Integrity.Apart.{AreApart-append, AreApart-update_where, AreApart-select}
use hookman.Api.RateLimit.{
  RateLib, IpLimiter, RateLimiter, has_ip, seen_at, is_idle, found_or_new, get_limiter, allow_there,
  cleanup,
}

-- Two entries for one client, or with one bucket.
abbrev pub clash : IpLimiter → IpLimiter → Bool
clash x y = x.ip == y.ip || eqb x.limiter y.limiter

module _ {L : Type 0} where
  abbrev pub InHeap : List L → IpLimiter → Type 0
  InHeap heap e = e.limiter < length heap

  pub record IsPrivate (rl : RateLimiter L) : Type 0 where
    pub apart : AreApart clash rl.limiters
    pub in_heap : All (InHeap rl.heap) rl.limiters

  -- The bucket that the next request of a client will use, if it has one.
  abbrev pub bucket_behind : RateLimiter L → Option IpLimiter → Option L
  bucket_behind rl none = none
  bucket_behind rl (some e) = get_elem? rl.heap e.limiter

  unfoldable pub bucket_of : String → RateLimiter L → Option L
  bucket_of ip rl = bucket_behind rl (find (has_ip ip) rl.limiters)

pub find-In :
    (p : IpLimiter → Bool) (xs : List IpLimiter) (e : IpLimiter)
    → find p xs ≡ some e
    → In e xs × (p e ≡ true)
find-In p [] e h = cc
find-In p (x ∷ xs) e h = ground (arith, find-In p xs e)

pub find-append :
    (p : IpLimiter → Bool) (xs ys : List IpLimiter)
    → find p xs ≡ none
    → find p (xs ++ ys) ≡ find p ys
find-append p [] ys h = refl
find-append p (x ∷ xs) ys h = ground (arith, find-append p xs ys)

pub find-append_other :
    (p : IpLimiter → Bool) (xs : List IpLimiter) (e : IpLimiter)
    → p e ≡ false
    → find p (xs ++ e ∷ []) ≡ find p xs
find-append_other p [] e h = ground arith
find-append_other p (x ∷ xs) e h = ground (arith, find-append_other p xs e h)

pub find-update_other :
    (ip other : String) (now : ℕ) (xs : List IpLimiter)
    → other ≢ ip
    → find (has_ip other) (update_where (has_ip ip) (seen_at now) xs) ≡ find (has_ip other) xs
find-update_other ip other now [] h = refl
find-update_other ip other now (x ∷ xs) h =
    ground (arith, find-update_other ip other now xs h, eq_iff x.ip ip, eq_iff x.ip other)

unclaimed :
    (n : IpLimiter) (xs : List IpLimiter)
    → find (has_ip n.ip) xs ≡ none
    → All (λ e. e.limiter < n.limiter) xs
    → any (λ x. clash x n) xs ≡ false
unclaimed n [] h k = refl
unclaimed n (x ∷ xs) h (k, ks) = ground (arith, unclaimed n xs)

pub any-false :
    (p : IpLimiter → Bool) (xs : List IpLimiter) (e : IpLimiter)
    → any p xs ≡ false
    → In e xs
    → p e ≡ false
any-false p [] e h m = absurd m
any-false p (x ∷ xs) e h m = ground (arith, any-false p xs e)

-- Entries of different clients point to different buckets.
pub apart-limiter :
    (xs : List IpLimiter) (d e : IpLimiter)
    → AreApart clash xs
    → In d xs
    → In e xs
    → d.ip ≢ e.ip
    → d.limiter ≢ e.limiter
apart-limiter [] d e h m n o = absurd m
apart-limiter (x ∷ xs) d e (h, hs) (inl m) (inl n) o = absurd (o (ap (λ z. z.ip) (m ∙ sym n)))
apart-limiter (x ∷ xs) d e (h, hs) (inl m) (inr n) o = ground (arith, any-false (clash x) xs e h n)
apart-limiter (x ∷ xs) d e (h, hs) (inr m) (inl n) o = ground (arith, any-false (clash x) xs d h m)
apart-limiter (x ∷ xs) d e (h, hs) (inr m) (inr n) o = apart-limiter xs d e hs m n o

All-update_where :
    (P : IpLimiter → Type 0) (p : IpLimiter → Bool) (f : IpLimiter → IpLimiter)
    (xs : List IpLimiter)
    → ((e : IpLimiter) → P e → P (f e))
    → All P xs
    → All P (update_where p f xs)
All-update_where P p f [] k h = tt
All-update_where P p f (x ∷ xs) k (h, hs) = elim (Bool-cases (p x)) [
  | inl e ↦ rw e (k x h, All-update_where P p f xs k hs)
  | inr e ↦ rw e (h, All-update_where P p f xs k hs)
]

All-delete_where :
    (P : IpLimiter → Type 0) (p : IpLimiter → Bool) (xs : List IpLimiter)
    → All P xs
    → All P (delete_where p xs)
All-delete_where P p [] h = tt
All-delete_where P p (x ∷ xs) (h, hs) = elim (Bool-cases (p x)) [
  | inl e ↦ rw e (All-delete_where P p xs hs)
  | inr e ↦ rw e (h, All-delete_where P p xs hs)
]

module _ {L : Type 0} (lib : RateLib L) where
  found_or_new-IsPrivate :
      (ip : String) (now : ℕ) (rl : RateLimiter L) (o : Option IpLimiter)
      → find (has_ip ip) rl.limiters ≡ o
      → IsPrivate rl
      → IsPrivate (found_or_new lib ip now rl o).1
  found_or_new-IsPrivate ip now rl none q h = record {
    apart =
        AreApart-append clash rl.limiters _
          (unclaimed (record { ip = ip; limiter = length rl.heap; last_seen = now }) rl.limiters q
            h.in_heap)
          h.apart;
    in_heap =
        All-append _ rl.limiters _
          (All-map _ _ rl.limiters
            (λ e k. omega (arith, length-append rl.heap (lib.new_limiter rl.rps rl.burst ∷ [])))
            h.in_heap)
          (omega (arith, length-append rl.heap (lib.new_limiter rl.rps rl.burst ∷ [])), tt);
  }
  found_or_new-IsPrivate ip now rl (some e) q h = record {
    apart =
        AreApart-update_where clash (has_ip ip) (seen_at now) rl.limiters (λ x y. refl)
          (λ x y. refl) h.apart;
    in_heap = All-update_where _ (has_ip ip) (seen_at now) rl.limiters (λ e k. k) h.in_heap;
  }

  pub get_limiter-IsPrivate :
      (ip : String) (now : ℕ) (rl : RateLimiter L)
      → IsPrivate rl
      → IsPrivate (get_limiter lib ip now rl).1
  unfolding get_limiter
  get_limiter-IsPrivate ip now rl =
      found_or_new-IsPrivate ip now rl (find (has_ip ip) rl.limiters) refl

  pub allow_there-IsPrivate :
      (now p : ℕ) (rl : RateLimiter L) (o : Option L)
      → IsPrivate rl
      → IsPrivate (allow_there lib now p rl o).1
  allow_there-IsPrivate now p rl none h = h
  allow_there-IsPrivate now p rl (some l) h = record {
    apart = h.apart;
    in_heap =
        All-map _ _ rl.limiters (λ e k. omega (arith, length-set rl.heap p (lib.allow now l).1))
          h.in_heap;
  }

  pub cleanup-IsPrivate : (now : ℕ) (rl : RateLimiter L) → IsPrivate rl → IsPrivate (cleanup now rl)
  unfolding cleanup
  cleanup-IsPrivate now rl h = record {
    apart = AreApart-select clash _ rl.limiters h.apart;
    in_heap = All-delete_where _ (is_idle now) rl.limiters h.in_heap;
  }
