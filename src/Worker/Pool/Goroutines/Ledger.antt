-- ===== src/Worker/Pool/Goroutines/Ledger.antt =====
-- What becomes of the jobs that are sent to the workers of internal/worker/pool.go.
use mathlib.Core.List.{append_assoc}
use hookman.Common.{
  ◌∙◌, sym, zero, suc, ap, length-set, ℕ, ◌+◌, ◌≡◌, ◌≤◌, refl, Bool, true, false, List, [], ◌∷◌,
  ◌++◌, some, arith, inl, inr, ◌⊎◌, length, length-append, set, get_elem?, sum_of, sum_of-append,
  sum_of-set, if◌then◌else◌, Bool-cases, Option-cases,
}
use hookman.Delivery.Deliver.{DeliveryJob}
use hookman.Worker.Pool.{Pool}
use hookman.Worker.Pool.Goroutines.{
  Goroutine, waiting, received, processing, returned, Workers, start_workers, replicate, send_job,
  receive, move, turn, Step, Steps, sends, turns, cancels, closes, here, after,
}

-- One for a job that passes a test, as a weight; and the weight of the job that a goroutine holds.
abbrev pub counts_if : (DeliveryJob → Bool) → DeliveryJob → ℕ
counts_if p job = if p job then 1 else 0

abbrev pub in_hand : (DeliveryJob → Bool) → Goroutine → ℕ
in_hand p waiting = 0
in_hand p (received job) = counts_if p job
in_hand p (processing job) = counts_if p job
in_hand p returned = 0

module _ (p : DeliveryJob → Bool) where
  abbrev pub tally : List DeliveryJob → ℕ
  tally = sum_of (counts_if p)

  -- The books of the jobs that pass the test balance.
  abbrev pub Balances : Workers → Type 0
  Balances s =
      tally s.taken ≡ tally s.finished + tally s.abandoned + sum_of (in_hand p) s.goroutines

  -- The hands after goroutine `i` has gone from one state to another.
  hands-set :
      (gs : List Goroutine) (i : ℕ) (g new : Goroutine)
      → get_elem? gs i ≡ some g
      → sum_of (in_hand p) (set gs i new) + in_hand p g ≡ sum_of (in_hand p) gs + in_hand p new
  hands-set = sum_of-set (in_hand p)

  tally_snoc :
      (xs : List DeliveryJob) (x : DeliveryJob) → tally (xs ++ x ∷ []) ≡ tally xs + counts_if p x
  tally_snoc xs x = omega (arith, sum_of-append (counts_if p) xs (x ∷ []))

  receive-Balances :
      (i : ℕ) (buffer : List DeliveryJob) (s t : Workers)
      → get_elem? s.goroutines i ≡ some waiting
      → receive i buffer s ≡ some t
      → Balances s
      → Balances t
  unfolding receive
  receive-Balances i [] s t at m h = ground (arith, hands-set s.goroutines i waiting returned at)
  receive-Balances i (job ∷ buffer) s t at m h =
      ground (arith, hands-set s.goroutines i waiting (received job) at, tally_snoc s.taken job)

  move-Balances :
      (i : ℕ) (g : Goroutine) (s t : Workers)
      → get_elem? s.goroutines i ≡ some g
      → move i g s ≡ some t
      → Balances s
      → Balances t
  unfolding move
  move-Balances i waiting s t at m h = receive-Balances i s.buffer s t at m h
  move-Balances i (received job) s t at m h = ground (
    arith,
    hands-set s.goroutines i (received job) returned at,
    hands-set s.goroutines i (received job) (processing job) at,
    tally_snoc s.abandoned job,
  )
  move-Balances i (processing job) s t at m h =
      ground
        (arith, hands-set s.goroutines i (processing job) waiting at, tally_snoc s.finished job)
  move-Balances i returned s t at m h = cc

-- The books of the pool and its channel.
pub record IsKept (pool : Pool) (s : Workers) : Type 0 where
  pub in_order : s.sent ≡ s.taken ++ s.buffer
  pub bounded : length s.buffer ≤ pool.capacity
  pub staffed : length s.goroutines ≡ pool.concurrency
  pub balanced : (p : DeliveryJob → Bool) → Balances p s
  pub patient : s.cancelled ≡ false → s.abandoned ≡ []

length-replicate : {A : Type 0} (n : ℕ) (a : A) → length (replicate n a) ≡ n
length-replicate zero a = refl
length-replicate (suc n) a = ap suc (length-replicate n a)

waiting-empty-handed :
    (p : DeliveryJob → Bool) (n : ℕ) → sum_of (in_hand p) (replicate n waiting) ≡ 0
waiting-empty-handed p zero = refl
waiting-empty-handed p (suc n) = omega (arith, waiting-empty-handed p n)

start_workers-IsKept : (pool : Pool) → IsKept pool (start_workers pool)
unfolding start_workers
start_workers-IsKept pool = record {
  in_order = refl;
  bounded = omega arith;
  staffed = length-replicate pool.concurrency waiting;
  balanced = λ p. omega (arith, waiting-empty-handed p pool.concurrency);
  patient = λ _. refl;
}

-- The channel's side of a move.
pub record IsFair (s t : Workers) : Type 0 where
  pub total : t.taken ++ t.buffer ≡ s.taken ++ s.buffer
  pub same : t.sent ≡ s.sent
  pub shorter : length t.buffer ≤ length s.buffer
  pub staff : length t.goroutines ≡ length s.goroutines
  pub quiet : t.cancelled ≡ s.cancelled
  pub shut : t.closed ≡ s.closed
  pub tame : s.cancelled ≡ false → t.abandoned ≡ s.abandoned

receive-IsFair :
    (i : ℕ) (buffer : List DeliveryJob) (s t : Workers)
    → s.buffer ≡ buffer
    → receive i buffer s ≡ some t
    → IsFair s t
unfolding receive
receive-IsFair i [] s t b m = ground (arith, length-set s.goroutines i returned)
receive-IsFair i (job ∷ buffer) s t b m =
    ground (arith, length-set s.goroutines i (received job), append_assoc s.taken (job ∷ []) buffer)

move-IsFair : (i : ℕ) (g : Goroutine) (s t : Workers) → move i g s ≡ some t → IsFair s t
unfolding move
move-IsFair i waiting s t m = receive-IsFair i s.buffer s t refl m
move-IsFair i (received job) s t m =
    ground (arith, length-set s.goroutines i returned, length-set s.goroutines i (processing job))
move-IsFair i (processing job) s t m = ground (arith, length-set s.goroutines i waiting)
move-IsFair i returned s t m = cc

pub turn-cases :
    (i : ℕ) (s t : Workers)
    → turn i s ≡ some t
    → (g : Goroutine) × (get_elem? s.goroutines i ≡ some g) × (move i g s ≡ some t)
unfolding turn
turn-cases i s t e = elim (Option-cases (get_elem? s.goroutines i)) [
  | inl n ↦ absurd (cc (rw n at e))
  | inr (g, n) ↦ (g, n, rw n at e)
]

pub turn-IsFair : (i : ℕ) (s t : Workers) → turn i s ≡ some t → IsFair s t
turn-IsFair i s t e = let (g, at, m) = turn-cases i s t e in move-IsFair i g s t m

turn-IsKept :
    (pool : Pool) (i : ℕ) (s t : Workers) → turn i s ≡ some t → IsKept pool s → IsKept pool t
turn-IsKept pool i s t e k =
    let (g, at, m) = turn-cases i s t e in
    let f = turn-IsFair i s t e in
    record {
      in_order = f.same ∙ k.in_order ∙ sym f.total;
      bounded = omega (arith, f.shorter, k.bounded);
      staffed = f.staff ∙ k.staffed;
      balanced = λ p. move-Balances p i g s t at m (k.balanced p);
      patient = λ c. f.tame (sym f.quiet ∙ c) ∙ k.patient (sym f.quiet ∙ c);
    }

Step-IsKept : (pool : Pool) (s t : Workers) → Step pool.capacity s t → IsKept pool s → IsKept pool t
unfolding send_job
Step-IsKept pool s _ (sends job unclosed room) k = record {
  in_order = rw k.in_order (append_assoc s.taken s.buffer (job ∷ []));
  bounded = omega (arith, length-append s.buffer (job ∷ []));
  staffed = k.staffed;
  balanced = k.balanced;
  patient = k.patient;
}
Step-IsKept pool s t (turns i e) k = turn-IsKept pool i s t e k
Step-IsKept pool s _ cancels k = record {
  in_order = k.in_order;
  bounded = k.bounded;
  staffed = k.staffed;
  balanced = k.balanced;
  patient = λ c. cc;
}
Step-IsKept pool s _ (closes unclosed) k = record {
  in_order = k.in_order;
  bounded = k.bounded;
  staffed = k.staffed;
  balanced = k.balanced;
  patient = k.patient;
}

Steps-IsKept :
    (pool : Pool) (s : Workers) → Steps pool.capacity (start_workers pool) s → IsKept pool s
Steps-IsKept pool _ here = start_workers-IsKept pool
Steps-IsKept pool s (after {t} r step) = Step-IsKept pool t s step (Steps-IsKept pool t r)

patience : (pool : Pool) (s : Workers) → IsKept pool s → (s.cancelled ≡ true) ⊎ (s.abandoned ≡ [])
patience pool s k = elim (Bool-cases s.cancelled) [ inl e ↦ inl e | inr e ↦ inr (k.patient e) ]

-- However sends, the workers of a pool, its cancellation and its close interleave: the jobs are taken
-- in the order in which they were sent, the buffer stays within its capacity, and what was taken is,
-- by every test on jobs, what has been delivered, what was abandoned and what a worker holds; a job is
-- abandoned only after the cancellation.
pub jobs_are_kept :
    (pool : Pool) (s : Workers) (p : DeliveryJob → Bool)
    → Steps pool.capacity (start_workers pool) s
    → (s.sent ≡ s.taken ++ s.buffer)
      × (length s.buffer ≤ pool.capacity)
      × (tally p s.taken
          ≡ tally p s.finished + tally p s.abandoned + sum_of (in_hand p) s.goroutines)
      × ((s.cancelled ≡ true) ⊎ (s.abandoned ≡ []))
jobs_are_kept pool s p r =
    let k = Steps-IsKept pool s r in (k.in_order, k.bounded, k.balanced p, patience pool s k)
