-- ===== src/Worker/Pool/Goroutines.antt =====
-- Pool.Start, Pool.Stop and the goroutines of internal/worker/pool.go: the workers over one buffered
-- channel, with what they have taken from it, and the moves that the scheduler interleaves. What a
-- job does to the tables is `process_job`; here a job is only counted.
pub mod Ledger
pub mod Draining
use hookman.Common.{
  ℕ, zero, suc, ◌≡◌, ◌<◌, Bool, true, false, List, [], ◌∷◌, ◌++◌, Option, none, some, length, set,
  get_elem?, if◌then◌else◌,
}
use hookman.Delivery.Deliver.{DeliveryJob}
use hookman.Worker.Pool.{Pool}

-- At the receive of the loop, with a job before the test of ctx.Err(), in processJob, or returned.
pub data Goroutine : Type 0 where
  waiting : Goroutine
  received processing : DeliveryJob → Goroutine
  returned : Goroutine

-- `sent`, `taken`, `finished` and `abandoned` record what has happened to the jobs.
pub record Workers : Type 0 where
  pub buffer : List DeliveryJob
  pub closed : Bool
  pub cancelled : Bool
  pub goroutines : List Goroutine
  pub sent : List DeliveryJob
  pub taken : List DeliveryJob
  pub finished : List DeliveryJob
  pub abandoned : List DeliveryJob

abbrev pub replicate {ℓ} : {A : Type ℓ} → ℕ → A → List A
replicate zero a = []
replicate (suc n) a = a ∷ replicate n a

-- Start: `concurrency` goroutines, each at its first receive.
unfoldable pub start_workers : Pool → Workers
start_workers pool = record {
  buffer = [];
  closed = false;
  cancelled = false;
  goroutines = replicate pool.concurrency waiting;
  sent = [];
  taken = [];
  finished = [];
  abandoned = [];
}

-- p.jobs <- job, where the buffer has room.
unfoldable pub send_job : DeliveryJob → Workers → Workers
send_job job s = record s { buffer = s.buffer ++ job ∷ []; sent = s.sent ++ job ∷ [] }

-- The receive of `for job := range p.jobs`; `none` where it blocks.
unfoldable pub receive : ℕ → List DeliveryJob → Workers → Option Workers
receive i [] s =
    if s.closed then some (record s { goroutines = set s.goroutines i returned }) else none
receive i (job ∷ buffer) s = some (record s {
  buffer = buffer;
  taken = s.taken ++ job ∷ [];
  goroutines = set s.goroutines i (received job);
})

-- The next move of goroutine `i` from where it is.
unfoldable pub move : ℕ → Goroutine → Workers → Option Workers
unfolding receive
move i waiting s = receive i s.buffer s
move i (received job) s = some (
    if s.cancelled
    then record s { abandoned = s.abandoned ++ job ∷ []; goroutines = set s.goroutines i returned }
    else record s { goroutines = set s.goroutines i (processing job) })
move i (processing job) s =
    some (record s { finished = s.finished ++ job ∷ []; goroutines = set s.goroutines i waiting })
move i returned s = none

abbrev pub move_from : ℕ → Option Goroutine → Workers → Option Workers
move_from i none s = none
move_from i (some g) s = move i g s

unfoldable pub turn : ℕ → Workers → Option Workers
unfolding move
turn i s = move_from i (get_elem? s.goroutines i) s

-- cancel(), and the close of Stop.
abbrev pub cancel : Workers → Workers
cancel s = record s { cancelled = true }

abbrev pub close_jobs : Workers → Workers
close_jobs s = record s { closed = true }

-- p.wg.Wait() goes on.
abbrev pub is_returned : Goroutine → Bool
is_returned returned = true
is_returned _ = false

abbrev pub all_returned : List Goroutine → Bool
all_returned [] = true
all_returned (g ∷ gs) = if is_returned g then all_returned gs else false

-- A send needs room in an open channel.
pub data Step (capacity : ℕ) (s : Workers) : Workers → Type 0 where
  sends :
      (job : DeliveryJob)
      → s.closed ≡ false
      → length s.buffer < capacity
      → Step capacity s (send_job job s)
  turns : {t : Workers} (i : ℕ) → turn i s ≡ some t → Step capacity s t
  cancels : Step capacity s (cancel s)
  closes : s.closed ≡ false → Step capacity s (close_jobs s)

pub data Steps (capacity : ℕ) (s : Workers) : Workers → Type 0 where
  here : Steps capacity s s
  after : {t u : Workers} → Steps capacity s t → Step capacity t u → Steps capacity s u
