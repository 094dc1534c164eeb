-- ===== src/Worker/Pool/Goroutines/Draining.antt =====
-- Pool.Stop of internal/worker/pool.go: the wait for the workers after the channel is closed.
use hookman.Common.{
  ℕ, suc, ◌+◌, ◌*◌, ◌≡◌, ◌≤◌, ◌<◌, refl, ◌∙◌, ◌⊎◌, inl, inr, true, false, List, [], ◌∷◌, some,
  arith, length, set, get_elem?, sum_of, sum_of-set, Bool-cases, length-append,
}
use hookman.Delivery.Deliver.{DeliveryJob}
use hookman.Worker.Pool.Goroutines.{
  Goroutine, waiting, received, processing, returned, Workers, receive, move, turn, all_returned,
  is_returned, Steps, sends, turns, cancels, closes, here, after, send_job,
}
use hookman.Worker.Pool.Goroutines.Ledger.{turn-cases, turn-IsFair}

-- The moves that a goroutine has before it, if it takes no further job.
abbrev pub moves_left : Goroutine → ℕ
moves_left waiting = 1
moves_left (received job) = 3
moves_left (processing job) = 2
moves_left returned = 0

abbrev pub work_left : Workers → ℕ
work_left s = 3 * length s.buffer + sum_of moves_left s.goroutines

receive-work_left :
    (i : ℕ) (buffer : List DeliveryJob) (s t : Workers)
    → s.buffer ≡ buffer
    → get_elem? s.goroutines i ≡ some waiting
    → receive i buffer s ≡ some t
    → work_left t < work_left s
unfolding receive
receive-work_left i [] s t b at m =
    ground (arith, sum_of-set moves_left s.goroutines i waiting returned at)
receive-work_left i (job ∷ buffer) s t b at m =
    ground (arith, sum_of-set moves_left s.goroutines i waiting (received job) at)

move-work_left :
    (i : ℕ) (g : Goroutine) (s t : Workers)
    → get_elem? s.goroutines i ≡ some g
    → move i g s ≡ some t
    → work_left t < work_left s
unfolding move
move-work_left i waiting s t at m = receive-work_left i s.buffer s t refl at m
move-work_left i (received job) s t at m = ground (
  arith,
  sum_of-set moves_left s.goroutines i (received job) returned at,
  sum_of-set moves_left s.goroutines i (received job) (processing job) at,
)
move-work_left i (processing job) s t at m =
    ground (arith, sum_of-set moves_left s.goroutines i (processing job) waiting at)
move-work_left i returned s t at m = cc

pub turn-work_left : (i : ℕ) (s t : Workers) → turn i s ≡ some t → work_left t < work_left s
turn-work_left i s t e = let (g, at, m) = turn-cases i s t e in move-work_left i g s t at m

-- `n` turns of the workers, in any order.
pub data Turns : ℕ → Workers → Workers → Type 0 where
  rest : {s : Workers} → Turns 0 s s
  then_turn :
      {n : ℕ} {s t u : Workers} → Turns n s t → (i : ℕ) → turn i t ≡ some u → Turns (suc n) s u

Turns-work_left : {n : ℕ} {s t : Workers} → Turns n s t → n + work_left t ≤ work_left s
Turns-work_left rest = omega arith
Turns-work_left {n} {s} {t} (then_turn {n = k} {t = u} r i e) =
    omega (arith, Turns-work_left r, turn-work_left i u t e)

Turns-closed : {n : ℕ} {s t : Workers} → Turns n s t → t.closed ≡ s.closed
Turns-closed rest = refl
Turns-closed (then_turn {t = u} {u = v} r i e) = (turn-IsFair i u v e).shut ∙ Turns-closed r

-- A goroutine that has not returned.
pub stuck_or_done :
    (gs : List Goroutine)
    → (all_returned gs ≡ true)
      ⊎ ((i : ℕ) × (g : Goroutine) × (get_elem? gs i ≡ some g) × (is_returned g ≡ false))
stuck_or_done [] = inl refl
stuck_or_done (g ∷ gs) = elim (Bool-cases (is_returned g)) [
  | inr e ↦ inr (0, g, refl, e)
  | inl e ↦ elim (stuck_or_done gs) [
    | inl a ↦ inl (rw e a)
    | inr (i, h, at, b) ↦ inr (suc i, h, at, b)
  ]
]

receive-moves :
    (i : ℕ) (buffer : List DeliveryJob) (s : Workers)
    → s.closed ≡ true
    → (t : Workers) × (receive i buffer s ≡ some t)
unfolding receive
receive-moves i [] s c = (record s { goroutines = set s.goroutines i returned }, rw c refl)
receive-moves i (job ∷ buffer) s c = (_, refl)

-- In a closed channel no worker blocks.
move-moves :
    (i : ℕ) (g : Goroutine) (s : Workers)
    → is_returned g ≡ false
    → s.closed ≡ true
    → (t : Workers) × (move i g s ≡ some t)
unfolding move
move-moves i waiting s r c = receive-moves i s.buffer s c
move-moves i (received job) s r c = (_, refl)
move-moves i (processing job) s r c = (_, refl)
move-moves i returned s r c = cc

pub unreturned-moves :
    (s : Workers) (i : ℕ) (g : Goroutine)
    → s.closed ≡ true
    → get_elem? s.goroutines i ≡ some g
    → is_returned g ≡ false
    → (t : Workers) × (turn i s ≡ some t)
unfolding turn
unreturned-moves s i g c at r = let (t, m) = move-moves i g s r c in (t, rw at m)

moves_left_le : (gs : List Goroutine) → sum_of moves_left gs ≤ 3 * length gs
moves_left_le [] = omega arith
moves_left_le (waiting ∷ gs) = omega (arith, moves_left_le gs)
moves_left_le (received job ∷ gs) = omega (arith, moves_left_le gs)
moves_left_le (processing job ∷ gs) = omega (arith, moves_left_le gs)
moves_left_le (returned ∷ gs) = omega (arith, moves_left_le gs)

-- The wait of Stop ends: once the channel is closed, the workers, scheduled in any order, make at most
-- three moves for each job in the buffer and three for each worker, and as long as one of them has not
-- returned, one can move.
pub stop_lem :
    (n : ℕ) (s t : Workers)
    → s.closed ≡ true
    → Turns n s t
    → (n ≤ 3 * (length s.buffer + length s.goroutines))
      × ((all_returned t.goroutines ≡ true) ⊎ ((i : ℕ) × (u : Workers) × (turn i t ≡ some u)))
stop_lem n s t c r = (
  omega (arith, Turns-work_left r, moves_left_le s.goroutines),
  elim (stuck_or_done t.goroutines) [
    | inl a ↦ inl a
    | inr (i, g, at, b) ↦
        let (u, m) = unreturned-moves t i g (Turns-closed r ∙ c) at b in inr (i, u, m)
  ],
)

-- A worker in the middle of a delivery.
abbrev pub is_busy : Goroutine → ℕ
is_busy (processing job) = 1
is_busy _ = 0

abbrev effort : Workers → ℕ
effort s = length s.finished + sum_of is_busy s.goroutines

receive-effort :
    (i : ℕ) (buffer : List DeliveryJob) (s t : Workers)
    → get_elem? s.goroutines i ≡ some waiting
    → receive i buffer s ≡ some t
    → effort t ≤ effort s
unfolding receive
receive-effort i [] s t at m = ground (arith, sum_of-set is_busy s.goroutines i waiting returned at)
receive-effort i (job ∷ buffer) s t at m =
    ground (arith, sum_of-set is_busy s.goroutines i waiting (received job) at)

move-effort :
    (i : ℕ) (g : Goroutine) (s t : Workers)
    → s.cancelled ≡ true
    → get_elem? s.goroutines i ≡ some g
    → move i g s ≡ some t
    → effort t ≤ effort s
unfolding move
move-effort i waiting s t c at m = receive-effort i s.buffer s t at m
move-effort i (received job) s t c at m =
    ground (arith, sum_of-set is_busy s.goroutines i (received job) returned at)
move-effort i (processing job) s t c at m = ground (
  arith,
  sum_of-set is_busy s.goroutines i (processing job) waiting at,
  length-append s.finished (job ∷ []),
)
move-effort i returned s t c at m = cc

Steps-cancelled :
    {capacity : ℕ} {s t : Workers} → s.cancelled ≡ true → Steps capacity s t → t.cancelled ≡ true
unfolding send_job
Steps-cancelled c here = c
Steps-cancelled c (after r (sends job unclosed room)) = Steps-cancelled c r
Steps-cancelled c (after {t} {u} r (turns i e)) = (turn-IsFair i t u e).quiet ∙ Steps-cancelled c r
Steps-cancelled c (after r cancels) = refl
Steps-cancelled c (after r (closes unclosed)) = Steps-cancelled c r

-- After the cancellation the workers only finish their current jobs: whatever is still sent and
-- however they are scheduled, no more jobs are delivered than were being delivered then.
pub cancelled_finish :
    (capacity : ℕ) (s t : Workers)
    → s.cancelled ≡ true
    → Steps capacity s t
    → length t.finished + sum_of is_busy t.goroutines
      ≤ length s.finished + sum_of is_busy s.goroutines
unfolding send_job
cancelled_finish capacity s _ c here = omega arith
cancelled_finish capacity s _ c (after {t} r (sends job unclosed room)) =
    cancelled_finish capacity s t c r
cancelled_finish capacity s u c (after {t} r (turns i e)) =
    let (g, at, m) = turn-cases i t u e in
    omega (arith, cancelled_finish capacity s t c r, move-effort i g t u (Steps-cancelled c r) at m)
cancelled_finish capacity s _ c (after {t} r cancels) = cancelled_finish capacity s t c r
cancelled_finish capacity s _ c (after {t} r (closes unclosed)) = cancelled_finish capacity s t c r
