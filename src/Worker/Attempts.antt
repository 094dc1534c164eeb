-- ===== src/Worker/Attempts.antt =====
-- The jobs for one event and endpoint: the first, and the retries that follow from it, by
-- internal/worker/poller.go, internal/worker/pool.go and internal/delivery.
use hookman.Common.{
  ℕ, suc, ◌+◌, ◌<◌, String, ◌≡◌, refl, ◌∙◌, inl, inr, true, none, some, arith, Bool-cases, ap,
  subst, Option-cases, ◌⊎◌, List,
}
use hookman.Common.Int.{pos, to_int32_small, ltb_ℤ}
use hookman.World.{Env}
use hookman.Delivery.Deliver.{DeliveryJob, Client, deliver}
use hookman.Delivery.Deliver.Outcome.{deliver_lem, is_acknowledged}
use hookman.Delivery.Retry.Schedule.{next_retry_at_lem}
use hookman.Store.Models.{Event, Endpoint}
use hookman.Store.Queries.Attempts.{attempt_of}
use hookman.Worker.Poller.{Poller, first_job, retry_job}
use hookman.Worker.Pool.{attempt_params}

-- A job of a pair of event and endpoint, and how many retries it is away from a first job of that
-- pair: each retry comes from the row of an attempt that asked for one, with the event and the
-- endpoint of that row as they are read then. An attempt can be retried more than once, and a replay
-- makes a new first job.
pub data Tries (env : Env) (p : Poller) (event_id endpoint_id : String)
    : DeliveryJob → ℕ → Type 0 where
  first :
      (event : Event) (ep : Endpoint)
      → event.id ≡ event_id
      → ep.id ≡ endpoint_id
      → Tries env p event_id endpoint_id (first_job env p event ep) 0
  again :
      {job : DeliveryJob} {retries : ℕ}
      → Tries env p event_id endpoint_id job retries
      → (client : Client) (elapsed now : ℕ) (id : String) (t : ℕ)
      → (deliver env.hmac client job elapsed now).retry_at ≡ some t
      → (event : Event) (ep : Endpoint) → event.id ≡ job.event_id
      → ep.id ≡ job.endpoint_id
      → Tries env p event_id endpoint_id
          (retry_job env p event ep
            (attempt_of (attempt_params id job (deliver env.hmac client job elapsed now)) now))
          (suc retries)

-- An attempt asks for a retry only below the limit.
retry_needs_room :
    (hmac : String → String → List ℕ) (client : Client) (job : DeliveryJob) (elapsed now t : ℕ)
    → (deliver hmac client job elapsed now).retry_at ≡ some t
    → ltb_ℤ job.attempt_number job.max_retries ≡ true
retry_needs_room hmac client job elapsed now t e =
    let (fate, (success, retry, short)) = deliver_lem hmac client job elapsed now in
    elim (Bool-cases (is_acknowledged fate)) [
      | inl a ↦
          let gone : (deliver hmac client job elapsed now).retry_at ≡ none = retry ∙ rw a refl in cc
      | inr a ↦ elim (next_retry_at_lem job.attempt_number job.max_retries now) [
        | inl (q, h) ↦
            let gone : (deliver hmac client job elapsed now).retry_at ≡ none =
              retry ∙ rw (a, q) refl in
            cc
        | inr (t', q, h, l, u) ↦ h
      ]
    ]

module _ (env : Env) (p : Poller) (event_id endpoint_id : String) where
  Tries-max_retries :
      (job : DeliveryJob) (retries : ℕ)
      → Tries env p event_id endpoint_id job retries
      → job.max_retries ≡ p.max_retries
  unfolding first_job retry_job
  Tries-max_retries _ _ (first event ep e k) = refl
  Tries-max_retries _ _ (again tries client elapsed now id t asks event ep e k) = refl

  -- What the retries and the limit say of an attempt that asks for a retry.
  room_below :
      (limit retries : ℕ) (client : Client) (job : DeliveryJob) (elapsed now t : ℕ)
      → p.max_retries ≡ pos limit
      → Tries env p event_id endpoint_id job retries
      → job.attempt_number ≡ pos (retries + 1)
      → (deliver env.hmac client job elapsed now).retry_at ≡ some t
      → retries + 1 < limit
  room_below limit retries client job elapsed now t most tries number asks =
      let below = retry_needs_room env.hmac client job elapsed now t asks in
      let bound : job.max_retries ≡ pos limit = Tries-max_retries job retries tries ∙ most in
      let test : ltb_ℤ (pos (retries + 1)) (pos limit) ≡ true =
        subst (λ x. ltb_ℤ x (pos limit) ≡ true) number
          (subst (λ y. ltb_ℤ job.attempt_number y ≡ true) bound below) in
      ground arith

  Tries-attempt_number :
      (limit : ℕ)
      → p.max_retries ≡ pos limit
      → 0 < limit
      → limit < 2_147_483_648
      → (job : DeliveryJob) (retries : ℕ) → Tries env p event_id endpoint_id job retries
      → (job.attempt_number ≡ pos (retries + 1)) × (retries < limit)
  unfolding first_job retry_job attempt_params
  Tries-attempt_number limit most some_try fits _ _ (first event ep e k) = (refl, some_try)
  Tries-attempt_number limit most some_try fits _ _
        (again {job} {retries} tries client elapsed now id t asks event ep e k) =
      let (number, below) = Tries-attempt_number limit most some_try fits job retries tries in
      let room = room_below limit retries client job elapsed now t most tries number asks in
      (rw (number, to_int32_small (retries + 1) (omega arith)) (ap pos (omega arith)), omega arith)

  Tries-pair :
      (job : DeliveryJob) (retries : ℕ)
      → Tries env p event_id endpoint_id job retries
      → (job.event_id ≡ event_id) × (job.endpoint_id ≡ endpoint_id)
  unfolding first_job retry_job
  Tries-pair _ _ (first event ep e k) = (e, k)
  Tries-pair _ _ (again {job} {retries} tries client elapsed now id t asks event ep e k) =
      let (same, too) = Tries-pair job retries tries in (e ∙ same, k ∙ too)

  -- Where MAX_RETRIES is at least one and fits the column: a job that is some number of retries away
  -- from a first job of an event and an endpoint is for that event and that endpoint, and carries
  -- that number plus one as its attempt number, which is at most MAX_RETRIES; and its delivery asks
  -- for a retry only where the attempt number is less. So no chain of retries is longer.
  pub retries_end :
      (limit : ℕ)
      → p.max_retries ≡ pos limit
      → 0 < limit
      → limit < 2_147_483_648
      → (job : DeliveryJob) (retries : ℕ) → Tries env p event_id endpoint_id job retries
      → (client : Client) (elapsed now : ℕ)
      → (job.event_id ≡ event_id)
        × (job.endpoint_id ≡ endpoint_id)
        × (job.attempt_number ≡ pos (retries + 1))
        × (retries < limit)
        × (((deliver env.hmac client job elapsed now).retry_at ≡ none) ⊎ (retries + 1 < limit))
  retries_end limit most some_try fits job retries tries client elapsed now =
      let (number, below) = Tries-attempt_number limit most some_try fits job retries tries in
      let (same, too) = Tries-pair job retries tries in
      (
        same,
        too,
        number,
        below,
        elim (Option-cases (deliver env.hmac client job elapsed now).retry_at) [
          | inl e ↦ inl e
          | inr (t, e) ↦ inr (room_below limit retries client job elapsed now t most tries number e)
        ],
      )
