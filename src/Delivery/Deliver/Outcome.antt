-- ===== src/Delivery/Deliver/Outcome.antt =====
-- What the result of a delivery says, on every branch.
use hookman.Common.{
  ℕ, ◌≤◌, ◌<◌, String, ◌≡◌, refl, ◌⊎◌, inl, inr, Bool, true, false, if◌then◌else◌, ltb, Bool-cases,
  Option-cases, List, none, some, arith, length, take, length-take,
}
use hookman.Delivery.Retry.{next_retry_at}
use hookman.Delivery.Deliver.{
  DeliveryJob, DeliveryResult, Client, Exchange, failed, answered, give_up, conclude, deliver,
  signed_request, body_limit,
}

-- What can become of a delivery: no request, no answer, an answer other than 2xx, or a 2xx answer.
pub data Fate (hmac : String → String → List ℕ) (client : Client) (job : DeliveryJob) : Type 0 where
  unsent : (e : List ℕ) → client.new_request_error job.endpoint_url ≡ some e → Fate hmac client job
  unanswered :
      (e : List ℕ)
      → client.new_request_error job.endpoint_url ≡ none
      → client.send (signed_request hmac job) ≡ failed e
      → Fate hmac client job
  declined :
      (status : ℕ) (body : List ℕ)
      → client.new_request_error job.endpoint_url ≡ none
      → client.send (signed_request hmac job) ≡ answered status body
      → (status < 200) ⊎ (300 ≤ status)
      → Fate hmac client job
  acknowledged :
      (status : ℕ) (body : List ℕ)
      → client.new_request_error job.endpoint_url ≡ none
      → client.send (signed_request hmac job) ≡ answered status body
      → 200 ≤ status
      → status < 300
      → Fate hmac client job

abbrev pub is_acknowledged :
    {hmac : String → String → List ℕ} {client : Client} {job : DeliveryJob}
    → Fate hmac client job
    → Bool
is_acknowledged (unsent e h) = false
is_acknowledged (unanswered e h k) = false
is_acknowledged (declined s b h k r) = false
is_acknowledged (acknowledged s b h k l r) = true

-- What a result says of the delivery that it reports.
abbrev pub Tells :
    {hmac : String → String → List ℕ} {client : Client} {job : DeliveryJob}
    → ℕ
    → DeliveryResult
    → Fate hmac client job
    → Type 0
Tells {job = job} now r fate =
    (r.success ≡ is_acknowledged fate)
    × (r.retry_at ≡ (
        if is_acknowledged fate
        then none
        else next_retry_at job.attempt_number job.max_retries now))
    × ((r.http_status ≡ none) ⊎ (length r.response_body ≤ 4096))

module _ (hmac : String → String → List ℕ) (client : Client) (job : DeliveryJob)
    (elapsed now : ℕ) where
  conclude-Tells :
      (x : Exchange)
      → client.new_request_error job.endpoint_url ≡ none
      → client.send (signed_request hmac job) ≡ x
      → (fate : Fate hmac client job) × Tells now (conclude job elapsed now x) fate
  unfolding conclude give_up
  conclude-Tells (failed e) h k = (unanswered e h k, (refl, refl, inl refl))
  conclude-Tells (answered status body) h k =
      let short : length (take body_limit body) ≤ 4096 =
        omega (arith, length-take body_limit body) in
      elim (Bool-cases (ltb status 200)) [
        | inl e ↦
            (declined status body h k (inl (ground arith)), (ground arith, ground arith, inr short))
        | inr e ↦ elim (Bool-cases (ltb status 300)) [
          | inl e' ↦ (
            acknowledged status body h k (ground arith) (ground arith),
            (ground arith, ground arith, inr short),
          )
          | inr e' ↦ (
            declined status body h k (inr (ground arith)),
            (ground arith, ground arith, inr short),
          )
        ]
      ]

  -- Every delivery ends in one of the fates. It succeeds exactly on a 2xx answer to the signed
  -- request, and then asks for no retry; after anything else the retry is the one that the schedule
  -- gives for the attempt number. Of an answer's body it keeps at most 4096 bytes.
  pub deliver_lem :
      (fate : Fate hmac client job) × Tells now (deliver hmac client job elapsed now) fate
  unfolding deliver conclude give_up
  deliver_lem = elim (Option-cases (client.new_request_error job.endpoint_url)) [
    | inl e ↦ rw (deliver, e) (conclude-Tells (client.send (signed_request hmac job)) e refl)
    | inr (m, e) ↦
        (unsent m e, (rw (deliver, e) refl, rw (deliver, e) refl, inl (rw (deliver, e) refl)))
  ]
