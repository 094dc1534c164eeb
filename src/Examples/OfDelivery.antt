-- ===== src/Examples/OfDelivery.antt =====
-- The signature, the retry schedule and a delivery, on concrete inputs.

use hookman.Common.{ℕ, ◌+◌, ◌*◌, ◌≤◌, ◌≡◌, ◌⊎◌, ◌↔◌, true, false, none, some, arith}
use hookman.Common.Int.{pos, ltb_ℤ}
use hookman.Delivery.Sign.{sign, verify}
use hookman.Delivery.Sign.Verify.{verify-sign_iff}
use hookman.Delivery.Retry.{second, hour, next_retry_at}
use hookman.Delivery.Retry.Schedule.{next_retry_at_lem}
use hookman.Delivery.Deliver.{deliver}
use hookman.Delivery.Deliver.Outcome.{Fate, Tells, deliver_lem}
use hookman.Examples.Data.{an_env, a_job, answers_200}

verify-sign_iff_example :
    (verify an_env.hmac "{}" (sign an_env.hmac "[]" "s") "whsec_00" ≡ true)
    ↔ (an_env.hmac "whsec_00" "{}" ≡ an_env.hmac "s" "[]")
verify-sign_iff_example =
    verify-sign_iff an_env.hmac (λ key message. (omega arith, (omega arith, tt))) "{}" "whsec_00"
      "[]" "s"

next_retry_at_lem_example :
    ((next_retry_at (pos 2) (pos 5) 100 ≡ none) × (ltb_ℤ (pos 2) (pos 5) ≡ false))
    ⊎ ((t : ℕ) × (next_retry_at (pos 2) (pos 5) 100 ≡ some t)
        × (ltb_ℤ (pos 2) (pos 5) ≡ true)
        × (100 + 30 * second ≤ t)
        × (t ≤ 100 + 5 * hour))
next_retry_at_lem_example = next_retry_at_lem (pos 2) (pos 5) 100

deliver_lem_example :
    (fate : Fate an_env.hmac answers_200 a_job) × Tells 100
      (deliver an_env.hmac answers_200 a_job 7 100)
      fate
deliver_lem_example = deliver_lem an_env.hmac answers_200 a_job 7 100
